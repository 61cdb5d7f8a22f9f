-- ===== src/Scanner/Mac.antt =====
-- MAC addresses as the scan results print and normalise them.
use sensor_lib.Prelude.{
  ℕ, suc, ◌/◌, ◌%◌, ◌<◌, ◌≡◌, refl, ap, ◌∙◌, true, List, [], ◌∷◌, Text, ltb, if◌then◌else◌, length,
  All, arith,
}
use sensor_lib.Comms.Strings.{to_upper}
use sensor_lib.Scanner.Results.{
  is_xdigit, hex_digits, with_colons, normalize_mac_address, hex_digit, print_bytes, mac_to_string,
}

hex_digit-is_xdigit : (n : ℕ) → n < 16 → is_xdigit (hex_digit n) ≡ true
unfolding is_xdigit hex_digit
hex_digit-is_xdigit n h = ground arith

hex_digit-to_upper : (n : ℕ) → n < 16 → to_upper (hex_digit n) ≡ hex_digit n
unfolding to_upper hex_digit
hex_digit-to_upper n h = ground arith

-- One digit of input is one digit of output.
digit_step :
    (n room : ℕ) (s : Text)
    → n < 16
    → hex_digits (suc room) (hex_digit n ∷ s) ≡ hex_digit n ∷ hex_digits room s
unfolding hex_digits
digit_step n room s h = rw (hex_digit-is_xdigit n h, hex_digit-to_upper n h)

pair_step :
    (b room : ℕ) (s : Text)
    → b < 256
    → hex_digits (suc (suc room)) (hex_digit (b / 16) ∷ hex_digit (b % 16) ∷ s)
      ≡ hex_digit (b / 16) ∷ hex_digit (b % 16) ∷ hex_digits room s
pair_step b room s h =
    digit_step (b / 16) (suc room) (hex_digit (b % 16) ∷ s) (omega (arith, h))
    ∙ ap (λ r. hex_digit (b / 16) ∷ r) (digit_step (b % 16) room s (omega arith))

-- The digits of bytes, and how many there are.
abbrev digits_of : List ℕ → Text
digits_of [] = []
digits_of (b ∷ bs) = hex_digit (b / 16) ∷ hex_digit (b % 16) ∷ digits_of bs

abbrev room_of : List ℕ → ℕ
room_of [] = 0
room_of (b ∷ bs) = suc (suc (room_of bs))

skip_colon : (room : ℕ) (s : Text) → hex_digits (suc room) (b':' ∷ s) ≡ hex_digits (suc room) s
unfolding hex_digits is_xdigit
skip_colon room s = refl

hex_digits-print_bytes :
    (bs : List ℕ) → All (λ b. b < 256) bs → hex_digits (room_of bs) (print_bytes bs) ≡ digits_of bs
unfolding print_bytes hex_digits
hex_digits-print_bytes [] h = refl
hex_digits-print_bytes (b ∷ []) h = pair_step b 0 [] h.0
hex_digits-print_bytes (b ∷ c ∷ bs) h =
    pair_step b (room_of (c ∷ bs)) (b':' ∷ print_bytes (c ∷ bs)) h.0
    ∙ ap (λ r. hex_digit (b / 16) ∷ hex_digit (b % 16) ∷ r)
        (skip_colon (suc (room_of bs)) (print_bytes (c ∷ bs)) ∙ hex_digits-print_bytes (c ∷ bs) h.1)

with_colons-digits : (bs : List ℕ) → with_colons (digits_of bs) ≡ print_bytes bs
unfolding with_colons print_bytes
with_colons-digits [] = refl
with_colons-digits (b ∷ []) = refl
with_colons-digits (b ∷ c ∷ bs) =
    ap (λ r. hex_digit (b / 16) ∷ hex_digit (b % 16) ∷ b':' ∷ r) (with_colons-digits (c ∷ bs))

-- What the kernel's six bytes of a BSSID print as is a string of 17 characters, fits the 18 bytes of
-- `mac_address`, and is what normalize_mac_address makes of itself.
normalize_mac_address-mac_to_string :
    (a b c d e f : ℕ)
    → All (λ x. x < 256) (a ∷ b ∷ c ∷ d ∷ e ∷ f ∷ [])
    → let mac = mac_to_string (a ∷ b ∷ c ∷ d ∷ e ∷ f ∷ []) in
      (normalize_mac_address mac ≡ mac) × (length mac ≡ 17)
unfolding normalize_mac_address mac_to_string print_bytes
normalize_mac_address-mac_to_string a b c d e f h =
    let mac : List ℕ = a ∷ b ∷ c ∷ d ∷ e ∷ f ∷ [] in
    (
      ap (λ hex. if ltb (length hex) 12 then [] else with_colons hex) (hex_digits-print_bytes mac h)
          ∙ with_colons-digits mac,
      refl,
    )
