-- ===== src/Bluez/Scans.antt =====
-- The addresses that parse_scan_output of bluez_scanner.c collects are well formed and distinct.
use sensor_lib.Prelude.{
  ℕ, zero, suc, ◌≤◌, ◌<◌, ◌≡◌, refl, ap, true, false, ◌||◌, Option, none, some, inl, inr, List, [],
  ◌∷◌, ◌++◌, arith, Text, bytes, ◌==◌, drop, leb, length, length-append, All, All-append, text_eq,
  text_eq-cases, text_eq_refl, Bool-cases,
}
use sensor_lib.CText.{find, strncpy, copy_string}
use sensor_lib.Bluez.Line.{
  ScanEntry, strip_ansi, looks_like_mac, parse_device, parse_found, parse_scan_line,
}
use sensor_lib.Bluez.Addresses.{member, add_of, add_lines}

abbrev pub Distinct : List Text → Type 0
Distinct [] = Unit
Distinct (m ∷ ms) = (member m ms ≡ false) × Distinct ms

strncpy_idem : (n : ℕ) (s : Text) → strncpy n (strncpy n s) ≡ strncpy n s
unfolding strncpy
strncpy_idem zero s = refl
strncpy_idem (suc n) [] = refl
strncpy_idem (suc n) (c ∷ s) = elim (Bool-cases (c == 0)) [
  | inl end ↦ rw end
  | inr more ↦ rw (more, more) (ap (◌∷◌ c) (strncpy_idem n s))
]

-- The addresses of a scan: MAC addresses, none twice, 150 at most.
pub record IsScan (ms : List Text) : Type 0 where
  pub distinct : Distinct ms
  pub within : length ms ≤ 150
  pub addresses : All (λ m. (looks_like_mac m ≡ true) × (copy_string 18 m ≡ m)) ms

abbrev HasAddress : Option ScanEntry → Type 0
HasAddress none = Unit
HasAddress (some e) =
    (looks_like_mac e.mac_address ≡ true) × (copy_string 18 e.mac_address ≡ e.mac_address)

parse_device-HasAddress : (device : Text) → HasAddress (parse_device device)
unfolding parse_device copy_string
parse_device-HasAddress device = elim (Bool-cases (looks_like_mac (strncpy 17 device))) [
  | inl good ↦ rw good (rw (strncpy_idem 17 device) good, strncpy_idem 17 (strncpy 17 device))
  | inr bad ↦ rw bad tt
]

parse_found-HasAddress : (o : Option Text) → HasAddress (parse_found o)
unfolding parse_found
parse_found-HasAddress none = tt
parse_found-HasAddress (some s) = parse_device-HasAddress (drop 7 s)

member-snoc : (m n : Text) (ms : List Text) → member m (ms ++ n ∷ []) ≡ (member m ms || text_eq n m)
member-snoc m n [] = ground arith
member-snoc m n (x ∷ ms) = ground (arith, member-snoc m n ms)

text_eq-sym : (s t : Text) → text_eq s t ≡ false → text_eq t s ≡ false
text_eq-sym s t h = elim (text_eq-cases t s) [
  | inl (e, same) ↦ absurd (cc (h, text_eq_refl s, same))
  | inr (e, other) ↦ e
]

Distinct-snoc :
    (n : Text) (ms : List Text) → member n ms ≡ false → Distinct ms → Distinct (ms ++ n ∷ [])
Distinct-snoc n [] h d = (refl, tt)
Distinct-snoc n (m ∷ ms) h d = elim (Bool-cases (text_eq m n)) [
  | inl same ↦ absurd (ground (arith, h, same))
  | inr other ↦ (
    ground (arith, member-snoc m n ms, text_eq-sym m n other, d.0),
    Distinct-snoc n ms (ground (arith, h, other)) d.1,
  )
]

add_of-IsScan :
    (o : Option ScanEntry) (ms : List Text) → HasAddress o → IsScan ms → IsScan (add_of o ms)
add_of-IsScan none ms h s = s
add_of-IsScan (some e) ms h s = elim (Bool-cases (member e.mac_address ms)) [
  | inl old ↦ rw old s
  | inr new ↦ elim (Bool-cases (leb 150 (length ms))) [
    | inl full ↦ rw (new, full) s
    | inr room ↦
        rw (new, room)
          (record {
            distinct = Distinct-snoc e.mac_address ms new s.distinct;
            within =
                omega (
                  arith,
                  length-append {0} ms (e.mac_address ∷ []),
                  leb_false 150 (length ms) room,
                );
            addresses = All-append _ ms (e.mac_address ∷ []) s.addresses (h, tt);
          })
  ]
]
  where
    leb_false : (a b : ℕ) → leb a b ≡ false → b < a
    leb_false a b h = ground arith

pub add_lines-IsScan : (ls ms : List Text) → IsScan ms → IsScan (add_lines ls ms)
add_lines-IsScan [] ms s = s
add_lines-IsScan (l ∷ ls) ms s =
    add_lines-IsScan ls (add_of (parse_scan_line (strip_ansi l)) ms)
      (add_of-IsScan (parse_scan_line (strip_ansi l)) ms (scan_line (strip_ansi l)) s)
  where
    scan_line : (line : Text) → HasAddress (parse_scan_line line)
    scan_line line = unfold parse_scan_line in parse_found-HasAddress (find (bytes "Device ") line)
