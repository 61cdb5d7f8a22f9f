-- ===== src/Bluez/Reading.antt =====
-- What is read of a line of a scan, and of the output of `bluetoothctl info`.
use sensor_lib.Prelude.{
  take, ℕ, zero, suc, ◌+◌, ◌≤◌, ◌≡◌, refl, ◌≢◌, ◌∙◌, true, false, some, [], ◌∷◌, ◌++◌, arith, Text,
  bytes, if◌then◌else◌, All, length, drop, inl, inr, Bool-cases,
}
use mathlib.Core.List.{append-nil}
use sensor_lib.Types.{BluetoothDevice}
use sensor_lib.CText.{is_space, find, strncpy, copy_string}
use sensor_lib.CText.Laws.{find-skips, skip_space-append}
use sensor_lib.Scanner.Results.{is_xdigit}
use sensor_lib.Bluez.Line.{
  trim_trailing_whitespace, mac_from, looks_like_mac, is_property, entry_name, parse_device,
  parse_found, parse_scan_line,
}
use sensor_lib.Bluez.Keeping.{class_in-Same, rssi_in-Same}
use sensor_lib.Bluez.Info.{
  name_in, class_in, parse_class_property, parse_rssi_property, enrich_with,
}

-- A text without a zero byte that fits is copied whole.
strncpy-fits : (n : ℕ) (s : Text) → length s ≤ n → All (λ c. c ≢ 0) s → strncpy n s ≡ s
unfolding strncpy
strncpy-fits zero [] h a = refl
strncpy-fits zero (c ∷ s) h a = absurd (omega arith)
strncpy-fits (suc n) [] h a = refl
strncpy-fits (suc n) (c ∷ s) h a = ground (arith, a.0, strncpy-fits n s (omega arith) a.1)

strncpy-take : (n : ℕ) (s : Text) → All (λ e. e ≢ 0) s → strncpy n s ≡ take n s
unfolding strncpy
strncpy-take zero s a = refl
strncpy-take (suc n) [] a = refl
strncpy-take (suc n) (c ∷ s) a = ground (arith, a.0, strncpy-take n s a.1)

-- The bytes of an address are its first ones in any text that it begins.
mac_from-begins :
    (n i : ℕ) (m s : Text)
    → mac_from n i m ≡ true
    → (strncpy n (m ++ s) ≡ m) × (drop n (m ++ s) ≡ s)
unfolding mac_from strncpy is_xdigit
mac_from-begins zero i [] s h = (refl, refl)
mac_from-begins zero i (c ∷ m) s h = absurd (cc h)
mac_from-begins (suc n) i [] s h = absurd (cc h)
mac_from-begins (suc n) i (c ∷ m) s h = ground (arith, mac_from-begins n (i + 1) m s)

looks_like_mac-begins :
    (m s : Text) → looks_like_mac m ≡ true → (strncpy 17 (m ++ s) ≡ m) × (drop 17 (m ++ s) ≡ s)
unfolding looks_like_mac
looks_like_mac-begins m s h = mac_from-begins 17 0 m s h

looks_like_mac-copy : (m : Text) → looks_like_mac m ≡ true → copy_string 18 m ≡ m
unfolding copy_string
looks_like_mac-copy m h = rw append-nil at ((looks_like_mac-begins m [] h).0)

entry_name-fits :
    (name : Text)
    → length name ≤ 255
    → All (λ d. d ≢ 0) name
    → trim_trailing_whitespace name ≡ name
    → entry_name name ≡ (if is_property name then [] else name)
unfolding entry_name copy_string
entry_name-fits name short no_zero trimmed = elim (Bool-cases (is_property name)) [
  | inl property ↦ rw property (unfold strncpy in unfold trim_trailing_whitespace in refl)
  | inr plain ↦ rw (plain, strncpy-fits 255 name short no_zero) trimmed
]

-- A line that shows "Device ", a MAC address, white space and a name, after a text without a capital
-- D, is read as that address and that name, if the name is 255 bytes long at most, has no zero byte
-- and no white space at its ends; where a property stands in the name's place, the name is empty.
pub parse_scan_line-device :
    (before mac blanks s : Text) (c : ℕ)
    → All (λ d. d ≢ b'D') before
    → looks_like_mac mac ≡ true
    → All (λ d. is_space d ≡ true) blanks
    → is_space c ≡ false
    → length (c ∷ s) ≤ 255
    → All (λ d. d ≢ 0) (c ∷ s)
    → trim_trailing_whitespace (c ∷ s) ≡ c ∷ s
    → parse_scan_line (before ++ (bytes "Device " ++ (mac ++ (blanks ++ c ∷ s))))
      ≡ some (record { mac_address = mac; name = if is_property (c ∷ s) then [] else c ∷ s })
unfolding parse_scan_line parse_found parse_device
parse_scan_line-device before mac blanks s c no_d is_mac white not_white short no_zero trimmed =
    let parts = looks_like_mac-begins mac (blanks ++ c ∷ s) is_mac in
    rw (
      find-skips b'D' (bytes "evice ") before (mac ++ (blanks ++ c ∷ s)) no_d,
      parts.0,
      is_mac,
      looks_like_mac-copy mac is_mac,
      parts.1,
      skip_space-append blanks s c white not_white,
      entry_name-fits (c ∷ s) short no_zero trimmed,
    )

-- enrich_device_info takes all that stands behind "\tName:" and white space in the output for the
-- name of a device that has none, over all newlines and the properties on later lines: the first
-- 255 bytes of it, or all if it is shorter, without the white space at their end. The output has no
-- zero byte there, and no tab before the property.
pub enrich_with-name :
    (before blanks s : Text) (c : ℕ) (d : BluetoothDevice)
    → All (λ e. e ≢ b'\t') before
    → All (λ e. is_space e ≡ true) blanks
    → is_space c ≡ false
    → d.name ≡ []
    → All (λ e. e ≢ 0) (c ∷ s)
    → (enrich_with (some (before ++ (bytes "\tName:" ++ (blanks ++ c ∷ s)))) d).name
      ≡ trim_trailing_whitespace (take 255 (c ∷ s))
unfolding enrich_with parse_class_property parse_rssi_property
enrich_with-name before blanks s c d no_tab white not_white no_name no_zero =
    let info = before ++ (bytes "\tName:" ++ (blanks ++ c ∷ s)) in
    let found : find (bytes "\tName:") info ≡ some (bytes "\tName:" ++ (blanks ++ c ∷ s)) =
      find-skips b'\t' (bytes "Name:") before (blanks ++ c ∷ s) no_tab in
    let named = record d { name = name_in (find (bytes "\tName:") info) d.name } in
    let classed = class_in (find (bytes "\tClass:") info) named in
    (rssi_in-Same (find (bytes "\tRSSI:") info) classed).2
    ∙ ((class_in-Same (find (bytes "\tClass:") info) named).2 ∙ name_read)
  where
    name_read :
        name_in (find (bytes "\tName:") (before ++ (bytes "\tName:" ++ (blanks ++ c ∷ s)))) d.name
        ≡ trim_trailing_whitespace (take 255 (c ∷ s))
    name_read =
        rw (find-skips b'\t' (bytes "Name:") before (blanks ++ c ∷ s) no_tab, no_name)
          (unfold name_in in
            unfold copy_string in
            rw (skip_space-append blanks s c white not_white, strncpy-take 255 (c ∷ s) no_zero))
