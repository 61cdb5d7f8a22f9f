-- ===== src/Bluez/Line.antt =====
-- One line of bluetoothctl: strip_ansi, trim_trailing_whitespace, looks_like_mac and parse_scan_line of
-- bluez_scanner.c.
use sensor_lib.Prelude.{
  ℕ, zero, suc, ◌+◌, ◌%◌, Bool, true, false, not, ◌&&◌, ◌||◌, Option, none, some, [], ◌∷◌, Text,
  bytes, ◌==◌, leb, if◌then◌else◌, drop,
}
use sensor_lib.CText.{is_space, skip_space, starts_with, find, strncpy, copy_string}
use sensor_lib.Scanner.Results.{is_xdigit}

-- BluezScanEntry
pub record ScanEntry : Type 0 where
  pub mac_address : Text
  pub name : Text

-- A byte that ends an escape sequence: from '@' to '~'
abbrev pub is_final : ℕ → Bool
is_final c = leb 64 c && leb c 126

-- strip_ansi; the flag says whether `src` is behind ESC [
unfoldable pub strip : Bool → Text → Text
strip inside [] = []
strip true (c ∷ s) = strip (not (is_final c)) s
strip false (c ∷ []) = c ∷ []
strip false (c ∷ d ∷ s) =
    let skipped = strip true s in
    let kept = c ∷ strip false (d ∷ s) in if c == 27 && d == b'[' then skipped else kept

unfoldable pub strip_ansi : Text → Text
unfolding strip
strip_ansi s = strip false s

unfoldable pub trim_cons : ℕ → Text → Text
unfolding is_space
trim_cons c [] = if is_space c then [] else c ∷ []
trim_cons c (d ∷ s) = c ∷ d ∷ s

-- trim_trailing_whitespace
unfoldable pub trim_trailing_whitespace : Text → Text
unfolding trim_cons
trim_trailing_whitespace [] = []
trim_trailing_whitespace (c ∷ s) = trim_cons c (trim_trailing_whitespace s)

abbrev pub is_empty : Text → Bool
is_empty [] = true
is_empty (c ∷ s) = false

-- The loop of looks_like_mac, with the positions that are left, and its last test
unfoldable pub mac_from : ℕ → ℕ → Text → Bool
unfolding is_xdigit
mac_from zero i s = is_empty s
mac_from (suc n) i [] = false
mac_from (suc n) i (c ∷ s) =
    (if (i + 1) % 3 == 0 then c == b':' else is_xdigit c) && mac_from n (i + 1) s

-- looks_like_mac
unfoldable pub looks_like_mac : Text → Bool
unfolding mac_from
looks_like_mac s = mac_from 17 0 s

-- Where a name would stand but a property does
unfoldable pub is_property : Text → Bool
unfolding starts_with
is_property s =
    starts_with (bytes "RSSI:") s
    || starts_with (bytes "TxPower:") s
    || starts_with (bytes "ManufacturerData") s
    || starts_with (bytes "ServiceData") s

unfoldable pub entry_name : Text → Text
unfolding is_property trim_trailing_whitespace copy_string
entry_name name = trim_trailing_whitespace (copy_string 256 (if is_property name then [] else name))

-- From the text behind "Device "
unfoldable pub parse_device : Text → Option ScanEntry
unfolding strncpy looks_like_mac entry_name skip_space copy_string
parse_device device =
    let mac = strncpy 17 device in
    if looks_like_mac mac
    then some (record {
      mac_address = copy_string 18 mac;
      name = entry_name (skip_space (drop 17 device));
    })
    else none

unfoldable pub parse_found : Option Text → Option ScanEntry
unfolding parse_device
parse_found none = none
parse_found (some s) = parse_device (drop 7 s)

-- parse_scan_line; `none` is the result false
unfoldable pub parse_scan_line : Text → Option ScanEntry
unfolding parse_found find
parse_scan_line line = parse_found (find (bytes "Device ") line)
