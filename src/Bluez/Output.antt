-- ===== src/Bluez/Output.antt =====
-- The entries that a scan collects: find_or_add_entry and parse_scan_output of bluez_scanner.c.
use sensor_lib.Prelude.{
  ℕ, zero, suc, ◌&&◌, not, Option, none, some, List, [], ◌∷◌, ◌++◌, Text, ◌==◌, leb, if◌then◌else◌,
  length, text_eq,
}
use sensor_lib.CText.{copy_string}
use sensor_lib.Bluez.Line.{ScanEntry, is_empty, strip_ansi, parse_scan_line}

abbrev pub bluetooth_max_devices : ℕ
bluetooth_max_devices = 150

unfoldable pub later_slot : Option ℕ → Option ℕ
later_slot none = none
later_slot (some i) = some (suc i)

-- The loop of find_or_add_entry: the first entry with the address
unfoldable pub find_slot : Text → List ScanEntry → Option ℕ
unfolding later_slot
find_slot mac [] = none
find_slot mac (e ∷ es) = if text_eq e.mac_address mac then some 0 else later_slot (find_slot mac es)

unfoldable pub slot_or_add : ScanEntry → List ScanEntry → Option ℕ → Option (List ScanEntry × ℕ)
slot_or_add e es (some i) = some (es, i)
slot_or_add e es none =
    if leb bluetooth_max_devices (length es) then none else some (es ++ e ∷ [], length es)

-- find_or_add_entry: the entries and the slot; `none` is the result false
unfoldable pub find_or_add_entry : ScanEntry → List ScanEntry → Option (List ScanEntry × ℕ)
unfolding slot_or_add find_slot
find_or_add_entry e es = slot_or_add e es (find_slot e.mac_address es)

-- A name for a slot that has none
unfoldable pub with_name : Text → ScanEntry → ScanEntry
unfolding copy_string
with_name name e =
    if is_empty e.name && not (is_empty name) then record e { name = copy_string 256 name } else e

unfoldable pub name_slot : Text → ℕ → List ScanEntry → List ScanEntry
unfolding with_name
name_slot name i [] = []
name_slot name zero (e ∷ es) = with_name name e ∷ es
name_slot name (suc i) (e ∷ es) = e ∷ name_slot name i es

unfoldable pub named : ScanEntry → List ScanEntry → Option (List ScanEntry × ℕ) → List ScanEntry
unfolding name_slot
named e es none = es
named e es (some (es', i)) = name_slot e.name i es'

unfoldable pub collect : Option ScanEntry → List ScanEntry → List ScanEntry
unfolding named find_or_add_entry
collect none es = es
collect (some e) es = named e es (find_or_add_entry e es)

-- The loop of parse_scan_output
unfoldable pub parse_lines : List Text → List ScanEntry → List ScanEntry
unfolding collect parse_scan_line strip_ansi
parse_lines [] es = es
parse_lines (l ∷ ls) es = parse_lines ls (collect (parse_scan_line (strip_ansi l)) es)

-- strtok_r with "\n": the pieces between newlines that are not empty
unfoldable pub push_token : Text → List Text → List Text
push_token [] rest = rest
push_token (c ∷ s) rest = (c ∷ s) ∷ rest

unfoldable pub first_token : Text → Text × List Text
unfolding push_token
first_token [] = ([], [])
first_token (c ∷ s) =
    let r = first_token s in if c == b'\n' then ([], push_token r.0 r.1) else (c ∷ r.0, r.1)

unfoldable pub tokens : Text → List Text
unfolding first_token push_token
tokens s = push_token (first_token s).0 (first_token s).1

-- parse_scan_output, where strdup succeeds
unfoldable pub parse_scan_output : Text → List ScanEntry → List ScanEntry
unfolding parse_lines tokens
parse_scan_output output es = parse_lines (tokens output) es
