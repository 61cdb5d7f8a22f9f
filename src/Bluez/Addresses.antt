-- ===== src/Bluez/Addresses.antt =====
-- The addresses that parse_scan_output of bluez_scanner.c collects.
use sensor_lib.Prelude.{
  ℕ, zero, suc, ◌≡◌, refl, ◌∙◌, ap, Bool, true, false, ◌||◌, Option, none, some, inl, inr, List, [],
  ◌∷◌, ◌++◌, arith, Text, leb, if◌then◌else◌, length, text_eq, Bool-cases,
}
use sensor_lib.Bluez.Line.{ScanEntry, strip_ansi, parse_scan_line}
use sensor_lib.Bluez.Output.{
  later_slot, find_slot, slot_or_add, find_or_add_entry, with_name, name_slot, named, collect,
  parse_lines,
}

abbrev pub macs : List ScanEntry → List Text
macs [] = []
macs (e ∷ es) = e.mac_address ∷ macs es

abbrev pub member : Text → List Text → Bool
member m [] = false
member m (x ∷ xs) = text_eq x m || member m xs

-- A new address goes to the end, if there are fewer than 150.
abbrev pub add_mac : Text → List Text → List Text
add_mac m xs = if member m xs then xs else if leb 150 (length xs) then xs else xs ++ m ∷ []

-- The addresses that lines show, added in order
abbrev pub add_of : Option ScanEntry → List Text → List Text
add_of none xs = xs
add_of (some e) xs = add_mac e.mac_address xs

abbrev pub add_lines : List Text → List Text → List Text
add_lines [] xs = xs
add_lines (l ∷ ls) xs = add_lines ls (add_of (parse_scan_line (strip_ansi l)) xs)

length-macs : (es : List ScanEntry) → length (macs es) ≡ length es
length-macs [] = refl
length-macs (e ∷ es) = omega (arith, length-macs es)

macs-append :
    (es : List ScanEntry) (e : ScanEntry) → macs (es ++ e ∷ []) ≡ macs es ++ e.mac_address ∷ []
macs-append [] e = refl
macs-append (x ∷ es) e = ap (◌∷◌ x.mac_address) (macs-append es e)

with_name-mac : (name : Text) (e : ScanEntry) → (with_name name e).mac_address ≡ e.mac_address
unfolding with_name
with_name-mac name e = ground arith

macs-name_slot : (name : Text) (i : ℕ) (es : List ScanEntry) → macs (name_slot name i es) ≡ macs es
unfolding name_slot
macs-name_slot name i [] = refl
macs-name_slot name zero (e ∷ es) = ap (λ m. m ∷ macs es) (with_name-mac name e)
macs-name_slot name (suc i) (e ∷ es) = ap (◌∷◌ e.mac_address) (macs-name_slot name i es)

-- A slot is found exactly for an address that is there.
has_slot : Option ℕ → Bool
has_slot none = false
has_slot (some i) = true

has_slot-later : (o : Option ℕ) → has_slot (later_slot o) ≡ has_slot o
unfolding has_slot later_slot
has_slot-later none = refl
has_slot-later (some i) = refl

find_slot-member : (m : Text) (es : List ScanEntry) → has_slot (find_slot m es) ≡ member m (macs es)
unfolding find_slot has_slot
find_slot-member m [] = refl
find_slot-member m (e ∷ es) = elim (Bool-cases (text_eq e.mac_address m)) [
  | inl same ↦ rw same
  | inr other ↦ rw other (has_slot-later (find_slot m es) ∙ find_slot-member m es)
]

macs-named :
    (e : ScanEntry) (es : List ScanEntry) (o : Option ℕ)
    → macs (named e es (slot_or_add e es o)) ≡ (
        if has_slot o
        then macs es
        else if leb 150 (length es)
        then macs es
        else macs es ++ e.mac_address ∷ [])
unfolding named slot_or_add has_slot
macs-named e es (some i) = macs-name_slot e.name i es
macs-named e es none = elim (Bool-cases (leb 150 (length es))) [
  | inl full ↦ rw full
  | inr room ↦ rw (room, macs-name_slot e.name (length es) (es ++ e ∷ [])) (macs-append es e)
]

macs-collect :
    (o : Option ScanEntry) (es : List ScanEntry) → macs (collect o es) ≡ add_of o (macs es)
unfolding collect find_or_add_entry
macs-collect none es = refl
macs-collect (some e) es =
    rw (length-macs, ← find_slot-member e.mac_address es)
      (macs-named e es (find_slot e.mac_address es))

-- The addresses after parse_scan_output are those before, with each address that a line of the
-- output shows, in order, at the end, unless it is there already or there are 150.
pub macs-parse_lines :
    (ls : List Text) (es : List ScanEntry) → macs (parse_lines ls es) ≡ add_lines ls (macs es)
unfolding parse_lines
macs-parse_lines [] es = refl
macs-parse_lines (l ∷ ls) es =
    macs-parse_lines ls (collect (parse_scan_line (strip_ansi l)) es)
    ∙ ap (add_lines ls) (macs-collect (parse_scan_line (strip_ansi l)) es)
