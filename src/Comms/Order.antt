-- ===== src/Comms/Order.antt =====
-- discover_wifi_candidates against a reference of two passes, and the order of its result.
use sensor_lib.Prelude.{
  ℕ, ◌+◌, ◌≡◌, refl, sym, ◌∙◌, ap, Bool, true, false, not, ◌&&◌, Option, none, some, List, [], ◌∷◌,
  ◌++◌, map, Text, if◌then◌else◌, text_eq, text_eq→eq, text_eq_refl, arith,
}
use sensor_lib.Comms.Strings.{normalize_mac}
use sensor_lib.Comms.Candidates.{
  Files, Candidate, Row, less, insert_by, sort_by, member, list_wireless_interfaces, parse_row,
  row_key, zero_mac, candidate_of, accept, scan_lines, candidate_less, after_header, candidates_of,
  discover_wifi_candidates,
}

-- How many elements satisfy a test; lists with the same counts are permutations.
abbrev pub count_by {ℓ} : {A : Type ℓ} → (A → Bool) → List A → ℕ
count_by P [] = 0
count_by P (x ∷ xs) = (if P x then 1 else 0) + count_by P xs

-- No element is before the one that it follows.
abbrev pub Sorted {ℓ} : {A : Type ℓ} → (A → A → Bool) → List A → Type 0
Sorted lt [] = Unit
Sorted lt (x ∷ []) = Unit
Sorted lt (x ∷ y ∷ ys) = (lt y x ≡ false) × Sorted lt (y ∷ ys)

module _ {ℓ} {A : Type ℓ} (lt : A → A → Bool) where
  insert_by-count :
      (P : A → Bool) (a : A) (xs : List A) → count_by P (insert_by lt a xs) ≡ count_by P (a ∷ xs)
  unfolding insert_by
  insert_by-count P a [] = refl
  insert_by-count P a (b ∷ bs) = ground (arith, insert_by-count P a bs)

  sort_by-count : (P : A → Bool) (xs : List A) → count_by P (sort_by lt xs) ≡ count_by P xs
  unfolding sort_by
  sort_by-count P [] = refl
  sort_by-count P (x ∷ xs) = omega (arith, insert_by-count P x (sort_by lt xs), sort_by-count P xs)

  module _ (asym : (a b : A) → lt a b ≡ true → lt b a ≡ false) where
    insert_by-Sorted : (a : A) (xs : List A) → Sorted lt xs → Sorted lt (insert_by lt a xs)
    unfolding insert_by
    insert_by-Sorted a [] s = tt
    insert_by-Sorted a (b ∷ []) s = ground (arith, asym b a)
    insert_by-Sorted a (b ∷ c ∷ cs) s =
        ground (arith, asym b a, asym c a, s.0, s.1, insert_by-Sorted a (c ∷ cs) s.1)

    sort_by-Sorted : (xs : List A) → Sorted lt (sort_by lt xs)
    unfolding sort_by
    sort_by-Sorted [] = tt
    sort_by-Sorted (x ∷ xs) = insert_by-Sorted x (sort_by lt xs) (sort_by-Sorted xs)

less-asym : (s t : Text) → less s t ≡ true → less t s ≡ false
unfolding less
less-asym [] [] h = cc
less-asym (c ∷ s) [] h = cc
less-asym [] (d ∷ t) h = refl
less-asym (c ∷ s) (d ∷ t) h = ground (arith, less-asym s t)

candidate_less-asym : (a b : Candidate) → candidate_less a b ≡ true → candidate_less b a ≡ false
unfolding candidate_less
candidate_less-asym a b h = ground (
  arith,
  text_eq→eq a.interface_name b.interface_name,
  text_eq→eq b.interface_name a.interface_name,
  text_eq_refl a.interface_name,
  less-asym a.interface_name b.interface_name,
  less-asym a.device.mac_address b.device.mac_address,
)

-- The rows that may be candidates: on a listed interface, with a MAC address that is known.
abbrev usable_row : List Text → Option Row → List Row
usable_row interfaces none = []
usable_row interfaces (some row) =
    if not (text_eq (normalize_mac row.mac_address) zero_mac)
      && member row.interface_name interfaces
    then row ∷ []
    else []

abbrev pub usable_rows : List Text → List Text → List Row
usable_rows interfaces [] = []
usable_rows interfaces (line ∷ lines) =
    usable_row interfaces (parse_row line) ++ usable_rows interfaces lines

abbrev pub key_of : Row → Text
key_of row = row_key row.interface_name (normalize_mac row.mac_address)

-- The first row for each key, without the keys in `seen`
abbrev pub firsts : List Text → List Row → List Row
firsts seen [] = []
firsts seen (row ∷ rows) =
    if member (key_of row) seen then firsts seen rows else row ∷ firsts (key_of row ∷ seen) rows

abbrev pub to_candidate : Row → Candidate
to_candidate row = candidate_of row (normalize_mac row.mac_address)

scan_lines-firsts :
    (interfaces seen lines : List Text)
    → scan_lines interfaces seen lines
      ≡ map to_candidate (firsts seen (usable_rows interfaces lines))
unfolding scan_lines accept
scan_lines-firsts interfaces seen [] = refl
scan_lines-firsts interfaces seen (line ∷ lines) =
    on_row (parse_row line) (λ s. scan_lines-firsts interfaces s lines)
  where
    on_row :
        (o : Option Row)
        → ((s : List Text)
            → scan_lines interfaces s lines
              ≡ map to_candidate (firsts s (usable_rows interfaces lines)))
        → (elim (accept interfaces seen o) [
          | none ↦ scan_lines interfaces seen lines
          | some (key, c) ↦ c ∷ scan_lines interfaces (key ∷ seen) lines
        ])
          ≡ map to_candidate (firsts seen (usable_row interfaces o ++ usable_rows interfaces lines))
    on_row none ih = ih seen
    on_row (some row) ih = ground (arith, ih seen, ih (key_of row ∷ seen))

-- The candidates as two passes make them: all usable rows of the table, then the first for each key.
abbrev rows_of : List Text → Option (List Text) → List Candidate
rows_of interfaces none = []
rows_of interfaces (some lines) =
    map to_candidate (firsts [] (usable_rows interfaces (after_header lines)))

abbrev pub reference : Files → List Candidate
reference f = rows_of (list_wireless_interfaces f) f.arp

no_rows : (lines : List Text) → usable_rows [] lines ≡ []
unfolding member
no_rows [] = refl
no_rows (line ∷ lines) = no_row (parse_row line) (no_rows lines)
  where
    no_row :
        (o : Option Row) → usable_rows [] lines ≡ [] → usable_row [] o ++ usable_rows [] lines ≡ []
    no_row none ih = ih
    no_row (some row) ih = ground (arith, ih)

abbrev SortedReference : List Candidate → List Candidate → Type 0
SortedReference result expected =
    Sorted candidate_less result
    × ((P : Candidate → Bool) → count_by P result ≡ count_by P expected)

candidates_of-SortedReference :
    (interfaces : List Text) (arp : Option (List Text))
    → SortedReference (candidates_of interfaces arp) (rows_of interfaces arp)
unfolding candidates_of
candidates_of-SortedReference interfaces none = (tt, λ P. refl)
candidates_of-SortedReference interfaces (some lines) =
    let scanned = scan_lines interfaces [] (after_header lines) in
    (
      sort_by-Sorted candidate_less candidate_less-asym scanned,
      λ P.
          sort_by-count candidate_less P scanned
          ∙ ap (count_by P) (scan_lines-firsts interfaces [] (after_header lines)),
    )

-- discover_wifi_candidates returns, in the order of interface and MAC address, exactly the
-- candidates of the ARP table: those of its rows, after the first line, that are on a usable
-- wireless interface and have a MAC address that is not zero, the first for each interface and MAC
-- address.
pub discover_wifi_candidates_lem :
    (f : Files)
    → Sorted candidate_less (discover_wifi_candidates f)
      × ((P : Candidate → Bool)
          → count_by P (discover_wifi_candidates f) ≡ count_by P (reference f))
unfolding discover_wifi_candidates
discover_wifi_candidates_lem f = on_interfaces (list_wireless_interfaces f) f.arp
  where
    on_interfaces :
        (names : List Text) (arp : Option (List Text))
        → SortedReference
            (elim names [ [] ↦ [] | name ∷ names' ↦ candidates_of (name ∷ names') arp ])
            (rows_of names arp)
    on_interfaces [] none = (tt, λ P. refl)
    on_interfaces [] (some lines) = (
      tt,
      λ P.
          ap (λ rows. count_by P (map to_candidate (firsts [] rows)))
            (sym (no_rows (after_header lines))),
    )
    on_interfaces (name ∷ names) arp = candidates_of-SortedReference (name ∷ names) arp
