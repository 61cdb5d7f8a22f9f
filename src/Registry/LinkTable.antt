-- ===== src/Registry/LinkTable.antt =====
-- The link tables of BratislavaSocketRegistry.cc. `std::unordered_map` is an association list (its
-- iteration order is unspecified). A link is known by its pointer and its `linkID`.
use sensor_lib.Prelude.{
  ℕ, Option, none, some, List, [], ◌∷◌, ◌++◌, map, Text, ◌==◌, if◌then◌else◌, text_eq,
}
use sensor_lib.Registry.State.{Registry}

unfoldable pub find : Text → List (Text × ℕ) → Option ℕ
find k [] = none
find k ((j, p) ∷ m) = let rest = find k m in if text_eq j k then some p else rest

-- `m[k] = p`
unfoldable pub assign : Text → ℕ → List (Text × ℕ) → List (Text × ℕ)
assign k p [] = (k, p) ∷ []
assign k p ((j, q) ∷ m) =
    let rest = (j, q) ∷ assign k p m in if text_eq j k then (k, p) ∷ m else rest

unfoldable pub erase : Text → List (Text × ℕ) → List (Text × ℕ)
erase k [] = []
erase k ((j, q) ∷ m) = let rest = erase k m in if text_eq j k then rest else (j, q) ∷ rest

-- What AddLink leaves: the caller's pointer, the pointer that it deleted, and the registry.
pub record Added : Type 0 where
  pub link : ℕ
  pub deleted : Option ℕ
  pub registry : Registry

-- The canonical pointer replaces a different one, which is deleted.
abbrev canonical : ℕ → ℕ → Registry → Added
canonical known link r =
    if known == link
    then record { link = link; deleted = none; registry = r }
    else record { link = known; deleted = some link; registry = r }

-- AddLink, for the link at `link` with id `id`
unfoldable pub add_link : ℕ → Text → Registry → Added
unfolding find assign erase
add_link link id r = elim (find id r.active_links) [
  | some known ↦ canonical known link r
  | none ↦ elim (find id r.inactive_links) [
    | some known ↦ canonical known link (record r {
      active_links = assign id known r.active_links;
      inactive_links = erase id r.inactive_links;
    })
    | none ↦ record {
      link = link;
      deleted = none;
      registry = record r { active_links = assign id link r.active_links };
    }
  ]
]

-- RemoveLink, whose overload on a link passes the link's id on
unfoldable pub remove_link : Text → Registry → Registry
unfolding find assign erase
remove_link id r = elim (find id r.active_links) [
  | some p ↦ record r {
    inactive_links = assign id p r.inactive_links;
    active_links = erase id r.active_links;
  }
  | none ↦ r
]

-- GetLinks appends to the caller's vector.
unfoldable pub get_links : List ℕ → Registry → List ℕ
get_links links r = links ++ map (λ e. e.1) r.active_links

-- GetLink; 0 is the null pointer
unfoldable pub get_link : Text → Registry → ℕ
unfolding find
get_link id r = elim (find id r.inactive_links) [
  | some p ↦ p
  | none ↦ elim (find id r.active_links) [ some p ↦ p | none ↦ 0 ]
]
