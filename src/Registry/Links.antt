-- ===== src/Registry/Links.antt =====
-- The link tables: a link id is active or inactive and never both, and its pointer stays the same.
use sensor_lib.Prelude.{
  ℕ, ◌≡◌, ◌⊎◌, Option, none, some, List, [], ◌∷◌, Text, ◌==◌, if◌then◌else◌, text_eq,
}
use sensor_lib.Registry.State.{Registry}
use sensor_lib.Registry.LinkTable.{find, Added, add_link, remove_link}

-- The first pointer that a lookup finds, as an option: inactive links come first, as in GetLink.
abbrev pub known : Registry → Text → Option ℕ
known r id = elim (find id r.inactive_links) [ some p ↦ some p | none ↦ find id r.active_links ]

abbrev pub NotBoth : Registry → Type 0
NotBoth r = (id : Text) → (find id r.active_links ≡ none) ⊎ (find id r.inactive_links ≡ none)

abbrev pub or_else : Option ℕ → ℕ → ℕ
or_else none p = p
or_else (some q) p = q

-- What AddLink promises of the link at `link` with id `id`.
pub record AddsLink (link : ℕ) (id : Text) (r : Registry) (a : Added) : Type 0 where
  pub canonical : a.link ≡ or_else (known r id) link
  pub deleted : a.deleted ≡ (if a.link == link then none else some link)
  pub active :
      (j : Text)
      → find j a.registry.active_links
        ≡ (if text_eq id j then some a.link else find j r.active_links)
  pub inactive :
      (j : Text)
      → find j a.registry.inactive_links ≡ (if text_eq id j then none else find j r.inactive_links)

-- What RemoveLink promises.
pub record RemovesLink (id : Text) (r after : Registry) : Type 0 where
  pub active :
      (j : Text)
      → find j after.active_links ≡ (if text_eq id j then none else find j r.active_links)
  pub kept : (j : Text) → known after j ≡ known r j

-- A history of the link tables.
pub data LinkCall : Type 0 where
  adds : ℕ → Text → LinkCall
  removes : Text → LinkCall

unfoldable pub link_step : Registry → LinkCall → Registry
unfolding add_link remove_link
link_step r (adds link id) = (add_link link id r).registry
link_step r (removes id) = remove_link id r

unfoldable pub link_run : Registry → List LinkCall → Registry
unfolding link_step
link_run r [] = r
link_run r (c ∷ cs) = link_run (link_step r c) cs
