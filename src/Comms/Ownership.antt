-- ===== src/Comms/Ownership.antt =====
-- Who owns the descriptors of the comms runtime: the runtime's links, and the links that threads
-- have made and not yet published.
use sensor_lib.Prelude.{
  ℕ, ◌+◌, ◌-◌, ◌≤◌, ◌≡◌, refl, inl, inr, false, Bool-cases, List, [], ◌∷◌, ◌++◌, Text, ℤ, pos,
  negsuc, ◌==◌, if◌then◌else◌, text_eq, text_eq→eq, arith,
}
use sensor_lib.Os.{Event, accepted, Trace, socket_made, closed, link_found}
use sensor_lib.Comms.Candidates.{member}
use sensor_lib.Comms.World.{opened}
use sensor_lib.Comms.Runtime.{ActiveLink, Runtime}
use sensor_lib.Comms.Scan.{push, publish_link, close_valid, call}

-- 1 if the link has the descriptor
abbrev pub is_fd : ℕ → ℤ → ℕ
is_fd fd (pos f) = if f == fd then 1 else 0
is_fd fd (negsuc n) = 0

abbrev pub holds : ℕ → ActiveLink → ℕ
holds fd a = is_fd fd a.link.socket_fd

abbrev pub holders : ℕ → List ActiveLink → ℕ
holders fd [] = 0
holders fd (a ∷ links) = holds fd a + holders fd links

abbrev pub has_key : Text → ActiveLink → ℕ
has_key k a = if text_eq a.key k then 1 else 0

abbrev pub key_count : Text → List ActiveLink → ℕ
key_count k [] = 0
key_count k (a ∷ links) = has_key k a + key_count k links

-- A runtime and the links that threads hold unpublished, after a trace.
pub record Owned (rt : Runtime) (held : List ActiveLink) (t : Trace) : Type 0 where
  -- every open descriptor has exactly one owner, and every owner's descriptor is open
  pub owned : (fd : ℕ) → opened fd t ≡ holders fd rt.active_links + holders fd held
  -- a key is in the key set exactly when one link has it, and no two links have it
  pub keyed :
      (k : Text) → key_count k rt.active_links ≡ (if member k rt.active_link_keys then 1 else 0)

pub holders-append :
    (fd : ℕ) (xs ys : List ActiveLink) → holders fd (xs ++ ys) ≡ holders fd xs + holders fd ys
holders-append fd [] ys = omega arith
holders-append fd (x ∷ xs) ys = omega (arith, holders-append fd xs ys)

key_count-append :
    (k : Text) (xs ys : List ActiveLink) → key_count k (xs ++ ys) ≡ key_count k xs + key_count k ys
key_count-append k [] ys = omega arith
key_count-append k (x ∷ xs) ys = omega (arith, key_count-append k xs ys)

opened_le : (fd : ℕ) (t : Trace) → opened fd t ≤ 1
opened_le fd [] = omega arith
opened_le fd (socket_made (pos f) ∷ t) = ground (arith, opened_le fd t)
opened_le fd (accepted (pos f) ∷ t) = ground (arith, opened_le fd t)
opened_le fd (closed (pos f) ∷ t) = ground (arith, opened_le fd t)
opened_le fd (socket_made (negsuc f) ∷ t) = opened_le fd t
opened_le fd (accepted (negsuc f) ∷ t) = opened_le fd t
opened_le fd (closed (negsuc f) ∷ t) = opened_le fd t
opened_le fd (e ∷ t) = opened_le fd t

-- A call of a callback opens and closes nothing.
pub call-opened :
    (fd p : ℕ) (e : Event) (t : Trace)
    → opened fd (e ∷ t) ≡ opened fd t
    → opened fd ((call p e t).1) ≡ opened fd t
unfolding call
call-opened fd p e t quiet = ground (arith, quiet)

pub close_valid-opened :
    (fd : ℕ) (z : ℤ) (t : Trace) → opened fd ((close_valid z t).1) ≡ opened fd t - is_fd fd z
unfolding close_valid
close_valid-opened fd (pos f) t = ground (arith, opened_le fd t)
close_valid-opened fd (negsuc n) t = omega arith

push-keyed :
    (a : ActiveLink) (rt : Runtime)
    → ((k : Text) → key_count k rt.active_links ≡ (if member k rt.active_link_keys then 1 else 0))
    → member a.key rt.active_link_keys ≡ false
    → (k : Text)
    → key_count k (push a rt).active_links
      ≡ (if member k (push a rt).active_link_keys then 1 else 0)
unfolding member
push-keyed a rt keyed new k =
    ground (arith, keyed k, new, text_eq→eq a.key k, key_count-append k rt.active_links (a ∷ []))

-- Publishing a link that a thread holds hands its descriptor to the runtime, or closes it.
pub publish_link-Owned :
    (a : ActiveLink) {rt : Runtime} {held : List ActiveLink} {t : Trace}
    → Owned rt (a ∷ held) t
    → Owned ((publish_link a rt t).0) held ((publish_link a rt t).1)
unfolding publish_link
publish_link-Owned a {rt} {held} {t} v = elim (Bool-cases (member a.key rt.active_link_keys)) [
  | inl dup ↦ record {
    owned = λ fd. ground (arith, dup, v.owned fd, close_valid-opened fd a.link.socket_fd t);
    keyed = λ k. ground (arith, dup, v.keyed k);
  }
  | inr new ↦ record {
    owned = λ fd. ground (
      arith,
      new,
      v.owned fd,
      call-opened fd rt.callbacks.link_discovered (link_found rt.callbacks.link_discovered a.link) t
          refl,
      holders-append fd rt.active_links (a ∷ []),
    );
    keyed = λ k. ground (arith, new, push-keyed a rt v.keyed new k);
  }
]
