-- ===== src/Registry/SocketList.antt =====
-- `sockets_` as a list without repetition: membership after a push and after an erase.
use sensor_lib.Prelude.{
  ℕ, ◌≡◌, ◌≢◌, refl, true, false, List, [], ◌∷◌, ◌++◌, ◌==◌, if◌then◌else◌, arith,
}
use sensor_lib.Registry.Socket.{contains, erase_first}

abbrev pub Distinct : List ℕ → Type 0
Distinct [] = Unit {0}
Distinct (x ∷ xs) = (contains x xs ≡ false) × Distinct xs

pub contains-push :
    (t s : ℕ) (xs : List ℕ) → contains t (xs ++ (s ∷ [])) ≡ (if t == s then true else contains t xs)
unfolding contains
contains-push t s [] = ground arith
contains-push t s (x ∷ xs) = ground (arith, contains-push t s xs)

pub Distinct-push :
    (s : ℕ) (xs : List ℕ) → contains s xs ≡ false → Distinct xs → Distinct (xs ++ (s ∷ []))
unfolding contains
Distinct-push s [] h d = (refl, tt)
Distinct-push s (x ∷ xs) h d =
    (ground (arith, contains-push x s xs, d.0), Distinct-push s xs (ground arith) d.1)

pub contains-erase :
    (t s : ℕ) (xs : List ℕ)
    → Distinct xs
    → contains t (erase_first s xs) ≡ (if t == s then false else contains t xs)
unfolding contains erase_first
contains-erase t s [] d = ground arith
contains-erase t s (x ∷ xs) d = ground (arith, contains-erase t s xs d.1)

pub Distinct-erase : (s : ℕ) (xs : List ℕ) → Distinct xs → Distinct (erase_first s xs)
unfolding contains erase_first
Distinct-erase s [] d = tt
Distinct-erase s (x ∷ xs) d = ground (arith, Distinct-erase s xs d.1, contains-erase x s xs d.1)

pub contains-erase_ne :
    (t s : ℕ) (xs : List ℕ) → s ≢ t → contains t (erase_first s xs) ≡ contains t xs
unfolding contains erase_first
contains-erase_ne t s [] n = refl
contains-erase_ne t s (x ∷ xs) n = ground (arith, contains-erase_ne t s xs n)
