-- ===== src/CText/Laws.antt =====
-- Where strstr finds a pattern, and what the copies keep.
use sensor_lib.Prelude.{
  ℕ, zero, suc, ◌≤◌, ◌≡◌, refl, ◌≢◌, true, false, some, [], ◌∷◌, ◌++◌, arith, Text, length, drop,
  All,
}
use sensor_lib.CText.{starts_with, find, strncpy, is_space, skip_space}

starts_with-append : (p s : Text) → starts_with p (p ++ s) ≡ true
unfolding starts_with
starts_with-append [] s = refl
starts_with-append (c ∷ p) s = ground (arith, starts_with-append p s)

pub drop-append : (p s : Text) → drop (length p) (p ++ s) ≡ s
drop-append [] s = refl
drop-append (c ∷ p) s = drop-append p s

-- A pattern is not found in a text that lacks its first byte, so it is found behind such a text.
pub find-skips :
    (c : ℕ) (p a s : Text)
    → All (λ d. d ≢ c) a
    → find (c ∷ p) (a ++ ((c ∷ p) ++ s)) ≡ some ((c ∷ p) ++ s)
unfolding find starts_with
find-skips c p [] s h = ground (arith, starts_with-append p s)
find-skips c p (d ∷ a) s h = ground (arith, h.0, find-skips c p a s h.1)

pub length-strncpy : (n : ℕ) (s : Text) → length (strncpy n s) ≤ n
unfolding strncpy
length-strncpy zero s = omega arith
length-strncpy (suc n) [] = omega arith
length-strncpy (suc n) (c ∷ s) = ground (arith, length-strncpy n s)

-- skip_space stops at a byte that is no white space.
pub skip_space-append :
    (a s : Text) (c : ℕ)
    → All (λ d. is_space d ≡ true) a
    → is_space c ≡ false
    → skip_space (a ++ c ∷ s) ≡ c ∷ s
unfolding skip_space
skip_space-append [] s c h e = rw e
skip_space-append (d ∷ a) s c h e = rw (h.0) (skip_space-append a s c h.1 e)
