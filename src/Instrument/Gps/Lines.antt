-- ===== src/Instrument/Gps/Lines.antt =====
-- Splitting the receive buffer into lines.
use sensor_lib.Prelude.{
  ℕ, suc, ◌≤◌, ◌<◌, ◌≡◌, refl, true, false, inl, inr, List, [], ◌∷◌, ◌++◌, arith, Text, ◌==◌,
  length, length-append, All, Bool-cases,
}
use sensor_lib.Instrument.Gps.{with_first, split_lines}

-- No newline stands before the first zero byte.
abbrev pub IsOpen : Text → Type 0
IsOpen s = (split_lines s).0 ≡ []

-- Whether the lines and the rest fit in the buffer of 4096 bytes with their end.
abbrev pub Fits : List Text × Text → Type 0
Fits (lines, rest) = All (λ l. length l < 4095) lines × (length rest < 4095)

-- The bytes behind a split: the rest with what comes next is split further.
abbrev pub resumed : List Text × Text → Text → List Text × Text
resumed (lines, rest) b = (lines ++ (split_lines (rest ++ b)).0, (split_lines (rest ++ b)).1)

split_lines-nil : split_lines [] ≡ ([], [])
unfolding split_lines
split_lines-nil = refl

split_lines-plain :
    (c : ℕ) (s : Text)
    → (c == b'\n') ≡ false
    → (c == 0) ≡ false
    → split_lines (c ∷ s) ≡ with_first c (split_lines s)
unfolding split_lines
split_lines-plain c s e f = rw (e, f)

split_lines-newline :
    (c : ℕ) (s : Text)
    → (c == b'\n') ≡ true
    → split_lines (c ∷ s) ≡ ([] ∷ (split_lines s).0, (split_lines s).1)
unfolding split_lines
split_lines-newline c s e = rw e

split_lines-zero :
    (c : ℕ) (s : Text) → (c == b'\n') ≡ false → (c == 0) ≡ true → split_lines (c ∷ s) ≡ ([], c ∷ s)
unfolding split_lines
split_lines-zero c s e f = rw (e, f)

with_first-resumed :
    (c : ℕ) (r : List Text × Text) (b : Text)
    → (c == b'\n') ≡ false
    → (c == 0) ≡ false
    → with_first c (resumed r b) ≡ resumed (with_first c r) b
unfolding with_first
with_first-resumed c ([], rest) b e f = rw (split_lines-plain c (rest ++ b) e f) refl
with_first-resumed c (l ∷ ls, rest) b e f = refl

-- Splitting a text in two pieces.
pub split_lines-append : (a b : Text) → split_lines (a ++ b) ≡ resumed (split_lines a) b
split_lines-append [] b = rw split_lines-nil
split_lines-append (c ∷ a) b = elim (Bool-cases (c == b'\n')) [
  | inl newline ↦ rw (
    split_lines-newline c a newline,
    split_lines-newline c (a ++ b) newline,
    split_lines-append a b,
  )
  | inr other ↦ elim (Bool-cases (c == 0)) [
    | inl zero_byte ↦
        rw (split_lines-zero c a other zero_byte, split_lines-zero c (a ++ b) other zero_byte)
    | inr plain ↦
        rw
          (
            split_lines-plain c a other plain,
            split_lines-plain c (a ++ b) other plain,
            split_lines-append a b,
          )
          (with_first-resumed c (split_lines a) b other plain)
  ]
]

with_first-rest :
    (c : ℕ) (r : List Text × Text)
    → (c == b'\n') ≡ false
    → (c == 0) ≡ false
    → split_lines r.1 ≡ ([], r.1)
    → split_lines ((with_first c r).1) ≡ ([], (with_first c r).1)
unfolding with_first
with_first-rest c ([], rest) e f h = rw (split_lines-plain c rest e f, h)
with_first-rest c (l ∷ ls, rest) e f h = h

-- What is left of a split is not split further.
pub split_lines-rest : (s : Text) → split_lines ((split_lines s).1) ≡ ([], (split_lines s).1)
split_lines-rest [] = rw (split_lines-nil, split_lines-nil)
split_lines-rest (c ∷ s) = elim (Bool-cases (c == b'\n')) [
  | inl newline ↦ rw (split_lines-newline c s newline) (split_lines-rest s)
  | inr other ↦ elim (Bool-cases (c == 0)) [
    | inl zero_byte ↦
        rw (split_lines-zero c s other zero_byte, split_lines-zero c s other zero_byte)
    | inr plain ↦
        rw (split_lines-plain c s other plain)
          (with_first-rest c (split_lines s) other plain (split_lines-rest s))
  ]
]

-- The first line, or the rest if there is no line
length_of_first : List Text × Text → ℕ
length_of_first ([], rest) = length rest
length_of_first (l ∷ ls, rest) = length l

length-with_first :
    (c : ℕ) (r : List Text × Text) → length_of_first (with_first c r) ≡ suc (length_of_first r)
unfolding length_of_first with_first
length-with_first c ([], rest) = refl
length-with_first c (l ∷ ls, rest) = refl

with_first-no_line : (c : ℕ) (r : List Text × Text) → (with_first c r).0 ≡ [] → r.0 ≡ []
unfolding with_first
with_first-no_line c ([], rest) e = refl
with_first-no_line c (l ∷ ls, rest) e = cc

-- A text without a line is a part of the first line of any text that it begins.
length-le-first :
    (b s : Text) → (split_lines b).0 ≡ [] → length b ≤ length_of_first (split_lines (b ++ s))
length-le-first [] s e = omega arith
length-le-first (c ∷ b) s e = elim (Bool-cases (c == b'\n')) [
  | inl newline ↦ absurd (cc (split_lines-newline c b newline, e))
  | inr other ↦ elim (Bool-cases (c == 0)) [
    | inl zero_byte ↦
        rw (split_lines-zero c (b ++ s) other zero_byte)
          (unfold length_of_first in omega (arith, length-append {0} b s))
    | inr plain ↦
        rw (split_lines-plain c (b ++ s) other plain, length-with_first)
          (omega (
            arith,
            length-le-first b s (
                with_first-no_line c (split_lines b) (rw (split_lines-plain c b other plain) at e)),
          ))
  ]
]

Fits-first : (r : List Text × Text) → Fits r → length_of_first r < 4095
unfolding length_of_first
Fits-first ([], rest) h = h.1
Fits-first (l ∷ ls, rest) h = h.0.0

-- So the buffer has room for more after an unfinished line of a text that fits.
pub open-Fits :
    (b s : Text) → (split_lines b).0 ≡ [] → Fits (split_lines (b ++ s)) → length b < 4095
open-Fits b s e h = omega (arith, length-le-first b s e, Fits-first (split_lines (b ++ s)) h)

All-right {ℓ κ} : {A : Type ℓ} (P : A → Type κ) (xs ys : List A) → All P (xs ++ ys) → All P ys
All-right P [] ys h = h
All-right P (x ∷ xs) ys h = All-right P xs ys h.1

pub Fits-resumed :
    (r : List Text × Text) (b : Text) → Fits (resumed r b) → Fits (split_lines (r.1 ++ b))
Fits-resumed (lines, rest) b h =
    (All-right (λ l. length l < 4095) lines (split_lines (rest ++ b)).0 h.0, h.1)
