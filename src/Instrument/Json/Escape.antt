-- ===== src/Instrument/Json/Escape.antt =====
-- Strings between quotation marks.
use sensor_lib.Prelude.{
  ℕ, zero, suc, ◌+◌, ◌-◌, ◌≤◌, ◌≡◌, refl, ◌≢◌, Bool, true, false, none, some, [], ◌∷◌, ◌++◌, ◌||◌,
  arith, Text, ◌==◌, leb, ltb, if◌then◌else◌, length, All, Option-cases, Bool-cases, inl, inr,
  length-append,
}
use sensor_lib.CText.{is_space}
use sensor_lib.CText.Laws.{find-skips, drop-append, skip_space-append}
use sensor_lib.Instrument.Json.{
  pattern_of, value_after, json_find_value, parsed, unescape, read_string, opened_string,
  written_string, if_closed, json_parse_string,
}

-- The string between quotation marks, with a backslash before each mark and backslash.
abbrev pub escape : Text → Text
escape [] = []
escape (c ∷ s) = if c == b'"' || c == b'\\' then b'\\' ∷ c ∷ escape s else c ∷ escape s

unescape-plain : (c : ℕ) (s : Text) → (c == b'\\') ≡ false → unescape c s ≡ (c, s)
unfolding unescape
unescape-plain c [] e = refl
unescape-plain c (d ∷ s) e = rw e

-- One more character in front of what is read
closed-cons :
    (room c : ℕ) (r : Text × Bool) (s : Text)
    → if_closed (some r) ≡ (if leb (length s) room then some s else none)
    → if_closed (some (c ∷ r.0, r.1))
      ≡ (if leb (length (c ∷ s)) (suc room) then some (c ∷ s) else none)
unfolding if_closed
closed-cons room c (t, false) s e = ground arith
closed-cons room c (t, true) s e = ground arith

read_string-mark :
    (room c : ℕ) (s : Text)
    → read_string (suc room) (b'\\' ∷ c ∷ s) ≡ (c ∷ (read_string room s).0, (read_string room s).1)
unfolding read_string unescape
read_string-mark room c s = refl

read_string-plain :
    (room c : ℕ) (s : Text)
    → (c == b'"') ≡ false
    → (c == b'\\') ≡ false
    → read_string (suc room) (c ∷ s) ≡ (c ∷ (read_string room s).0, (read_string room s).1)
unfolding read_string
read_string-plain room c s e f = rw (e, unescape-plain c s f)

read_string-escape_cons :
    (room c : ℕ) (s t : Text)
    → if_closed (some (read_string room t)) ≡ (if leb (length s) room then some s else none)
    → if_closed
        (some (read_string (suc room) (if c == b'"' || c == b'\\' then b'\\' ∷ c ∷ t else c ∷ t)))
      ≡ (if leb (length (c ∷ s)) (suc room) then some (c ∷ s) else none)
read_string-escape_cons room c s t e = elim (Bool-cases (c == b'"')) [
  | inl mark ↦ rw (mark, read_string-mark room c t) (closed-cons room c (read_string room t) s e)
  | inr no_mark ↦ elim (Bool-cases (c == b'\\')) [
    | inl slash ↦
        rw (no_mark, slash, read_string-mark room c t) (closed-cons room c (read_string room t) s e)
    | inr plain ↦
        rw (no_mark, plain, read_string-plain room c t no_mark plain)
          (closed-cons room c (read_string room t) s e)
  ]
]

read_string_full :
    (c : ℕ) (s rest : Text)
    → if_closed (
        some (
          read_string 0
            ((if c == b'"' || c == b'\\' then b'\\' ∷ c ∷ s else c ∷ s) ++ b'"' ∷ rest)))
      ≡ none
unfolding read_string if_closed
read_string_full c s rest = ground arith

leb-suc_zero : (n : ℕ) → leb (suc n) 0 ≡ false
leb-suc_zero n = ground arith

size_of_room : (n m : ℕ) → (ltb n (suc m) ≡ leb n m) × ((suc m == 0) ≡ false) × (suc m - 1 ≡ m)
size_of_room n m = (ground arith, ground arith, omega arith)

escape-cons :
    (c : ℕ) (s t : Text)
    → escape (c ∷ s) ++ t
      ≡ (if c == b'"' || c == b'\\' then b'\\' ∷ c ∷ (escape s ++ t) else c ∷ (escape s ++ t))
escape-cons c s t = ground arith

-- What is read of `escape s`: it all, if there is room.
read_string-escape :
    (room : ℕ) (s rest : Text)
    → if_closed (some (read_string room (escape s ++ b'"' ∷ rest)))
      ≡ (if leb (length s) room then some s else none)
unfolding read_string if_closed
read_string-escape zero [] rest = refl
read_string-escape (suc room) [] rest = ground arith
read_string-escape zero (c ∷ s) rest =
    rw (leb-suc_zero (length s)) (read_string_full c (escape s) rest)
read_string-escape (suc room) (c ∷ s) rest =
    rw (escape-cons c s (b'"' ∷ rest))
      (read_string-escape_cons room c s (escape s ++ b'"' ∷ rest) (read_string-escape room s rest))

length-read_string : (room : ℕ) (s : Text) → length ((read_string room s).0) ≤ room
unfolding read_string
length-read_string zero [] = omega arith
length-read_string zero (c ∷ s) = omega arith
length-read_string (suc room) [] = omega arith
length-read_string (suc room) (c ∷ s) = ground (arith, length-read_string room ((unescape c s).1))

opened_string-escape :
    (size : ℕ) (s rest : Text)
    → if_closed (opened_string size (b'"' ∷ (escape s ++ b'"' ∷ rest)))
      ≡ (if ltb (length s) size then some s else none)
unfolding opened_string if_closed
opened_string-escape zero s rest = ground arith
opened_string-escape (suc room) s rest =
    let facts = size_of_room (length s) room in
    rw (facts.0, facts.1, facts.2) (read_string-escape room s rest)

length-pattern_of : (key : Text) → length (pattern_of key) ≡ length key + 3
length-pattern_of key = omega (arith, length-append {0} key (b'"' ∷ b':' ∷ []))

-- The value behind the first occurrence of the key, which follows a text without quotation marks
-- and any white space.
find_value-written :
    (key before blanks s : Text) (c : ℕ)
    → length key ≤ 60
    → All (λ d. d ≢ b'"') before
    → All (λ d. is_space d ≡ true) blanks
    → is_space c ≡ false
    → json_find_value (before ++ (pattern_of key ++ (blanks ++ c ∷ s))) key ≡ some (c ∷ s)
unfolding json_find_value value_after
find_value-written key before blanks s c short no_quote white not_white = ground (
  arith,
  length-pattern_of key,
  find-skips b'"' (key ++ b'"' ∷ b':' ∷ []) before (blanks ++ c ∷ s) no_quote,
  drop-append (pattern_of key) (blanks ++ c ∷ s),
  skip_space-append blanks s c white not_white,
)

-- For a key of at most 60 bytes, in a JSON text in which the key with its colon follows a text
-- without quotation marks, and white space and a string between quotation marks follow, with
-- a backslash before each mark and backslash in it: json_parse_string reads that string if it and
-- a terminating zero fit in the buffer, and fails if they do not.
pub json_parse_string-escape :
    (size : ℕ) (key before blanks s rest : Text)
    → length key ≤ 60
    → All (λ d. d ≢ b'"') before
    → All (λ d. is_space d ≡ true) blanks
    → json_parse_string size
        (before ++ (pattern_of key ++ (blanks ++ b'"' ∷ (escape s ++ b'"' ∷ rest))))
        key
      ≡ (if ltb (length s) size then some s else none)
unfolding json_parse_string written_string parsed is_space
json_parse_string-escape size key before blanks s rest short no_quote white = ground (
  arith,
  find_value-written key before blanks (escape s ++ b'"' ∷ rest) b'"' short no_quote white refl,
  opened_string-escape size s rest,
)

opened_string-fits :
    (size : ℕ) (s : Text) {r : Text × Bool} → opened_string size s ≡ some r → length r.0 + 1 ≤ size
unfolding opened_string
opened_string-fits zero (c ∷ s) e = ground arith
opened_string-fits size [] e = cc
opened_string-fits (suc room) (c ∷ s) e = ground (arith, length-read_string room s)

-- Whatever the text and the key, the string that json_parse_string writes fits in its buffer with
-- the terminating zero, also where the result is false.
written_string-fits :
    (size : ℕ) (json key : Text) {r : Text × Bool}
    → written_string size json key ≡ some r
    → length r.0 + 1 ≤ size
unfolding written_string parsed
written_string-fits size json key e = elim (Option-cases (json_find_value json key)) [
  | inl missing ↦ absurd (cc (e, missing))
  | inr (s, found) ↦ opened_string-fits size s (rw found at e)
]
