-- ===== src/Scanner/Decoding.antt =====
-- find_ssid_ie against the information elements that an array of bytes encodes.
use sensor_lib.Prelude.{
  true, subst, length-append, length-take, length-drop, ℕ, zero, suc, ◌+◌, ◌≤◌, ◌<◌, ◌≡◌, refl, ap,
  sym, inl, inr, some, List, [], ◌∷◌, ◌++◌, Text, ◌==◌, if◌then◌else◌, leb, length, take, drop,
  arith, Bool-cases,
}
use mathlib.Core.List.{append_assoc}
use sensor_lib.Scanner.Elements.{
  byte_at, Search, found, absent, judge, search, find_ssid_ie, ssid_bytes,
}

-- An information element, whose length byte counts its data
pub record Element : Type 0 where
  pub id : ℕ
  pub body : Text

unfoldable pub encode : List Element → Text
encode [] = []
encode (e ∷ es) = e.id ∷ length e.body ∷ (e.body ++ encode es)

-- What is behind the last whole element: too short for its two bytes, or for the length it names.
abbrev pub IsCut : Text → Type 0
IsCut [] = Unit
IsCut (id ∷ []) = Unit
IsCut (id ∷ n ∷ s) = length s < n

-- Where the data of the first SSID element is, for elements that start at `pos`
unfoldable pub first_ssid : ℕ → List Element → Search
first_ssid pos [] = absent
first_ssid pos (e ∷ es) =
    let rest = first_ssid (pos + 2 + length e.body) es in
    if e.id == 0 then found (pos + 2) (length e.body) else rest

unfoldable pub first_body : List Element → Text
first_body [] = []
first_body (e ∷ es) = let rest = first_body es in if e.id == 0 then e.body else rest

-- `s` is what the array has from `pos` on.
record Suffix (ies : Text) (pos : ℕ) (s : Text) : Type 0 where
  rest : drop pos ies ≡ s
  size : length ies ≡ pos + length s

Suffix-next : (ies : Text) (pos c : ℕ) (s : Text) → Suffix ies pos (c ∷ s) → Suffix ies (suc pos) s
Suffix-next [] zero c s h = absurd (cc (h.rest))
Suffix-next [] (suc pos) c s h = absurd (cc (h.rest))
Suffix-next (b ∷ ies) zero c s h = record { rest = cc (h.rest); size = ground (arith, h.size) }
Suffix-next (b ∷ ies) (suc pos) c s h =
    let later = Suffix-next ies pos c s (record { rest = h.rest; size = omega (arith, h.size) }) in
    record { rest = later.rest; size = omega (arith, later.size) }

Suffix-skip :
    (a ies : Text) (pos : ℕ) (s : Text) → Suffix ies pos (a ++ s) → Suffix ies (pos + length a) s
Suffix-skip [] ies pos s h = let e : pos + 0 ≡ pos = omega arith in rw e h
Suffix-skip (c ∷ a) ies pos s h =
    let e : pos + suc (length a) ≡ suc pos + length a = omega arith in
    rw e (Suffix-skip a ies (suc pos) s (Suffix-next ies pos c (a ++ s) h))

byte_at-Suffix :
    (ies : Text) (pos c : ℕ) (s : Text) → Suffix ies pos (c ∷ s) → byte_at ies pos ≡ some c
unfolding byte_at
byte_at-Suffix [] zero c s h = absurd (cc (h.rest))
byte_at-Suffix [] (suc pos) c s h = absurd (cc (h.rest))
byte_at-Suffix (b ∷ ies) zero c s h = cc (h.rest)
byte_at-Suffix (b ∷ ies) (suc pos) c s h =
    byte_at-Suffix ies pos c s (record { rest = h.rest; size = omega (arith, h.size) })

-- The two bytes at the head of an element
byte_at-head :
    (ies : Text) (pos id n : ℕ) (s : Text)
    → Suffix ies pos (id ∷ n ∷ s)
    → (byte_at ies pos ≡ some id) × (byte_at ies (pos + 1) ≡ some n) × Suffix ies (pos + 2) s
byte_at-head ies pos id n s h =
    let one : pos + 1 ≡ suc pos = omega arith in
    let two : pos + 2 ≡ suc (suc pos) = omega arith in
    let next = Suffix-next ies pos id (n ∷ s) h in
    (
      byte_at-Suffix ies pos id (n ∷ s) h,
      rw one (byte_at-Suffix ies (suc pos) n s next),
      rw two (Suffix-next ies (suc pos) n s next),
    )

search-cut :
    (fuel : ℕ) (ies : Text) (pos : ℕ) (tail : Text)
    → IsCut tail
    → Suffix ies pos tail
    → length tail ≤ fuel
    → search fuel ies (length ies) pos ≡ absent
unfolding search judge
search-cut zero ies pos [] cut h enough = ground (arith, h.size)
search-cut (suc fuel) ies pos [] cut h enough = ground (arith, h.size)
search-cut zero ies pos (id ∷ tail) cut h enough = absurd (omega (arith, enough))
search-cut (suc fuel) ies pos (id ∷ []) cut h enough = ground (arith, h.size)
search-cut (suc fuel) ies pos (id ∷ n ∷ s) cut h enough =
    let b = byte_at-head ies pos id n s h in rw (b.0, b.1) (ground (arith, h.size, cut))

search-first :
    (fuel : ℕ) (ies : Text) (pos : ℕ) (es : List Element) (tail : Text)
    → IsCut tail
    → Suffix ies pos (encode es ++ tail)
    → length (encode es ++ tail) ≤ fuel
    → search fuel ies (length ies) pos ≡ first_ssid pos es
unfolding search judge first_ssid encode
search-first fuel ies pos [] tail cut h enough = search-cut fuel ies pos tail cut h enough
search-first zero ies pos (e ∷ es) tail cut h enough = absurd (omega (arith, enough))
search-first (suc fuel) ies pos (e ∷ es) tail cut h enough =
    let assoc = append_assoc e.body (encode es) tail in
    let b = byte_at-head ies pos e.id (length e.body) ((e.body ++ encode es) ++ tail) h in
    let later : Suffix ies (pos + 2 + length e.body) (encode es ++ tail) =
      Suffix-skip e.body ies (pos + 2) (encode es ++ tail)
        (subst (Suffix ies (pos + 2)) assoc b.2) in
    let shorter : length (encode es ++ tail) ≤ fuel =
      omega (arith, enough, length-append e.body (encode es ++ tail), ap length assoc) in
    let room : leb (pos + 2) (length ies) ≡ true = ground (arith, h.size) in
    let fits : leb (pos + 2 + length e.body) (length ies) ≡ true = ground (arith, later.size) in
    rw
      (
        b.0,
        b.1,
        room,
        fits,
        search-first fuel ies (pos + 2 + length e.body) es tail cut later shorter,
      )
      refl

take-append : (a s : Text) → take (length a) (a ++ s) ≡ a
take-append [] s = refl
take-append (c ∷ a) s = ap (λ r. c ∷ r) (take-append a s)

take-drop : (n : ℕ) (s : Text) → take n s ++ drop n s ≡ s
take-drop zero s = refl
take-drop (suc n) [] = refl
take-drop (suc n) (c ∷ s) = ap (λ r. c ∷ r) (take-drop n s)

ssid_bytes-first :
    (ies : Text) (pos : ℕ) (es : List Element) (tail : Text)
    → Suffix ies pos (encode es ++ tail)
    → ssid_bytes ies (first_ssid pos es) ≡ first_body es
unfolding ssid_bytes first_ssid first_body encode
ssid_bytes-first ies pos [] tail h = refl
ssid_bytes-first ies pos (e ∷ es) tail h =
    let assoc = append_assoc e.body (encode es) tail in
    let b = byte_at-head ies pos e.id (length e.body) ((e.body ++ encode es) ++ tail) h in
    let suffix : Suffix ies (pos + 2) (e.body ++ (encode es ++ tail)) =
      subst (Suffix ies (pos + 2)) assoc b.2 in
    elim (Bool-cases (e.id == 0)) [
      | inl ssid ↦ rw (ssid, suffix.rest) (take-append e.body (encode es ++ tail))
      | inr other ↦ rw other (
          ssid_bytes-first ies (pos + 2 + length e.body) es tail
            (Suffix-skip e.body ies (pos + 2) (encode es ++ tail) suffix))
    ]

-- The elements that an array encodes, and what it has behind them
record Decoded (ies : Text) : Type 0 where
  elements : List Element
  tail : Text
  encodes : ies ≡ encode elements ++ tail
  cut : IsCut tail

decode : (n : ℕ) (ies : Text) → length ies ≤ n → Decoded ies
unfolding encode
decode n [] enough = record { elements = []; tail = []; encodes = refl; cut = tt }
decode n (id ∷ []) enough = record { elements = []; tail = id ∷ []; encodes = refl; cut = tt }
decode zero (id ∷ k ∷ s) enough = absurd (omega (arith, enough))
decode (suc n) (id ∷ k ∷ s) enough = elim (Bool-cases (leb k (length s))) [
  | inr short ↦ record {
    elements = [];
    tail = id ∷ k ∷ s;
    encodes = refl;
    cut = ground (arith, short);
  }
  | inl whole ↦
      let rest = decode n (drop k s) (omega (arith, enough, length-drop k s)) in
      let size : length (take k s) ≡ k = ground (arith, whole, length-take k s) in
      record {
        elements = record { id = id; body = take k s } ∷ rest.elements;
        tail = rest.tail;
        encodes =
            rw
              (
                size,
                append_assoc (take k s) (encode rest.elements) rest.tail,
                sym rest.encodes,
                take-drop k s,
              )
              refl;
        cut = rest.cut;
      }
]

-- Every array of bytes is a sequence of whole information elements and a rest that is too short for
-- another one. On it find_ssid_ie ends within as many rounds as the array has bytes, reads no byte
-- outside of it, and returns where the data of the first of these elements with id 0 lies, or the
-- null pointer if none has id 0; the bytes there are the data of that element.
pub find_ssid_ie_lem :
    (ies : Text)
    → (es : List Element) × (tail : Text) × (ies ≡ encode es ++ tail)
      × IsCut tail
      × (find_ssid_ie ies ≡ first_ssid 0 es)
      × (ssid_bytes ies (find_ssid_ie ies) ≡ first_body es)
unfolding find_ssid_ie
find_ssid_ie_lem ies =
    let d = decode (length ies) ies (omega arith) in
    let start : Suffix ies 0 (encode d.elements ++ d.tail) = record {
      rest = d.encodes;
      size = omega (arith, ap length d.encodes);
    } in
    let ends : length (encode d.elements ++ d.tail) ≤ length ies =
      omega (arith, ap length d.encodes) in
    let first = search-first (length ies) ies 0 d.elements d.tail d.cut start ends in
    (
      d.elements,
      d.tail,
      d.encodes,
      d.cut,
      first,
      rw first (ssid_bytes-first ies 0 d.elements d.tail start),
    )
