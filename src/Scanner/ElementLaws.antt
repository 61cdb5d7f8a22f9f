-- ===== src/Scanner/ElementLaws.antt =====
-- The walk over information elements stays in the array, ends, and finds the SSID.
use sensor_lib.Prelude.{
  ℕ, zero, suc, ◌+◌, ◌-◌, ◌≤◌, ◌<◌, ◌≡◌, refl, ap, ◌∙◌, Bool-cases, inl, inr, some, [], ◌∷◌, Text,
  ◌==◌, leb, length, arith,
}
use sensor_lib.Scanner.Elements.{
  byte_at, Search, found, absent, out_of_bounds, unfinished, judge, search, find_ssid_ie,
}

-- What the walk may return: nothing, or an element with id 0 whose data lies in the array.
abbrev IsSsid : Text → Search → Type 0
IsSsid ies (found p n) =
    (2 ≤ p) × (p + n ≤ length ies) × (byte_at ies (p - 2) ≡ some 0) × (byte_at ies (p - 1) ≡ some n)
IsSsid ies absent = Unit {0}
IsSsid ies out_of_bounds = ⊥
IsSsid ies unfinished = ⊥

byte_at-some : (ies : Text) (p : ℕ) → p < length ies → (b : ℕ) × (byte_at ies p ≡ some b)
unfolding byte_at
byte_at-some [] p h = ground arith
byte_at-some (b ∷ ies) zero h = (b, refl)
byte_at-some (b ∷ ies) (suc p) h = byte_at-some ies p (omega (arith, h))

judge-IsSsid :
    (ies : Text) (p id n : ℕ) (rest : ℕ → Search)
    → p + 2 ≤ length ies
    → byte_at ies p ≡ some id
    → byte_at ies (p + 1) ≡ some n
    → IsSsid ies (rest (p + 2 + n))
    → IsSsid ies (judge (length ies) p (some id) (some n) rest)
unfolding judge
judge-IsSsid ies p id n rest room e e' ih = elim (Bool-cases (leb (p + 2 + n) (length ies))) [
  | inr long ↦ rw long tt
  | inl fits ↦ elim (Bool-cases (id == 0)) [
    | inr other ↦ rw (fits, other) ih
    | inl zero_id ↦
        let at_id : p + 2 - 2 ≡ p = omega arith in
        let at_len : p + 2 - 1 ≡ p + 1 = omega arith in
        let is_zero : id ≡ 0 = ground arith in
        rw (fits, zero_id)
          (
            omega arith,
            ground (arith, fits),
            ap (byte_at ies) at_id ∙ e ∙ ap some is_zero,
            ap (byte_at ies) at_len ∙ e',
          )
  ]
]

search-IsSsid :
    (fuel : ℕ) (ies : Text) (p : ℕ)
    → length ies ≤ p + fuel
    → IsSsid ies (search fuel ies (length ies) p)
unfolding search
search-IsSsid zero ies p enough = elim (Bool-cases (leb (p + 2) (length ies))) [
  | inl room ↦ absurd (ground (arith, room, enough))
  | inr over ↦ rw over tt
]
search-IsSsid (suc fuel) ies p enough = elim (Bool-cases (leb (p + 2) (length ies))) [
  | inr over ↦ rw over tt
  | inl room ↦
      let two : p + 2 ≤ length ies = ground (arith, room) in
      let (id, e) = byte_at-some ies p (omega (arith, two)) in
      let (n, e') = byte_at-some ies (p + 1) (omega (arith, two)) in
      rw (room, e, e')
        (judge-IsSsid ies p id n (search fuel ies (length ies)) two e e'
          (search-IsSsid fuel ies (p + 2 + n) (omega (arith, enough))))
]

-- On any array find_ssid_ie ends within as many rounds as the array has bytes and reads no byte
-- outside of it; what it finds is the data of an element whose id byte is 0 and whose length byte is
-- the length found, and lies in the array.
find_ssid_ie-IsSsid : (ies : Text) → IsSsid ies (find_ssid_ie ies)
unfolding find_ssid_ie
find_ssid_ie-IsSsid ies = search-IsSsid (length ies) ies 0 (omega arith)
