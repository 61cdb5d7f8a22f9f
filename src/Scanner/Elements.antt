-- ===== src/Scanner/Elements.antt =====
-- find_ssid_ie of wifi_scanner_bridge.cpp: the walk over the information elements of a beacon. A
-- read outside the array is a result of its own. The fuel bounds the rounds of the loop; the length
-- of the array is enough, as every round moves on by two bytes at least.
use sensor_lib.Prelude.{
  ℕ, zero, suc, ◌+◌, Option, none, some, [], ◌∷◌, Text, ◌==◌, leb, if◌then◌else◌, length, take,
  drop,
}

-- `ies[pos]`, if it is in the array
unfoldable pub byte_at : Text → ℕ → Option ℕ
byte_at [] pos = none
byte_at (b ∷ ies) zero = some b
byte_at (b ∷ ies) (suc pos) = byte_at ies pos

pub data Search : Type 0 where
  -- the position and length of the SSID
  found : ℕ → ℕ → Search
  -- nullptr
  absent : Search
  out_of_bounds : Search
  unfinished : Search

-- What one round makes of the two bytes at `pos`, given the rest of the loop
unfoldable pub judge : ℕ → ℕ → Option ℕ → Option ℕ → (ℕ → Search) → Search
judge len pos (some id) (some ie_len) rest =
    if leb (pos + 2 + ie_len) len
    then if id == 0 then found (pos + 2) ie_len else rest (pos + 2 + ie_len)
    else absent
judge len pos _ _ rest = out_of_bounds

-- `while (pos + 2 <= len)`
unfoldable pub search : ℕ → Text → ℕ → ℕ → Search
unfolding judge byte_at
search zero ies len pos = if leb (pos + 2) len then unfinished else absent
search (suc fuel) ies len pos =
    if leb (pos + 2) len
    then judge len pos (byte_at ies pos) (byte_at ies (pos + 1)) (search fuel ies len)
    else absent

-- find_ssid_ie, on an array with its length
unfoldable pub find_ssid_ie : Text → Search
unfolding search
find_ssid_ie ies = search (length ies) ies (length ies) 0

-- The bytes that a search has found, as `assign` copies them
unfoldable pub ssid_bytes : Text → Search → Text
ssid_bytes ies (found pos len) = take len (drop pos ies)
ssid_bytes ies _ = []
