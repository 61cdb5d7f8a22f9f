-- ===== src/Instrument/Json.antt =====
-- json_find_value, json_parse_int, json_parse_number and json_parse_string of instrument_api.c.
pub mod Escape
use sensor_lib.Prelude.{
  ℕ, zero, suc, ◌+◌, ◌-◌, Bool, true, false, Option, none, some, [], ◌∷◌, ◌++◌, Text, ℤ, ◌==◌, leb,
  if◌then◌else◌, length,
}
use sensor_lib.CText.{find, skip_space, strtol, to_int, past}

-- The pattern "key": of snprintf
abbrev pub pattern_of : Text → Text
pattern_of key = b'"' ∷ (key ++ b'"' ∷ b':' ∷ [])

unfoldable pub value_after : Text → Option Text → Option Text
unfolding skip_space
value_after p none = none
value_after p (some s) = some (skip_space (past p s))

-- json_find_value; the pattern has to fit in 64 bytes
unfoldable pub json_find_value : Text → Text → Option Text
unfolding value_after find
json_find_value json key =
    let p = pattern_of key in if leb 64 (length p) then none else value_after p (find p json)

unfoldable pub parsed {ℓ} : {A : Type ℓ} → (Text → Option A) → Option Text → Option A
parsed f none = none
parsed f (some s) = f s

unfoldable pub int_of : Option ℤ → Option ℤ
unfolding to_int
int_of none = none
int_of (some n) = some (to_int n)

-- json_parse_int; `none` is the result false
unfoldable pub json_parse_int : Text → Text → Option ℤ
unfolding parsed int_of strtol json_find_value
json_parse_int json key = int_of (parsed strtol (json_find_value json key))

-- json_parse_number, with strtold given
unfoldable pub json_parse_number : (Text → Option ℕ) → Text → Text → Option ℕ
unfolding parsed json_find_value
json_parse_number strtold json key = parsed strtold (json_find_value json key)

-- The character that is read at `c`, and the rest; a backslash before a character is skipped
unfoldable pub unescape : ℕ → Text → ℕ × Text
unescape c [] = (c, [])
unescape c (d ∷ s) = if c == b'\\' then (d, s) else (c, d ∷ s)

-- The loop of json_parse_string, with the room that is left: what it writes, and whether it ended
-- at a quotation mark
unfoldable pub read_string : ℕ → Text → Text × Bool
unfolding unescape
read_string room [] = ([], false)
read_string zero (c ∷ s) = ([], c == b'"')
read_string (suc room) (c ∷ s) =
    let later = read_string room (unescape c s).1 in
    if c == b'"' then ([], true) else ((unescape c s).0 ∷ later.0, later.1)

unfoldable pub opened_string : ℕ → Text → Option (Text × Bool)
unfolding read_string
opened_string size [] = none
opened_string size (c ∷ s) =
    if c == b'"' then (if size == 0 then none else some (read_string (size - 1) s)) else none

-- What json_parse_string writes to the buffer of `size` bytes, if it does, and its result
unfoldable pub written_string : ℕ → Text → Text → Option (Text × Bool)
unfolding parsed opened_string json_find_value
written_string size json key = parsed (opened_string size) (json_find_value json key)

unfoldable pub if_closed : Option (Text × Bool) → Option Text
if_closed none = none
if_closed (some (s, closed)) = if closed then some s else none

-- json_parse_string: the string, if the result is true
unfoldable pub json_parse_string : ℕ → Text → Text → Option Text
unfolding if_closed written_string
json_parse_string size json key = if_closed (written_string size json key)
