-- ===== src/Comms/Strings.antt =====
-- The string helpers of comms_runtime.cpp.
use sensor_lib.Prelude.{
  ℕ, ◌-◌, Bool, true, false, ◌&&◌, ◌||◌, [], ◌∷◌, ◌++◌, map, Text, bytes, leb, ◌==◌, if◌then◌else◌,
  take,
}
use mathlib.Core.List.{reverse}

-- One of " \t\r\n"
abbrev pub is_blank : ℕ → Bool
is_blank c = c == 32 || c == 9 || c == 13 || c == 10

-- From the first character that is not blank on.
unfoldable pub skip_blanks : Text → Text
skip_blanks [] = []
skip_blanks (c ∷ s) = let rest = skip_blanks s in if is_blank c then rest else c ∷ s

-- trim_copy
unfoldable pub trim_copy : Text → Text
unfolding skip_blanks
trim_copy value = reverse (skip_blanks (reverse (skip_blanks value)))

-- std::toupper in the C locale
unfoldable pub to_upper : ℕ → ℕ
to_upper c = if leb b'a' c && leb c b'z' then c - 32 else c

-- normalize_mac
unfoldable pub normalize_mac : Text → Text
unfolding to_upper
normalize_mac value = map to_upper value

-- `s.rfind(prefix, 0) == 0`
unfoldable pub starts_with : Text → Text → Bool
starts_with [] s = true
starts_with (c ∷ p) [] = false
starts_with (c ∷ p) (d ∷ s) = c == d && starts_with p s

abbrev pub hello_payload : Text
hello_payload = bytes "Hello Pi World"

abbrev pub reply_prefix : Text
reply_prefix = bytes "Hello Back from "

-- starts_with_reply_prefix
unfoldable pub starts_with_reply_prefix : Text → Bool
unfolding starts_with
starts_with_reply_prefix payload = starts_with reply_prefix payload

-- The loop of make_link_id: all but the colons.
unfoldable pub compact : Text → Text
compact [] = []
compact (c ∷ s) = let rest = compact s in if c == b':' then rest else c ∷ rest

-- make_link_id
unfoldable pub make_link_id : Text → Text → Text
unfolding compact
make_link_id prefix mac_address = take 19 (prefix ++ compact mac_address)
