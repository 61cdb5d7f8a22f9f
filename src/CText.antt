-- ===== src/CText.antt =====
-- The functions of the C library on strings that src/instrument_api.c and src/bluez_scanner.c use:
-- isspace, strstr, strncmp with a literal, strncpy, strtol and strtoul; and copy_string, which both
-- files have. A pointer into a string is the rest of the string, without its terminating zero.
pub mod Laws
use sensor_lib.Prelude.{
  ℕ, zero, suc, ◌+◌, ◌-◌, ◌*◌, ◌%◌, ◌^◌, Bool, true, false, ◌&&◌, ◌||◌, Option, none, some, [], ◌∷◌,
  Text, ℤ, pos, negsuc, ◌==◌, leb, ltb, if◌then◌else◌, length, drop,
}

-- isspace in the C locale
unfoldable pub is_space : ℕ → Bool
is_space c = c == 32 || leb 9 c && leb c 13

-- while ((*s != '\0') && isspace(*s)) ++s;
unfoldable pub skip_space : Text → Text
unfolding is_space
skip_space [] = []
skip_space (c ∷ s) = if is_space c then skip_space s else c ∷ s

-- strncmp(s, p, strlen(p)) == 0
unfoldable pub starts_with : Text → Text → Bool
starts_with [] s = true
starts_with (c ∷ p) [] = false
starts_with (c ∷ p) (d ∷ s) = c == d && starts_with p s

-- strstr(s, p): the rest of `s` from the first place where `p` stands
unfoldable pub find : Text → Text → Option Text
unfolding starts_with
find p [] = if starts_with p [] then some [] else none
find p (c ∷ s) = if starts_with p (c ∷ s) then some (c ∷ s) else find p s

-- strncpy(dst, src, n), and a zero behind it
unfoldable pub strncpy : ℕ → Text → Text
strncpy zero s = []
strncpy (suc n) [] = []
strncpy (suc n) (c ∷ s) = if c == 0 then [] else c ∷ strncpy n s

-- copy_string, into a buffer of `size` bytes
unfoldable pub copy_string : ℕ → Text → Text
unfolding strncpy
copy_string size src = strncpy (size - 1) src

unfoldable pub is_digit : ℕ → Bool
is_digit c = leb b'0' c && leb c b'9'

unfoldable pub decimal : ℕ → Text → ℕ
unfolding is_digit
decimal n [] = n
decimal n (c ∷ s) = if is_digit c then decimal (n * 10 + (c - 48)) s else n

-- The digits at the start, if there are any
unfoldable pub unsigned_decimal : Text → Option ℕ
unfolding decimal is_digit
unsigned_decimal [] = none
unsigned_decimal (c ∷ s) = if is_digit c then some (decimal 0 (c ∷ s)) else none

-- A long: LONG_MAX and LONG_MIN where the number is outside the range
unfoldable pub to_long : Bool → ℕ → ℤ
to_long false n = if ltb n (2 ^ 63) then pos n else pos (2 ^ 63 - 1)
to_long true n =
    if n == 0 then pos 0 else if leb n (2 ^ 63) then negsuc (n - 1) else negsuc (2 ^ 63 - 1)

unfoldable pub long_of : Bool → Option ℕ → Option ℤ
unfolding to_long
long_of negative none = none
long_of negative (some n) = some (to_long negative n)

unfoldable pub signed_decimal : Text → Option ℤ
unfolding long_of unsigned_decimal
signed_decimal [] = none
signed_decimal (c ∷ s) =
    if c == b'-'
    then long_of true (unsigned_decimal s)
    else if c == b'+'
    then long_of false (unsigned_decimal s)
    else long_of false (unsigned_decimal (c ∷ s))

-- strtol(s, &end, 10); `none` is `end == s`
unfoldable pub strtol : Text → Option ℤ
unfolding signed_decimal skip_space
strtol s = signed_decimal (skip_space s)

-- The bit pattern of a number in `w` bits, and the number that a pattern stands for
abbrev pub wrap : ℕ → ℤ → ℕ
wrap w (pos n) = n % 2 ^ w
wrap w (negsuc n) = 2 ^ w - 1 - n % 2 ^ w

abbrev pub signed : ℕ → ℕ → ℤ
signed w p = if ltb p (2 ^ (w - 1)) then pos p else negsuc (2 ^ w - 1 - p)

-- The casts to int and to int16_t
unfoldable pub to_int : ℤ → ℤ
to_int n = signed 32 (wrap 32 n)

unfoldable pub to_int16 : ℤ → ℤ
to_int16 n = signed 16 (wrap 16 n)

-- The value of a hexadecimal digit
unfoldable pub hex_digit : ℕ → Option ℕ
unfolding is_digit
hex_digit c =
    if is_digit c
    then some (c - 48)
    else if leb b'a' c && leb c b'f'
    then some (c - 87)
    else if leb b'A' c && leb c b'F'
    then some (c - 55)
    else none

-- A pointer moved past what stands there
abbrev pub past : Text → Text → Text
past p s = drop (length p) s
