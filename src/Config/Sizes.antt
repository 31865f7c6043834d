-- ===== src/Config/Sizes.antt =====
-- internal/config/config.go: `parseBytes` and `parseBool`.
pub mod Units
use gha_cache_server.Base.{
  ℕ, ◌-◌, ◌*◌, ◌^◌, ◌%◌, Bool, ◌||◌, [], ◌∷◌, ltb, ◌==◌, if◌then◌else◌, Bytes, codes, bytes_eq,
}
use gha_cache_server.Base.Int.{ℤ, pos, negsuc, wrap_int64}
use gha_cache_server.Base.Spaces.{trim_space}
use gha_cache_server.Base.Decimal.{Parsed, number, syntax, range, parse_int}

pub data SizeError : Type 0 where
  empty_value : SizeError
  -- "invalid byte size %q", with the text as it was then
  invalid_size : Bytes → SizeError
  negative_size : ℤ → SizeError

pub data Size : Type 0 where
  size : ℤ → Size
  refused : SizeError → Size

-- `strings.TrimSuffix(s, c)` for a suffix of one byte.
unfoldable pub trim_suffix : ℕ → Bytes → Bytes
trim_suffix c [] = []
trim_suffix c (x ∷ []) = if x == c then [] else x ∷ []
trim_suffix c (x ∷ y ∷ s) = x ∷ trim_suffix c (y ∷ s)

-- `s[len(s)-1]` and `s[:len(s)-1]` of the text `x ∷ s`.
unfoldable pub last : ℕ → Bytes → ℕ
last x [] = x
last x (y ∷ s) = last y s

unfoldable pub init : ℕ → Bytes → Bytes
init x [] = []
init x (y ∷ s) = x ∷ init y s

-- `mul`; 1 where the byte is no unit.
unfoldable pub multiplier : ℕ → ℕ
multiplier c =
    if c == b'K' || c == b'k'
    then 2 ^ 10
    else if c == b'M' || c == b'm'
    then 2 ^ 20
    else if c == b'G' || c == b'g'
    then 2 ^ 30
    else if c == b'T' || c == b't'
    then 2 ^ 40
    else 1

-- The text `s`, and what is parsed of the digits in it.
unfoldable pub scaled : Bytes → ℕ → Parsed → Size
scaled s mul (number (pos n)) = size (wrap_int64 (n * mul))
scaled s mul (number (negsuc n)) = refused (negative_size (negsuc n))
scaled s mul syntax = refused (invalid_size s)
scaled s mul (range n) = refused (invalid_size s)

-- From the suffix on.
unfoldable pub parse_unit : Bytes → Size
unfolding last init multiplier scaled
parse_unit [] = refused (invalid_size [])
parse_unit (x ∷ s) =
    let mul = multiplier (last x s) in
    let digits = if mul == 1 then x ∷ s else init x s in
    scaled (x ∷ s) mul (parse_int (trim_space digits))

parse_trimmed : Bytes → Size
unfolding parse_unit trim_suffix
parse_trimmed [] = refused empty_value
parse_trimmed (x ∷ s) = parse_unit (trim_suffix b'I' (trim_suffix b'i' (x ∷ s)))

unfoldable pub parse_bytes : Bytes → Size
unfolding parse_trimmed
parse_bytes s = parse_trimmed (trim_space s)

unfoldable pub parse_bool : Bytes → Bool
parse_bool v =
    bytes_eq v (codes "1")
    || bytes_eq v (codes "true")
    || bytes_eq v (codes "TRUE")
    || bytes_eq v (codes "True")
    || bytes_eq v (codes "yes")
    || bytes_eq v (codes "on")
