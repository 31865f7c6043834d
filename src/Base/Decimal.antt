-- ===== src/Base/Decimal.antt =====
-- Decimal text: `strconv.FormatInt(n, 10)`, `%d`, and the digits that `strconv.Atoi` and
-- `strconv.ParseInt` read.
use Prim.Native.Nat.{ℕ, zero, suc, ◌+◌, ◌-◌, ◌*◌, ◌/◌, ◌%◌, ◌≤◌, ◌<◌, ◌^◌}
use mathlib.Core.Path.{◌≡◌, refl, sym, ap, ◌∙◌}
use mathlib.Core.Bool.{Bool, true, false, ◌&&◌}
use mathlib.Core.List.{[], ◌∷◌}
use gha_cache_server.Base.Lists.{All}
use mathlib.Core.Logic.{inl, inr}
use native.Mathlib.Omega.{arith}
use gha_cache_server.Base.Tests.{ltb, leb, ◌==◌, if◌then◌else◌, Bool-cases}
use gha_cache_server.Base.Strings.{Bytes}
use gha_cache_server.Base.Int.{ℤ, pos, negsuc}

-- The digits of `n` in front of `out`; one unit of fuel for each digit.
digits : ℕ → ℕ → Bytes → Bytes
digits zero n out = out
digits (suc f) n out =
    let out' : Bytes = (48 + n % 10) ∷ out in
    let rest = digits f (n / 10) out' in if ltb n 10 then out' else rest

unfoldable pub format_nat : ℕ → Bytes
unfolding digits
format_nat n = digits (suc n) n []

unfoldable pub format_int : ℤ → Bytes
unfolding format_nat
format_int (pos n) = format_nat n
format_int (negsuc n) = b'-' ∷ format_nat (suc n)

-- What `strconv.ParseUint` makes of a run of digits behind `acc`: it stops at the first byte that is
-- no digit, or where the value passes 64 bits.
pub data Scanned : Type 0 where
  value : ℕ → Scanned
  not_digits : Scanned
  too_large : Scanned

unfoldable pub scan_digits : ℕ → Bytes → Scanned
scan_digits acc [] = value acc
scan_digits acc (c ∷ s) =
    let n = acc * 10 + (c - 48) in
    let rest = scan_digits n s in
    if leb 48 c && leb c 57 then (if leb (2 ^ 64) n then too_large else rest) else not_digits

-- The digits must be there.
abbrev pub scan_number : Bytes → Scanned
scan_number [] = not_digits
scan_number (c ∷ s) = scan_digits 0 (c ∷ s)

abbrev pub int64_max : ℕ
int64_max = 2 ^ 63 - 1

abbrev pub negate : ℕ → ℤ
negate zero = pos 0
negate (suc n) = negsuc n

-- What a parse makes of a text: a number, or one of the two errors.
pub data Parsed : Type 0 where
  number : ℤ → Parsed
  -- `ErrSyntax`, where the value that comes with the error is 0
  syntax : Parsed
  -- `ErrRange`, with the nearest value
  range : ℤ → Parsed

abbrev pub in_range : Bool → Scanned → Parsed
in_range negative not_digits = syntax
in_range true too_large = range (negsuc int64_max)
in_range false too_large = range (pos int64_max)
in_range true (value n) = if leb n (2 ^ 63) then number (negate n) else range (negsuc int64_max)
in_range false (value n) = if leb n int64_max then number (pos n) else range (pos int64_max)

-- `strconv.ParseInt(s, 10, 64)`, and `strconv.Atoi(s)` where an `int` has 64 bits.
unfoldable pub parse_int : Bytes → Parsed
unfolding scan_digits
parse_int [] = syntax
parse_int (c ∷ s) =
    if c == b'-'
    then in_range true (scan_number s)
    else if c == b'+'
    then in_range false (scan_number s)
    else in_range false (scan_number (c ∷ s))

-- The digits that a number prints as are scanned as that number.
scan_digits-digits :
    (f n : ℕ) (out : Bytes)
    → n < f
    → n < 2 ^ 64
    → scan_digits 0 (digits f n out) ≡ scan_digits n out
unfolding digits scan_digits
scan_digits-digits zero n out h small = elim h [ ]
scan_digits-digits (suc f) n out h small = elim (Bool-cases (ltb n 10)) [
  | inl digit ↦ rw digit (ground arith)
  | inr more ↦ rw more (
      scan_digits-digits f (n / 10) ((48 + n % 10) ∷ out) (ground arith) (ground arith)
      ∙ ground arith)
]

abbrev pub IsDigit : ℕ → Type 0
IsDigit c = (48 ≤ c) × (c ≤ 57)

digits-IsDigit : (f n : ℕ) (out : Bytes) → All IsDigit out → All IsDigit (digits f n out)
unfolding digits
digits-IsDigit zero n out h = h
digits-IsDigit (suc f) n out h =
    let first : IsDigit (48 + n % 10) = (omega arith, omega arith) in
    let more = digits-IsDigit f (n / 10) ((48 + n % 10) ∷ out) (first, h) in
    elim (Bool-cases (ltb n 10)) [ inl digit ↦ rw digit (first, h) | inr longer ↦ rw longer more ]

pub format_int-IsDigit : (n : ℕ) → All IsDigit (format_int (pos n))
unfolding format_int format_nat
format_int-IsDigit n = digits-IsDigit (suc n) n [] tt

-- A number prints as one digit at least.
digits-first :
    (f n : ℕ) (out : Bytes) → (c : ℕ) × (s : Bytes) × (digits (suc f) n out ≡ c ∷ s) × (48 ≤ c)
unfolding digits
digits-first zero n out = elim (Bool-cases (ltb n 10)) [
  | inl digit ↦ rw digit (48 + n % 10, out, refl, omega arith)
  | inr more ↦ rw more (48 + n % 10, out, refl, omega arith)
]
digits-first (suc f) n out =
    let rest = digits-first f (n / 10) ((48 + n % 10) ∷ out) in
    elim (Bool-cases (ltb n 10)) [
      | inl digit ↦ rw digit (48 + n % 10, out, refl, omega arith)
      | inr more ↦ rw more rest
    ]

pub format_int-first : (n : ℕ) → (c : ℕ) × (s : Bytes) × (format_int (pos n) ≡ c ∷ s)
unfolding format_int format_nat
format_int-first n = let (c, s, e, digit) = digits-first n n [] in (c, s, e)

parse_int-value :
    (c : ℕ) (s : Bytes) (n : ℕ)
    → 48 ≤ c
    → scan_digits 0 (c ∷ s) ≡ value n
    → n ≤ int64_max
    → parse_int (c ∷ s) ≡ number (pos n)
unfolding parse_int
parse_int-value c s n digit scanned small =
    let no_minus : (c == b'-') ≡ false = ground arith in
    let no_plus : (c == b'+') ≡ false = ground arith in
    let fits : leb n int64_max ≡ true = ground arith in
    rw (no_minus, no_plus) (rw scanned (rw fits refl))

-- A number of 63 bits is printed and parsed as itself.
pub parse_int-format_int : (n : ℕ) → n ≤ int64_max → parse_int (format_int (pos n)) ≡ number (pos n)
unfolding format_int format_nat scan_digits
parse_int-format_int n small =
    let (c, s, e, digit) = digits-first n n [] in
    let scanned = scan_digits-digits (suc n) n [] (omega arith) (omega arith) in
    ap parse_int e ∙ parse_int-value c s n digit (ap (scan_digits 0) (sym e) ∙ scanned) small
