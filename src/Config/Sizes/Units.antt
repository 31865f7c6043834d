-- ===== src/Config/Sizes/Units.antt =====
-- internal/config/config.go: what `parseBytes` reads from a number with a unit.
use mathlib.Core.List.{reverse, reverse-cons, reverse-reverse}
use mathlib.Core.Path.{subst}
use gha_cache_server.Base.{
  ℕ, ◌*◌, ◌≡◌, ◌≢◌, refl, sym, ap, ◌∙◌, ◌≤◌, ◌<◌, ◌==◌, false, [], ◌∷◌, ◌++◌, length, All, Bytes,
  arith,
}
use gha_cache_server.Base.Int.{wrap_int64, pos}
use gha_cache_server.Base.Spaces.{space_at, space_before, trim_with-kept, trim_space}
use gha_cache_server.Base.Decimal.{
  parse_int, format_int, int64_max, parse_int-format_int, IsDigit, format_int-IsDigit,
  format_int-first,
}
use gha_cache_server.Config.Sizes.{
  size, trim_suffix, last, init, multiplier, parse_unit, parse_bytes,
}

-- ASCII, but for the space and the control characters.
abbrev IsGraphic : ℕ → Type 0
IsGraphic c = (32 < c) × (c < 128)

space_at-IsGraphic : (c : ℕ) (s : Bytes) → IsGraphic c → space_at (c ∷ s) ≡ 0
unfolding space_at
space_at-IsGraphic c [] g = ground arith
space_at-IsGraphic c (b ∷ []) g = ground arith
space_at-IsGraphic c (b ∷ a ∷ s) g = ground arith

space_before-IsGraphic : (c : ℕ) (s : Bytes) → IsGraphic c → space_before (c ∷ s) ≡ 0
unfolding space_before
space_before-IsGraphic c [] g = ground arith
space_before-IsGraphic c (b ∷ []) g = ground arith
space_before-IsGraphic c (b ∷ a ∷ s) g = ground arith

reverse-last : (x : ℕ) (s : Bytes) → reverse (x ∷ s) ≡ last x s ∷ reverse (init x s)
unfolding last init
reverse-last x [] = refl
reverse-last x (y ∷ s) =
    reverse-cons x (y ∷ s)
    ∙ ap (λ r. r ++ x ∷ []) (reverse-last y s)
    ∙ ap (λ r. last y s ∷ r) (sym (reverse-cons x (init y s)))

trim_space-IsGraphic :
    (x : ℕ) (s : Bytes) → IsGraphic x → IsGraphic (last x s) → trim_space (x ∷ s) ≡ x ∷ s
unfolding trim_space
trim_space-IsGraphic x s first end =
    rw (trim_with-kept space_at (length (x ∷ s)) (x ∷ s) (space_at-IsGraphic x s first)) (
      rw
        (trim_with-kept space_before (length (x ∷ s)) (reverse (x ∷ s)) (
          ap space_before (reverse-last x s)
          ∙ space_before-IsGraphic (last x s) (reverse (init x s)) end))
        (reverse-reverse (x ∷ s)))

last-All : (P : ℕ → Type 0) (x : ℕ) (s : Bytes) → All P (x ∷ s) → P (last x s)
unfolding last
last-All P x [] h = h.0
last-All P x (y ∷ s) h = last-All P y s h.1

last-append : (x c : ℕ) (s : Bytes) → last x (s ++ c ∷ []) ≡ c
unfolding last
last-append x c [] = refl
last-append x c (y ∷ s) = last-append y c s

init-append : (x c : ℕ) (s : Bytes) → init x (s ++ c ∷ []) ≡ x ∷ s
unfolding init
init-append x c [] = refl
init-append x c (y ∷ s) = ap (λ r. x ∷ r) (init-append y c s)

trim_suffix-append : (c x : ℕ) (s : Bytes) → trim_suffix c (x ∷ s ++ c ∷ []) ≡ x ∷ s
unfolding trim_suffix
trim_suffix-append c x [] = ground arith
trim_suffix-append c x (y ∷ s) = ap (λ r. x ∷ r) (trim_suffix-append c y s)

trim_suffix-other :
    (c d x : ℕ) (s : Bytes) → d ≢ c → trim_suffix c (x ∷ s ++ d ∷ []) ≡ x ∷ s ++ d ∷ []
unfolding trim_suffix
trim_suffix-other c d x [] other = ground arith
trim_suffix-other c d x (y ∷ s) other = ap (λ r. x ∷ r) (trim_suffix-other c d y s other)

-- A unit is a letter, and neither of the two that are trimmed.
multiplier-IsGraphic :
    (u : ℕ)
    → multiplier u ≢ 1
    → IsGraphic u × (u ≢ b'i') × (u ≢ b'I') × ((multiplier u == 1) ≡ false)
unfolding multiplier
multiplier-IsGraphic u unit =
    ((ground arith, ground arith), ground arith, ground arith, ground arith)

last-IsGraphic : (x : ℕ) (s : Bytes) → All IsDigit (x ∷ s) → IsGraphic (last x s)
last-IsGraphic x s h = let (low, high) = last-All IsDigit x s h in (omega arith, omega arith)

module _ (n u : ℕ) (small : n ≤ int64_max) (unit : multiplier u ≢ 1) where
  parse_unit-number :
      (x : ℕ) (s : Bytes)
      → format_int (pos n) ≡ x ∷ s
      → parse_unit (x ∷ s ++ u ∷ []) ≡ size (wrap_int64 (n * multiplier u))
  unfolding parse_unit
  parse_unit-number x s printed =
      let digit : All IsDigit (x ∷ s) = subst (All IsDigit) printed (format_int-IsDigit n) in
      let no_one = (multiplier-IsGraphic u unit).3 in
      rw (last-append x u s, no_one, init-append x u s)
        (rw (trim_space-IsGraphic x s (omega arith, omega arith) (last-IsGraphic x s digit))
          (rw (sym (ap parse_int printed) ∙ parse_int-format_int n small) refl))

  parse_bytes-plain :
      (x : ℕ) (s : Bytes)
      → format_int (pos n) ≡ x ∷ s
      → parse_bytes (x ∷ s ++ u ∷ []) ≡ parse_unit (x ∷ s ++ u ∷ [])
  unfolding parse_bytes
  parse_bytes-plain x s printed =
      let digit : All IsDigit (x ∷ s) = subst (All IsDigit) printed (format_int-IsDigit n) in
      let (graphic, no_i, no_I, no_one) = multiplier-IsGraphic u unit in
      rw
        (trim_space-IsGraphic x (s ++ u ∷ []) (omega arith, omega arith)
          (subst IsGraphic (sym (last-append x u s)) graphic))
        (rw (trim_suffix-other b'i' u x s no_i) (ap parse_unit (trim_suffix-other b'I' u x s no_I)))

  parse_bytes-binary :
      (x : ℕ) (s : Bytes)
      → format_int (pos n) ≡ x ∷ s
      → parse_bytes (x ∷ (s ++ u ∷ []) ++ b'i' ∷ []) ≡ parse_unit (x ∷ s ++ u ∷ [])
  unfolding parse_bytes
  parse_bytes-binary x s printed =
      let digit : All IsDigit (x ∷ s) = subst (All IsDigit) printed (format_int-IsDigit n) in
      let (graphic, no_i, no_I, no_one) = multiplier-IsGraphic u unit in
      rw
        (trim_space-IsGraphic x ((s ++ u ∷ []) ++ b'i' ∷ []) (omega arith, omega arith)
          (subst IsGraphic (sym (last-append x b'i' (s ++ u ∷ []))) (omega arith, omega arith)))
        (rw (trim_suffix-append b'i' x (s ++ u ∷ []))
          (ap parse_unit (trim_suffix-other b'I' u x s no_I)))

  parse_bytes-multiplier :
      (parse_bytes (format_int (pos n) ++ u ∷ []) ≡ size (wrap_int64 (n * multiplier u)))
      × (parse_bytes ((format_int (pos n) ++ u ∷ []) ++ b'i' ∷ [])
          ≡ size (wrap_int64 (n * multiplier u)))
  parse_bytes-multiplier =
      let (x, s, printed) = format_int-first n in
      let read = parse_unit-number x s printed in
      rw printed (parse_bytes-plain x s printed ∙ read, parse_bytes-binary x s printed ∙ read)

-- The units by their letters, with the number of bytes that each stands for.
pub data IsUnit : ℕ → ℕ → Type 0 where
  kibi : IsUnit b'K' 1024
  kibi_small : IsUnit b'k' 1024
  mebi : IsUnit b'M' 1048576
  mebi_small : IsUnit b'm' 1048576
  gibi : IsUnit b'G' 1073741824
  gibi_small : IsUnit b'g' 1073741824
  tebi : IsUnit b'T' 1099511627776
  tebi_small : IsUnit b't' 1099511627776

multiplier-IsUnit : {u m : ℕ} → IsUnit u m → (multiplier u ≡ m) × (m ≢ 1)
unfolding multiplier
multiplier-IsUnit kibi = (refl, λ e. omega arith)
multiplier-IsUnit kibi_small = (refl, λ e. omega arith)
multiplier-IsUnit mebi = (refl, λ e. omega arith)
multiplier-IsUnit mebi_small = (refl, λ e. omega arith)
multiplier-IsUnit gibi = (refl, λ e. omega arith)
multiplier-IsUnit gibi_small = (refl, λ e. omega arith)
multiplier-IsUnit tebi = (refl, λ e. omega arith)
multiplier-IsUnit tebi_small = (refl, λ e. omega arith)

-- A number below 2 to the 63 with the letter of a unit, in either case, with or without an i behind
-- it, is read as its product with 1024 for K, 1048576 for M, 1073741824 for G and 1099511627776 for
-- T, wrapped to a signed number of 64 bits.
pub parse_bytes-unit :
    (n u m : ℕ)
    → n ≤ int64_max
    → IsUnit u m
    → (parse_bytes (format_int (pos n) ++ u ∷ []) ≡ size (wrap_int64 (n * m)))
      × (parse_bytes ((format_int (pos n) ++ u ∷ []) ++ b'i' ∷ []) ≡ size (wrap_int64 (n * m)))
parse_bytes-unit n u m small unit =
    let (same, no_one) = multiplier-IsUnit unit in
    let (plain, binary) = parse_bytes-multiplier n u small (λ e. no_one (sym same ∙ e)) in
    (
      plain ∙ ap (λ k. size (wrap_int64 (n * k))) same,
      binary ∙ ap (λ k. size (wrap_int64 (n * k))) same,
    )
