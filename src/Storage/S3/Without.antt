-- ===== src/Storage/S3/Without.antt =====
-- Lists of keys without those that were deleted.
use mathlib.Core.List.{append_assoc}
use gha_cache_server.Base.{
  ◌≤◌, length, ◌≡◌, refl, sym, ap, ◌∙◌, inl, inr, Bool, true, false, ◌||◌, List, [], ◌∷◌, ◌++◌,
  if◌then◌else◌, Bool-cases, Bytes, bytes_eq, bytes_eq_self, arith,
}

unfoldable pub contains : List Bytes → Bytes → Bool
contains [] k = false
contains (x ∷ xs) k = bytes_eq x k || contains xs k

-- The keys that are not among the first list.
unfoldable pub without : List Bytes → List Bytes → List Bytes
unfolding contains
without xs [] = []
without xs (k ∷ keys) = let rest = without xs keys in if contains xs k then rest else k ∷ rest

contains-append :
    (xs ys : List Bytes) (k : Bytes) → contains (xs ++ ys) k ≡ (contains xs k || contains ys k)
unfolding contains
contains-append [] ys k = refl
contains-append (x ∷ xs) ys k = ground (arith, contains-append xs ys k)

pub length-without_le : (xs keys : List Bytes) → length (without xs keys) ≤ length keys
unfolding without
length-without_le xs [] = omega arith
length-without_le xs (k ∷ keys) = ground (arith, length-without_le xs keys)

pub without-nil : (keys : List Bytes) → without [] keys ≡ keys
unfolding without
without-nil [] = refl
without-nil (k ∷ keys) = ap (λ r. k ∷ r) (without-nil keys)

pub without-without :
    (xs ys keys : List Bytes) → without ys (without xs keys) ≡ without (xs ++ ys) keys
unfolding without
without-without xs ys [] = refl
without-without xs ys (k ∷ keys) = elim (Bool-cases (contains xs k)) [
  | inl there ↦ rw there (rw (contains-append xs ys k) (rw there (without-without xs ys keys)))
  | inr absent ↦ rw absent (
      rw (contains-append xs ys k) (
        rw absent (
          ap (λ (r : List Bytes). if contains ys k then r else k ∷ r)
            (without-without xs ys keys))))
]

pub without-append :
    (xs ks ls : List Bytes) → without xs (ks ++ ls) ≡ without xs ks ++ without xs ls
unfolding without
without-append xs [] ls = refl
without-append xs (a ∷ ks) ls = elim (Bool-cases (contains xs a)) [
  | inl there ↦ rw there (without-append xs ks ls)
  | inr absent ↦ rw absent (ap (λ r. a ∷ r) (without-append xs ks ls))
]

contains-middle : (xs ys : List Bytes) (k : Bytes) → contains (xs ++ k ∷ ys) k ≡ true
unfolding contains
contains-middle [] ys k = rw (bytes_eq_self k) refl
contains-middle (x ∷ xs) ys k = ground (arith, contains-middle xs ys k)

without-after : (xs ys : List Bytes) → without (xs ++ ys) ys ≡ []
unfolding without
without-after xs [] = refl
without-after xs (y ∷ ys) =
    rw (contains-middle xs ys y)
      (ap (λ l. without l ys) (sym (append_assoc xs (y ∷ []) ys)) ∙ without-after (xs ++ y ∷ []) ys)

pub without_self : (keys : List Bytes) → without keys keys ≡ []
without_self keys = without-after [] keys
