-- ===== src/Base/Order.antt =====
-- `sort.Strings` of Go: texts in the order of their bytes. The order in which they came does not
-- matter.
use mathlib.Core.List.{Permᴰ}
use gha_cache_server.Base.{
  ◌≡◌, refl, ◌∙◌, Bool, true, false, List, [], ◌∷◌, ltb, ◌==◌, if◌then◌else◌, Bytes, arith,
}

unfoldable pub bytes_leb : Bytes → Bytes → Bool
bytes_leb [] t = true
bytes_leb (x ∷ s) [] = false
bytes_leb (x ∷ s) (y ∷ t) =
    let rest = bytes_leb s t in if ltb x y then true else if x == y then rest else false

unfoldable pub insert_string : Bytes → List Bytes → List Bytes
insert_string x [] = x ∷ []
insert_string x (y ∷ ys) =
    let rest = insert_string x ys in if bytes_leb x y then x ∷ y ∷ ys else y ∷ rest

unfoldable pub sort_strings : List Bytes → List Bytes
unfolding insert_string
sort_strings [] = []
sort_strings (x ∷ xs) = insert_string x (sort_strings xs)

bytes_leb_total : (s t : Bytes) → bytes_leb s t ≡ false → bytes_leb t s ≡ true
unfolding bytes_leb
bytes_leb_total [] t h = absurd (cc h)
bytes_leb_total (x ∷ s) [] h = refl
bytes_leb_total (x ∷ s) (y ∷ t) h = ground (arith, bytes_leb_total s t)

bytes_leb_antisymm : (s t : Bytes) → bytes_leb s t ≡ true → bytes_leb t s ≡ true → s ≡ t
unfolding bytes_leb
bytes_leb_antisymm [] [] h k = refl
bytes_leb_antisymm [] (y ∷ t) h k = absurd (cc k)
bytes_leb_antisymm (x ∷ s) [] h k = absurd (cc h)
bytes_leb_antisymm (x ∷ s) (y ∷ t) h k = ground (arith, bytes_leb_antisymm s t)

bytes_leb_trans :
    (s t u : Bytes) → bytes_leb s t ≡ true → bytes_leb t u ≡ true → bytes_leb s u ≡ true
unfolding bytes_leb
bytes_leb_trans [] t u h k = refl
bytes_leb_trans (x ∷ s) [] u h k = absurd (cc h)
bytes_leb_trans (x ∷ s) (y ∷ t) [] h k = absurd (cc k)
bytes_leb_trans (x ∷ s) (y ∷ t) (z ∷ u) h k = ground (arith, bytes_leb_trans s t u)

insert_string_comm :
    (x y : Bytes) (l : List Bytes)
    → insert_string x (insert_string y l) ≡ insert_string y (insert_string x l)
unfolding insert_string
insert_string_comm x y [] = ground (arith, bytes_leb_total x y, bytes_leb_antisymm x y)
insert_string_comm x y (z ∷ l) = ground (
  arith,
  insert_string_comm x y l,
  bytes_leb_total x y,
  bytes_leb_antisymm x y,
  bytes_leb_trans x y z,
  bytes_leb_trans y x z,
  bytes_leb_total x z,
  bytes_leb_total y z,
)

pub sort_strings-perm : (l r : List Bytes) → Permᴰ l r → sort_strings l ≡ sort_strings r
unfolding sort_strings
sort_strings-perm _ _ Permᴰ.nil = refl
sort_strings-perm _ _ (Permᴰ.cons {a} {b} {l₁} {l₂} e p) = rw (e, sort_strings-perm l₁ l₂ p) refl
sort_strings-perm _ _ (Permᴰ.swap {a} {b} {a'} {b'} {l} e f) =
    rw (e, f) (insert_string_comm b' a' (sort_strings l))
sort_strings-perm _ _ (Permᴰ.trans {l₁} {l₂} {l₃} p q) =
    sort_strings-perm l₁ l₂ p ∙ sort_strings-perm l₂ l₃ q
