-- ===== src/Auth/Scopes/Order/Ascending.antt =====
-- internal/auth/scope.go: the insertion keeps the prefix in the order of the permissions.
use gha_cache_server.Base.{
  ◌≡◌, inl, inr, true, false, List, [], ◌∷◌, All, All-mono, Bool-cases, arith,
}
use gha_cache_server.Base.Int.{ℤ, pos, negsuc, ltb_ℤ}
use gha_cache_server.Auth.Scopes.{Scope}
use gha_cache_server.Auth.Scopes.Order.Loops.{insert_rev, insert_all}

-- The prefix as it is kept, its smallest permission first.
abbrev pub IsAscending : List Scope → Type 0
IsAscending [] = Unit
IsAscending (x ∷ xs) = All (λ y. ltb_ℤ y.permission x.permission ≡ false) xs × IsAscending xs

pub ltb_ℤ_trans : (a b c : ℤ) → ltb_ℤ b a ≡ false → ltb_ℤ c b ≡ false → ltb_ℤ c a ≡ false
ltb_ℤ_trans (pos a) (pos b) (pos c) h k = ground arith
ltb_ℤ_trans (pos a) (pos b) (negsuc c) h k = ground arith
ltb_ℤ_trans (pos a) (negsuc b) c h k = ground arith
ltb_ℤ_trans (negsuc a) (pos b) (pos c) h k = ground arith
ltb_ℤ_trans (negsuc a) (pos b) (negsuc c) h k = ground arith
ltb_ℤ_trans (negsuc a) (negsuc b) (pos c) h k = ground arith
ltb_ℤ_trans (negsuc a) (negsuc b) (negsuc c) h k = ground arith

pub ltb_ℤ_asymm : (a b : ℤ) → ltb_ℤ a b ≡ true → ltb_ℤ b a ≡ false
ltb_ℤ_asymm (pos a) (pos b) h = ground arith
ltb_ℤ_asymm (pos a) (negsuc b) h = ground arith
ltb_ℤ_asymm (negsuc a) (pos b) h = ground arith
ltb_ℤ_asymm (negsuc a) (negsuc b) h = ground arith

pub All-insert_rev :
    (P : Scope → Type 0) (x : Scope) (left : List Scope)
    → P x
    → All P left
    → All P (insert_rev x left)
unfolding insert_rev
All-insert_rev P x [] p h = (p, tt)
All-insert_rev P x (y ∷ left) p h = elim (Bool-cases (ltb_ℤ y.permission x.permission)) [
  | inl above ↦ rw above (h.0, All-insert_rev P x left p h.1)
  | inr below ↦ rw below (p, h)
]

pub insert_rev-IsAscending :
    (x : Scope) (left : List Scope) → IsAscending left → IsAscending (insert_rev x left)
unfolding insert_rev
insert_rev-IsAscending x [] h = (tt, tt)
insert_rev-IsAscending x (y ∷ left) h = elim (Bool-cases (ltb_ℤ y.permission x.permission)) [
  | inl above ↦ rw above (
    All-insert_rev _ x left (ltb_ℤ_asymm y.permission x.permission above) h.0,
    insert_rev-IsAscending x left h.1,
  )
  | inr below ↦ rw below (
    (below, All-mono _ _ left (λ z. ltb_ℤ_trans x.permission y.permission z.permission below) h.0),
    h,
  )
]

pub insert_all-IsAscending :
    (left r : List Scope) → IsAscending left → IsAscending (insert_all left r)
unfolding insert_all
insert_all-IsAscending left [] h = h
insert_all-IsAscending left (x ∷ r) h =
    insert_all-IsAscending (insert_rev x left) r (insert_rev-IsAscending x left h)
