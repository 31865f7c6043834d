-- ===== src/Auth/Scopes/Order.antt =====
-- The insertion sort of `ScopesByPermissionDesc` sorts by permission and is stable, and the write
-- scope is the first that may write.
pub mod Loops
pub mod Ascending
use gha_cache_server.Base.{
  ℕ, suc, ◌+◌, ◌≡◌, refl, ap, ◌∙◌, sym, inl, inr, Bool, true, false, Option, none, some, List, [],
  ◌∷◌, ◌++◌, map, length, All, All-mono, if◌then◌else◌, Bool-cases, arith,
}
use gha_cache_server.Base.Int.{ℤ, pos, negsuc, int_eq, int_eq_sound, ltb_ℤ}
use gha_cache_server.Auth.Scopes.{
  Scope, can_write, write_scope, rises_at, swap_at, sink, sort_rounds, sort_scopes,
  scopes_by_permission_desc,
}
use gha_cache_server.Auth.Scopes.Order.Loops.{
  rev_append, insert_rev, insert_all, sort_scopes-eq-insert_all,
}
use gha_cache_server.Auth.Scopes.Order.Ascending.{
  IsAscending, ltb_ℤ_trans, ltb_ℤ_asymm, All-insert_rev, insert_rev-IsAscending,
  insert_all-IsAscending,
}

-- No scope has more permission than one before it.
abbrev pub IsDescending : List Scope → Type 0
IsDescending [] = Unit
IsDescending (x ∷ xs) = All (λ y. ltb_ℤ x.permission y.permission ≡ false) xs × IsDescending xs

-- The scopes with one permission, in their order.
pub with_permission : ℤ → List Scope → List Scope
with_permission k [] = []
with_permission k (s ∷ scopes) =
    if int_eq s.permission k then s ∷ with_permission k scopes else with_permission k scopes

rev_append-IsDescending :
    (left r : List Scope)
    → IsAscending left
    → IsDescending r
    → All (λ z. All (λ w. ltb_ℤ z.permission w.permission ≡ false) r) left
    → IsDescending (rev_append left r)
rev_append-IsDescending [] r up down over = down
rev_append-IsDescending (y ∷ left) r up down over =
    rev_append-IsDescending left (y ∷ r) up.1 (over.0, down) (zip_all left up.0 over.1)
  where
    zip_all :
        (l : List Scope)
        → All (λ z. ltb_ℤ z.permission y.permission ≡ false) l
        → All (λ z. All (λ w. ltb_ℤ z.permission w.permission ≡ false) r) l
        → All (λ z. All (λ w. ltb_ℤ z.permission w.permission ≡ false) (y ∷ r)) l
    zip_all [] a b = tt
    zip_all (z ∷ l) a b = ((a.0, b.0), zip_all l a.1 b.1)

-- A scope passes only those with less permission, so it keeps its place among its equals.
with_permission-insert_rev :
    (k : ℤ) (x : Scope) (left : List Scope)
    → with_permission k (insert_rev x left) ≡ with_permission k (x ∷ left)
unfolding insert_rev with_permission
with_permission-insert_rev k x [] = refl
with_permission-insert_rev k x (y ∷ left) = elim (Bool-cases (ltb_ℤ y.permission x.permission)) [
  | inl above ↦
      rw (above, with_permission-insert_rev k x left)
        (pass (int_eq x.permission k) (int_eq y.permission k) (apart above))
  | inr below ↦ rw below
]
  where
    apart :
        ltb_ℤ y.permission x.permission ≡ true
        → int_eq x.permission k ≡ true
        → int_eq y.permission k ≡ false
    apart above hx = elim (Bool-cases (int_eq y.permission k)) [
      | inl hy ↦ cc (
        ltb_ℤ_asymm y.permission x.permission above,
        above,
        int_eq_sound x.permission k hx,
        int_eq_sound y.permission k hy,
      )
      | inr hy ↦ hy
    ]

    pass :
        (bx by : Bool)
        → (bx ≡ true → by ≡ false)
        → (if by
            then y ∷ (if bx then x ∷ with_permission k left else with_permission k left)
            else (if bx then x ∷ with_permission k left else with_permission k left))
          ≡ (if bx
              then x ∷ (if by then y ∷ with_permission k left else with_permission k left)
              else (if by then y ∷ with_permission k left else with_permission k left))
    pass true by h = rw (h refl)
    pass false by h = refl

with_permission-rev_append :
    (k : ℤ) (left r : List Scope)
    → with_permission k (rev_append left r)
      ≡ rev_append (with_permission k left) (with_permission k r)
unfolding with_permission
with_permission-rev_append k [] r = refl
with_permission-rev_append k (y ∷ left) r = elim (Bool-cases (int_eq y.permission k)) [
  | inl hit ↦ rw hit (with_permission-rev_append k left (y ∷ r) ∙ unfold with_permission in rw hit)
  | inr miss ↦
      rw miss (with_permission-rev_append k left (y ∷ r) ∙ unfold with_permission in rw miss)
]

rev_append-with_permission :
    (k : ℤ) (x : Scope) (left r : List Scope)
    → rev_append (with_permission k (x ∷ left)) (with_permission k r)
      ≡ rev_append (with_permission k left) (with_permission k (x ∷ r))
unfolding with_permission
rev_append-with_permission k x left r = elim (Bool-cases (int_eq x.permission k)) [
  | inl hit ↦ rw hit
  | inr miss ↦ rw miss
]

with_permission-insert_all :
    (k : ℤ) (left r : List Scope)
    → with_permission k (rev_append (insert_all left r) [])
      ≡ rev_append (with_permission k left) (with_permission k r)
unfolding insert_all
with_permission-insert_all k left [] = with_permission-rev_append k left []
with_permission-insert_all k left (x ∷ r) =
    with_permission-insert_all k (insert_rev x left) r
    ∙ ap (λ l. rev_append l (with_permission k r)) (with_permission-insert_rev k x left)
    ∙ rev_append-with_permission k x left r

pub sort_scopes-IsDescending : (scopes : List Scope) → IsDescending (sort_scopes scopes)
sort_scopes-IsDescending scopes = rw (sort_scopes-eq-insert_all scopes) (
    rev_append-IsDescending (insert_all [] scopes) [] (insert_all-IsAscending [] scopes tt) tt
      (all_tt (insert_all [] scopes)))
  where
    all_tt : (l : List Scope) → All (λ _. Unit {0}) l
    all_tt [] = tt
    all_tt (x ∷ l) = (tt, all_tt l)

-- The scopes are read in the order of a list in which permissions never rise, and in which the
-- scopes of each permission stand exactly as they stood in the token.
pub scopes_by_permission_desc-IsDescending :
    (scopes : List Scope)
    → (sorted : List Scope) × (scopes_by_permission_desc scopes ≡ map (λ s. s.scope) sorted)
      × IsDescending sorted
      × ((k : ℤ) → with_permission k sorted ≡ with_permission k scopes)
unfolding scopes_by_permission_desc with_permission
scopes_by_permission_desc-IsDescending scopes = (
  sort_scopes scopes,
  refl,
  sort_scopes-IsDescending scopes,
  λ k. rw (sort_scopes-eq-insert_all scopes) (with_permission-insert_all k [] scopes),
)

-- What the two results of `WriteScope` say of the scopes of the token.
abbrev pub IsFirstWriter : List Scope → Option Scope → Type 0
IsFirstWriter scopes none = All (λ t. can_write t ≡ false) scopes
IsFirstWriter scopes (some s) =
    (before after : List Scope) × (scopes ≡ before ++ s ∷ after)
    × (can_write s ≡ true)
    × All (λ t. can_write t ≡ false) before

later_writer :
    (t : Scope) (scopes : List Scope) (o : Option Scope)
    → can_write t ≡ false
    → IsFirstWriter scopes o
    → IsFirstWriter (t ∷ scopes) o
later_writer t scopes none reads h = (reads, h)
later_writer t scopes (some s) reads (before, after, e, w, b) =
    (t ∷ before, after, ap (λ l. t ∷ l) e, w, (reads, b))

-- If `WriteScope` returns a scope, that scope has permission 2 or more and no scope before it in
-- the token has; if it returns none, no scope of the token has.
pub write_scope-IsFirstWriter : (scopes : List Scope) → IsFirstWriter scopes (write_scope scopes)
unfolding write_scope
write_scope-IsFirstWriter [] = tt
write_scope-IsFirstWriter (t ∷ scopes) = elim (Bool-cases (can_write t)) [
  | inl writes ↦ rw writes ([], scopes, refl, writes, tt)
  | inr reads ↦
      rw reads (later_writer t scopes (write_scope scopes) reads (write_scope-IsFirstWriter scopes))
]
