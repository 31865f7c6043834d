-- ===== src/Auth/Scopes.antt =====
-- internal/auth/scope.go: the scopes that a token grants, the scope to write to and the order in
-- which scopes are read.
pub mod Order
pub mod Members
mod Tests
use gha_cache_server.Base.{
  ℕ, zero, suc, ◌-◌, Bool, true, false, Option, none, some, List, [], ◌∷◌, map, length,
  if◌then◌else◌, Bytes,
}
use gha_cache_server.Base.Int.{ℤ, pos, ltb_ℤ}

pub record Scope : Type 0 where
  pub scope : Bytes
  pub permission : ℤ

pub record AuthResult : Type 0 where
  pub repo_id : Bytes
  pub scopes : List Scope

-- The test `s.Permission >= 2`.
abbrev pub can_write : Scope → Bool
can_write s = ltb_ℤ (pos 1) s.permission

-- `none` is the result `(Scope{}, false)`.
unfoldable pub write_scope : List Scope → Option Scope
write_scope [] = none
write_scope (s ∷ scopes) = if can_write s then some s else write_scope scopes

-- `cp[j+1].Permission > cp[j].Permission`; the loops stay inside the slice.
abbrev pub rises_at : ℕ → List Scope → Bool
rises_at zero (a ∷ b ∷ r) = ltb_ℤ a.permission b.permission
rises_at (suc j) (a ∷ r) = rises_at j r
rises_at _ _ = false

-- `cp[j+1], cp[j] = cp[j], cp[j+1]`.
abbrev pub swap_at : ℕ → List Scope → List Scope
swap_at zero (a ∷ b ∷ r) = b ∷ a ∷ r
swap_at (suc j) (a ∷ r) = a ∷ swap_at j r
swap_at _ cp = cp

-- The inner loop, from `j` down while the scope there has more permission than the one before.
unfoldable pub sink : ℕ → List Scope → List Scope
sink zero cp = cp
sink (suc j) cp = elim (rises_at j cp) [ true ↦ sink j (swap_at j cp) | false ↦ cp ]

-- The outer loop, with the rounds that are left and the index `i`.
unfoldable pub sort_rounds : ℕ → ℕ → List Scope → List Scope
sort_rounds zero i cp = cp
sort_rounds (suc n) i cp = sort_rounds n (suc i) (sink i cp)

-- `cp` after the loops.
unfoldable pub sort_scopes : List Scope → List Scope
sort_scopes scopes = sort_rounds (length scopes - 1) 1 scopes

unfoldable pub scopes_by_permission_desc : List Scope → List Bytes
scopes_by_permission_desc scopes = map (λ s. s.scope) (sort_scopes scopes)
