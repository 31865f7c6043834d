-- ===== src/Auth/Scopes/Tests.antt =====
-- internal/auth/scope.go on small tokens.
use gha_cache_server.Base.{◌≡◌, refl, some, List, map, [], ◌∷◌, Bytes, codes}
use gha_cache_server.Base.Int.{ℤ, pos}
use gha_cache_server.Auth.Scopes.{
  Scope, write_scope, sort_scopes, sort_rounds, sink, scopes_by_permission_desc,
}
use gha_cache_server.Auth.Scopes.Order.{
  IsDescending, IsFirstWriter, with_permission, scopes_by_permission_desc-IsDescending,
  write_scope-IsFirstWriter,
}

abbrev scope_of : Bytes → ℤ → Scope
scope_of name permission = record { scope = name; permission = permission }

-- A pull request may read the default branch and write to its own.
abbrev token : List Scope
token =
    scope_of (codes "refs/heads/main") (pos 1)
    ∷ scope_of (codes "refs/pull/1/merge") (pos 3)
    ∷ scope_of (codes "refs/heads/dev") (pos 1)
    ∷ []

write_scope-run : write_scope token ≡ some (scope_of (codes "refs/pull/1/merge") (pos 3))
unfolding write_scope
write_scope-run = refl

scopes_by_permission_desc-run :
    scopes_by_permission_desc token
    ≡ codes "refs/pull/1/merge" ∷ codes "refs/heads/main" ∷ codes "refs/heads/dev" ∷ []
unfolding scopes_by_permission_desc sort_scopes sort_rounds sink
scopes_by_permission_desc-run = refl

write_scope-IsFirstWriter_example : IsFirstWriter token (write_scope token)
write_scope-IsFirstWriter_example = write_scope-IsFirstWriter token

scopes_by_permission_desc-IsDescending_example :
    (sorted : List Scope) × (scopes_by_permission_desc token ≡ map (λ s. s.scope) sorted)
    × IsDescending sorted
    × ((k : ℤ) → with_permission k sorted ≡ with_permission k token)
scopes_by_permission_desc-IsDescending_example = scopes_by_permission_desc-IsDescending token
