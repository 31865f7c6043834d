-- ===== src/Auth/Authorize/Claimed.antt =====
-- internal/auth/scope.go: what `Authorize` makes of the claims.
use mathlib.Core.Path.{subst}
use gha_cache_server.Base.{◌≡◌, ◌≢◌, refl, Option, none, some, List, [], ◌∷◌, Bytes, codes}
use gha_cache_server.Base.Checked.{Yields, Yields-passed, Yields-failed, Yields-bind}
use gha_cache_server.Auth.Scopes.{Scope, AuthResult}
use gha_cache_server.Auth.Tokens.{Claims, Tools, text_of}
use gha_cache_server.Auth.Authorize.{AuthError, repository_of, some_scopes, not_empty, grant}

not_empty-given : (e : AuthError) (s : Bytes) → Yields (λ r. (r ≡ s) × (r ≢ [])) (not_empty e s)
not_empty-given e [] = Yields-failed e
not_empty-given e (c ∷ s) = Yields-passed (c ∷ s) (refl, λ h. absurd (cc h))

some_scopes-given :
    (o : Option (List Scope)) → Yields (λ r. (o ≡ some r) × (r ≢ [])) (some_scopes o)
unfolding some_scopes
some_scopes-given none = Yields-failed _
some_scopes-given (some []) = Yields-failed _
some_scopes-given (some (s ∷ scopes)) = Yields-passed _ (refl, λ h. absurd (cc h))

module _ (tools : Tools) where
  -- The scopes and the repository of a result are those that the claims give, and neither is empty.
  pub record IsGrantOf (c : Claims) (res : AuthResult) : Type 0 where
    pub scopes_read : tools.scopes (text_of (c (codes "ac"))) ≡ some res.scopes
    pub has_scopes : res.scopes ≢ []
    pub repository_read : res.repo_id ≡ repository_of (c (codes "repository_id"))
    pub has_repository : res.repo_id ≢ []

  pub grant-IsGrantOf : (c : Claims) → Yields (IsGrantOf c) (grant tools c)
  unfolding grant
  grant-IsGrantOf c =
      Yields-bind _ _ _ (not_empty-given _ (text_of (c (codes "ac")))) λ ac (same, there).
        Yields-bind _ _ _ (some_scopes-given (tools.scopes ac)) λ scopes (read, some_there).
          Yields-bind _ _ _ (not_empty-given _ (repository_of (c (codes "repository_id"))))
            λ repo_id (repository, repository_there). Yields-passed _ record {
              scopes_read = subst (λ a. tools.scopes a ≡ some scopes) same read;
              has_scopes = some_there;
              repository_read = repository;
              has_repository = repository_there;
            }
