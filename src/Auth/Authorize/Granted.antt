-- ===== src/Auth/Authorize/Granted.antt =====
-- internal/auth/scope.go: what `Authorize` grants, and to whom.
use gha_cache_server.Base.{
  ℕ, ◌+◌, ◌≤◌, ◌≡◌, refl, sym, ap, ◌∙◌, inl, inr, Bool, true, false, [], ◌∷◌, ◌++◌, length, drop,
  Bool-cases, Bytes, codes, has_prefix, arith,
}
use gha_cache_server.Base.Checked.{passed, failed}
use gha_cache_server.Auth.Scopes.{AuthResult}
use gha_cache_server.Auth.Tokens.{Claims, Tools}
use gha_cache_server.Auth.Keys.{KeyAnswer, JwksFetcher}
use gha_cache_server.Auth.Keys.Served.{AreServed}
use gha_cache_server.Auth.Authorize.{missing_header, authorize}
use gha_cache_server.Auth.Authorize.Claimed.{IsGrantOf}
use gha_cache_server.Auth.Authorize.Sources.{AreTrusted, IsAuthorizing, claims_of-IsAuthorizing}

has_prefix-append : (p s : Bytes) → has_prefix p s ≡ true → s ≡ p ++ drop (length p) s
unfolding has_prefix
has_prefix-append [] s h = refl
has_prefix-append (x ∷ p) [] h = absurd (cc h)
has_prefix-append (x ∷ p) (y ∷ s) h =
    let same : y ≡ x = ground arith in
    rw same (ap (λ r. x ∷ r) (has_prefix-append p s (ground arith)))

module _ (tools : Tools) where
  module _ (answers : ℕ → KeyAnswer) (times : ℕ → ℕ) (issuer : Bytes) where
    authorize-IsAuthorizing :
        (skip : Bool) (header : Bytes) (f : JwksFetcher)
        → has_prefix (codes "Bearer ") header ≡ true
        → AreServed tools answers f.requests f.current
        → IsAuthorizing tools answers times issuer f
            (authorize tools answers times issuer skip header f)
            skip
            (drop 7 header)
    unfolding authorize
    authorize-IsAuthorizing skip header f bearer s =
        rw bearer (claims_of-IsAuthorizing tools answers times issuer skip (drop 7 header) f s)

    authorize-missing :
        (skip : Bool) (header : Bytes) (f : JwksFetcher)
        → has_prefix (codes "Bearer ") header ≡ false
        → authorize tools answers times issuer skip header f ≡ (failed missing_header, f)
    unfolding authorize
    authorize-missing skip header f no_bearer = rw no_bearer refl

    -- If the keys that are kept are those of an answer of the issuer, then `Authorize` grants a result
    -- only for a bearer token whose claims give it, with scopes and a repository that are not empty;
    -- and the token is accepted by `Verify` under the keys of an answer of the issuer with status 200,
    -- unless the validation is switched off.
    pub authorize-IsGranted :
        (skip : Bool) (header : Bytes) (f : JwksFetcher) (res : AuthResult)
        → AreServed tools answers f.requests f.current
        → (authorize tools answers times issuer skip header f).0 ≡ passed res
        → (token : Bytes) × (c : Claims) × (header ≡ codes "Bearer " ++ token)
          × AreTrusted tools answers times issuer skip token
              (authorize tools answers times issuer skip header f).1.requests
              c
          × IsGrantOf tools c res
    authorize-IsGranted skip header f res s e =
        elim (Bool-cases (has_prefix (codes "Bearer ") header)) [
          | inl bearer ↦
              let (c, trusted, grants) =
                (authorize-IsAuthorizing skip header f bearer s).granted.from res e in
              (drop 7 header, c, has_prefix-append (codes "Bearer ") header bearer, trusted, grants)
          | inr no_bearer ↦
              absurd (cc (sym (ap (λ p. p.0) (authorize-missing skip header f no_bearer)) ∙ e))
        ]

    -- `Authorize` keeps it that the cached keys are those of an answer with status 200, and asks the
    -- issuer twice at most.
    pub authorize-AreServed :
        (skip : Bool) (header : Bytes) (f : JwksFetcher)
        → AreServed tools answers f.requests f.current
        → let f' = (authorize tools answers times issuer skip header f).1 in
          AreServed tools answers f'.requests f'.current
          × (f.requests ≤ f'.requests)
          × (f'.requests ≤ f.requests + 2)
    authorize-AreServed skip header f s = elim (Bool-cases (has_prefix (codes "Bearer ") header)) [
      | inl bearer ↦
          let a = authorize-IsAuthorizing skip header f bearer s in (a.kept, a.more, a.few)
      | inr no_bearer ↦ rw (authorize-missing skip header f no_bearer) (s, omega arith, omega arith)
    ]
