-- ===== src/Auth/Authorize.antt =====
-- internal/auth/scope.go: `Authorize`.
pub mod Claimed
pub mod Sources
pub mod Granted
mod Tests
use gha_cache_server.Base.{
  ℕ, ◌+◌, ◌/◌, Bool, Option, none, some, List, [], ◌∷◌, drop, if◌then◌else◌, Bytes, codes, bytes_eq,
  has_prefix,
}
use gha_cache_server.Base.Checked.{Checked, passed, failed, ◌>>=◌}
use gha_cache_server.Base.Decimal.{format_int}
use gha_cache_server.Auth.Scopes.{Scope, AuthResult}
use gha_cache_server.Auth.Tokens.{
  Claim, text, number, other, Claims, Keyset, Tools, TokenError, unknown_key, text_of,
  decode_unverified, verify,
}
use gha_cache_server.Auth.Keys.{KeyAnswer, KeysError, JwksFetcher, refresh, fetch}

-- The errors; all but that of the fetch wrap `ErrUnauthorized`.
pub data AuthError : Type 0 where
  missing_header : AuthError
  keys_unavailable : KeysError → AuthError
  rejected : TokenError → AuthError
  missing_scopes : AuthError
  invalid_scopes : AuthError
  empty_scopes : AuthError
  missing_repository : AuthError

abbrev pub rejecting : {A : Type 0} → Checked TokenError A → Checked AuthError A
rejecting (passed a) = passed a
rejecting (failed e) = failed (rejected e)

-- The text of the claim, or its number in decimal.
unfoldable pub repository_of : Option Claim → Bytes
repository_of none = []
repository_of (some (text t)) = t
repository_of (some (number n)) = format_int n
repository_of (some other) = []

unfoldable pub some_scopes : Option (List Scope) → Checked AuthError (List Scope)
some_scopes none = failed invalid_scopes
some_scopes (some []) = failed empty_scopes
some_scopes (some (s ∷ scopes)) = passed (s ∷ scopes)

abbrev pub not_empty : AuthError → Bytes → Checked AuthError Bytes
not_empty e [] = failed e
not_empty e (c ∷ s) = passed (c ∷ s)

module _ (tools : Tools) where
  -- From `acRaw` on.
  unfoldable pub grant : Claims → Checked AuthError AuthResult
  unfolding some_scopes repository_of
  grant c = not_empty missing_scopes (text_of (c (codes "ac"))) >>= λ ac.
      some_scopes (tools.scopes ac) >>= λ scopes.
      not_empty missing_repository (repository_of (c (codes "repository_id"))) >>= λ repo_id.
      passed (record { repo_id = repo_id; scopes = scopes })

  module _ (answers : ℕ → KeyAnswer) (times : ℕ → ℕ) (issuer : Bytes) where
    -- `Verify` at the next reading of the clock.
    unfoldable pub verify_now :
        Bytes → Keyset → JwksFetcher → Checked TokenError Claims × JwksFetcher
    verify_now token keys f = (
      verify tools token keys issuer (times f.readings / 1000000000),
      record f { readings = f.readings + 1 },
    )

    -- Behind the forced refresh: where that failed, the first error stays.
    unfoldable pub verify_again :
        Bytes
        → Bytes
        → Checked KeysError Keyset × JwksFetcher
        → Checked TokenError Claims × JwksFetcher
    unfolding verify_now
    verify_again token kid (failed e, f) = (failed (unknown_key kid), f)
    verify_again token kid (passed keys, f) = verify_now token keys f

    unfoldable pub refresh_unknown :
        Bytes → Checked TokenError Claims × JwksFetcher → Checked TokenError Claims × JwksFetcher
    unfolding verify_again
    refresh_unknown token (failed (unknown_key kid), f) =
        verify_again token kid (refresh tools answers times f)
    refresh_unknown token (r, f) = (r, f)

    unfoldable pub verify_with :
        Bytes → Checked KeysError Keyset × JwksFetcher → Checked AuthError Claims × JwksFetcher
    unfolding verify_now refresh_unknown
    verify_with token (failed e, f) = (failed (keys_unavailable e), f)
    verify_with token (passed keys, f) =
        let (r, f') = refresh_unknown token (verify_now token keys f) in (rejecting r, f')

    unfoldable pub claims_of : Bool → Bytes → JwksFetcher → Checked AuthError Claims × JwksFetcher
    unfolding verify_with
    claims_of skip token f =
        if skip
        then (rejecting (decode_unverified tools token), f)
        else verify_with token (fetch tools answers times f)

    unfoldable pub authorize :
        Bool → Bytes → JwksFetcher → Checked AuthError AuthResult × JwksFetcher
    unfolding grant claims_of
    authorize skip header f =
        if has_prefix (codes "Bearer ") header
        then (let (r, f') = claims_of skip (drop 7 header) f in (r >>= grant, f'))
        else (failed missing_header, f)
