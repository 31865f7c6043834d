-- ===== src/Server/Bearer.antt =====
-- internal/server/twirp.go: `authorize` in front of the calls of the cache service. A request runs
-- on the world of the service and on the keys that the verifier keeps.
pub mod Granted
mod Tests
use gha_cache_server.Base.{ℕ, Bool, Option, none, some, Bytes}
use gha_cache_server.Base.Int.{ℤ}
use gha_cache_server.Base.Checked.{Checked, passed, failed}
use gha_cache_server.Action.{Result, Action}
use gha_cache_server.Auth.Tokens.{Tools}
use gha_cache_server.Auth.Keys.{KeyAnswer, JwksFetcher}
use gha_cache_server.Auth.Authorize.{AuthError, authorize}
use gha_cache_server.Storage.Adapter.{Adapter}
use gha_cache_server.Storage.World.{ServiceConfig, World}
use gha_cache_server.Server.Http.{AuthResult, Response}
use gha_cache_server.Server.Twirp.{
  TwirpKeyVersion, TwirpKeyRestoreVersion, TwirpFinalizeBody, twirp_create, twirp_get,
  twirp_finalize,
}

-- `auth.Verifier`, whose fetcher is a state; the answers of the issuer and the clock are given.
pub record Verifier : Type 0 where
  pub tools : Tools
  pub answers : ℕ → KeyAnswer
  pub times : ℕ → ℕ
  pub issuer : Bytes
  pub skip_auth : Bool

-- The result of `authorize`, where the handlers look at no more of the error than that it is there.
abbrev pub granted_result : Checked AuthError AuthResult → Option AuthResult
granted_result (passed res) = some res
granted_result (failed e) = none

module _ (v : Verifier) where
  unfoldable pub authorize_request :
      Bytes → JwksFetcher → Checked AuthError AuthResult × JwksFetcher
  authorize_request header f = authorize v.tools v.answers v.times v.issuer v.skip_auth header f

  -- `res, err := authorize(d, r)` and the rest of a handler.
  unfoldable pub with_authorization :
      {W : Type 0}
      → (Option AuthResult → Action W Response)
      → Bytes
      → Action (W × JwksFetcher) Response
  unfolding authorize_request
  with_authorization handler header (w, f) =
      let (checked, f') = authorize_request header f in
      let (answer, w') = handler (granted_result checked) w in (answer, (w', f'))

  module _ {S : Type 0} (adapter : Adapter S) (cfg : ServiceConfig) where
    unfoldable pub create_cache_entry :
        ℤ → Bytes → Option TwirpKeyVersion → Action (World S × JwksFetcher) Response
    create_cache_entry id header decoded =
        with_authorization (λ auth. twirp_create adapter cfg id auth decoded) header

    unfoldable pub get_cache_entry_download_url :
        Bytes → Option TwirpKeyRestoreVersion → Action (World S × JwksFetcher) Response
    get_cache_entry_download_url header decoded =
        with_authorization (λ auth. twirp_get adapter cfg auth decoded) header

    unfoldable pub finalize_cache_entry_upload :
        Bytes → Bytes → Bytes → Option TwirpFinalizeBody → Action (World S × JwksFetcher) Response
    finalize_cache_entry_upload loc_id new_entry_id header decoded =
        with_authorization (λ auth. twirp_finalize adapter cfg loc_id new_entry_id auth decoded)
          header
