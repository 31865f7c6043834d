-- ===== src/Server/Bearer/Granted.antt =====
-- internal/server/twirp.go: what the calls of the cache service do for the bearer of a token.
use gha_cache_server.Base.{
  ◌≡◌, refl, ◌⊎◌, inl, inr, Option, some, ◌++◌, All, All-mono, Bytes, codes,
}
use gha_cache_server.Base.Int.{ℤ}
use gha_cache_server.Base.Checked.{Checked, passed, failed}
use gha_cache_server.Action.{ok}
use gha_cache_server.Auth.Tokens.{Claims}
use gha_cache_server.Auth.Keys.{JwksFetcher}
use gha_cache_server.Auth.Keys.Served.{AreServed}
use gha_cache_server.Auth.Authorize.{AuthError}
use gha_cache_server.Auth.Authorize.Claimed.{IsGrantOf}
use gha_cache_server.Auth.Authorize.Sources.{AreTrusted}
use gha_cache_server.Auth.Authorize.Granted.{authorize-IsGranted}
use gha_cache_server.Db.Models.{CacheEntry}
use gha_cache_server.Db.Integrity.{IsConsistent}
use gha_cache_server.Storage.Adapter.{Adapter}
use gha_cache_server.Storage.World.{ServiceConfig, World}
use gha_cache_server.Server.Http.{AuthResult, Response, download_url}
use gha_cache_server.Server.Twirp.{
  TwirpKeyVersion, TwirpKeyRestoreVersion, TwirpFinalizeBody, twirp_create, twirp_finalize,
}
use gha_cache_server.Server.Access.{Remains, IsWritable, twirp_create-IsWritable}
use gha_cache_server.Server.Restoring.{IsRestorable, twirp_get-IsRestorable}
use gha_cache_server.Server.Publishing.{IsPublishable, twirp_finalize-IsPublishable}
use gha_cache_server.Server.Bearer.{
  Verifier, granted_result, authorize_request, with_authorization, create_cache_entry,
  get_cache_entry_download_url, finalize_cache_entry_upload,
}

granted_result-passed :
    (r : Checked AuthError AuthResult) (res : AuthResult)
    → granted_result r ≡ some res
    → r ≡ passed res
granted_result-passed (passed a) res e = cc e
granted_result-passed (failed x) res e = absurd (cc e)

module _ (v : Verifier) where
  -- The header bears a token whose claims give the repository and the scopes, and that is accepted
  -- under keys that the issuer has served unless the validation is switched off.
  abbrev pub IsBearer : Bytes → JwksFetcher → AuthResult → Type 0
  IsBearer header f res =
      (token : Bytes) × (c : Claims) × (header ≡ codes "Bearer " ++ token)
      × AreTrusted v.tools v.answers v.times v.issuer v.skip_auth token f.requests c
      × IsGrantOf v.tools c res

  authorize_request-IsBearer :
      (header : Bytes) (f : JwksFetcher) (res : AuthResult)
      → AreServed v.tools v.answers f.requests f.current
      → granted_result (authorize_request v header f).0 ≡ some res
      → IsBearer header (authorize_request v header f).1 res
  unfolding authorize_request
  authorize_request-IsBearer header f res s e =
      authorize-IsGranted v.tools v.answers v.times v.issuer v.skip_auth header f res s
        (granted_result-passed _ res e)

  module _ {S : Type 0} (adapter : Adapter S) (cfg : ServiceConfig) where
    -- If the keys that are kept are those of an answer of the issuer, then after
    -- `CreateCacheEntry` each upload is one that was there, or is in the repository and in a
    -- writable scope of the claims of a token that the header bears, and this token is accepted
    -- under keys that the issuer has served unless the validation is switched off.
    pub create_cache_entry-IsBearer :
        (id : ℤ) (header : Bytes) (decoded : Option TwirpKeyVersion) (w : World S) (f : JwksFetcher)
        → AreServed v.tools v.answers f.requests f.current
        → let (w', f') = (create_cache_entry v adapter cfg id header decoded (w, f)).1 in
          All
            (λ u.
              Remains u w.db.uploads
              ⊎ ((res : AuthResult) × IsBearer header f' res × IsWritable (some res) u))
            w'.db.uploads
    unfolding create_cache_entry with_authorization
    create_cache_entry-IsBearer id header decoded w f s =
        let auth = granted_result (authorize_request v header f).0 in
        All-mono _ _ (twirp_create adapter cfg id auth decoded w).1.db.uploads
          (λ u owned. elim owned [
            | inl there ↦ inl there
            | inr (res, e, repo, scope) ↦
                inr (res, authorize_request-IsBearer header f res s e, (res, refl, repo, scope))
          ])
          (twirp_create-IsWritable adapter cfg id auth decoded w)

    -- If the keys that are kept are those of an answer of the issuer and the tables are consistent,
    -- then after `FinalizeCacheEntryUpload` each cache entry is one that was there as it is, or is
    -- one with the key and the version of the body, in the repository and in a writable scope of
    -- the claims of a token that the header bears, and this token is accepted under keys that the
    -- issuer has served unless the validation is switched off.
    pub finalize_cache_entry_upload-IsBearer :
        (loc_id new_entry_id header : Bytes) (decoded : Option TwirpFinalizeBody) (w : World S)
        (f : JwksFetcher)
        → AreServed v.tools v.answers f.requests f.current
        → IsConsistent w.db
        → let (w', f') =
            (finalize_cache_entry_upload v adapter cfg loc_id new_entry_id header decoded
              (w, f)).1 in
          All
            (λ e.
              Remains e w.db.entries
              ⊎ ((res : AuthResult) × IsBearer header f' res × IsPublishable (some res) decoded e))
            w'.db.entries
    unfolding finalize_cache_entry_upload with_authorization
    finalize_cache_entry_upload-IsBearer loc_id new_entry_id header decoded w f s consistent =
        let auth = granted_result (authorize_request v header f).0 in
        All-mono _ _ (twirp_finalize adapter cfg loc_id new_entry_id auth decoded w).1.db.entries
          (λ e owned. elim owned [
            | inl there ↦ inl there
            | inr (res, body, granted, decodes, key, version, repo, scope) ↦ inr (
              res,
              authorize_request-IsBearer header f res s granted,
              (res, body, refl, decodes, key, version, repo, scope),
            )
          ])
          (twirp_finalize-IsPublishable adapter cfg loc_id new_entry_id auth decoded w consistent)

    -- If the keys that are kept are those of an answer of the issuer and the answer to
    -- `GetCacheEntryDownloadURL` holds a download URL, then the key that was matched is that of an
    -- entry of the body's version, in the repository and one of the scopes of the claims of a token
    -- that the header bears, and this token is accepted under keys that the issuer has served
    -- unless the validation is switched off.
    pub get_cache_entry_download_url-IsBearer :
        (header : Bytes) (decoded : Option TwirpKeyRestoreVersion) (w : World S) (f : JwksFetcher)
        (r : Response) (url key : Bytes)
        → AreServed v.tools v.answers f.requests f.current
        → (get_cache_entry_download_url v adapter cfg header decoded (w, f)).0 ≡ ok r
        → r.body ≡ download_url url key
        → let f' = (get_cache_entry_download_url v adapter cfg header decoded (w, f)).1.1 in
          (res : AuthResult) × (body : TwirpKeyRestoreVersion) × (e : CacheEntry) × IsBearer header
            f' res
          × (decoded ≡ some body)
          × IsRestorable w.db res body.version key e
    unfolding get_cache_entry_download_url with_authorization
    get_cache_entry_download_url-IsBearer header decoded w f r url key s answer shown =
        let (res, body, e, granted, decodes, restorable) =
          twirp_get-IsRestorable adapter cfg (granted_result (authorize_request v header f).0)
            decoded w r url key answer shown in
        (res, body, e, authorize_request-IsBearer header f res s granted, decodes, restorable)
