-- ===== src/Server/Twirp.antt =====
-- internal/server/twirp.go and util.go: the three calls of the cache service. A handler takes the
-- result of `authorize` and the decoded body, `none` where either failed.
use gha_cache_server.Base.{
  Bool, ◌||◌, Option, List, ◌∷◌, ◌++◌, if◌then◌else◌, Bytes, codes, is_empty,
}
use gha_cache_server.Base.Int.{ℤ}
use gha_cache_server.Base.Decimal.{format_int}
use gha_cache_server.Action.{Action, pure, handle, if_nil}
use gha_cache_server.Auth.Scopes.{write_scope, scopes_by_permission_desc}
use gha_cache_server.Storage.Adapter.{Adapter}
use gha_cache_server.Storage.World.{ServiceConfig, World}
use gha_cache_server.Storage.Upload.{create_upload, complete_upload}
use gha_cache_server.Storage.Match.{MatchInput, get_cache_entry_with_download_url}
use gha_cache_server.Server.Http.{
  AuthResult, literal, of_error, of_authorize, of_decoder, twirp_error, refused, upload_url,
  download_url, entry_id, Response, respond,
}

pub record TwirpKeyVersion : Type 0 where
  pub key : Bytes
  pub version : Bytes

pub record TwirpFinalizeBody : Type 0 where
  pub key : Bytes
  pub version : Bytes
  pub size_bytes : Bytes

pub record TwirpKeyRestoreVersion : Type 0 where
  pub key : Bytes
  pub restore_keys : List Bytes
  pub version : Bytes

abbrev pub unauthenticated : Response
unauthenticated = respond 401 (twirp_error (codes "unauthenticated") of_authorize)

abbrev pub key_and_version_required : Response
key_and_version_required =
    respond 400
      (twirp_error (codes "invalid_argument") (literal (codes "key and version required")))

abbrev pub permission_denied : Response
permission_denied =
    respond 403
      (twirp_error (codes "permission_denied") (literal (codes "no scope with write permission")))

abbrev pub lacks_key_or_version : Bytes → Bytes → Bool
lacks_key_or_version key version = is_empty key || is_empty version

-- `storageMatchInput`
abbrev pub storage_match_input : List Bytes → Bytes → AuthResult → MatchInput
storage_match_input keys version res = record {
  keys = keys;
  version = version;
  scopes = scopes_by_permission_desc res.scopes;
  repo_id = res.repo_id;
}

module _ {S : Type 0} (adapter : Adapter S) (cfg : ServiceConfig) where
  -- `twirpCreate`
  unfoldable pub twirp_create :
      ℤ → Option AuthResult → Option TwirpKeyVersion → Action (World S) Response
  twirp_create id auth decoded = if_nil auth (pure unauthenticated) λ res.
      if_nil decoded (pure key_and_version_required) λ body.
        if lacks_key_or_version body.key body.version
        then pure key_and_version_required
        else if_nil (write_scope res.scopes) (pure permission_denied) λ write.
          handle (create_upload id body.key body.version write.scope res.repo_id)
            (λ created.
              if_nil created
                (pure (
                  respond 200 (
                    refused
                      (literal (codes "an upload for this key+version is already in progress")))))
                λ u. pure (
                  respond 200 (
                    upload_url
                      (cfg.api_base_url ++ codes "/devstoreaccount1/upload/" ++ format_int u.id))))
            (λ e. pure (respond 500 (twirp_error (codes "internal") (of_error e))))

  -- `twirpGet`
  unfoldable pub twirp_get :
      Option AuthResult → Option TwirpKeyRestoreVersion → Action (World S) Response
  twirp_get auth decoded = if_nil auth (pure unauthenticated) λ res.
      if_nil decoded (pure (respond 400 (twirp_error (codes "invalid_argument") of_decoder)))
        λ body.
          if lacks_key_or_version body.key body.version
          then pure key_and_version_required
          else handle
              (get_cache_entry_with_download_url adapter cfg
                (storage_match_input (body.key ∷ body.restore_keys) body.version res))
              (λ found.
                if_nil found
                  (pure (
                    respond 200
                      (refused (literal (codes "no cache entry matched the requested keys")))))
                  λ m. pure (respond 200 (download_url m.download_url m.entry.key)))
              (λ e. pure (respond 500 (twirp_error (codes "internal") (of_error e))))

  -- `twirpFinalize`; an upload that is not complete is answered with 200 and `"ok": false`.
  unfoldable pub twirp_finalize :
      Bytes → Bytes → Option AuthResult → Option TwirpFinalizeBody → Action (World S) Response
  twirp_finalize loc_id new_entry_id auth decoded = if_nil auth (pure unauthenticated) λ res.
      if_nil decoded (pure key_and_version_required) λ body.
        if lacks_key_or_version body.key body.version
        then pure key_and_version_required
        else if_nil (write_scope res.scopes) (pure permission_denied) λ write.
          handle
            (complete_upload adapter loc_id new_entry_id body.key body.version write.scope
              res.repo_id)
            (λ completed.
              if_nil completed
                (pure
                  (respond 200 (refused (literal (codes "no upload found for this key+version")))))
                λ u. pure (respond 200 (entry_id (format_int u.id))))
            (λ e. pure (respond 200 (refused (of_error e))))
