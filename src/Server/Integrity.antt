-- ===== src/Server/Integrity.antt =====
-- internal/server: the tables after each handler.
use gha_cache_server.Base.{Option, Bytes}
use gha_cache_server.Base.Int.{ℤ}
use gha_cache_server.Action.{Action}
use gha_cache_server.Action.Keeps.{Keeps}
use gha_cache_server.Db.Queries.{CacheEntryFilter}
use gha_cache_server.Storage.Adapter.{Adapter}
use gha_cache_server.Storage.World.{ServiceConfig, World}
use gha_cache_server.Storage.Soundness.{HasSoundDb, service_rules}
use gha_cache_server.Storage.Integrity.{
  create_upload-IsSound, upload_part-IsSound, complete_upload-IsSound, match_cache_entry-IsSound,
  get_cache_entry_with_download_url-IsSound, download-IsSound, open_merged_seekable-IsSound,
}
use gha_cache_server.Server.Http.{AuthResult, Response}
use gha_cache_server.Server.Twirp.{
  TwirpKeyVersion, TwirpFinalizeBody, TwirpKeyRestoreVersion, twirp_create, twirp_get,
  twirp_finalize,
}
use gha_cache_server.Server.Files.{UploadRequest, upload_handler, download_handler}
use gha_cache_server.Server.Management.{
  MatchRequest, mgmt_auth, mgmt_get_entry, mgmt_list_entries, mgmt_delete_entry,
  mgmt_delete_entries, mgmt_get_location, mgmt_match, mgmt_delete_location,
}

ruleset handler_rules = (
  service_rules, create_upload-IsSound, upload_part-IsSound, complete_upload-IsSound,
  match_cache_entry-IsSound, get_cache_entry_with_download_url-IsSound, download-IsSound,
  open_merged_seekable-IsSound,
)

module _ {S : Type 0} (adapter : Adapter S) (cfg : ServiceConfig) where
  pub twirp_create-IsSound :
      (id : ℤ) (auth : Option AuthResult) (body : Option TwirpKeyVersion)
      → Keeps HasSoundDb (twirp_create adapter cfg id auth body)
  unfolding twirp_create
  twirp_create-IsSound id auth body = search handler_rules depth 14

  pub twirp_get-IsSound :
      (auth : Option AuthResult) (body : Option TwirpKeyRestoreVersion)
      → Keeps HasSoundDb (twirp_get adapter cfg auth body)
  unfolding twirp_get
  twirp_get-IsSound auth body = search handler_rules depth 14

  pub twirp_finalize-IsSound :
      (loc_id new_entry_id : Bytes) (auth : Option AuthResult) (body : Option TwirpFinalizeBody)
      → Keeps HasSoundDb (twirp_finalize adapter cfg loc_id new_entry_id auth body)
  unfolding twirp_finalize
  twirp_finalize-IsSound loc_id new_entry_id auth body = search handler_rules depth 14

module _ {S : Type 0} (adapter : Adapter S) where
  pub upload_handler-IsSound : (r : UploadRequest) → Keeps HasSoundDb (upload_handler adapter r)
  unfolding upload_handler
  upload_handler-IsSound r = search handler_rules depth 14

  pub download_handler-IsSound : (id : Bytes) → Keeps HasSoundDb (download_handler adapter id)
  unfolding download_handler
  download_handler-IsSound id = search handler_rules depth 14

  pub mgmt_delete_location-IsSound :
      (id : Bytes) → Keeps HasSoundDb (mgmt_delete_location adapter id)
  unfolding mgmt_delete_location
  mgmt_delete_location-IsSound id = search handler_rules depth 14

module _ {S : Type 0} where
  pub mgmt_get_entry-IsSound : (id : Bytes) → Keeps (HasSoundDb {S = S}) (mgmt_get_entry id)
  unfolding mgmt_get_entry
  mgmt_get_entry-IsSound id = search handler_rules depth 14

  pub mgmt_list_entries-IsSound :
      (page items : Bytes) (f : CacheEntryFilter)
      → Keeps (HasSoundDb {S = S}) (mgmt_list_entries page items f)
  unfolding mgmt_list_entries
  mgmt_list_entries-IsSound page items f = search handler_rules depth 14

  pub mgmt_delete_entry-IsSound : (id : Bytes) → Keeps (HasSoundDb {S = S}) (mgmt_delete_entry id)
  unfolding mgmt_delete_entry
  mgmt_delete_entry-IsSound id = search handler_rules depth 14

  pub mgmt_delete_entries-IsSound :
      (f : CacheEntryFilter) → Keeps (HasSoundDb {S = S}) (mgmt_delete_entries f)
  unfolding mgmt_delete_entries
  mgmt_delete_entries-IsSound f = search handler_rules depth 14

  pub mgmt_get_location-IsSound : (id : Bytes) → Keeps (HasSoundDb {S = S}) (mgmt_get_location id)
  unfolding mgmt_get_location
  mgmt_get_location-IsSound id = search handler_rules depth 14

  pub mgmt_match-IsSound : (r : MatchRequest) → Keeps (HasSoundDb {S = S}) (mgmt_match r)
  unfolding mgmt_match
  mgmt_match-IsSound r = search handler_rules depth 14

  pub mgmt_auth-IsSound :
      (key header : Bytes) (h : Action (World S) Response)
      → Keeps HasSoundDb h
      → Keeps HasSoundDb (mgmt_auth key header h)
  unfolding mgmt_auth
  mgmt_auth-IsSound key header h k = search handler_rules depth 14
