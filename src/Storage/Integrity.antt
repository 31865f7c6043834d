-- ===== src/Storage/Integrity.antt =====
-- internal/storage/service.go: the tables after each call of the service and after each goroutine that
-- it starts.
use gha_cache_server.Base.{ℕ, List, [], ◌∷◌, Bytes}
use gha_cache_server.Base.Int.{ℤ}
use gha_cache_server.Action.{Error, Action}
use gha_cache_server.Action.Keeps.{Keeps, Keeps-pure, Keeps-bind, Keeps-if_nil}
use gha_cache_server.Db.Models.{CacheEntry, StorageLocation, Upload}
use gha_cache_server.Storage.Consistency.{publish-IsConsistent}
use gha_cache_server.Storage.Soundness.{HasSoundDb, service_rules, publish-HasUniqueKeys}
use gha_cache_server.Storage.Adapter.{Stream, Adapter}
use gha_cache_server.Storage.World.{Job, touch, merge, ServiceConfig}
use gha_cache_server.Storage.Upload.{
  create_upload, upload_part, reject, check_parts, publish, complete_upload,
}
use gha_cache_server.Storage.Match.{
  MatchType, MatchInput, match_key, match_restore, match_scopes, match_keys, match_cache_entry,
  resolve, get_cache_entry_with_download_url,
}
use gha_cache_server.Storage.Download.{
  ensure_parts_exist, miss_if_not_found, start_merge, serve_location, download, merge_parts,
  run_job, open_with, open_merged_seekable,
}

module _ {S : Type 0} where
  pub create_upload-IsSound :
      (id : ℤ) (key version scope repo_id : Bytes)
      → Keeps (HasSoundDb {S = S}) (create_upload id key version scope repo_id)
  unfolding create_upload
  create_upload-IsSound id key version scope repo_id = search service_rules depth 12

module _ {S : Type 0} (adapter : Adapter S) where
  pub upload_part-IsSound :
      (upload_id part_index : ℤ) (body : Stream)
      → Keeps HasSoundDb (upload_part adapter upload_id part_index body)
  unfolding upload_part
  upload_part-IsSound upload_id part_index body = search service_rules depth 12

  reject-IsSound : (u : Upload) (e : Error) → Keeps HasSoundDb (reject adapter u e)
  unfolding reject
  reject-IsSound u e = search service_rules depth 12

  pub check_parts-IsSound : (u : Upload) → Keeps HasSoundDb (check_parts adapter u)
  unfolding check_parts
  check_parts-IsSound u = search (service_rules, reject-IsSound) depth 12

  publish-IsSound :
      (loc_id entry_id key version scope repo_id : Bytes)
      → Keeps HasSoundDb (publish adapter loc_id entry_id key version scope repo_id)
  publish-IsSound loc_id entry_id key version scope repo_id = record {
    from = λ w h. record {
      consistent =
          (publish-IsConsistent adapter loc_id entry_id key version scope repo_id).from w
            h.consistent;
      unique_keys = publish-HasUniqueKeys key version scope repo_id adapter loc_id entry_id w h;
    };
  }

  -- `CompleteUpload` may stop at any of its statements: also then the tables are sound.
  pub complete_upload-IsSound :
      (loc_id entry_id key version scope repo_id : Bytes)
      → Keeps HasSoundDb (complete_upload adapter loc_id entry_id key version scope repo_id)
  unfolding complete_upload
  complete_upload-IsSound loc_id entry_id key version scope repo_id =
      search (service_rules, check_parts-IsSound, publish-IsSound) depth 12

module _ {S : Type 0} where
  match_key-IsSound :
      (exact prefixed : MatchType) (key version scope repo_id : Bytes)
      → Keeps (HasSoundDb {S = S}) (match_key exact prefixed key version scope repo_id)
  unfolding match_key
  match_key-IsSound exact prefixed key version scope repo_id = search service_rules depth 12

  match_restore-IsSound :
      (restore : List Bytes) (version scope repo_id : Bytes)
      → Keeps (HasSoundDb {S = S}) (match_restore restore version scope repo_id)
  unfolding match_restore
  match_restore-IsSound [] version scope repo_id = search service_rules
  match_restore-IsSound (k ∷ restore) version scope repo_id =
      let rest = match_restore-IsSound restore version scope repo_id in
      Keeps-bind _ _ (match_key-IsSound _ _ k version scope repo_id)
        λ m. Keeps-if_nil m _ _ rest (λ m. Keeps-pure _)

  match_scopes-IsSound :
      (primary : Bytes) (restore : List Bytes) (version : Bytes) (scopes : List Bytes)
      (repo_id : Bytes)
      → Keeps (HasSoundDb {S = S}) (match_scopes primary restore version scopes repo_id)
  unfolding match_scopes
  match_scopes-IsSound primary restore version [] repo_id = search service_rules
  match_scopes-IsSound primary restore version (scope ∷ scopes) repo_id =
      let rest = match_scopes-IsSound primary restore version scopes repo_id in
      Keeps-bind _ _ (match_key-IsSound _ _ primary version scope repo_id) λ m.
        Keeps-if_nil m _ _
          (Keeps-bind _ _ (match_restore-IsSound restore version scope repo_id)
            λ m. Keeps-if_nil m _ _ rest (λ m. Keeps-pure _))
          (λ m. Keeps-pure _)

  pub match_cache_entry-IsSound :
      (input : MatchInput) → Keeps (HasSoundDb {S = S}) (match_cache_entry input)
  unfolding match_cache_entry
  match_cache_entry-IsSound input = go input.keys
    where
      go : (keys : List Bytes) → Keeps (HasSoundDb {S = S}) (match_keys keys input)
      go [] = unfold match_keys in search service_rules
      go (primary ∷ restore) =
          unfold match_keys in
          match_scopes-IsSound primary restore input.version input.scopes input.repo_id

module _ {S : Type 0} (adapter : Adapter S) (cfg : ServiceConfig) where
  resolve-IsSound : (e : CacheEntry) → Keeps HasSoundDb (resolve adapter cfg e)
  unfolding resolve
  resolve-IsSound e = search service_rules depth 12

  pub get_cache_entry_with_download_url-IsSound :
      (input : MatchInput) → Keeps HasSoundDb (get_cache_entry_with_download_url adapter cfg input)
  unfolding get_cache_entry_with_download_url
  get_cache_entry_with_download_url-IsSound input =
      search (service_rules, match_cache_entry-IsSound, resolve-IsSound) depth 12

module _ {S : Type 0} (adapter : Adapter S) where
  miss_if_not_found-IsSound :
      {A : Type 0} (e : Error) → Keeps HasSoundDb (miss_if_not_found adapter {A = A} e)
  unfolding miss_if_not_found
  miss_if_not_found-IsSound e = search service_rules

  start_merge-IsSound : (loc : StorageLocation) → Keeps HasSoundDb (start_merge adapter loc)
  unfolding start_merge
  start_merge-IsSound loc = search service_rules depth 12

  ensure_parts_exist-IsSound :
      (loc : StorageLocation) → Keeps HasSoundDb (ensure_parts_exist adapter loc)
  unfolding ensure_parts_exist
  ensure_parts_exist-IsSound loc = search service_rules depth 12

  serve_location-IsSound : (loc : StorageLocation) → Keeps HasSoundDb (serve_location adapter loc)
  unfolding serve_location
  serve_location-IsSound loc =
      search
        (service_rules, miss_if_not_found-IsSound, start_merge-IsSound, ensure_parts_exist-IsSound)
        depth 12

  pub download-IsSound : (id : Bytes) → Keeps HasSoundDb (download adapter id)
  unfolding download
  download-IsSound id = search (service_rules, serve_location-IsSound) depth 12

  merge_parts-IsSound :
      (loc : StorageLocation) (stream : Stream) → Keeps HasSoundDb (merge_parts adapter loc stream)
  unfolding merge_parts
  merge_parts-IsSound loc stream = search service_rules depth 12

  pub run_job-IsSound : (job : Job) → Keeps HasSoundDb (run_job adapter job)
  unfolding run_job
  run_job-IsSound (touch id) = search service_rules depth 12
  run_job-IsSound (merge loc stream) = search (service_rules, merge_parts-IsSound) depth 12

  open_with-IsSound :
      (f : Bytes → Action S (Stream × ℕ)) (loc : StorageLocation)
      → Keeps HasSoundDb (open_with adapter f loc)
  unfolding open_with
  open_with-IsSound f loc = search (service_rules, miss_if_not_found-IsSound) depth 12

  pub open_merged_seekable-IsSound :
      (id : Bytes) → Keeps HasSoundDb (open_merged_seekable adapter id)
  unfolding open_merged_seekable
  open_merged_seekable-IsSound id = search (service_rules, open_with-IsSound) depth 12
