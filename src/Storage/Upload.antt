-- ===== src/Storage/Upload.antt =====
-- internal/storage/service.go: `CreateUpload`, `UploadPart` and `CompleteUpload`. The random ids
-- that a call draws are its first arguments.
use gha_cache_server.Base.{ℕ, not, Option, none, some, ◌==◌, if◌then◌else◌, Bytes}
use gha_cache_server.Base.Int.{ℤ}
use gha_cache_server.Base.Decimal.{format_int}
use gha_cache_server.Action.{
  Error, insert_upload_failed, count_parts_failed, no_parts, not_all_parts, part_count_mismatch,
  Action, pure, fail, wrap, attempt, if_nil, ◌>>=◌, ◌>>◌,
}
use gha_cache_server.Db.Models.{CacheEntry, StorageLocation, Upload}
use gha_cache_server.Db.Queries.{
  insert_upload, find_upload_by_key, find_upload_by_id, inc_started_part_count,
  inc_finished_part_count, delete_upload, insert_storage_location, delete_storage_location,
  insert_cache_entry, update_cache_entry_location, find_existing_cache_entry_with_location,
}
use gha_cache_server.Storage.Adapter.{Stream, Adapter}
use gha_cache_server.Storage.World.{World, query, storing, now, parts_folder, part_name}

abbrev pub new_upload : ℤ → Bytes → Bytes → Bytes → Bytes → ℕ → Upload
new_upload id key version scope repo_id t = record {
  id = id;
  key = key;
  version = version;
  scope = scope;
  repo_id = repo_id;
  created_at = t;
  last_part_uploaded_at = none;
  started_part_upload_count = 0;
  finished_part_upload_count = 0;
  folder_name = format_int id;
}

abbrev pub new_location : Bytes → Bytes → ℕ → StorageLocation
new_location id folder_name part_count = record {
  id = id;
  folder_name = folder_name;
  part_count = part_count;
  merge_started_at = none;
  merged_at = none;
  parts_deleted_at = none;
  last_downloaded_at = none;
}

abbrev pub new_entry : Bytes → Bytes → Bytes → Bytes → Bytes → ℕ → Bytes → CacheEntry
new_entry id key version scope repo_id t location_id = record {
  id = id;
  key = key;
  version = version;
  scope = scope;
  repo_id = repo_id;
  updated_at = t;
  location_id = location_id;
}

module _ {S : Type 0} where
  -- `CreateUpload`; `none` if an upload for the key is in progress.
  unfoldable pub create_upload :
      ℤ → Bytes → Bytes → Bytes → Bytes → Action (World S) (Option Upload)
  create_upload id key version scope repo_id = do
    existing ← query (find_upload_by_key key version scope repo_id)
    if_nil existing
        (do
          t ← now
          let u = new_upload id key version scope repo_id t
          wrap insert_upload_failed (query (insert_upload u))
          pure (some u))
        λ u. pure none

module _ {S : Type 0} (adapter : Adapter S) where
  -- `UploadPart`; an unknown upload is no error.
  unfoldable pub upload_part : ℤ → ℤ → Stream → Action (World S) (Unit {0})
  upload_part upload_id part_index body = do
    found ← query (find_upload_by_id upload_id)
    if_nil found (pure tt) λ u. do
      query (inc_started_part_count upload_id)
      storing (adapter.upload_stream (part_name u.folder_name part_index) body)
      t ← now
      query (inc_finished_part_count upload_id t)

  -- The upload is dropped, whether or not the statement fails, and the call returns the error.
  unfoldable pub reject : Upload → Error → Action (World S) ℕ
  reject u e = do attempt (query (delete_upload u.id)); fail e

  -- The tests of `CompleteUpload`, with the number of parts.
  unfoldable pub check_parts : Upload → Action (World S) ℕ
  check_parts u =
      if u.finished_part_upload_count == 0
      then reject u no_parts
      else if not (u.started_part_upload_count == u.finished_part_upload_count)
      then reject u (not_all_parts u.finished_part_upload_count u.started_part_upload_count)
      else do
        part_count ←
            wrap count_parts_failed
              (storing (adapter.count_files_in_folder (parts_folder u.folder_name)))
        if not (part_count == u.finished_part_upload_count)
            then reject u (part_count_mismatch u.finished_part_upload_count part_count)
            else pure part_count

  -- The entry of the key is moved to the new location and its old location goes, or the entry is
  -- new.
  unfoldable pub publish :
      Bytes → Bytes → Bytes → Bytes → Bytes → Bytes → Action (World S) (Unit {0})
  publish loc_id entry_id key version scope repo_id = do
    existing ← query (find_existing_cache_entry_with_location key version scope repo_id)
    t ← now
    if_nil existing
        (query (insert_cache_entry (new_entry entry_id key version scope repo_id t loc_id)))
        λ r. do
          query (update_cache_entry_location r.0.id loc_id t)
          query (delete_storage_location r.1.id)
          storing (adapter.delete_folder r.1.folder_name)

  -- `CompleteUpload`; `none` if no upload for the key is in progress.
  unfoldable pub complete_upload :
      Bytes → Bytes → Bytes → Bytes → Bytes → Bytes → Action (World S) (Option Upload)
  complete_upload loc_id entry_id key version scope repo_id = do
    found ← query (find_upload_by_key key version scope repo_id)
    if_nil found (pure none) λ u. do
      part_count ← check_parts u
      query (insert_storage_location (new_location loc_id u.folder_name part_count))
      publish loc_id entry_id key version scope repo_id
      query (delete_upload u.id)
      pure (some u)
