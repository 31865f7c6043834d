-- ===== src/Tasks/Jobs.antt =====
-- internal/tasks/cleanup_merges.go, cleanup_storage_locations.go, cleanup_cache_entries.go,
-- cleanup_uploads.go and cleanup_parts.go. A task takes the fuel of its loop; the loop of one that
-- is disabled does not begin.
use gha_cache_server.Base.{ℕ, ◌+◌, ◌-◌, ◌*◌, ◌/◌, ◌%◌, ◌^◌, Bool, Option, some, if◌then◌else◌}
use gha_cache_server.Base.Int.{ℤ, pos, negsuc, wrap_int64}
use gha_cache_server.Action.{Action, pure, attempt, ◌>>=◌, ◌>>◌}
use gha_cache_server.Db.Models.{StorageLocation, Upload}
use gha_cache_server.Db.Queries.{
  reset_stalled_merges, list_orphaned_storage_locations, list_expired_storage_locations,
  list_stale_uploads, list_merged_not_cleaned_storage_locations, delete_storage_location,
  delete_upload, update_storage_parts_deleted,
}
use gha_cache_server.Storage.Adapter.{Adapter}
use gha_cache_server.Storage.World.{World, query, storing, now, parts_folder}
use gha_cache_server.Tasks.Pages.{each_page}

-- The fields of `config.Config` that the tasks read.
pub record TaskConfig : Type 0 where
  pub disable_cleanup_jobs : Bool
  pub cache_cleanup_older_than_days : ℕ
  pub disk_pressure_min_free_bytes : ℤ
  pub disk_pressure_target_free_bytes : ℤ

-- In milliseconds. A time before 1970 is taken for 0, which no row of the tables comes before.
abbrev pub minute : ℕ
minute = 60000

-- `-time.Duration(days) * 24 * time.Hour`, in nanoseconds of an `int64`, which wraps.
abbrev pub retention : ℕ → ℤ
retention days = wrap_int64 (2 ^ 64 - days * 86400000000000 % 2 ^ 64)

-- `t.Add(d).UnixMilli()` of a time `t` at a whole millisecond.
abbrev pub add_duration : ℕ → ℤ → ℕ
add_duration t (pos d) = t + d / 1000000
add_duration t (negsuc d) = t - (d / 1000000 + 1)

module _ {S : Type 0} (adapter : Adapter S) (cfg : TaskConfig) where
  -- `CleanupMerges`
  unfoldable pub cleanup_merges : Action (World S) (Unit {0})
  cleanup_merges =
      if cfg.disable_cleanup_jobs
      then pure tt
      else do t ← now; query (reset_stalled_merges (t - 15 * minute)); pure tt

  -- The body of the loops over locations that are to go.
  unfoldable pub drop_location : StorageLocation → Action (World S) (Unit {0})
  drop_location l = do
    attempt (query (delete_storage_location l.id))
    attempt (storing (adapter.delete_folder l.folder_name))

  -- `CleanupStorageLocations`
  unfoldable pub cleanup_storage_locations : ℕ → Action (World S) (Option (Unit {0}))
  cleanup_storage_locations fuel =
      if cfg.disable_cleanup_jobs
      then pure (some tt)
      else each_page (λ limit offset. query (list_orphaned_storage_locations limit offset))
          drop_location fuel 0

  -- `CleanupCacheEntries`
  unfoldable pub cleanup_cache_entries : ℕ → Action (World S) (Option (Unit {0}))
  cleanup_cache_entries fuel = if cfg.disable_cleanup_jobs then pure (some tt) else do
    t ← now
    let threshold = add_duration t (retention cfg.cache_cleanup_older_than_days)
    each_page (λ limit offset. query (list_expired_storage_locations threshold limit offset))
        drop_location fuel 0

  -- The body of the loop of `CleanupUploads`.
  unfoldable pub drop_upload : Upload → Action (World S) (Unit {0})
  drop_upload u = do
    attempt (query (delete_upload u.id))
    attempt (storing (adapter.delete_folder u.folder_name))

  -- `CleanupUploads`
  unfoldable pub cleanup_uploads : ℕ → Action (World S) (Option (Unit {0}))
  cleanup_uploads fuel = if cfg.disable_cleanup_jobs then pure (some tt) else do
    t ← now
    each_page (λ limit offset. query (list_stale_uploads (t - minute) limit offset)) drop_upload
        fuel 0

  -- The body of the loop of `CleanupParts`, where an error ends the task.
  unfoldable pub clean_parts : StorageLocation → Action (World S) (Unit {0})
  clean_parts l = do
    t ← now
    query (update_storage_parts_deleted l.id t)
    storing (adapter.delete_folder (parts_folder l.folder_name))

  -- `CleanupParts`
  unfoldable pub cleanup_parts : ℕ → Action (World S) (Option (Unit {0}))
  cleanup_parts fuel =
      if cfg.disable_cleanup_jobs
      then pure (some tt)
      else each_page
          (λ limit offset. query (list_merged_not_cleaned_storage_locations limit offset))
          clean_parts fuel 0
