-- ===== src/Tasks/Pressure.antt =====
-- internal/tasks/cleanup_disk_pressure.go: entries are evicted, those first that were used least
-- recently, until enough of the disk is free.
use gha_cache_server.Base.{
  ℕ, zero, suc, Bool, true, false, not, ◌||◌, Option, none, some, List, [], ◌∷◌, ltb, if◌then◌else◌,
}
use gha_cache_server.Base.Int.{ℤ, pos, ltb_ℤ}
use gha_cache_server.Action.{Action, pure, attempt, handle, if_nil, ◌>>=◌, ◌>>◌}
use gha_cache_server.Db.Queries.{
  LruCacheEntry, list_lru_cache_entries, delete_cache_entry, delete_storage_location,
}
use gha_cache_server.Storage.Adapter.{Adapter}
use gha_cache_server.Storage.World.{World, query, storing}
use gha_cache_server.Storage.Download.{usable_free_bytes}
use gha_cache_server.Tasks.Jobs.{TaskConfig}

-- `diskPressureBatchSize` and `diskPressureMaxEvictions`
abbrev pub batch_size : ℕ
batch_size = 10

abbrev pub max_evictions : ℕ
max_evictions = 1000

abbrev pub is_nil : {A : Type 0} → List A → Bool
is_nil [] = true
is_nil (x ∷ xs) = false

-- The bytes of `free, _, err := UsableFreeBytes()`.
abbrev pub free_bytes : Option ℤ → ℤ
free_bytes none = pos 0
free_bytes (some n) = n

module _ {S : Type 0} (adapter : Adapter S) where
  -- The body of the inner loop, with the number that was evicted before and after.
  unfoldable pub evict : LruCacheEntry → ℕ → Action (World S) ℕ
  evict e evicted =
      handle (query (delete_cache_entry e.entry_id))
        (λ _. do
          attempt (query (delete_storage_location e.location_id))
          attempt (storing (adapter.delete_folder e.folder_name))
          pure (suc evicted))
        (λ _. pure evicted)

  unfoldable pub evict_all : List LruCacheEntry → ℕ → Action (World S) ℕ
  evict_all [] evicted = pure evicted
  evict_all (e ∷ entries) evicted = evict e evicted >>= evict_all entries

  -- The outer loop, with fuel for each batch and the number that was evicted before; `none` means
  -- that the fuel ran out.
  unfoldable pub evict_batches : ℤ → ℕ → ℕ → Action (World S) (Option (Unit {0}))
  evict_batches target zero evicted = pure none
  evict_batches target (suc fuel) evicted =
      if not (ltb evicted max_evictions) then pure (some tt) else do
        entries ← query (list_lru_cache_entries batch_size)
        if is_nil entries then pure (some tt) else do
          evicted' ← evict_all entries evicted
          free ← usable_free_bytes adapter
          if not (ltb_ℤ (free_bytes free) target)
              then pure (some tt)
              else evict_batches target fuel evicted'

  -- `CleanupDiskPressure`. A probe that fails at the start is no error of the task.
  unfoldable pub cleanup_disk_pressure : TaskConfig → ℕ → Action (World S) (Option (Unit {0}))
  cleanup_disk_pressure cfg fuel =
      let least = cfg.disk_pressure_min_free_bytes in
      let aim = cfg.disk_pressure_target_free_bytes in
      if cfg.disable_cleanup_jobs || not (ltb_ℤ (pos 0) least)
      then pure (some tt)
      else handle (usable_free_bytes adapter)
          (λ probe. if_nil probe (pure (some tt)) λ free.
            if not (ltb_ℤ free least)
            then pure (some tt)
            else evict_batches (if ltb_ℤ aim least then least else aim) fuel 0)
          (λ _. pure (some tt))
