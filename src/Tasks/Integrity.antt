-- ===== src/Tasks/Integrity.antt =====
-- internal/tasks: the tables after each task.
use gha_cache_server.Base.{ℕ, zero, suc, none, List, [], ◌∷◌, length, ltb}
use gha_cache_server.Base.Int.{ℤ}
use gha_cache_server.Action.{Action}
use gha_cache_server.Action.Keeps.{Keeps, Keeps-pure, Keeps-bind, Keeps-if}
use gha_cache_server.Db.Models.{StorageLocation, Upload}
use gha_cache_server.Db.Queries.{LruCacheEntry}
use gha_cache_server.Storage.Adapter.{Adapter}
use gha_cache_server.Storage.Download.{usable_free_bytes}
use gha_cache_server.Storage.Soundness.{HasSoundDb, service_rules}
use gha_cache_server.Tasks.Pages.{for_each, each_page, page_size}
use gha_cache_server.Tasks.Jobs.{
  TaskConfig, cleanup_merges, drop_location, cleanup_storage_locations, cleanup_cache_entries,
  drop_upload, cleanup_uploads, clean_parts, cleanup_parts,
}
use gha_cache_server.Tasks.Pressure.{evict, evict_all, evict_batches, cleanup_disk_pressure}

module _ {S R : Type 0} {P : S → Type 0} where
  pub Keeps-for_each :
      (body : R → Action S (Unit {0})) (rows : List R)
      → ((r : R) → Keeps P (body r))
      → Keeps P (for_each body rows)
  unfolding for_each
  Keeps-for_each body [] kb = Keeps-pure tt
  Keeps-for_each body (r ∷ rows) kb = Keeps-bind _ _ (kb r) (λ _. Keeps-for_each body rows kb)

  pub Keeps-each_page :
      (list : ℕ → ℕ → Action S (List R)) (body : R → Action S (Unit {0})) (fuel page : ℕ)
      → ((limit offset : ℕ) → Keeps P (list limit offset))
      → ((r : R) → Keeps P (body r))
      → Keeps P (each_page list body fuel page)
  unfolding each_page
  Keeps-each_page list body zero page kl kb = Keeps-pure none
  Keeps-each_page list body (suc fuel) page kl kb =
      let next = Keeps-each_page list body fuel (suc page) kl kb in
      Keeps-bind _ _ (kl _ _) λ rows.
        Keeps-bind _ _ (Keeps-for_each body rows kb)
          λ _. Keeps-if (ltb (length rows) page_size) _ _ (Keeps-pure _) next

module _ {S : Type 0} (adapter : Adapter S) (cfg : TaskConfig) where
  pub cleanup_merges-IsSound : Keeps HasSoundDb (cleanup_merges adapter cfg)
  unfolding cleanup_merges
  cleanup_merges-IsSound = search service_rules depth 12

  drop_location-IsSound : (l : StorageLocation) → Keeps HasSoundDb (drop_location adapter cfg l)
  unfolding drop_location
  drop_location-IsSound l = search service_rules depth 12

  drop_upload-IsSound : (u : Upload) → Keeps HasSoundDb (drop_upload adapter cfg u)
  unfolding drop_upload
  drop_upload-IsSound u = search service_rules depth 12

  clean_parts-IsSound : (l : StorageLocation) → Keeps HasSoundDb (clean_parts adapter cfg l)
  unfolding clean_parts
  clean_parts-IsSound l = search service_rules depth 12

  ruleset task_rules = (
    service_rules, Keeps-each_page, drop_location-IsSound, drop_upload-IsSound, clean_parts-IsSound,
  )

  pub cleanup_storage_locations-IsSound :
      (fuel : ℕ) → Keeps HasSoundDb (cleanup_storage_locations adapter cfg fuel)
  unfolding cleanup_storage_locations
  cleanup_storage_locations-IsSound fuel = search task_rules depth 12

  pub cleanup_cache_entries-IsSound :
      (fuel : ℕ) → Keeps HasSoundDb (cleanup_cache_entries adapter cfg fuel)
  unfolding cleanup_cache_entries
  cleanup_cache_entries-IsSound fuel = search task_rules depth 12

  pub cleanup_uploads-IsSound : (fuel : ℕ) → Keeps HasSoundDb (cleanup_uploads adapter cfg fuel)
  unfolding cleanup_uploads
  cleanup_uploads-IsSound fuel = search task_rules depth 12

  pub cleanup_parts-IsSound : (fuel : ℕ) → Keeps HasSoundDb (cleanup_parts adapter cfg fuel)
  unfolding cleanup_parts
  cleanup_parts-IsSound fuel = search task_rules depth 12

module _ {S : Type 0} (adapter : Adapter S) where
  usable_free_bytes-IsSound : Keeps HasSoundDb (usable_free_bytes adapter)
  unfolding usable_free_bytes
  usable_free_bytes-IsSound = search service_rules depth 12

  evict-IsSound : (e : LruCacheEntry) (evicted : ℕ) → Keeps HasSoundDb (evict adapter e evicted)
  unfolding evict
  evict-IsSound e evicted = search service_rules depth 12

  evict_all-IsSound :
      (entries : List LruCacheEntry) (evicted : ℕ)
      → Keeps HasSoundDb (evict_all adapter entries evicted)
  unfolding evict_all
  evict_all-IsSound [] evicted = Keeps-pure evicted
  evict_all-IsSound (e ∷ entries) evicted =
      Keeps-bind _ _ (evict-IsSound e evicted) (λ n. evict_all-IsSound entries n)

  evict_batches-IsSound :
      (target : ℤ) (fuel evicted : ℕ) → Keeps HasSoundDb (evict_batches adapter target fuel evicted)
  unfolding evict_batches
  evict_batches-IsSound target zero evicted = Keeps-pure none
  evict_batches-IsSound target (suc fuel) evicted =
      let next = evict_batches-IsSound target fuel in
      Keeps-if _ _ _ (Keeps-pure _) (
        Keeps-bind _ _ (search service_rules) λ entries. Keeps-if _ _ _ (Keeps-pure _) (
          Keeps-bind _ _ (evict_all-IsSound entries evicted) λ n.
            Keeps-bind _ _ usable_free_bytes-IsSound
              λ free. Keeps-if _ _ _ (Keeps-pure _) (next n)))

  pub cleanup_disk_pressure-IsSound :
      (cfg : TaskConfig) (fuel : ℕ) → Keeps HasSoundDb (cleanup_disk_pressure adapter cfg fuel)
  unfolding cleanup_disk_pressure
  cleanup_disk_pressure-IsSound cfg fuel =
      search (service_rules, usable_free_bytes-IsSound, evict_batches-IsSound) depth 12
