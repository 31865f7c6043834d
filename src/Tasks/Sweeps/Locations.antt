-- ===== src/Tasks/Sweeps/Locations.antt =====
-- What internal/tasks/cleanup_storage_locations.go leaves alone.
use mathlib.Core.Path.{subst}
use gha_cache_server.Base.{
  ℕ, ◌≡◌, refl, sym, ◌∙◌, inl, inr, Bool, false, not, ◌&&◌, List, All-mono, Bool-cases,
  bytes_eq_sound, arith,
}
use gha_cache_server.Action.{ok, Action, pure, modify}
use gha_cache_server.Action.Keeps.{keeps_rules}
use gha_cache_server.Action.Laws.{if_after}
use gha_cache_server.Db.Models.{CacheEntry, StorageLocation}
use gha_cache_server.Db.Sql.{select, delete, exists, page}
use gha_cache_server.Db.Sql.Find.{All-select, All-page, delete_none, exists-never}
use gha_cache_server.Db.Sql.Laws.{exists-delete-false}
use gha_cache_server.Db.State.{Db}
use gha_cache_server.Db.Queries.{
  location_has_id, entry_refers_to, is_orphan, delete_storage_location,
  list_orphaned_storage_locations,
}
use gha_cache_server.Storage.Adapter.{Adapter}
use gha_cache_server.Storage.World.{World, query}
use gha_cache_server.Storage.Tables.{Tables-statement, Tables-gets, Tables-storing, Tables-listed}
use gha_cache_server.Tasks.Jobs.{TaskConfig, drop_location, cleanup_storage_locations}
use gha_cache_server.Tasks.Sweeps.{select-delete, Sweeps, each_page-Sweeps}

-- The location is one that an entry refers to.
abbrev pub is_used : List CacheEntry → StorageLocation → Bool
is_used entries l = not (is_orphan entries l)

module _ (entries : List CacheEntry) (used : List StorageLocation) where
  abbrev IsKept : Db → Type 0
  IsKept d = (d.entries ≡ entries) × (select (is_used entries) d.locations ≡ used)

  abbrev IsOrphan : StorageLocation → Db → Type 0
  IsOrphan l d = exists (entry_refers_to l.id) d.entries ≡ false

  not_used :
      (l x : StorageLocation)
      → exists (entry_refers_to l.id) entries ≡ false
      → (location_has_id l.id x && is_used entries x) ≡ false
  not_used l x orphan = elim (Bool-cases (location_has_id l.id x)) [
    | inl same ↦
        rw
          (
            same,
            subst (λ i. exists (entry_refers_to i) entries ≡ false)
                (sym (bytes_eq_sound x.id l.id same)) orphan,
          )
          refl
    | inr other ↦ rw other refl
  ]

  delete-IsKept :
      (l : StorageLocation) (d : Db)
      → IsKept d × IsOrphan l d
      → IsKept (record d {
        locations = delete (location_has_id l.id) d.locations;
        entries = delete (entry_refers_to l.id) d.entries;
      })
  delete-IsKept l d (kept, orphan) = (
    delete_none (entry_refers_to l.id) d.entries orphan ∙ kept.0,
    select-delete (is_used entries) (location_has_id l.id) d.locations (
          exists-never _ d.locations (λ x.
            not_used l x (subst (λ es. exists (entry_refers_to l.id) es ≡ false) kept.0 orphan)))
        ∙ kept.1,
  )

  delete-IsOrphan :
      (l x : StorageLocation) (d : Db)
      → IsOrphan x d
      → exists (entry_refers_to x.id) (delete (entry_refers_to l.id) d.entries) ≡ false
  delete-IsOrphan l x d orphan =
      exists-delete-false (entry_refers_to x.id) (entry_refers_to l.id) d.entries orphan

  abbrev effect : StorageLocation → Action Db (Unit {0})
  effect l d = (
    ok tt,
    record d {
      locations = delete (location_has_id l.id) d.locations;
      entries = delete (entry_refers_to l.id) d.entries;
    },
  )

  module _ {S : Type 0} (adapter : Adapter S) (cfg : TaskConfig) where
    Sweeps-orphans :
        Sweeps {S = World S}
          (λ w. IsKept w.db)
          (λ l w. IsOrphan l w.db)
          (λ limit offset. query (list_orphaned_storage_locations limit offset))
          (drop_location adapter cfg)
    unfolding list_orphaned_storage_locations drop_location delete_storage_location modify
    Sweeps-orphans = record {
      listing = λ limit offset. Tables-gets IsKept (λ d fs h. h) _;
      listed = λ limit offset w rs p e.
          Tables-listed IsKept (λ d fs h. h)
            (λ d. page limit offset (select (is_orphan d.entries) d.locations)) IsOrphan
            (λ d k.
              All-page (λ l. IsOrphan l d) limit offset _
                (All-mono _ _ (select (is_orphan d.entries) d.locations) (λ l o. ground arith)
                  (All-select (is_orphan d.entries) d.locations)))
            w rs p e;
      swept = λ l.
          search
            (
              keeps_rules,
              Tables-storing (λ d. IsKept d × IsOrphan l d),
              Tables-statement (λ d. IsKept d × IsOrphan l d) (λ d fs h. h) (effect l)
                  (λ d h. (delete-IsKept l d h, delete-IsOrphan l l d h.1)),
            )
            depth 8;
      spared = λ l x.
          search
            (
              keeps_rules,
              Tables-storing (IsOrphan x),
              Tables-statement (IsOrphan x) (λ d fs h. h) (effect l)
                  (λ d h. delete-IsOrphan l x d h),
            )
            depth 8;
    }

-- `CleanupStorageLocations` deletes no cache entry and no storage location that an entry refers to,
-- whatever fails.
pub cleanup_storage_locations-keeps_used :
    {S : Type 0} (adapter : Adapter S) (cfg : TaskConfig) (fuel : ℕ) (w : World S)
    → let d = (cleanup_storage_locations adapter cfg fuel w).1.db in
      (d.entries ≡ w.db.entries)
      × (select (is_used w.db.entries) d.locations ≡ select (is_used w.db.entries) w.db.locations)
unfolding cleanup_storage_locations pure
cleanup_storage_locations-keeps_used adapter cfg fuel w =
    if_after (λ v. IsKept w.db.entries (select (is_used w.db.entries) w.db.locations) v.db)
      cfg.disable_cleanup_jobs _ _ w (refl, refl)
      (each_page-Sweeps (Sweeps-orphans w.db.entries _ adapter cfg) fuel 0 w (refl, refl))
