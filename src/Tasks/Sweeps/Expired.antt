-- ===== src/Tasks/Sweeps/Expired.antt =====
-- What internal/tasks/cleanup_cache_entries.go leaves alone.
use mathlib.Core.Path.{subst, fun_ext}
use gha_cache_server.Base.{
  ℕ, zero, suc, ◌^◌, ◌-◌, ◌*◌, ◌%◌, ◌≤◌, ◌≡◌, refl, sym, ap, leb, Option, none, some, true, ◌∙◌,
  Bool, false, not, ◌&&◌, List, ltb, bytes_eq, bytes_eq_iff, arith,
}
use gha_cache_server.Action.{ok, Action, gets, modify, ◌>>=◌}
use gha_cache_server.Action.Keeps.{keeps_rules}
use gha_cache_server.Action.Laws.{if_after}
use gha_cache_server.Db.Models.{StorageLocation}
use gha_cache_server.Db.Sql.{select, delete, exists, page}
use gha_cache_server.Db.Sql.Find.{All-page}
use gha_cache_server.Db.Sql.Laws.{exists-delete-false, delete-IsUnique}
use gha_cache_server.Db.Sql.Unique.{All-select_unique}
use gha_cache_server.Db.State.{Db}
use gha_cache_server.Db.Integrity.{UniqueLocations}
use gha_cache_server.Db.Queries.{
  location_has_id, entry_refers_to, before_time, delete_storage_location,
  list_expired_storage_locations,
}
use gha_cache_server.Storage.Adapter.{Adapter}
use gha_cache_server.Storage.World.{World, query, now}
use gha_cache_server.Storage.Tables.{Tables-statement, Tables-gets, Tables-storing, Tables-listed}
use gha_cache_server.Tasks.Jobs.{
  TaskConfig, retention, add_duration, drop_location, cleanup_cache_entries,
}
use gha_cache_server.Tasks.Sweeps.{select-delete, Sweeps, each_page-Sweeps}

-- 106751 days are the most that an `int64` of nanoseconds holds.
pub add_duration-retention :
    (c days : ℕ) → days ≤ 106751 → add_duration c (retention days) ≡ c - days * 86400000
add_duration-retention c zero most = omega arith
add_duration-retention c (suc days) most =
    let bits : ℕ = (2 ^ 64 - suc days * 86400000000000 % 2 ^ 64) % 2 ^ 64 in
    let same : bits ≡ 18446744073709551616 - suc days * 86400000000000 = omega arith in
    let high : ltb bits 9223372036854775808 ≡ false = ground arith in rw high (omega (arith, same))

-- The locations that the listing passes over.
abbrev pub is_unexpired : ℕ → StorageLocation → Bool
is_unexpired t l = not (before_time t l.last_downloaded_at)

module _ (t : ℕ) (recent : List StorageLocation) where
  abbrev IsKept : Db → Type 0
  IsKept d = UniqueLocations d.locations × (select (is_unexpired t) d.locations ≡ recent)

  abbrev IsExpired : StorageLocation → Db → Type 0
  IsExpired l d = exists (λ x. location_has_id l.id x && is_unexpired t x) d.locations ≡ false

  abbrev effect : StorageLocation → Action Db (Unit {0})
  effect l d = (
    ok tt,
    record d {
      locations = delete (location_has_id l.id) d.locations;
      entries = delete (entry_refers_to l.id) d.entries;
    },
  )

  effect-IsKept : (l : StorageLocation) (d : Db) → IsKept d × IsExpired l d → IsKept (effect l d).1
  effect-IsKept l d (kept, expired) = (
    delete-IsUnique _ _ bytes_eq_iff (location_has_id l.id) d.locations kept.0,
    select-delete (is_unexpired t) (location_has_id l.id) d.locations expired ∙ kept.1,
  )

  effect-IsExpired : (l x : StorageLocation) (d : Db) → IsExpired x d → IsExpired x (effect l d).1
  effect-IsExpired l x d expired = exists-delete-false _ (location_has_id l.id) d.locations expired

  module _ {S : Type 0} (adapter : Adapter S) (cfg : TaskConfig) where
    Sweeps-IsExpired :
        Sweeps {S = World S}
          (λ w. IsKept w.db)
          (λ l w. IsExpired l w.db)
          (λ limit offset. query (list_expired_storage_locations t limit offset))
          (drop_location adapter cfg)
    unfolding list_expired_storage_locations drop_location delete_storage_location modify
    Sweeps-IsExpired = record {
      listing = λ limit offset. Tables-gets IsKept (λ d fs h. h) _;
      listed = λ limit offset w rs p e.
          Tables-listed IsKept (λ d fs h. h)
            (λ d. page limit offset (select (λ l. before_time t l.last_downloaded_at) d.locations))
            IsExpired
            (λ d k.
              All-page (λ l. IsExpired l d) limit offset _
                (All-select_unique (λ l. l.id) bytes_eq bytes_eq_iff
                  (λ l. before_time t l.last_downloaded_at) d.locations k.0))
            w rs p e;
      swept = λ l.
          search
            (
              keeps_rules,
              Tables-storing (λ d. IsKept d × IsExpired l d),
              Tables-statement (λ d. IsKept d × IsExpired l d) (λ d fs h. h) (effect l)
                  (λ d h. (effect-IsKept l d h, effect-IsExpired l l d h.1)),
            )
            depth 8;
      spared = λ l x.
          search
            (
              keeps_rules,
              Tables-storing (IsExpired x),
              Tables-statement (IsExpired x) (λ d fs h. h) (effect l)
                  (λ d h. effect-IsExpired l x d h),
            )
            depth 8;
    }

-- The cut-off as the code computes it.
cleanup_cache_entries-keeps :
    {S : Type 0} (adapter : Adapter S) (cfg : TaskConfig) (fuel : ℕ) (w : World S)
    → UniqueLocations w.db.locations
    → let t = add_duration w.clock (retention cfg.cache_cleanup_older_than_days) in
      select (is_unexpired t) (cleanup_cache_entries adapter cfg fuel w).1.db.locations
      ≡ select (is_unexpired t) w.db.locations
unfolding cleanup_cache_entries now gets ◌>>=◌
cleanup_cache_entries-keeps adapter cfg fuel w unique =
    let t = add_duration w.clock (retention cfg.cache_cleanup_older_than_days) in
    let recent = select (is_unexpired t) w.db.locations in
    (if_after (λ v. IsKept t recent v.db) cfg.disable_cleanup_jobs _ _ w (unique, refl)
      (each_page-Sweeps (Sweeps-IsExpired t recent adapter cfg) fuel 0 w (unique, refl))).1

-- The location was not downloaded yet, or last at the time or later.
abbrev pub recent_at : ℕ → Option ℕ → Bool
recent_at t none = true
recent_at t (some at) = leb t at

abbrev pub is_recent : ℕ → StorageLocation → Bool
is_recent t l = recent_at t l.last_downloaded_at

select-is_unexpired :
    (t : ℕ) (rows : List StorageLocation) → select (is_unexpired t) rows ≡ select (is_recent t) rows
select-is_unexpired t rows = ap (λ p. select p rows) (fun_ext λ l. same l.last_downloaded_at)
  where
    same : (o : Option ℕ) → not (before_time t o) ≡ recent_at t o
    same none = refl
    same (some at) = ground arith

-- If the configured days are at most 106751 and no two rows of `storage_locations` have the same id,
-- `CleanupCacheEntries` deletes no location that was not downloaded yet or was downloaded within that
-- many days of 86400000 milliseconds, whatever fails: those are the same after it, in the same order.
pub cleanup_cache_entries-keeps_recent :
    {S : Type 0} (adapter : Adapter S) (cfg : TaskConfig) (fuel : ℕ) (w : World S)
    → cfg.cache_cleanup_older_than_days ≤ 106751
    → UniqueLocations w.db.locations
    → let t = w.clock - cfg.cache_cleanup_older_than_days * 86400000 in
      select (is_recent t) (cleanup_cache_entries adapter cfg fuel w).1.db.locations
      ≡ select (is_recent t) w.db.locations
cleanup_cache_entries-keeps_recent adapter cfg fuel w most unique =
    let t = w.clock - cfg.cache_cleanup_older_than_days * 86400000 in
    let d = (cleanup_cache_entries adapter cfg fuel w).1.db in
    sym (select-is_unexpired t d.locations)
    ∙ subst (λ t. select (is_unexpired t) d.locations ≡ select (is_unexpired t) w.db.locations)
        (add_duration-retention w.clock cfg.cache_cleanup_older_than_days most)
        (cleanup_cache_entries-keeps adapter cfg fuel w unique)
    ∙ select-is_unexpired t w.db.locations
