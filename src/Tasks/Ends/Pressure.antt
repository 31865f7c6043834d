-- ===== src/Tasks/Ends/Pressure.antt =====
-- That the eviction of internal/tasks/cleanup_disk_pressure.go ends, if only so many statements fail.
use mathlib.Core.Path.{subst}
use gha_cache_server.Base.{
  ℕ, zero, suc, ◌+◌, ◌≤◌, ◌<◌, ◌≡◌, ◌≢◌, refl, sym, ap, ◌∙◌, inl, inr, Bool, true, false, not, ◌||◌,
  Option, some, List, [], ◌∷◌, length, Bytes, ltb, if◌then◌else◌, arith,
}
use gha_cache_server.Base.Int.{ℤ, pos, ltb_ℤ}
use gha_cache_server.Action.{
  Error, ok, err, Action, pure, gets, modify, attempt, handle, if_nil, ◌>>=◌,
}
use gha_cache_server.Action.Laws.{bind-ok, handle-ok, handle-err, Result-cases}
use gha_cache_server.Action.Keeps.{Keeps, keeps_rules}
use gha_cache_server.Db.Sql.{delete}
use gha_cache_server.Db.State.{Db, run_statement, statement}
use gha_cache_server.Db.Queries.{
  LruCacheEntry, list_lru_cache_entries, delete_cache_entry, delete_storage_location, entry_has_id,
  location_has_id, entry_refers_to,
}
use gha_cache_server.Storage.Adapter.{Adapter}
use gha_cache_server.Storage.World.{World, query, storing}
use gha_cache_server.Storage.Download.{usable_free_bytes}
use gha_cache_server.Tasks.Jobs.{TaskConfig}
use gha_cache_server.Tasks.Pressure.{
  is_nil, free_bytes, evict, evict_all, evict_batches, cleanup_disk_pressure,
}
use gha_cache_server.Tasks.Ends.{HasEnded}
use gha_cache_server.Tasks.Ends.Rules.{HasEnded-bind, HasEnded-if, HasEnded-handle, HasEnded-if_nil}

-- The statements to come that may fail.
abbrev left : {S : Type 0} → World S → ℕ
left w = length w.db.faults

-- A statement uses up the fault that it fails by.
module _ {S A : Type 0} where
  left-query :
      (m : Action Db A)
      → ((d : Db) → (m d).1.faults ≡ d.faults)
      → (w : World S) → left (query (statement m) w).1 ≤ left w
  unfolding query statement
  left-query m same w = go w.db w.db.faults refl
    where
      go :
          (d : Db) (fs : List Bool)
          → d.faults ≡ fs
          → length (run_statement fs m d).1.faults ≤ length fs
      go d [] e = omega (arith, ap length (same d ∙ e))
      go d (true ∷ fs) e = omega arith
      go d (false ∷ fs) e = omega (arith, ap length (same (record d { faults = fs })))

  left-fails :
      (m : Action Db A)
      → ((d : Db) → (m d).1.faults ≡ d.faults)
      → ((d : Db) (e : Error) → (m d).0 ≢ err e)
      → (w : World S) (e : Error) → (query (statement m) w).0 ≡ err e
      → left (query (statement m) w).1 < left w
  unfolding query statement
  left-fails m same fine w e failed = go w.db w.db.faults refl failed
    where
      go :
          (d : Db) (fs : List Bool)
          → d.faults ≡ fs
          → (run_statement fs m d).0 ≡ err e
          → length (run_statement fs m d).1.faults < length fs
      go d [] s h = absurd (fine d e h)
      go d (true ∷ fs) s h = omega arith
      go d (false ∷ fs) s h = absurd (fine (record d { faults = fs }) e h)

module _ {S : Type 0} (adapter : Adapter S) where
  abbrev drop_entry : Bytes → Action Db (Unit {0})
  drop_entry id = modify λ d. record d { entries = delete (entry_has_id id) d.entries }

  abbrev drop_location : Bytes → Action Db (Unit {0})
  drop_location id = modify λ d. record d {
    locations = delete (location_has_id id) d.locations;
    entries = delete (entry_refers_to id) d.entries;
  }

  -- An entry is evicted, or a fault was used up.
  evict-left :
      (e : LruCacheEntry) (n : ℕ) (w : World S)
      → (m : ℕ) × ((evict adapter e n w).0 ≡ ok m)
        × (suc n + left (evict adapter e n w).1 ≤ m + left w)
  unfolding evict attempt ◌>>=◌ pure modify delete_cache_entry delete_storage_location storing
  evict-left e n w = elim (Result-cases (deleted w).0) [
    | inl (u, r) ↦ rw (handle-ok deleted _ _ r refl) (
      suc n,
      refl,
      omega (
        arith,
        left-query (drop_entry e.entry_id) (λ d. refl) w,
        left-query (drop_location e.location_id) (λ d. refl) (deleted w).1,
      ),
    )
    | inr (x, r) ↦ rw (handle-err deleted _ _ r refl) (
      n,
      refl,
      omega (arith, left-fails (drop_entry e.entry_id) (λ d. refl) (λ d x h. absurd (cc h)) w x r),
    )
  ]
    where
      deleted : Action (World S) (Unit {0})
      deleted = query (statement (drop_entry e.entry_id))

  evict_all-left :
      (es : List LruCacheEntry) (n : ℕ) (w : World S)
      → (m : ℕ) × ((evict_all adapter es n w).0 ≡ ok m)
        × (length es + n + left (evict_all adapter es n w).1 ≤ m + left w)
  unfolding evict_all pure
  evict_all-left [] n w = (n, refl, omega arith)
  evict_all-left (e ∷ es) n w =
      let (k, first, less) = evict-left e n w in
      let (m, rest, fewer) = evict_all-left es k (evict adapter e n w).1 in
      let run = bind-ok (evict adapter e n) (evict_all adapter es) first refl in
      (
        m,
        ap (λ p. p.0) run ∙ rest,
        subst (λ p. suc (length es) + n + left p.1 ≤ m + left w) (sym run)
            (omega (arith, less, fewer)),
      )

  list_left : (w : World S) → left (query (list_lru_cache_entries 10) w).1 ≤ left w
  unfolding list_lru_cache_entries gets
  list_left w = left-query (gets _) (λ d. refl) w

  Keeps-storing_left : {A : Type 0} (k : ℕ) (m : Action S A) → Keeps (λ w. left w ≤ k) (storing m)
  unfolding storing
  Keeps-storing_left k m = record { from = λ w h. h }

  usable_free_bytes-left : (k : ℕ) → Keeps (λ w. left w ≤ k) (usable_free_bytes adapter)
  unfolding usable_free_bytes
  usable_free_bytes-left k = search (keeps_rules, Keeps-storing_left k) depth 8

  -- Each batch brings the loop nearer to its limit or uses up faults.
  batch-HasEnded :
      (target : ℤ) (fuel n : ℕ) (es : List LruCacheEntry) (w : World S)
      → n < 1000
      → 1000 + left w < suc fuel + n
      → ((m : ℕ) (v : World S)
          → 0 < fuel
          → 1000 + left v < fuel + m
          → HasEnded (evict_batches adapter target fuel m v).0)
      → HasEnded
          ((if is_nil es then pure (some tt) else do
            evicted ← evict_all adapter es n
            free ← usable_free_bytes adapter
            if not (ltb_ℤ (free_bytes free) target)
                then pure (some tt)
                else evict_batches adapter target fuel evicted)
            w).0
  unfolding pure
  batch-HasEnded target fuel n [] w below room next = tt
  batch-HasEnded target fuel n (e ∷ es) w below room next =
      HasEnded-bind (evict_all adapter (e ∷ es) n) _ w λ m evicted.
        HasEnded-bind (usable_free_bytes adapter) _ _ λ free read.
          HasEnded-if (not (ltb_ℤ (free_bytes free) target)) _ _ _ (λ enough. tt)
            λ more.
              let after = (evict_all adapter (e ∷ es) n w).1 in
              let (m', counted, nearer) = evict_all-left (e ∷ es) n w in
              let same : m' ≡ m = cc (sym counted ∙ evicted) in
              let probed = (usable_free_bytes-left (left after)).from after (omega arith) in
              next m (usable_free_bytes adapter after).1 (omega arith)
                (omega (arith, same, nearer, probed))

  evict_batches-HasEnded :
      (target : ℤ) (fuel n : ℕ) (w : World S)
      → 0 < fuel
      → 1000 + left w < fuel + n
      → HasEnded (evict_batches adapter target fuel n w).0
  unfolding evict_batches pure
  evict_batches-HasEnded target zero n w some_fuel room = absurd (omega arith)
  evict_batches-HasEnded target (suc fuel) n w some_fuel room =
      HasEnded-if (not (ltb n 1000)) _ _ w (λ done. tt)
        λ below. HasEnded-bind (query (list_lru_cache_entries 10)) _ w λ es listed.
          batch-HasEnded target fuel n es (query (list_lru_cache_entries 10) w).1 (ground arith)
            (omega (arith, room, list_left w))
            (λ m v p q. evict_batches-HasEnded target fuel m v p q)

  -- With fuel for 1000 batches, for each statement to come that may fail, and one more, the eviction
  -- ends.
  pub cleanup_disk_pressure-HasEnded :
      (cfg : TaskConfig) (fuel : ℕ) (w : World S)
      → 1000 + length w.db.faults < fuel
      → HasEnded (cleanup_disk_pressure adapter cfg fuel w).0
  unfolding cleanup_disk_pressure pure
  cleanup_disk_pressure-HasEnded cfg fuel w room =
      HasEnded-if (cfg.disable_cleanup_jobs || not (ltb_ℤ (pos 0) least)) none_evicted
        (handle (usable_free_bytes adapter) probed (λ _. none_evicted)) w (λ off. tt)
        λ on.
          HasEnded-handle (usable_free_bytes adapter) probed (λ _. none_evicted) w
            (λ probe.
              HasEnded-if_nil probe none_evicted low_disk (usable_free_bytes adapter w).1 tt λ free.
                HasEnded-if (not (ltb_ℤ free least)) none_evicted eviction
                  (usable_free_bytes adapter w).1 (λ enough. tt)
                  λ low.
                    evict_batches-HasEnded target fuel 0 (usable_free_bytes adapter w).1
                      (omega (arith, room))
                      (omega (arith, room, (usable_free_bytes-left (left w)).from w (omega arith))))
            (λ e. tt)
    where
      least : ℤ
      least = cfg.disk_pressure_min_free_bytes

      target : ℤ
      target =
          if ltb_ℤ cfg.disk_pressure_target_free_bytes least
          then least
          else cfg.disk_pressure_target_free_bytes

      none_evicted : Action (World S) (Option (Unit {0}))
      none_evicted = pure (some tt)

      eviction : Action (World S) (Option (Unit {0}))
      eviction = evict_batches adapter target fuel 0

      low_disk : ℤ → Action (World S) (Option (Unit {0}))
      low_disk free = if not (ltb_ℤ free least) then none_evicted else eviction

      probed : Option ℤ → Action (World S) (Option (Unit {0}))
      probed probe = if_nil probe none_evicted low_disk
