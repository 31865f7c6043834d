-- ===== src/Tasks/Bounds.antt =====
-- How much internal/tasks/cleanup_disk_pressure.go evicts at most.
use mathlib.Core.Path.{subst}
use gha_cache_server.Base.{
  ℕ, zero, suc, if◌then◌else◌, ◌+◌, ◌≤◌, ◌<◌, ◌≡◌, refl, sym, ap, ◌∙◌, inl, inr, ◌||◌, Bool, true,
  false, not, Option, none, some, List, [], ◌∷◌, length, length-take, take, ltb, bytes_eq_iff,
  Bool-cases, Bytes, arith,
}
use gha_cache_server.Base.Int.{ℤ, ltb_ℤ, pos}
use gha_cache_server.Action.{Action, ok, pure, gets, modify, attempt, handle, if_nil, ◌>>=◌}
use gha_cache_server.Action.Laws.{
  bind-after, handle-after, if_after, bind-ok, handle-ok, handle-err, Result-cases,
}
use gha_cache_server.Action.Keeps.{Keeps, keeps_rules}
use gha_cache_server.Action.Returns.{Returns}
use gha_cache_server.Db.Sql.Unique.{length-delete_unique}
use gha_cache_server.Db.Sql.Laws.{delete-IsUnique}
use gha_cache_server.Db.Queries.{
  LruCacheEntry, list_lru_cache_entries, delete_cache_entry, delete_storage_location,
  location_has_id,
}
use gha_cache_server.Db.Integrity.{UniqueLocations}
use gha_cache_server.Db.State.{Db, run_statement, statement}
use gha_cache_server.Storage.Adapter.{Adapter}
use gha_cache_server.Storage.World.{World, query, storing}
use gha_cache_server.Storage.Download.{usable_free_bytes}
use gha_cache_server.Storage.Tables.{Tables-statement, Tables-gets, Tables-storing, Tables-becomes}
use gha_cache_server.Tasks.Jobs.{TaskConfig}
use gha_cache_server.Tasks.Pressure.{
  is_nil, free_bytes, evict, evict_all, evict_batches, cleanup_disk_pressure,
}

Returns-listing :
    {S A : Type 0} (Q : A → Type 0) (f : Db → A)
    → ((d : Db) → Q (f d))
    → Returns {S = World S} Q (query (statement (gets f)))
unfolding query statement gets
Returns-listing {A = A} Q f q = record { from = λ w a e. go w.db w.db.faults a e }
  where
    go : (d : Db) (fs : List Bool) (a : A) → (run_statement fs (gets f) d).0 ≡ ok a → Q a
    go d [] a e = subst Q (cc e) (q d)
    go d (true ∷ fs) a e = absurd (cc e)
    go d (false ∷ fs) a e = subst Q (cc e) (q (record d { faults = fs }))

length-take_most : {A : Type 0} (n : ℕ) (xs : List A) → length (take n xs) ≤ n
length-take_most n xs = omega (arith, length-take n xs)

-- Of `total` locations, with different ids, at most `lost` are gone.
abbrev Lost : ℕ → ℕ → Db → Type 0
Lost total lost d = UniqueLocations d.locations × (total ≤ length d.locations + lost)

Lost-weaken : (total : ℕ) {m n : ℕ} (d : Db) → m ≤ n → Lost total m d → Lost total n d
Lost-weaken total d more h = (h.0, omega (arith, h.1))

module _ (total : ℕ) {S : Type 0} (adapter : Adapter S) where
  delete_storage_location-Lost :
      (n : ℕ) (id : Bytes) (w : World S)
      → Lost total n w.db
      → Lost total (suc n) (query (delete_storage_location id) w).1.db
  unfolding delete_storage_location modify
  delete_storage_location-Lost n id w h =
      Tables-becomes (Lost total n) (Lost total (suc n)) _ (λ d fs h. h)
        (λ d h. Lost-weaken total d (omega arith) h)
        (λ d h. (
          delete-IsUnique _ _ bytes_eq_iff (location_has_id id) d.locations h.0,
          omega (arith, h.1, length-delete_unique _ _ bytes_eq_iff id d.locations h.0),
        ))
        w h

  delete_cache_entry-Lost :
      (n : ℕ) (id : Bytes)
      → Keeps {S = World S} (λ w. Lost total n w.db) (query (delete_cache_entry id))
  unfolding delete_cache_entry modify
  delete_cache_entry-Lost n id = Tables-statement (Lost total n) (λ d fs h. h) _ (λ d h. h)

  -- An entry that is evicted is counted, and at most one location goes with it.
  evict-Lost :
      (e : LruCacheEntry) (n : ℕ) (w : World S)
      → Lost total n w.db
      → (m : ℕ) × ((evict adapter e n w).0 ≡ ok m)
        × (m ≤ suc n)
        × Lost total m (evict adapter e n w).1.db
  unfolding evict attempt ◌>>=◌ pure storing
  evict-Lost e n w h = elim (Result-cases (deleted w).0) [
    | inl (u, r) ↦
        rw (handle-ok deleted _ _ r refl) (
          suc n,
          refl,
          omega arith,
          delete_storage_location-Lost n e.location_id (deleted w).1 kept,
        )
    | inr (x, r) ↦ rw (handle-err deleted _ _ r refl) (n, refl, omega arith, kept)
  ]
    where
      deleted : Action (World S) (Unit {0})
      deleted = query (delete_cache_entry e.entry_id)

      kept : Lost total n (deleted w).1.db
      kept = (delete_cache_entry-Lost n e.entry_id).from w h

  evict_all-Lost :
      (es : List LruCacheEntry) (n : ℕ) (w : World S)
      → Lost total n w.db
      → (m : ℕ) × ((evict_all adapter es n w).0 ≡ ok m)
        × (m ≤ n + length es)
        × Lost total m (evict_all adapter es n w).1.db
  unfolding evict_all pure
  evict_all-Lost [] n w h = (n, refl, omega arith, h)
  evict_all-Lost (e ∷ es) n w h =
      let (k, first, one, h1) = evict-Lost e n w h in
      let (m, rest, few, h2) = evict_all-Lost es k (evict adapter e n w).1 h1 in
      let run = bind-ok (evict adapter e n) (evict_all adapter es) first refl in
      (
        m,
        ap (λ p. p.0) run ∙ rest,
        omega (arith, one, few),
        subst (λ p. Lost total m p.1.db) (sym run) h2,
      )

  usable_free_bytes-Lost :
      (n : ℕ) → Keeps {S = World S} (λ w. Lost total n w.db) (usable_free_bytes adapter)
  unfolding usable_free_bytes
  usable_free_bytes-Lost n =
      search (keeps_rules, Tables-storing (Lost total n) (λ d fs h. h)) depth 8

  abbrev Within : World S → Type 0
  Within w = Lost total 1009 w.db

  -- One batch and what follows it.
  batch-Lost :
      (target : ℤ) (fuel n : ℕ) (es : List LruCacheEntry) (w : World S)
      → n < 1000
      → length es ≤ 10
      → Lost total n w.db
      → ((m : ℕ) (v : World S)
          → m ≤ 1009
          → Lost total m v.db
          → Within (evict_batches adapter target fuel m v).1)
      → Within
          ((if is_nil es then pure (some tt) else do
            evicted ← evict_all adapter es n
            free ← usable_free_bytes adapter
            if not (ltb_ℤ (free_bytes free) target)
                then pure (some tt)
                else evict_batches adapter target fuel evicted)
            w).1
  unfolding pure
  batch-Lost target fuel n es w below few h next =
      let (m, counted, more, h1) = evict_all-Lost es n w h in
      let after : World S = (evict_all adapter es n w).1 in
      let probed : World S = (usable_free_bytes adapter after).1 in
      let h2 = (usable_free_bytes-Lost m).from after h1 in
      if_after Within (is_nil es) (pure (some tt)) _ w (Lost-weaken total w.db (omega arith) h) (
        bind-after Within (evict_all adapter es n) _ w
          (Lost-weaken total after.db (omega (arith, more)) h1)
          λ k counted_k.
            bind-after Within (usable_free_bytes adapter) _ after
              (Lost-weaken total probed.db (omega (arith, more)) h2)
              λ free read.
                if_after Within (not (ltb_ℤ (free_bytes free) target)) (pure (some tt)) _ probed
                  (Lost-weaken total probed.db (omega (arith, more)) h2)
                  (let same : m ≡ k = cc (sym counted ∙ counted_k) in
                    next k probed (omega (arith, more, same))
                      (subst (λ j. Lost total j probed.db) same h2)))

  evict_batches-Lost :
      (target : ℤ) (fuel n : ℕ) (w : World S)
      → n ≤ 1009
      → Lost total n w.db
      → Within (evict_batches adapter target fuel n w).1
  unfolding evict_batches pure list_lru_cache_entries
  evict_batches-Lost target zero n w most h = Lost-weaken total w.db most h
  evict_batches-Lost target (suc fuel) n w most h =
      let listed : World S = (query (list_lru_cache_entries 10) w).1 in
      let h1 : Lost total n listed.db = (Tables-gets (Lost total n) (λ d fs h. h) _).from w h in
      elim (Bool-cases (ltb n 1000)) [
        | inr full ↦ rw full (Lost-weaken total w.db most h)
        | inl below ↦ rw below (
            bind-after Within (query (list_lru_cache_entries 10)) _ w
              (Lost-weaken total listed.db most h1)
              λ es found.
                batch-Lost target fuel n es listed (ground arith)
                  ((Returns-listing (λ es. length es ≤ 10) _ (λ d. length-take_most 10 _)).from w es
                    found)
                  h1 (λ m v p q. evict_batches-Lost target fuel m v p q))
      ]

module _ (total : ℕ) {S : Type 0} (adapter : Adapter S) (cfg : TaskConfig) (fuel : ℕ) where
  cleanup_disk_pressure-Lost :
      (w : World S)
      → Lost total 0 w.db
      → Within total adapter (cleanup_disk_pressure adapter cfg fuel w).1
  unfolding cleanup_disk_pressure pure if_nil
  cleanup_disk_pressure-Lost w h =
      if_after (Within total adapter) (cfg.disable_cleanup_jobs || not (ltb_ℤ (pos 0) least))
        (pure (some tt)) (handle (usable_free_bytes adapter) begin (λ _. pure (some tt))) w
        (Lost-weaken total w.db (omega arith) h)
        (handle-after (Within total adapter) (usable_free_bytes adapter) begin (λ _. pure (some tt))
          w low_disk (λ e. kept))
    where
      probed : World S
      probed = (usable_free_bytes adapter w).1

      started : Lost total 0 probed.db
      started = (usable_free_bytes-Lost total adapter 0).from w h

      kept : Within total adapter probed
      kept = Lost-weaken total probed.db (omega arith) started

      least : ℤ
      least = cfg.disk_pressure_min_free_bytes

      aim : ℤ
      aim = cfg.disk_pressure_target_free_bytes

      begin : Option ℤ → Action (World S) (Option (Unit {0}))
      begin probe = if_nil probe (pure (some tt)) λ free.
          if not (ltb_ℤ free least)
          then pure (some tt)
          else evict_batches adapter (if ltb_ℤ aim least then least else aim) fuel 0

      low_disk : (probe : Option ℤ) → Within total adapter (begin probe probed).1
      low_disk none = kept
      low_disk (some free) =
          if_after (Within total adapter) (not (ltb_ℤ free least)) (pure (some tt)) _ probed kept
            (evict_batches-Lost total adapter _ fuel 0 probed (omega arith) started)

-- `CleanupDiskPressure` removes fewer than 1010 rows of `storage_locations` in one run, whether the run
-- ends with or without an error and whatever statements fail, if no two rows have the same id: the
-- limit of 1000 is passed by less than a batch.
pub cleanup_disk_pressure-bound :
    {S : Type 0} (adapter : Adapter S) (cfg : TaskConfig) (fuel : ℕ) (w : World S)
    → UniqueLocations w.db.locations
    → length w.db.locations
      < length (cleanup_disk_pressure adapter cfg fuel w).1.db.locations + 1010
cleanup_disk_pressure-bound adapter cfg fuel w unique = omega (
  arith,
  (cleanup_disk_pressure-Lost (length w.db.locations) adapter cfg fuel w (unique, omega arith)).1,
)
