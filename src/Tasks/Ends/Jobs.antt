-- ===== src/Tasks/Ends/Jobs.antt =====
-- That the four tasks of internal/tasks with a loop over pages end.
use gha_cache_server.Base.{
  ℕ, ◌-◌, ◌*◌, ◌≤◌, ◌<◌, ◌≡◌, refl, ap, Bool, true, false, Option, some, List, [], ◌∷◌, length, inl,
  inr, if◌then◌else◌, Bool-cases, arith,
}
use gha_cache_server.Action.{ok, Action, pure, gets, modify, ◌>>=◌}
use gha_cache_server.Action.Keeps.{Keeps, keeps_rules}
use gha_cache_server.Db.Models.{StorageLocation, Upload}
use gha_cache_server.Db.Sql.{page, select, delete}
use gha_cache_server.Db.State.{Db, run_statement, statement}
use gha_cache_server.Db.Queries.{
  list_stale_uploads, is_stale_upload, delete_upload, list_orphaned_storage_locations, is_orphan,
  list_expired_storage_locations, before_time, delete_storage_location,
  list_merged_not_cleaned_storage_locations, is_merged_not_cleaned, update_storage_parts_deleted,
  update_locations, upload_has_id, location_has_id, entry_refers_to,
}
use gha_cache_server.Storage.Adapter.{Adapter}
use gha_cache_server.Storage.World.{World, query, storing, now}
use gha_cache_server.Tasks.Pages.{each_page}
use gha_cache_server.Tasks.Jobs.{
  TaskConfig, minute, retention, add_duration, drop_location, cleanup_storage_locations,
  cleanup_cache_entries, drop_upload, cleanup_uploads, clean_parts, cleanup_parts,
}
use gha_cache_server.Tasks.Ends.{
  HasEnded, Shrinks, each_page-HasEnded, length-select, length-delete, length-update,
}

module _ {S : Type 0} where
  -- At most `n` rows in the table that `rows` reads.
  abbrev AtMost : {R : Type 0} → (Db → List R) → ℕ → World S → Type 0
  AtMost rows n w = length (rows w.db) ≤ n

  module _ {R : Type 0} (rows : Db → List R)
      (stable : (d : Db) (fs : List Bool) → rows (record d { faults = fs }) ≡ rows d) where
    -- A statement that makes a table no longer.
    Keeps-shortening :
        {A : Type 0} (n : ℕ) (m : Action Db A)
        → ((d : Db) → length (rows (m d).1) ≤ length (rows d))
        → Keeps (AtMost rows n) (query (statement m))
    unfolding query statement
    Keeps-shortening n m step = record { from = λ w h. go w w.db.faults h }
      where
        go :
            (w : World S) (fs : List Bool)
            → AtMost rows n w
            → length (rows (run_statement fs m w.db).1) ≤ n
        go w [] h = omega (arith, step w.db)
        go w (true ∷ fs) h = rw (stable w.db fs) h
        go w (false ∷ fs) h =
            omega (arith, step (record w.db { faults = fs }), ap length (stable w.db fs))

    Keeps-reading :
        {A : Type 0} (n : ℕ) (f : Db → A) → Keeps (AtMost rows n) (query (statement (gets f)))
    unfolding gets
    Keeps-reading n f = Keeps-shortening n (gets f) (λ d. omega arith)

    -- What a statement that lists a part of the table reads.
    reads_page :
        (q : Db → R → Bool) (limit offset : ℕ) (w : World S) (rs : List R)
        → (query (statement (gets λ d. page limit offset (select (q d) (rows d)))) w).0 ≡ ok rs
        → (found : List R) × (rs ≡ page limit offset found) × (length found ≤ length (rows w.db))
    unfolding query statement gets
    reads_page q limit offset w rs e = go w.db.faults e
      where
        go :
            (fs : List Bool)
            → (run_statement fs (gets λ d. page limit offset (select (q d) (rows d))) w.db).0
              ≡ ok rs
            → (found : List R) × (rs ≡ page limit offset found)
              × (length found ≤ length (rows w.db))
        go [] e = (select (q w.db) (rows w.db), cc e, length-select (q w.db) (rows w.db))
        go (true ∷ fs) e = absurd (cc e)
        go (false ∷ fs) e = (
          select (q d') (rows d'),
          cc e,
          omega (arith, length-select (q d') (rows d'), ap length (stable w.db fs)),
        )
          where
            d' : Db
            d' = record w.db { faults = fs }

  Keeps-storing :
      {R A : Type 0} (rows : Db → List R) (n : ℕ) (m : Action S A)
      → Keeps (AtMost rows n) (storing m)
  unfolding storing
  Keeps-storing rows n m = record { from = λ w h. h }

  Keeps-now : {R : Type 0} (rows : Db → List R) (n : ℕ) → Keeps (AtMost rows n) now
  unfolding now
  Keeps-now rows n = record { from = λ w h. h }

module _ {S : Type 0} (adapter : Adapter S) (cfg : TaskConfig) where
  abbrev uploads : Db → List Upload
  uploads d = d.uploads

  abbrev locations : Db → List StorageLocation
  locations d = d.locations

  drop_upload-AtMost : (n : ℕ) (u : Upload) → Keeps (AtMost uploads n) (drop_upload adapter cfg u)
  unfolding drop_upload delete_upload modify
  drop_upload-AtMost n u =
      search
        (
          keeps_rules,
          Keeps-storing uploads n,
          Keeps-shortening uploads (λ d fs. refl) n
              (modify λ d. record d { uploads = delete (upload_has_id u.id) d.uploads })
              (λ d. length-delete (upload_has_id u.id) d.uploads),
        )
        depth 8

  drop_location-AtMost :
      (n : ℕ) (l : StorageLocation) → Keeps (AtMost locations n) (drop_location adapter cfg l)
  unfolding drop_location delete_storage_location modify
  drop_location-AtMost n l =
      search
        (
          keeps_rules,
          Keeps-storing locations n,
          Keeps-shortening locations (λ d fs. refl) n
              (modify λ d. record d {
                locations = delete (location_has_id l.id) d.locations;
                entries = delete (entry_refers_to l.id) d.entries;
              })
              (λ d. length-delete (location_has_id l.id) d.locations),
        )
        depth 8

  clean_parts-AtMost :
      (n : ℕ) (l : StorageLocation) → Keeps (AtMost locations n) (clean_parts adapter cfg l)
  unfolding clean_parts update_storage_parts_deleted modify
  clean_parts-AtMost n l =
      search
        (
          keeps_rules,
          Keeps-storing locations n,
          Keeps-now locations n,
          λ (t : ℕ).
              Keeps-shortening {S = S} locations (λ d fs. refl) n
                (modify (update_locations l.id λ l. record l { parts_deleted_at = some t }))
                (λ d. omega (
                  arith,
                  length-update (location_has_id l.id) (λ l. record l { parts_deleted_at = some t })
                      d.locations,
                )),
        )
        depth 8

  -- A loop over the pages of a part of a table, whose body makes the table no longer.
  Shrinks-page :
      {R : Type 0} (rows : Db → List R)
      → ((d : Db) (fs : List Bool) → rows (record d { faults = fs }) ≡ rows d)
      → (q : Db → R → Bool) (body : R → Action (World S) (Unit {0}))
      → ((n : ℕ) (r : R) → Keeps (AtMost rows n) (body r))
      → Shrinks
          (λ w. length (rows w.db))
          (λ limit offset. query (statement (gets λ d. page limit offset (select (q d) (rows d)))))
          body
  Shrinks-page rows stable q body shorter = record {
    reads = reads_page rows stable q;
    list_keeps = λ n limit offset. Keeps-reading rows stable n _;
    body_keeps = shorter;
  }

  -- A task that does not begin has ended.
  disabled_or :
      (m : Action (World S) (Option (Unit {0}))) (w : World S)
      → HasEnded (m w).0
      → HasEnded ((if cfg.disable_cleanup_jobs then pure (some tt) else m) w).0
  unfolding pure
  disabled_or m w ended = elim (Bool-cases cfg.disable_cleanup_jobs) [
    | inl on ↦ rw on tt
    | inr off ↦ rw off ended
  ]

  -- With fuel for more rows than there are uploads, ten to a unit, the task on uploads ends.
  pub cleanup_uploads-HasEnded :
      (fuel : ℕ) (w : World S)
      → length w.db.uploads < fuel * 10
      → HasEnded (cleanup_uploads adapter cfg fuel w).0
  unfolding cleanup_uploads list_stale_uploads now gets ◌>>=◌
  cleanup_uploads-HasEnded fuel w room = disabled_or _ w (
      each_page-HasEnded
        (Shrinks-page uploads (λ d fs. refl) (λ d. is_stale_upload (w.clock - minute))
          (drop_upload adapter cfg) drop_upload-AtMost)
        fuel 0 (length w.db.uploads) w (omega arith) (omega arith) (omega arith))

  -- With fuel for more rows than there are locations, ten to a unit, each of the three tasks on
  -- locations ends.
  pub cleanup_locations-HasEnded :
      (fuel : ℕ) (w : World S)
      → length w.db.locations < fuel * 10
      → HasEnded (cleanup_storage_locations adapter cfg fuel w).0
        × HasEnded (cleanup_cache_entries adapter cfg fuel w).0
        × HasEnded (cleanup_parts adapter cfg fuel w).0
  unfolding cleanup_storage_locations cleanup_cache_entries cleanup_parts
      list_orphaned_storage_locations list_expired_storage_locations
      list_merged_not_cleaned_storage_locations now gets ◌>>=◌
  cleanup_locations-HasEnded fuel w room = (
    disabled_or _ w (ends (λ d. is_orphan d.entries) drop_location-AtMost),
    disabled_or _ w (
        ends
          (λ d l.
            before_time (add_duration w.clock (retention cfg.cache_cleanup_older_than_days))
              l.last_downloaded_at)
          drop_location-AtMost),
    disabled_or _ w (ends (λ d. is_merged_not_cleaned) clean_parts-AtMost),
  )
    where
      ends :
          {body : StorageLocation → Action (World S) (Unit {0})} (q : Db → StorageLocation → Bool)
          → ((n : ℕ) (l : StorageLocation) → Keeps (AtMost locations n) (body l))
          → HasEnded
              (each_page
                (λ limit offset.
                  query (statement (gets λ d. page limit offset (select (q d) (locations d)))))
                body
                fuel
                0
                w).0
      ends {body} q shorter =
          each_page-HasEnded (Shrinks-page locations (λ d fs. refl) q body shorter) fuel 0
            (length w.db.locations) w (omega arith) (omega arith) (omega arith)
