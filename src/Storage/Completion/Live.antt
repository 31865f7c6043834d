-- ===== src/Storage/Completion/Live.antt =====
-- `CompleteUpload` of internal/storage/service.go succeeds where nothing that it needs fails.
pub mod Statements
use gha_cache_server.Base.{
  ℕ, ◌<◌, ◌≡◌, refl, sym, ap, ◌∙◌, Bool, true, false, not, ◌||◌, ◌&&◌, Option, none, some, List, [],
  ◌∷◌, head, ◌==◌, if◌then◌else◌, Bytes, bytes_eq_self, arith,
}
use gha_cache_server.Base.Int.{ℤ}
use gha_cache_server.Action.{ok, Action, gets, modify, if_nil, ◌>>=◌}
use gha_cache_server.Action.Succeeds.{
  Succeeds, SucceedsAt, Succeeds-pure, Succeeds-wrap, Succeeds-else, Succeeds-weaken, Succeeds-bind,
  Succeeds-if_nil, Succeeds-known, Succeeds-if_some,
}
use gha_cache_server.Db.Models.{CacheEntry, StorageLocation, Upload}
use gha_cache_server.Db.Sql.{select, exists}
use gha_cache_server.Db.Sql.Find.{exists-append_last}
use gha_cache_server.Db.State.{Db, run_statement, statement}
use gha_cache_server.Db.Queries.{
  location_has_id, entry_has_id, upload_matches, find_upload_by_key, insert_storage_location,
  find_existing_cache_entry_with_location, insert_cache_entry, update_cache_entry_location,
  delete_storage_location, delete_upload,
}
use gha_cache_server.Storage.Adapter.{Adapter}
use gha_cache_server.Storage.World.{World, query, storing, now, parts_folder}
use gha_cache_server.Storage.Reads.{with_faults}
use gha_cache_server.Storage.Completion.{IsCompleted, complete_upload-IsCompleted}
use gha_cache_server.Db.Integrity.{IsConsistent}
use gha_cache_server.Storage.Upload.{new_location, new_entry, check_parts, publish, complete_upload}
use gha_cache_server.Storage.Completion.Live.Statements.{
  HasNoFault, IsFaultless, IsFresh, IsPlaced, Succeeds-storing, Succeeds-now, find-Succeeds,
  insert_location-Succeeds, insert_entry-Succeeds, update_entry-Succeeds, delete_location-Succeeds,
  delete_upload-Succeeds, find_existing-Succeeds,
}

module _ {S : Type 0} (adapter : Adapter S) where
  -- The storage deletes every folder that it is asked to.
  abbrev pub DeletesFolders : Type 0
  DeletesFolders = (name : Bytes) (s : S) → (adapter.delete_folder name s).0 ≡ ok tt

  -- All parts were begun and ended, there is one at least, and the storage counts as many.
  abbrev pub HasStoredParts : Upload → S → Type 0
  HasStoredParts u s =
      (0 < u.finished_part_upload_count)
      × (u.started_part_upload_count ≡ u.finished_part_upload_count)
      × ((adapter.count_files_in_folder (parts_folder u.folder_name) s).0
          ≡ ok u.finished_part_upload_count)

module _ {S : Type 0} (loc_id entry_id key version scope repo_id : Bytes)
    (adapter : Adapter S) where
  publish-Succeeds :
      DeletesFolders adapter
      → Succeeds
          (λ w. HasNoFault w × IsPlaced loc_id entry_id w)
          (publish adapter loc_id entry_id key version scope repo_id)
          (λ _. IsFaultless)
  unfolding publish
  publish-Succeeds deletes =
      Succeeds-bind _ _ _ (find_existing-Succeeds loc_id entry_id key version scope repo_id)
        λ existing. Succeeds-bind _ _ _ (Succeeds-now _) λ t.
          Succeeds-if_nil existing _ _
            (insert_entry-Succeeds loc_id entry_id key version scope repo_id t)
            λ r. Succeeds-bind _ _ _ (update_entry-Succeeds loc_id entry_id r.0.id t) λ _.
              Succeeds-bind _ _ _ (delete_location-Succeeds r.1.id) λ _.
                Succeeds-storing {P = λ _. Unit} {Q = λ _ _. Unit}
                  (λ d. exists (λ b. b) d.faults ≡ false) _
                  (record {
                    at = λ s p. record {
                      value = tt;
                      returned = deletes r.1.folder_name s;
                      after = tt;
                    };
                  })

  check_parts-Succeeds :
      (u : Upload) (s : S)
      → HasStoredParts adapter u s
      → Succeeds
          (λ w. (HasNoFault w × IsFresh loc_id entry_id w) × (w.store ≡ s))
          (check_parts adapter u)
          (λ n w. HasNoFault w × IsFresh loc_id entry_id w)
  unfolding check_parts
  check_parts-Succeeds u s (some_parts, all_parts, counted) =
      Succeeds-else (parts == 0) _ _ (ground arith) (
        Succeeds-else (not (u.started_part_upload_count == parts)) _ _ (ground arith) (
          Succeeds-bind _ _ _ (Succeeds-wrap _ _ (Succeeds-storing HasNew _ count)) λ n.
            Succeeds-known _ (λ w p. p.1)
              λ same.
                Succeeds-else (not (n == parts)) _ _ (differs n same)
                  (Succeeds-pure n (λ w p. p.0))))
    where
      parts : ℕ
      parts = u.finished_part_upload_count

      HasNew : Db → Type 0
      HasNew d =
          (exists (λ b. b) d.faults ≡ false)
          × ((exists (location_has_id loc_id) d.locations ≡ false)
              × (exists (entry_has_id entry_id) d.entries ≡ false))

      count :
          Succeeds
            (λ x. x ≡ s)
            (adapter.count_files_in_folder (parts_folder u.folder_name))
            (λ n _. n ≡ parts)
      count = record { at = λ x e. record { value = parts; returned = rw e counted; after = refl } }

      differs : (n : ℕ) → n ≡ parts → not (n == parts) ≡ false
      differs n same = ground arith

  complete_upload-Succeeds :
      (u : Upload) (s : S)
      → DeletesFolders adapter
      → HasStoredParts adapter u s
      → Succeeds
          (λ w.
            HasNoFault w
            × (IsFresh loc_id entry_id w
                × (head (select (upload_matches key version scope repo_id) w.db.uploads) ≡ some u)
                × (w.store ≡ s)))
          (complete_upload adapter loc_id entry_id key version scope repo_id)
          (λ o _. o ≡ some u)
  unfolding complete_upload
  complete_upload-Succeeds u s deletes stored =
      Succeeds-bind _ _ _ (find-Succeeds loc_id entry_id key version scope repo_id u s) λ found.
        Succeeds-known _ (λ w p. p.1.0)
          λ there. Succeeds-if_some found u _ _ there (
            Succeeds-weaken _ (λ w p. ((p.0, p.1.1), p.1.2))
              (Succeeds-bind _ _ _ (check_parts-Succeeds u s stored) λ n.
                Succeeds-bind _ _ _ (insert_location-Succeeds loc_id entry_id u.folder_name n) λ _.
                  Succeeds-bind _ _ _ (publish-Succeeds deletes) λ _.
                    Succeeds-bind _ _ _ (delete_upload-Succeeds u.id)
                      λ _. Succeeds-pure (some u) (λ w p. refl)))

  -- If no statement fails, the storage deletes folders, an upload of the key is there of which all
  -- parts were begun, ended and counted by the storage, and the ids for the new rows are not
  -- taken, then `CompleteUpload` returns that upload; and if the tables are consistent, the upload
  -- is gone, the new location has its folder and the number of its parts, and an entry of the key
  -- refers to that location.
  pub complete_upload-succeeds :
      (w : World S) (u : Upload)
      → HasNoFault w
      → IsFresh loc_id entry_id w
      → head (select (upload_matches key version scope repo_id) w.db.uploads) ≡ some u
      → DeletesFolders adapter
      → HasStoredParts adapter u w.store
      → IsConsistent w.db
      → ((complete_upload adapter loc_id entry_id key version scope repo_id w).0 ≡ ok (some u))
        × IsCompleted adapter loc_id entry_id key version scope repo_id
            (complete_upload adapter loc_id entry_id key version scope repo_id w).1.db
            u
  complete_upload-succeeds w u fine fresh there deletes stored consistent =
      let done =
        (complete_upload-Succeeds u w.store deletes stored).at w (fine, (fresh, there, refl)) in
      let returned = done.returned ∙ ap ok done.after in
      (
        returned,
        complete_upload-IsCompleted adapter loc_id entry_id key version scope repo_id w u consistent
            returned,
      )
