-- ===== src/Storage/Completion.antt =====
-- What `CompleteUpload` of internal/storage/service.go promises when it returns the upload: all of
-- its parts were there, and the key leads to the new location.
pub mod Saved
pub mod Rows
pub mod Live
mod Tests
use mathlib.Core.Path.{subst}
use gha_cache_server.Base.{
  ℕ, ◌<◌, ◌≡◌, refl, inl, inr, Bool, true, false, not, ◌&&◌, Option, none, some, ◌==◌, ==_iff,
  Bytes, bytes_eq, if◌then◌else◌, Bool-cases, arith,
}
use gha_cache_server.Action.{
  Error, Result, ok, err, insert_upload_failed, count_parts_failed, no_parts, not_all_parts,
  part_count_mismatch, Action, pure, fail, wrap, attempt, if_nil, ◌>>=◌,
}
use gha_cache_server.Action.Ensures.{
  Ensures, Ensures-pure, Ensures-fail, Ensures-wrap, Ensures-if, Ensures-weaken, Ensures-bind,
  Ensures-known, Ensures-if_nil,
}
use gha_cache_server.Db.Models.{CacheEntry, StorageLocation, Upload}
use gha_cache_server.Db.Sql.{exists}
use gha_cache_server.Db.State.{Db}
use gha_cache_server.Db.Queries.{
  upload_has_id, upload_matches, find_upload_by_key, insert_storage_location,
  find_existing_cache_entry_with_location, insert_cache_entry, update_cache_entry_location,
  delete_storage_location, delete_upload,
}
use gha_cache_server.Db.Integrity.{IsConsistent}
use gha_cache_server.Storage.Adapter.{Adapter}
use gha_cache_server.Storage.World.{World, query, storing, now, parts_folder}
use gha_cache_server.Storage.Upload.{
  new_location, new_entry, reject, check_parts, publish, complete_upload,
}
use gha_cache_server.Storage.Tables.{OfSome}
use gha_cache_server.Storage.Completion.Saved.{
  IsSaved, IsPublished, find_upload_by_key-Ensures, insert_storage_location-IsSaved,
}
use gha_cache_server.Storage.Completion.Rows.{
  IsReady, IsDone, IsOld, find_existing-IsOld, insert_cache_entry-IsDone,
  update_cache_entry_location-IsDone, delete_storage_location-IsDone, delete_upload-IsDone,
}

module _ {S : Type 0} where
  abbrev InDb : (Db → Type 0) → World S → Type 0
  InDb P w = P w.db

  Ensures-storing :
      {A : Type 0} (P : Db → Type 0) (m : Action S A) → Ensures (InDb P) (storing m) (λ _. InDb P)
  unfolding storing
  Ensures-storing P m = record { from = λ w a p h. p }

  Ensures-now : (P : Db → Type 0) → Ensures (InDb P) now (λ _. InDb P)
  unfolding now
  Ensures-now P = record { from = λ w a p h. p }

module _ {S : Type 0} (adapter : Adapter S) where
  -- A rejected upload is never completed.
  reject-Ensures :
      {P : World S → Type 0} {Q : ℕ → World S → Type 0} (u : Upload) (e : Error)
      → Ensures P (reject adapter u e) Q
  unfolding reject
  reject-Ensures u e =
      Ensures-bind _ _ (λ _ _. Unit) (record { from = λ w a p h. tt }) (λ _. Ensures-fail e)

  -- The parts were all begun, ended and counted, and there is one at least.
  abbrev pub HasAllParts : Upload → ℕ → Type 0
  HasAllParts u n =
      (n ≡ u.finished_part_upload_count)
      × (u.started_part_upload_count ≡ u.finished_part_upload_count)
      × (0 < n)

  check_parts-HasAllParts :
      (P : Db → Type 0) (u : Upload)
      → Ensures (InDb P) (check_parts adapter u) (λ n w. P w.db × HasAllParts u n)
  unfolding check_parts
  check_parts-HasAllParts P u =
      Ensures-if _ _ _ (λ _. reject-Ensures u no_parts)
        λ some_parts.
          Ensures-if _ _ _ (λ _. reject-Ensures u _)
            λ all_parts.
              Ensures-bind _ _ (λ _. InDb P) (Ensures-wrap _ _ (Ensures-storing P _))
                λ n.
                  Ensures-if _ _ _ (λ _. reject-Ensures u _)
                    λ counted. Ensures-pure n λ w p. (p, found n counted some_parts all_parts)
    where
      found :
          (n : ℕ)
          → not (n == u.finished_part_upload_count) ≡ false
          → (u.finished_part_upload_count == 0) ≡ false
          → not (u.started_part_upload_count == u.finished_part_upload_count) ≡ false
          → HasAllParts u n
      found n counted some_parts all_parts = (ground arith, ground arith, ground arith)

  module _ (loc_id entry_id key version scope repo_id : Bytes) where
    publish-IsDone :
        (folder : Bytes) (n : ℕ)
        → Ensures
            (InDb (IsReady loc_id folder n key version scope repo_id))
            (publish adapter loc_id entry_id key version scope repo_id)
            (λ _. InDb (IsDone loc_id folder n key version scope repo_id))
    unfolding publish
    publish-IsDone folder n =
        Ensures-bind _ _ _ (find_existing-IsOld loc_id folder n key version scope repo_id)
          λ existing. Ensures-bind _ _ _ (Ensures-now (λ d. Ready d × OfSome (Old d) existing)) λ t.
            Ensures-if_nil existing _ _
              (λ no.
                Ensures-weaken _ (λ w p. p.0)
                  (insert_cache_entry-IsDone loc_id folder n key version scope repo_id entry_id t))
              λ r yes.
                Ensures-known _ (λ w p. (subst (OfSome (Old w.db)) yes p.1).1)
                  λ other.
                    Ensures-weaken _ (λ w p. (p.0, subst (OfSome (Old w.db)) yes p.1))
                      (Ensures-bind _ _ _
                        (update_cache_entry_location-IsDone loc_id folder n key version scope
                          repo_id r t)
                        λ _.
                          Ensures-bind _ _ _
                            (delete_storage_location-IsDone loc_id folder n key version scope
                              repo_id r.1.id other)
                            λ _.
                              Ensures-storing (IsDone loc_id folder n key version scope repo_id) _)
      where
        Ready : Db → Type 0
        Ready = IsReady loc_id folder n key version scope repo_id

        Old : Db → CacheEntry × StorageLocation → Type 0
        Old = IsOld loc_id folder n key version scope repo_id

    -- The upload was one of the key, all of its parts were there, and now it is gone, while the
    -- location with its parts is there and the key leads to it.
    abbrev pub IsCompleted : Db → Upload → Type 0
    IsCompleted d u =
        (upload_matches key version scope repo_id u ≡ true)
        × HasAllParts u u.finished_part_upload_count
        × IsSaved d loc_id u.folder_name u.finished_part_upload_count
        × IsPublished d loc_id key version scope repo_id
        × (exists (upload_has_id u.id) d.uploads ≡ false)

    complete_upload-Ensures :
        Ensures
          (InDb IsConsistent)
          (complete_upload adapter loc_id entry_id key version scope repo_id)
          (λ o w. OfSome (IsCompleted w.db) o)
    unfolding complete_upload
    complete_upload-Ensures =
        Ensures-bind _ _ _ (find_upload_by_key-Ensures key version scope repo_id) λ found.
          Ensures-if_nil found _ _ (λ no. Ensures-pure none (λ w p. tt))
            λ u yes.
              Ensures-known _ (λ w p. subst (OfSome Matches) yes p.1)
                λ matches.
                  Ensures-weaken _ (λ w p. p.0)
                    (Ensures-bind _ _ _ (check_parts-HasAllParts IsConsistent u) λ n.
                      Ensures-known _ (λ w p. p.1)
                        λ parts.
                          Ensures-weaken _ (λ w p. p.0)
                            (Ensures-bind _ _ _
                              (insert_storage_location-IsSaved loc_id u.folder_name n)
                              λ _. Ensures-bind _ _ _ (publish-IsDone u.folder_name n) λ _.
                                Ensures-bind _ _ _
                                  (delete_upload-IsDone loc_id u.folder_name n key version scope
                                    repo_id u.id)
                                  λ _.
                                    Ensures-pure (some u)
                                      (λ w p. completed u n matches parts w.db p)))
      where
        Matches : Upload → Type 0
        Matches u = upload_matches key version scope repo_id u ≡ true

        completed :
            (u : Upload) (n : ℕ)
            → Matches u
            → HasAllParts u n
            → (d : Db)
            → IsDone loc_id u.folder_name n key version scope repo_id d
              × (exists (upload_has_id u.id) d.uploads ≡ false)
            → IsCompleted d u
        completed u n matches parts d (done, gone) = (
          matches,
          subst (HasAllParts u) parts.0 parts,
          subst (IsSaved d loc_id u.folder_name) parts.0 done.0,
          done.1,
          gone,
        )

    pub complete_upload-IsCompleted :
        (w : World S) (u : Upload)
        → IsConsistent w.db
        → (complete_upload adapter loc_id entry_id key version scope repo_id w).0 ≡ ok (some u)
        → IsCompleted (complete_upload adapter loc_id entry_id key version scope repo_id w).1.db u
    complete_upload-IsCompleted w u h e = complete_upload-Ensures.from w (some u) h e
