-- ===== src/Storage/Publication.antt =====
-- internal/storage/service.go: which cache entries `CompleteUpload` adds or changes. A property of
-- the entries, whatever it is, stays if the new entry has it and an entry of the same key has it at
-- its new location.
pub mod Statements
use gha_cache_server.Base.{
  ℕ, ◌≡◌, refl, inl, inr, Bool, true, false, not, ◌&&◌, Option, none, some, List, [], ◌∷◌, head,
  All, All-append, All-mono, Bool-cases, Bytes, bytes_eq, bytes_eq_iff, bytes_eq_sound, arith,
}
use gha_cache_server.Action.{Result, ok, Error, Action, gets, modify, if_nil, ◌>>=◌, ◌>>◌}
use gha_cache_server.Action.Keeps.{
  Keeps, Keeps-bind, Keeps-if_nil, Keeps-pure, Keeps-both, keeps_rules,
}
use gha_cache_server.Action.Ensures.{Ensures}
use gha_cache_server.Action.Laws.{bind-after}
use gha_cache_server.Db.Models.{CacheEntry, StorageLocation, Upload}
use gha_cache_server.Db.Sql.{select, exists}
use gha_cache_server.Db.Sql.Laws.{All-delete, All-update_hits}
use gha_cache_server.Db.Sql.Find.{head-select, All-join, All-both, exists-none}
use gha_cache_server.Db.Sql.Unique.{All-select_unique, All-select-if}
use gha_cache_server.Db.Integrity.{IsConsistent, UniqueEntries}
use gha_cache_server.Db.State.{Db, statement}
use gha_cache_server.Db.Queries.{
  location_has_id, entry_refers_to, entry_has_id, entry_matches, join_locations, find_upload_by_key,
  delete_upload, insert_storage_location, delete_storage_location, insert_cache_entry,
  update_cache_entry_location, find_existing_cache_entry_with_location,
}
use gha_cache_server.Storage.Adapter.{Adapter}
use gha_cache_server.Storage.World.{World, query, storing, now}
use gha_cache_server.Storage.Tables.{
  Tables-statement, Tables-gets, Tables-storing, Tables-now, OfSome, Ensures-statement,
}
use gha_cache_server.Storage.Consistency.{
  consistent_rules, check_parts-IsConsistent, publish-IsConsistent,
}
use gha_cache_server.Storage.Upload.{new_entry, reject, check_parts, publish, complete_upload}
use gha_cache_server.Storage.Publication.Statements.{
  AllEntries, insert_cache_entry-AllEntries, update_cache_entry_location-AllEntries,
  find_upload_by_key-AllEntries, delete_storage_location-AllEntries, delete_upload-AllEntries,
  insert_storage_location-AllEntries,
}

module _ (key version scope repo_id : Bytes) where
  abbrev matches : CacheEntry → Bool
  matches = entry_matches key version scope repo_id

  -- The rows with the id of a row of the key are of the key too.
  abbrev pub OnlyMatches : List CacheEntry → CacheEntry × StorageLocation → Type 0
  OnlyMatches entries r = All (λ e. entry_has_id r.0.id e ≡ true → matches e ≡ true) entries

  existing-OnlyMatches :
      (d : Db) (r : CacheEntry × StorageLocation)
      → UniqueEntries d.entries
      → head (select (λ r. matches r.0) (join_locations d)) ≡ some r
      → OnlyMatches d.entries r
  existing-OnlyMatches d r unique e =
      let of_row =
        All-select-if _ matches d.entries
          (All-select_unique (λ e. e.id) bytes_eq bytes_eq_iff matches d.entries unique) in
      let (alone, hit) =
        head-select
          (λ r.
            matches r.0 ≡ true
            → exists (λ x. bytes_eq x.id r.0.id && not (matches x)) d.entries ≡ false)
          _ (join_locations d) r (All-join _ _ _ d.entries d.locations (λ c s h same. h) of_row)
          e in
      All-mono _ _ d.entries (λ x h same. ground arith) (exists-none _ d.entries (alone hit))

  module _ {S : Type 0} where
    find_existing-OnlyMatches :
        Ensures {S = World S}
          (λ w. UniqueEntries w.db.entries)
          (query (find_existing_cache_entry_with_location key version scope repo_id))
          (λ o w. OfSome (OnlyMatches w.db.entries) o)
    unfolding find_existing_cache_entry_with_location gets
    find_existing-OnlyMatches =
        Ensures-statement (λ d. UniqueEntries d.entries) _ (λ o d. OfSome (OnlyMatches d.entries) o)
          (λ d fs h. h) λ d o h e. found d o h (cc e)
      where
        found :
            (d : Db) (o : Option (CacheEntry × StorageLocation))
            → UniqueEntries d.entries
            → head (select (λ r. matches r.0) (join_locations d)) ≡ o
            → OfSome (OnlyMatches d.entries) o
        found d none unique e = tt
        found d (some r) unique e = existing-OnlyMatches d r unique e

  module _ (P : CacheEntry → Type 0) where
    -- The new entry and an entry of the key at a new location.
    pub record IsAllowed : Type 0 where
      pub added :
          (id location_id : Bytes) (t : ℕ)
          → P (new_entry id key version scope repo_id t location_id)
      pub moved :
          (e : CacheEntry) (location_id : Bytes) (t : ℕ)
          → matches e ≡ true
          → P (record e { location_id = location_id; updated_at = t })

  module _ (P : CacheEntry → Type 0) {S : Type 0} (adapter : Adapter S) where
    publish_new-AllEntries :
        IsAllowed P
        → (loc_id entry_id : Bytes)
        → Keeps {S = World S}
            (λ w. AllEntries P w.db)
            (do
              t ← now
              query (insert_cache_entry (new_entry entry_id key version scope repo_id t loc_id)))
    publish_new-AllEntries allowed loc_id entry_id =
        Keeps-bind _ _ (Tables-now (AllEntries P) (λ d fs h. h))
          λ t. insert_cache_entry-AllEntries P _ (allowed.added entry_id loc_id t)

    abbrev OrMatches : CacheEntry × StorageLocation → CacheEntry → Type 0
    OrMatches r e = P e × (entry_has_id r.0.id e ≡ true → matches e ≡ true)

    publish_moved-AllEntries :
        IsAllowed P
        → (loc_id : Bytes) (r : CacheEntry × StorageLocation)
        → Keeps {S = World S}
            (λ w. AllEntries (OrMatches r) w.db)
            (do
              t ← now
              query (update_cache_entry_location r.0.id loc_id t)
              query (delete_storage_location r.1.id)
              storing (adapter.delete_folder r.1.folder_name))
    publish_moved-AllEntries allowed loc_id r =
        Keeps-bind _ _ (Tables-now (AllEntries (OrMatches r)) (λ d fs h. h)) λ t.
          Keeps-bind _ _
            (update_cache_entry_location-AllEntries (OrMatches r) r.0.id loc_id t
              (λ e same h. (allowed.moved e loc_id t (h.1 same), h.1)))
            λ _.
              Keeps-bind _ _ (delete_storage_location-AllEntries (OrMatches r) r.1.id)
                λ _. Tables-storing (AllEntries (OrMatches r)) (λ d fs h. h) _

    publish-AllEntries :
        IsAllowed P
        → (loc_id entry_id : Bytes) (w : World S) → UniqueEntries w.db.entries
        → AllEntries P w.db
        → AllEntries P (publish adapter loc_id entry_id key version scope repo_id w).1.db
    unfolding publish if_nil find_existing_cache_entry_with_location
    publish-AllEntries allowed loc_id entry_id w unique h =
        bind-after (λ w. AllEntries P w.db) find _ w kept went
      where
        find : Action (World S) (Option (CacheEntry × StorageLocation))
        find = query (find_existing_cache_entry_with_location key version scope repo_id)

        kept : AllEntries P (find w).1.db
        kept = (Tables-gets (AllEntries P) (λ d fs h. h) _).from w h

        went :
            (o : Option (CacheEntry × StorageLocation))
            → (find w).0 ≡ ok o
            → AllEntries P
                ((do
                  t ← now
                  if_nil o
                      (query (
                        insert_cache_entry (new_entry entry_id key version scope repo_id t loc_id)))
                      λ r. do
                        query (update_cache_entry_location r.0.id loc_id t)
                        query (delete_storage_location r.1.id)
                        storing (adapter.delete_folder r.1.folder_name))
                  (find w).1).1.db
        went none e = (publish_new-AllEntries allowed loc_id entry_id).from (find w).1 kept
        went (some r) e =
            All-mono _ _ _ (λ e h. h.0)
              ((publish_moved-AllEntries allowed loc_id r).from (find w).1 (
                All-both P _ (find w).1.db.entries kept
                  (find_existing-OnlyMatches.from w (some r) unique e)))

    reject-AllEntries :
        (u : Upload) (e : Error) → Keeps (λ w. AllEntries P w.db) (reject adapter u e)
    unfolding reject
    reject-AllEntries u e = search (keeps_rules, delete_upload-AllEntries P)

    check_parts-AllEntries : (u : Upload) → Keeps (λ w. AllEntries P w.db) (check_parts adapter u)
    unfolding check_parts
    check_parts-AllEntries u =
        search (keeps_rules, reject-AllEntries, Tables-storing (AllEntries P) (λ d fs h. h)) depth
          12

    -- `CompleteUpload` from consistent tables.
    pub complete_upload-AllEntries :
        IsAllowed P
        → (loc_id entry_id : Bytes)
        → Keeps
            (λ w. IsConsistent w.db × AllEntries P w.db)
            (complete_upload adapter loc_id entry_id key version scope repo_id)
    unfolding complete_upload
    complete_upload-AllEntries allowed loc_id entry_id =
        Keeps-bind _ _
          (Keeps-both _ (search consistent_rules)
            (find_upload_by_key-AllEntries P key version scope repo_id))
          λ found. Keeps-if_nil found _ _ (Keeps-pure _) λ u.
            Keeps-bind _ _
              (Keeps-both _ (check_parts-IsConsistent adapter u) (check_parts-AllEntries u))
              λ n.
                Keeps-bind _ _
                  (Keeps-both _ (search consistent_rules) (insert_storage_location-AllEntries P _))
                  λ _. Keeps-bind _ _ (published) λ _.
                    Keeps-bind _ _
                      (Keeps-both _ (search consistent_rules) (delete_upload-AllEntries P u.id))
                      λ _. Keeps-pure _
      where
        published :
            Keeps
              (λ w. IsConsistent w.db × AllEntries P w.db)
              (publish adapter loc_id entry_id key version scope repo_id)
        published = record {
          from = λ w h. (
            (publish-IsConsistent adapter loc_id entry_id key version scope repo_id).from w h.0,
            publish-AllEntries allowed loc_id entry_id w h.0.entries_unique h.1,
          );
        }
