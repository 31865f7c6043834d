-- ===== src/Storage/Soundness.antt =====
-- internal/storage/service.go: the keys of the entries across the publication of one, in
-- `CompleteUpload`.
use gha_cache_server.Base.{ℕ, ◌≡◌, refl, inl, inr, false, Option, none, some, Bool-cases, Bytes}
use gha_cache_server.Action.{Action, ok, gets, modify, if_nil, ◌>>=◌, ◌>>◌}
use gha_cache_server.Action.Keeps.{Keeps, keeps_rules}
use gha_cache_server.Action.Ensures.{Ensures}
use gha_cache_server.Action.Laws.{bind-after}
use gha_cache_server.Db.Models.{CacheEntry, StorageLocation}
use gha_cache_server.Db.Sql.{exists}
use gha_cache_server.Db.Sql.Laws.{append-IsUnique}
use gha_cache_server.Db.Sql.Find.{head-select-none, exists-join}
use gha_cache_server.Db.State.{Db}
use gha_cache_server.Db.Queries.{
  location_has_id, entry_has_id, entry_matches, join_locations, delete_storage_location,
  insert_cache_entry, update_cache_entry_location, find_existing_cache_entry_with_location,
}
use gha_cache_server.Db.Integrity.{IsConsistent}
use gha_cache_server.Db.Integrity.Keys.{key_of, key_eq, key_eq_iff, HasUniqueKeys}
use gha_cache_server.Db.Integrity.Sound.{IsSound, sound_rules}
use gha_cache_server.Storage.Adapter.{Adapter}
use gha_cache_server.Storage.World.{Job, World, query, storing, now, spawn}
use gha_cache_server.Storage.Tables.{Tables-becomes, Ensures-statement}
use gha_cache_server.Storage.Upload.{new_entry, publish}
use gha_cache_server.Storage.Download.{register_merge, forget_merge}

abbrev pub HasSoundDb : {S : Type 0} → World S → Type 0
HasSoundDb w = IsSound w.db

module _ {S A : Type 0} where
  pub Keeps-query_action :
      (m : Action Db A) → Keeps IsSound m → Keeps (HasSoundDb {S = S}) (query m)
  unfolding query
  Keeps-query_action m k = record { from = λ w h. k.from w.db h }

  pub Keeps-storing : (m : Action S A) → Keeps (HasSoundDb {S = S}) (storing m)
  unfolding storing
  Keeps-storing m = record { from = λ w h. h }

module _ {S : Type 0} where
  pub Keeps-now : Keeps (HasSoundDb {S = S}) now
  unfolding now
  Keeps-now = record { from = λ w h. h }

  pub Keeps-spawn : (job : Job) → Keeps (HasSoundDb {S = S}) (spawn job)
  unfolding spawn
  Keeps-spawn job = record { from = λ w h. h }

  pub Keeps-register_merge : (id : Bytes) → Keeps (HasSoundDb {S = S}) (register_merge id)
  unfolding register_merge modify
  Keeps-register_merge id = record { from = λ w h. h }

  pub Keeps-forget_merge : (id : Bytes) → Keeps (HasSoundDb {S = S}) (forget_merge id)
  unfolding forget_merge modify
  Keeps-forget_merge id = record { from = λ w h. h }

pub ruleset service_rules = (
  keeps_rules, sound_rules, Keeps-query_action, Keeps-storing, Keeps-now, Keeps-spawn,
  Keeps-register_merge, Keeps-forget_merge,
)

-- `CompleteUpload` inserts an entry only where it found none of the key.
module _ (key version scope repo_id : Bytes) where
  abbrev IsFresh : Db → Type 0
  IsFresh d = exists (entry_matches key version scope repo_id) d.entries ≡ false

  module _ {S : Type 0} where
    find_existing-IsFresh :
        Ensures {S = World S}
          (λ w. IsConsistent w.db)
          (query (find_existing_cache_entry_with_location key version scope repo_id))
          (λ o w. o ≡ none → IsFresh w.db)
    unfolding find_existing_cache_entry_with_location gets
    find_existing-IsFresh =
        Ensures-statement IsConsistent _ (λ o d. o ≡ none → IsFresh d)
          (λ d fs h. record {
            uploads_unique = h.uploads_unique;
            locations_unique = h.locations_unique;
            entries_unique = h.entries_unique;
            references = h.references;
          })
          λ d o h e missed.
            exists-join _ _ d.entries d.locations h.references
              (head-select-none _ (join_locations d) (cc (e, missed)))

    insert_cache_entry-HasUniqueKeys :
        (id location_id : Bytes) (t : ℕ) (w : World S)
        → IsFresh w.db
        → HasUniqueKeys w.db
        → HasUniqueKeys
            (query
              (insert_cache_entry (new_entry id key version scope repo_id t location_id))
              w).1.db
    unfolding insert_cache_entry
    insert_cache_entry-HasUniqueKeys id location_id t w fresh unique =
        Tables-becomes (λ d. IsFresh d × HasUniqueKeys d) HasUniqueKeys _ (λ d fs h. h) (λ d h. h.1)
          (λ d h. elim (Bool-cases (exists (entry_has_id id) d.entries)) [
            | inl taken ↦ rw taken h.1
            | inr new ↦ elim (Bool-cases (exists (location_has_id location_id) d.locations)) [
              | inr missing ↦ rw (new, missing) h.1
              | inl there ↦
                  rw (new, there)
                    (append-IsUnique key_of key_eq key_eq_iff d.entries
                      (new_entry id key version scope repo_id t location_id) h.1 h.0)
            ]
          ])
          w (fresh, unique)

  module _ {S : Type 0} (adapter : Adapter S) where
    pub publish-HasUniqueKeys :
        (loc_id entry_id : Bytes) (w : World S)
        → HasSoundDb w
        → HasUniqueKeys (publish adapter loc_id entry_id key version scope repo_id w).1.db
    unfolding publish if_nil now find_existing_cache_entry_with_location
    publish-HasUniqueKeys loc_id entry_id w h =
        bind-after (λ w. HasUniqueKeys w.db) find _ w kept.unique_keys went
      where
        find : Action (World S) (Option (CacheEntry × StorageLocation))
        find = query (find_existing_cache_entry_with_location key version scope repo_id)

        find-IsSound : Keeps HasSoundDb find
        find-IsSound = search service_rules

        kept : HasSoundDb (find w).1
        kept = find-IsSound.from w h

        moved :
            (r : CacheEntry × StorageLocation)
            → Keeps HasSoundDb (do
              t ← now
              query (update_cache_entry_location r.0.id loc_id t)
              query (delete_storage_location r.1.id)
              storing (adapter.delete_folder r.1.folder_name))
        moved r = search service_rules depth 12

        went :
            (o : Option (CacheEntry × StorageLocation))
            → (find w).0 ≡ ok o
            → HasUniqueKeys
                ((do
                  t ← now
                  if_nil o
                      (query (
                        insert_cache_entry (new_entry entry_id key version scope repo_id t loc_id)))
                      λ r. do
                        query (update_cache_entry_location r.0.id loc_id t)
                        query (delete_storage_location r.1.id)
                        storing (adapter.delete_folder r.1.folder_name))
                  (find w).1).1.db
        went none e =
            bind-after (λ w. HasUniqueKeys w.db) now _ (find w).1 kept.unique_keys
              λ t read.
                insert_cache_entry-HasUniqueKeys entry_id loc_id t (find w).1
                  (find_existing-IsFresh.from w none h.consistent e refl) kept.unique_keys
        went (some r) e = ((moved r).from (find w).1 kept).unique_keys
