-- ===== src/Db/Integrity/Locations.antt =====
-- The statements on `storage_locations` keep the declared keys and references.
use gha_cache_server.Base.{
  ℕ, ◌≡◌, refl, ap, ◌∙◌, inl, inr, Bool, true, false, List, [], ◌∷◌, ◌++◌, All-mono, Bool-cases,
  Bytes, bytes_eq, bytes_eq_iff, arith,
}
use gha_cache_server.Action.{modify}
use gha_cache_server.Action.Keeps.{Keeps}
use gha_cache_server.Db.Models.{CacheEntry, StorageLocation}
use gha_cache_server.Db.Sql.{delete, update, exists}
use gha_cache_server.Db.Sql.Laws.{
  exists-append, exists-update, exists-delete, All-delete, append-IsUnique, delete-IsUnique,
  update-IsUnique,
}
use gha_cache_server.Db.State.{Db, statement}
use gha_cache_server.Db.Queries.{
  location_has_id, entry_refers_to, update_locations, insert_storage_location, get_storage_location,
  delete_storage_location, update_storage_last_downloaded, update_storage_merge_started,
  update_storage_merged, update_storage_parts_deleted, reset_merge, reset_storage_merge,
  list_expired_storage_locations, list_orphaned_storage_locations,
  list_merged_not_cleaned_storage_locations, is_stalled_merge, reset_stalled_merges,
}
use gha_cache_server.Db.Integrity.{IsConsistent, HasLocation, Keeps-statement, Keeps-query}

HasLocation-append :
    (locations : List StorageLocation) (l : StorageLocation) (id : Bytes)
    → HasLocation locations id
    → HasLocation (locations ++ l ∷ []) id
HasLocation-append locations l id h = rw (exists-append (location_has_id id) locations (l ∷ []), h)

pub insert_storage_location-IsConsistent :
    (l : StorageLocation) → Keeps IsConsistent (insert_storage_location l)
unfolding insert_storage_location
insert_storage_location-IsConsistent l = Keeps-statement _ λ d h.
    elim (Bool-cases (exists (location_has_id l.id) d.locations)) [
      | inl taken ↦ rw taken h
      | inr fresh ↦ rw fresh (record {
        uploads_unique = h.uploads_unique;
        locations_unique = append-IsUnique _ _ bytes_eq_iff d.locations l h.locations_unique fresh;
        entries_unique = h.entries_unique;
        references =
            All-mono _ _ d.entries (λ e. HasLocation-append d.locations l e.location_id)
              h.references;
      })
    ]

-- An update that keeps the ids of the locations keeps the references.
pub update_where-IsConsistent :
    (q : StorageLocation → Bool) (f : StorageLocation → StorageLocation) (d : Db)
    → ((l : StorageLocation) → (f l).id ≡ l.id)
    → IsConsistent d
    → IsConsistent (record d { locations = update q f d.locations })
update_where-IsConsistent q f d same h = record {
  uploads_unique = h.uploads_unique;
  locations_unique = update-IsUnique _ _ bytes_eq_iff q f d.locations same h.locations_unique;
  entries_unique = h.entries_unique;
  references =
      All-mono _ _ d.entries
        (λ e r.
          exists-update (location_has_id e.location_id) q f d.locations
            (λ l. ap (λ k. bytes_eq k e.location_id) (same l))
          ∙ r)
        h.references;
}

pub update_locations-IsConsistent :
    (id : Bytes) (f : StorageLocation → StorageLocation)
    → ((l : StorageLocation) → (f l).id ≡ l.id)
    → Keeps IsConsistent (statement (modify (update_locations id f)))
unfolding modify
update_locations-IsConsistent id f same =
    Keeps-statement _ (λ d h. update_where-IsConsistent (location_has_id id) f d same h)

pub reset_stalled_merges-IsConsistent :
    (before : ℕ) → Keeps IsConsistent (reset_stalled_merges before)
unfolding reset_stalled_merges
reset_stalled_merges-IsConsistent before =
    Keeps-statement _
      (λ d h. update_where-IsConsistent (is_stalled_merge before) reset_merge d (λ l. refl) h)

-- The entries that referred to a deleted location go with it, so the others keep theirs.
pub delete_storage_location-IsConsistent :
    (id : Bytes) → Keeps IsConsistent (delete_storage_location id)
unfolding delete_storage_location modify
delete_storage_location-IsConsistent id = Keeps-statement _ λ d h. record {
  uploads_unique = h.uploads_unique;
  locations_unique =
      delete-IsUnique _ _ bytes_eq_iff (location_has_id id) d.locations h.locations_unique;
  entries_unique = delete-IsUnique _ _ bytes_eq_iff (entry_refers_to id) d.entries h.entries_unique;
  references =
      All-mono _ _ (delete (entry_refers_to id) d.entries)
        (λ e r.
          exists-delete (location_has_id e.location_id) (location_has_id id) d.locations
            (λ l hit. spared e l r.1 hit)
          ∙ r.0)
        (All-delete _ (entry_refers_to id) d.entries h.references);
}
  where
    spared :
        (e : CacheEntry) (l : StorageLocation)
        → bytes_eq e.location_id id ≡ false
        → bytes_eq l.id e.location_id ≡ true
        → bytes_eq l.id id ≡ false
    spared e l other hit = ground (
      arith,
      bytes_eq_iff l.id e.location_id,
      bytes_eq_iff l.id id,
      bytes_eq_iff e.location_id id,
    )

pub update_storage_last_downloaded-IsConsistent :
    (id : Bytes) (now : ℕ) → Keeps IsConsistent (update_storage_last_downloaded id now)
unfolding update_storage_last_downloaded
update_storage_last_downloaded-IsConsistent id now = update_locations-IsConsistent id _ (λ r. refl)

pub update_storage_merge_started-IsConsistent :
    (id : Bytes) (now : ℕ) → Keeps IsConsistent (update_storage_merge_started id now)
unfolding update_storage_merge_started
update_storage_merge_started-IsConsistent id now = update_locations-IsConsistent id _ (λ r. refl)

pub update_storage_merged-IsConsistent :
    (id : Bytes) (now : ℕ) → Keeps IsConsistent (update_storage_merged id now)
unfolding update_storage_merged
update_storage_merged-IsConsistent id now = update_locations-IsConsistent id _ (λ r. refl)

pub update_storage_parts_deleted-IsConsistent :
    (id : Bytes) (now : ℕ) → Keeps IsConsistent (update_storage_parts_deleted id now)
unfolding update_storage_parts_deleted
update_storage_parts_deleted-IsConsistent id now = update_locations-IsConsistent id _ (λ r. refl)

pub reset_storage_merge-IsConsistent : (id : Bytes) → Keeps IsConsistent (reset_storage_merge id)
unfolding reset_storage_merge
reset_storage_merge-IsConsistent id = update_locations-IsConsistent id _ (λ r. refl)

pub get_storage_location-IsConsistent : (id : Bytes) → Keeps IsConsistent (get_storage_location id)
unfolding get_storage_location
get_storage_location-IsConsistent id = Keeps-query _

pub list_expired_storage_locations-IsConsistent :
    (before limit offset : ℕ)
    → Keeps IsConsistent (list_expired_storage_locations before limit offset)
unfolding list_expired_storage_locations
list_expired_storage_locations-IsConsistent before limit offset = Keeps-query _

pub list_orphaned_storage_locations-IsConsistent :
    (limit offset : ℕ) → Keeps IsConsistent (list_orphaned_storage_locations limit offset)
unfolding list_orphaned_storage_locations
list_orphaned_storage_locations-IsConsistent limit offset = Keeps-query _

pub list_merged_not_cleaned_storage_locations-IsConsistent :
    (limit offset : ℕ) → Keeps IsConsistent (list_merged_not_cleaned_storage_locations limit offset)
unfolding list_merged_not_cleaned_storage_locations
list_merged_not_cleaned_storage_locations-IsConsistent limit offset = Keeps-query _

pub ruleset location_rules = (
  insert_storage_location-IsConsistent, delete_storage_location-IsConsistent,
  update_storage_last_downloaded-IsConsistent, update_storage_merge_started-IsConsistent,
  update_storage_merged-IsConsistent, update_storage_parts_deleted-IsConsistent,
  reset_storage_merge-IsConsistent, reset_stalled_merges-IsConsistent,
  get_storage_location-IsConsistent, list_expired_storage_locations-IsConsistent,
  list_orphaned_storage_locations-IsConsistent,
  list_merged_not_cleaned_storage_locations-IsConsistent,
)
