-- ===== src/Db/Integrity/Sound.antt =====
-- internal/db/queries.go: the keys of the entries across the statements, but for the insertion of an
-- entry.
use gha_cache_server.Base.{ℕ, refl, Bytes, inl, inr, not, ◌&&◌, Bool-cases}
use gha_cache_server.Base.Int.{ℤ}
use gha_cache_server.Action.{Action, modify}
use gha_cache_server.Action.Keeps.{Keeps, Keeps-bind, Keeps-pure}
use gha_cache_server.Db.Models.{StorageLocation, Upload}
use gha_cache_server.Db.Sql.{exists}
use gha_cache_server.Db.Sql.Laws.{delete-IsUnique, update-IsUnique}
use gha_cache_server.Db.State.{Db}
use gha_cache_server.Db.Queries.{
  upload_has_id, location_has_id, entry_refers_to, passes, entry_has_id, CacheEntryFilter,
  insert_upload, find_upload_by_key, find_upload_by_id, inc_started_part_count,
  inc_finished_part_count, delete_upload, list_stale_uploads, insert_storage_location,
  get_storage_location, delete_storage_location, update_storage_last_downloaded,
  update_storage_merge_started, update_storage_merged, update_storage_parts_deleted,
  reset_storage_merge, list_expired_storage_locations, list_orphaned_storage_locations,
  list_merged_not_cleaned_storage_locations, reset_stalled_merges, update_cache_entry_location,
  get_cache_entry, delete_cache_entry, find_exact_cache_entry, find_prefixed_cache_entry,
  find_cache_entry_with_location, find_existing_cache_entry_with_location, list_cache_entries,
  delete_cache_entries, list_lru_cache_entries,
}
use gha_cache_server.Db.Integrity.{IsConsistent}
use gha_cache_server.Db.Integrity.Keys.{
  key_of, key_eq, key_eq_iff, HasUniqueKeys, Keys-statement, Keys-gets, Keys-update_uploads,
  Keys-update_locations,
}
use gha_cache_server.Db.Integrity.Uploads.{upload_rules}
use gha_cache_server.Db.Integrity.Locations.{location_rules}
use gha_cache_server.Db.Integrity.Entries.{entry_rules}

-- The tables are as the schema declares them, and no two entries have the same key, version, scope
-- and repository.
pub record IsSound (d : Db) : Type 0 where
  pub consistent : IsConsistent d
  pub unique_keys : HasUniqueKeys d

pub Keeps-IsSound :
    {A : Type 0} (m : Action Db A) → Keeps IsConsistent m → Keeps HasUniqueKeys m → Keeps IsSound m
Keeps-IsSound m kc kk = record {
  from =
      λ d h. record { consistent = kc.from d h.consistent; unique_keys = kk.from d h.unique_keys };
}

pub insert_upload-HasUniqueKeys : (u : Upload) → Keeps HasUniqueKeys (insert_upload u)
unfolding insert_upload
insert_upload-HasUniqueKeys u = Keys-statement _ λ d h.
    elim (Bool-cases (exists (upload_has_id u.id) d.uploads)) [
      | inl taken ↦ rw taken h
      | inr new ↦ rw new h
    ]

pub delete_upload-HasUniqueKeys : (id : ℤ) → Keeps HasUniqueKeys (delete_upload id)
unfolding delete_upload modify
delete_upload-HasUniqueKeys id = Keys-statement _ (λ d h. h)

pub inc_started_part_count-HasUniqueKeys :
    (id : ℤ) → Keeps HasUniqueKeys (inc_started_part_count id)
unfolding inc_started_part_count
inc_started_part_count-HasUniqueKeys id = Keys-update_uploads id _

pub inc_finished_part_count-HasUniqueKeys :
    (id : ℤ) (now : ℕ) → Keeps HasUniqueKeys (inc_finished_part_count id now)
unfolding inc_finished_part_count
inc_finished_part_count-HasUniqueKeys id now = Keys-update_uploads id _

pub find_upload_by_key-HasUniqueKeys :
    (key version scope repo_id : Bytes)
    → Keeps HasUniqueKeys (find_upload_by_key key version scope repo_id)
unfolding find_upload_by_key
find_upload_by_key-HasUniqueKeys key version scope repo_id = Keys-gets _

pub find_upload_by_id-HasUniqueKeys : (id : ℤ) → Keeps HasUniqueKeys (find_upload_by_id id)
unfolding find_upload_by_id
find_upload_by_id-HasUniqueKeys id = Keys-gets _

pub list_stale_uploads-HasUniqueKeys :
    (before limit offset : ℕ) → Keeps HasUniqueKeys (list_stale_uploads before limit offset)
unfolding list_stale_uploads
list_stale_uploads-HasUniqueKeys before limit offset = Keys-gets _

pub insert_storage_location-HasUniqueKeys :
    (l : StorageLocation) → Keeps HasUniqueKeys (insert_storage_location l)
unfolding insert_storage_location
insert_storage_location-HasUniqueKeys l = Keys-statement _ λ d h.
    elim (Bool-cases (exists (location_has_id l.id) d.locations)) [
      | inl taken ↦ rw taken h
      | inr new ↦ rw new h
    ]

pub update_storage_last_downloaded-HasUniqueKeys :
    (id : Bytes) (now : ℕ) → Keeps HasUniqueKeys (update_storage_last_downloaded id now)
unfolding update_storage_last_downloaded
update_storage_last_downloaded-HasUniqueKeys id now = Keys-update_locations id _

pub update_storage_merge_started-HasUniqueKeys :
    (id : Bytes) (now : ℕ) → Keeps HasUniqueKeys (update_storage_merge_started id now)
unfolding update_storage_merge_started
update_storage_merge_started-HasUniqueKeys id now = Keys-update_locations id _

pub update_storage_merged-HasUniqueKeys :
    (id : Bytes) (now : ℕ) → Keeps HasUniqueKeys (update_storage_merged id now)
unfolding update_storage_merged
update_storage_merged-HasUniqueKeys id now = Keys-update_locations id _

pub update_storage_parts_deleted-HasUniqueKeys :
    (id : Bytes) (now : ℕ) → Keeps HasUniqueKeys (update_storage_parts_deleted id now)
unfolding update_storage_parts_deleted
update_storage_parts_deleted-HasUniqueKeys id now = Keys-update_locations id _

pub reset_storage_merge-HasUniqueKeys : (id : Bytes) → Keeps HasUniqueKeys (reset_storage_merge id)
unfolding reset_storage_merge
reset_storage_merge-HasUniqueKeys id = Keys-update_locations id _

pub reset_stalled_merges-HasUniqueKeys :
    (before : ℕ) → Keeps HasUniqueKeys (reset_stalled_merges before)
unfolding reset_stalled_merges
reset_stalled_merges-HasUniqueKeys before = Keys-statement _ (λ d h. h)

pub get_storage_location-HasUniqueKeys :
    (id : Bytes) → Keeps HasUniqueKeys (get_storage_location id)
unfolding get_storage_location
get_storage_location-HasUniqueKeys id = Keys-gets _

pub list_expired_storage_locations-HasUniqueKeys :
    (before limit offset : ℕ)
    → Keeps HasUniqueKeys (list_expired_storage_locations before limit offset)
unfolding list_expired_storage_locations
list_expired_storage_locations-HasUniqueKeys before limit offset = Keys-gets _

pub list_orphaned_storage_locations-HasUniqueKeys :
    (limit offset : ℕ) → Keeps HasUniqueKeys (list_orphaned_storage_locations limit offset)
unfolding list_orphaned_storage_locations
list_orphaned_storage_locations-HasUniqueKeys limit offset = Keys-gets _

pub list_merged_not_cleaned_storage_locations-HasUniqueKeys :
    (limit offset : ℕ)
    → Keeps HasUniqueKeys (list_merged_not_cleaned_storage_locations limit offset)
unfolding list_merged_not_cleaned_storage_locations
list_merged_not_cleaned_storage_locations-HasUniqueKeys limit offset = Keys-gets _

pub get_cache_entry-HasUniqueKeys : (id : Bytes) → Keeps HasUniqueKeys (get_cache_entry id)
unfolding get_cache_entry
get_cache_entry-HasUniqueKeys id = Keys-gets _

pub find_exact_cache_entry-HasUniqueKeys :
    (key version scope repo_id : Bytes)
    → Keeps HasUniqueKeys (find_exact_cache_entry key version scope repo_id)
unfolding find_exact_cache_entry
find_exact_cache_entry-HasUniqueKeys key version scope repo_id = Keys-gets _

pub find_prefixed_cache_entry-HasUniqueKeys :
    (key version scope repo_id : Bytes)
    → Keeps HasUniqueKeys (find_prefixed_cache_entry key version scope repo_id)
unfolding find_prefixed_cache_entry
find_prefixed_cache_entry-HasUniqueKeys key version scope repo_id = Keys-gets _

pub find_cache_entry_with_location-HasUniqueKeys :
    (id : Bytes) → Keeps HasUniqueKeys (find_cache_entry_with_location id)
unfolding find_cache_entry_with_location
find_cache_entry_with_location-HasUniqueKeys id = Keys-gets _

pub find_existing_cache_entry_with_location-HasUniqueKeys :
    (key version scope repo_id : Bytes)
    → Keeps HasUniqueKeys (find_existing_cache_entry_with_location key version scope repo_id)
unfolding find_existing_cache_entry_with_location
find_existing_cache_entry_with_location-HasUniqueKeys key version scope repo_id = Keys-gets _

pub list_lru_cache_entries-HasUniqueKeys :
    (limit : ℕ) → Keeps HasUniqueKeys (list_lru_cache_entries limit)
unfolding list_lru_cache_entries
list_lru_cache_entries-HasUniqueKeys limit = Keys-gets _

pub delete_storage_location-HasUniqueKeys :
    (id : Bytes) → Keeps HasUniqueKeys (delete_storage_location id)
unfolding delete_storage_location modify
delete_storage_location-HasUniqueKeys id =
    Keys-statement _
      (λ d h. delete-IsUnique key_of key_eq key_eq_iff (entry_refers_to id) d.entries h)

pub delete_cache_entry-HasUniqueKeys : (id : Bytes) → Keeps HasUniqueKeys (delete_cache_entry id)
unfolding delete_cache_entry modify
delete_cache_entry-HasUniqueKeys id =
    Keys-statement _ (λ d h. delete-IsUnique key_of key_eq key_eq_iff (entry_has_id id) d.entries h)

pub delete_cache_entries-HasUniqueKeys :
    (f : CacheEntryFilter) → Keeps HasUniqueKeys (delete_cache_entries f)
unfolding delete_cache_entries
delete_cache_entries-HasUniqueKeys f =
    Keys-statement _ (λ d h. delete-IsUnique key_of key_eq key_eq_iff (passes f) d.entries h)

pub list_cache_entries-HasUniqueKeys :
    (f : CacheEntryFilter) (limit : ℕ) (offset : ℤ)
    → Keeps HasUniqueKeys (list_cache_entries f limit offset)
unfolding list_cache_entries
list_cache_entries-HasUniqueKeys f limit offset =
    Keeps-bind _ _ (Keys-gets _)
      λ total. Keeps-bind _ _ (Keys-statement _ (λ d h. h)) (λ out. Keeps-pure _)

pub update_cache_entry_location-HasUniqueKeys :
    (id location_id : Bytes) (now : ℕ)
    → Keeps HasUniqueKeys (update_cache_entry_location id location_id now)
unfolding update_cache_entry_location
update_cache_entry_location-HasUniqueKeys id location_id now = Keys-statement _ λ d h.
    elim (Bool-cases (
      exists (entry_has_id id) d.entries
      && not (exists (location_has_id location_id) d.locations))) [
        | inl refused ↦ rw refused h
        | inr checked ↦
            rw checked
              (update-IsUnique key_of key_eq key_eq_iff (entry_has_id id) _ d.entries (λ e. refl) h)
      ]

pub ruleset key_rules = (
  insert_upload-HasUniqueKeys, delete_upload-HasUniqueKeys, inc_started_part_count-HasUniqueKeys,
  inc_finished_part_count-HasUniqueKeys, find_upload_by_key-HasUniqueKeys,
  find_upload_by_id-HasUniqueKeys, list_stale_uploads-HasUniqueKeys,
  insert_storage_location-HasUniqueKeys, update_storage_last_downloaded-HasUniqueKeys,
  update_storage_merge_started-HasUniqueKeys, update_storage_merged-HasUniqueKeys,
  update_storage_parts_deleted-HasUniqueKeys, reset_storage_merge-HasUniqueKeys,
  reset_stalled_merges-HasUniqueKeys, get_storage_location-HasUniqueKeys,
  list_expired_storage_locations-HasUniqueKeys, list_orphaned_storage_locations-HasUniqueKeys,
  list_merged_not_cleaned_storage_locations-HasUniqueKeys, get_cache_entry-HasUniqueKeys,
  find_exact_cache_entry-HasUniqueKeys, find_prefixed_cache_entry-HasUniqueKeys,
  find_cache_entry_with_location-HasUniqueKeys,
  find_existing_cache_entry_with_location-HasUniqueKeys, list_lru_cache_entries-HasUniqueKeys,
  delete_storage_location-HasUniqueKeys, delete_cache_entry-HasUniqueKeys,
  delete_cache_entries-HasUniqueKeys, list_cache_entries-HasUniqueKeys,
  update_cache_entry_location-HasUniqueKeys,
)

pub ruleset sound_rules = (Keeps-IsSound, upload_rules, location_rules, entry_rules, key_rules)
