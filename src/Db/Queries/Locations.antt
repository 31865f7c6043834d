-- ===== src/Db/Queries/Locations.antt =====
-- internal/db/queries.go: the statements on the table `storage_locations`.
use gha_cache_server.Base.{
  ℕ, Bool, false, not, ◌&&◌, Option, none, some, List, [], ◌∷◌, ◌++◌, head, ltb, is_some,
  if◌then◌else◌, Bytes, bytes_eq,
}
use gha_cache_server.Action.{ok, err, duplicate_key, Action, gets, modify}
use gha_cache_server.Db.Models.{CacheEntry, StorageLocation}
use gha_cache_server.Db.Sql.{select, delete, update, exists, count, page}
use gha_cache_server.Db.State.{Db, statement}

abbrev pub location_has_id : Bytes → StorageLocation → Bool
location_has_id id l = bytes_eq l.id id

-- `c.locationId = …`
abbrev pub entry_refers_to : Bytes → CacheEntry → Bool
entry_refers_to id c = bytes_eq c.location_id id

-- `id … PRIMARY KEY` of `storage_locations` in `m0Init`: an insertion of the id is refused.
abbrev pub location_id_taken : Bytes → Db → Bool
location_id_taken id d = exists (location_has_id id) d.locations

-- `locationId … REFERENCES storage_locations(id)`: an entry is refused that refers to no location.
abbrev pub location_exists : Bytes → Db → Bool
location_exists id d = exists (location_has_id id) d.locations

-- `ON DELETE CASCADE`: the entries that referred to a deleted location go with it.
abbrev pub cascade : Bytes → List CacheEntry → List CacheEntry
cascade id entries = delete (entry_refers_to id) entries

-- `InsertStorageLocation`
unfoldable pub insert_storage_location : StorageLocation → Action Db (Unit {0})
insert_storage_location l = statement λ d.
    if location_id_taken l.id d
    then (err duplicate_key, d)
    else (ok tt, record d { locations = d.locations ++ l ∷ [] })

-- `GetStorageLocation`
unfoldable pub get_storage_location : Bytes → Action Db (Option StorageLocation)
get_storage_location id = statement (gets λ d. head (select (location_has_id id) d.locations))

-- `DeleteStorageLocation`, with what the database does of itself.
unfoldable pub delete_storage_location : Bytes → Action Db (Unit {0})
delete_storage_location id = statement (
    modify λ d. record d {
      locations = delete (location_has_id id) d.locations;
      entries = cascade id d.entries;
    })

abbrev pub update_locations : Bytes → (StorageLocation → StorageLocation) → Db → Db
update_locations id f d = record d { locations = update (location_has_id id) f d.locations }

-- `UpdateStorageLastDownloaded`
unfoldable pub update_storage_last_downloaded : Bytes → ℕ → Action Db (Unit {0})
update_storage_last_downloaded id now =
    statement (modify (update_locations id λ l. record l { last_downloaded_at = some now }))

-- `UpdateStorageMergeStarted`
unfoldable pub update_storage_merge_started : Bytes → ℕ → Action Db (Unit {0})
update_storage_merge_started id now =
    statement (modify (update_locations id λ l. record l { merge_started_at = some now }))

-- `UpdateStorageMerged`
unfoldable pub update_storage_merged : Bytes → ℕ → Action Db (Unit {0})
update_storage_merged id now =
    statement (modify (update_locations id λ l. record l { merged_at = some now }))

-- `UpdateStoragePartsDeleted`
unfoldable pub update_storage_parts_deleted : Bytes → ℕ → Action Db (Unit {0})
update_storage_parts_deleted id now =
    statement (modify (update_locations id λ l. record l { parts_deleted_at = some now }))

abbrev pub reset_merge : StorageLocation → StorageLocation
reset_merge l = record l { merge_started_at = none; merged_at = none }

-- `ResetStorageMerge`
unfoldable pub reset_storage_merge : Bytes → Action Db (Unit {0})
reset_storage_merge id = statement (modify (update_locations id reset_merge))

-- A comparison with `NULL` does not hold.
abbrev pub before_time : ℕ → Option ℕ → Bool
before_time t none = false
before_time t (some at) = ltb at t

-- `ListExpiredStorageLocations`
unfoldable pub list_expired_storage_locations : ℕ → ℕ → ℕ → Action Db (List StorageLocation)
list_expired_storage_locations before limit offset = statement (
    gets λ d. page limit offset (select (λ l. before_time before l.last_downloaded_at) d.locations))

abbrev pub is_orphan : List CacheEntry → StorageLocation → Bool
is_orphan entries s = not (exists (entry_refers_to s.id) entries)

-- `ListOrphanedStorageLocations`
unfoldable pub list_orphaned_storage_locations : ℕ → ℕ → Action Db (List StorageLocation)
list_orphaned_storage_locations limit offset =
    statement (gets λ d. page limit offset (select (is_orphan d.entries) d.locations))

abbrev pub is_merged_not_cleaned : StorageLocation → Bool
is_merged_not_cleaned l = is_some l.merged_at && not (is_some l.parts_deleted_at)

-- `ListMergedNotCleanedStorageLocations`
unfoldable pub list_merged_not_cleaned_storage_locations : ℕ → ℕ → Action Db (List StorageLocation)
list_merged_not_cleaned_storage_locations limit offset =
    statement (gets λ d. page limit offset (select is_merged_not_cleaned d.locations))

abbrev pub is_stalled_merge : ℕ → StorageLocation → Bool
is_stalled_merge before l = before_time before l.merge_started_at && not (is_some l.merged_at)

-- `ResetStalledMerges`, with the number of rows that it changed.
unfoldable pub reset_stalled_merges : ℕ → Action Db ℕ
reset_stalled_merges before = statement λ d. (
  ok (count (is_stalled_merge before) d.locations),
  record d { locations = update (is_stalled_merge before) reset_merge d.locations },
)
