-- ===== src/Db/Queries/Entries.antt =====
-- internal/db/queries.go: the statements on the table `cache_entries`, and those that join it with
-- `storage_locations`.
use gha_cache_server.Base.{
  ℕ, Bool, not, ◌&&◌, ◌||◌, Option, none, some, List, [], ◌∷◌, ◌++◌, map, head, take, ltb, is_some,
  if◌then◌else◌, Bytes, bytes_eq, is_empty, not,
}
use gha_cache_server.Base.Int.{ℤ, pos, negsuc}
use gha_cache_server.Action.{
  Result, err, driver_failed, ok, err, duplicate_key, missing_reference, Action, gets, modify,
  ◌>>=◌, pure,
}
use gha_cache_server.Db.Models.{CacheEntry, StorageLocation}
use gha_cache_server.Db.Sql.{select, delete, update, exists, count, order_by, page, join}
use gha_cache_server.Db.Like.{escape_like, like}
use gha_cache_server.Db.State.{Db, Driver, sqlite, postgres, like_fold, statement}
use gha_cache_server.Db.Queries.Locations.{location_exists}

abbrev pub entry_has_id : Bytes → CacheEntry → Bool
entry_has_id id c = bytes_eq c.id id

-- `id … PRIMARY KEY` of `cache_entries` in `m0Init`
abbrev pub entry_id_taken : Bytes → Db → Bool
entry_id_taken id d = exists (entry_has_id id) d.entries

-- `InsertCacheEntry`
unfoldable pub insert_cache_entry : CacheEntry → Action Db (Unit {0})
insert_cache_entry e = statement λ d.
    if entry_id_taken e.id d
    then (err duplicate_key, d)
    else if location_exists e.location_id d
    then (ok tt, record d { entries = d.entries ++ e ∷ [] })
    else (err missing_reference, d)

-- `UpdateCacheEntryLocation`. The reference is checked where a row changes.
unfoldable pub update_cache_entry_location : Bytes → Bytes → ℕ → Action Db (Unit {0})
update_cache_entry_location id location_id now = statement λ d.
    if exists (entry_has_id id) d.entries && not (location_exists location_id d)
    then (err missing_reference, d)
    else (
      ok tt,
      record d {
        entries =
            update (entry_has_id id) (λ e. record e { location_id = location_id; updated_at = now })
              d.entries;
      },
    )

-- `GetCacheEntry`
unfoldable pub get_cache_entry : Bytes → Action Db (Option CacheEntry)
get_cache_entry id = statement (gets λ d. head (select (entry_has_id id) d.entries))

-- `DeleteCacheEntry`
unfoldable pub delete_cache_entry : Bytes → Action Db (Unit {0})
delete_cache_entry id =
    statement (modify λ d. record d { entries = delete (entry_has_id id) d.entries })

abbrev pub same_place : Bytes → Bytes → Bytes → CacheEntry → Bool
same_place version scope repo_id e =
    bytes_eq e.version version && bytes_eq e.scope scope && bytes_eq e.repo_id repo_id

abbrev pub entry_matches : Bytes → Bytes → Bytes → Bytes → CacheEntry → Bool
entry_matches key version scope repo_id e = bytes_eq e.key key && same_place version scope repo_id e

-- `ORDER BY updatedAt DESC`
abbrev pub newer : CacheEntry → CacheEntry → Bool
newer a b = ltb b.updated_at a.updated_at

-- `FindExactCacheEntry`
unfoldable pub find_exact_cache_entry :
    Bytes → Bytes → Bytes → Bytes → Action Db (Option CacheEntry)
find_exact_cache_entry key version scope repo_id =
    statement
      (gets λ d. head (order_by newer (select (entry_matches key version scope repo_id) d.entries)))

abbrev pub entry_like : (ℕ → ℕ) → Bytes → Bytes → Bytes → Bytes → CacheEntry → Bool
entry_like fold pattern version scope repo_id e =
    like fold pattern e.key && same_place version scope repo_id e

-- `FindPrefixedCacheEntry`
unfoldable pub find_prefixed_cache_entry :
    Bytes → Bytes → Bytes → Bytes → Action Db (Option CacheEntry)
find_prefixed_cache_entry key_prefix version scope repo_id =
    let pattern : Bytes = escape_like key_prefix ++ b'%' ∷ [] in
    statement (
      gets λ d. head (
        order_by newer
          (select (entry_like (like_fold d.driver) pattern version scope repo_id) d.entries)))

-- `cache_entries c JOIN storage_locations s ON s.id = c.locationId`
abbrev pub join_locations : Db → List (CacheEntry × StorageLocation)
join_locations d = join (λ c s. bytes_eq s.id c.location_id) d.entries d.locations

-- `FindCacheEntryWithLocation`
unfoldable pub find_cache_entry_with_location :
    Bytes → Action Db (Option (CacheEntry × StorageLocation))
find_cache_entry_with_location id =
    statement (gets λ d. head (select (λ r. entry_has_id id r.0) (join_locations d)))

-- `FindExistingCacheEntryWithLocation`
unfoldable pub find_existing_cache_entry_with_location :
    Bytes → Bytes → Bytes → Bytes → Action Db (Option (CacheEntry × StorageLocation))
find_existing_cache_entry_with_location key version scope repo_id =
    statement (
      gets λ d. head (select (λ r. entry_matches key version scope repo_id r.0) (join_locations d)))

pub record CacheEntryFilter : Type 0 where
  pub key : Bytes
  pub version : Bytes
  pub scope : Bytes
  pub repo_id : Bytes

-- A condition `field=…` is added only for a value that is not empty.
abbrev pub filter_field : Bytes → Bytes → Bool
filter_field val field = is_empty val || bytes_eq field val

abbrev pub passes : CacheEntryFilter → CacheEntry → Bool
passes f e =
    filter_field f.key e.key
    && filter_field f.version e.version
    && filter_field f.scope e.scope
    && filter_field f.repo_id e.repo_id

-- `LIMIT … OFFSET …` with a signed offset: SQLite takes a negative one for 0, and PostgreSQL refuses
-- it.
abbrev pub signed_page : {R : Type 0} → Driver → ℕ → ℤ → List R → Result (List R)
signed_page driver limit (pos offset) rows = ok (page limit offset rows)
signed_page sqlite limit (negsuc offset) rows = ok (page limit 0 rows)
signed_page postgres limit (negsuc offset) rows = err driver_failed

-- `ListCacheEntries`, with the number of all rows that pass.
unfoldable pub list_cache_entries : CacheEntryFilter → ℕ → ℤ → Action Db (List CacheEntry × ℕ)
list_cache_entries f limit offset = do
  total ← statement (gets λ d. count (passes f) d.entries)
  out ←
      statement
        λ d. (signed_page d.driver limit offset (order_by newer (select (passes f) d.entries)), d)
  pure (out, total)

-- `DeleteCacheEntries`, with the number of rows that it deleted.
unfoldable pub delete_cache_entries : CacheEntryFilter → Action Db ℕ
delete_cache_entries f =
    statement
      λ d. (ok (count (passes f) d.entries), record d { entries = delete (passes f) d.entries })

pub record LruCacheEntry : Type 0 where
  pub entry_id : Bytes
  pub location_id : Bytes
  pub folder_name : Bytes

-- `s.mergeStartedAt IS NOT NULL AND s.mergedAt IS NULL`
abbrev pub is_merging : StorageLocation → Bool
is_merging s = is_some s.merge_started_at && not (is_some s.merged_at)

-- `COALESCE(s.lastDownloadedAt, c.updatedAt)`
abbrev pub coalesce : Option ℕ → ℕ → ℕ
coalesce none b = b
coalesce (some a) b = a

abbrev pub last_used : CacheEntry × StorageLocation → ℕ
last_used r = coalesce r.1.last_downloaded_at r.0.updated_at

-- `ListLRUCacheEntries`
unfoldable pub list_lru_cache_entries : ℕ → Action Db (List LruCacheEntry)
list_lru_cache_entries limit = statement (
    gets λ d. take limit (
      map (λ r. record { entry_id = r.0.id; location_id = r.1.id; folder_name = r.1.folder_name })
        (order_by (λ a b. ltb (last_used a) (last_used b))
          (select (λ r. not (is_merging r.1)) (join_locations d)))))
