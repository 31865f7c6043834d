-- ===== src/Db/Integrity/Entries.antt =====
-- The statements on `cache_entries` keep the declared keys and references.
use gha_cache_server.Base.{
  ℕ, ◌≡◌, refl, inl, inr, Bool, false, ◌&&◌, not, List, [], ◌∷◌, All-mono, All-append, Bool-cases,
  Bytes, bytes_eq_iff, arith,
}
use gha_cache_server.Base.Int.{ℤ}
use gha_cache_server.Action.{modify}
use gha_cache_server.Action.Keeps.{Keeps, Keeps-bind, Keeps-pure}
use gha_cache_server.Db.Models.{CacheEntry, StorageLocation}
use gha_cache_server.Db.Sql.{delete, update, exists}
use gha_cache_server.Db.Sql.Laws.{
  All-delete, All-update, update_none, append-IsUnique, delete-IsUnique, update-IsUnique,
}
use gha_cache_server.Db.State.{Db}
use gha_cache_server.Db.Queries.{
  location_has_id, CacheEntryFilter, passes, entry_has_id, insert_cache_entry,
  update_cache_entry_location, get_cache_entry, delete_cache_entry, find_exact_cache_entry,
  find_prefixed_cache_entry, find_cache_entry_with_location,
  find_existing_cache_entry_with_location, list_cache_entries, delete_cache_entries,
  list_lru_cache_entries,
}
use gha_cache_server.Db.Integrity.{IsConsistent, RefersTo, Keeps-statement, Keeps-query}

pub insert_cache_entry-IsConsistent : (e : CacheEntry) → Keeps IsConsistent (insert_cache_entry e)
unfolding insert_cache_entry
insert_cache_entry-IsConsistent e = Keeps-statement _ λ d h.
    elim (Bool-cases (exists (entry_has_id e.id) d.entries)) [
      | inl taken ↦ rw taken h
      | inr fresh ↦ elim (Bool-cases (exists (location_has_id e.location_id) d.locations)) [
        | inr missing ↦ rw (fresh, missing) h
        | inl there ↦
            rw (fresh, there)
              (record {
                uploads_unique = h.uploads_unique;
                locations_unique = h.locations_unique;
                entries_unique =
                    append-IsUnique _ _ bytes_eq_iff d.entries e h.entries_unique fresh;
                references = All-append _ d.entries (e ∷ []) h.references (there, tt);
              })
      ]
    ]

pub delete_where-IsConsistent :
    (q : CacheEntry → Bool) (d : Db)
    → IsConsistent d
    → IsConsistent (record d { entries = delete q d.entries })
delete_where-IsConsistent q d h = record {
  uploads_unique = h.uploads_unique;
  locations_unique = h.locations_unique;
  entries_unique = delete-IsUnique _ _ bytes_eq_iff q d.entries h.entries_unique;
  references =
      All-mono _ _ (delete q d.entries) (λ e r. r.0) (All-delete _ q d.entries h.references);
}

pub delete_cache_entry-IsConsistent : (id : Bytes) → Keeps IsConsistent (delete_cache_entry id)
unfolding delete_cache_entry modify
delete_cache_entry-IsConsistent id =
    Keeps-statement _ (λ d h. delete_where-IsConsistent (entry_has_id id) d h)

pub delete_cache_entries-IsConsistent :
    (f : CacheEntryFilter) → Keeps IsConsistent (delete_cache_entries f)
unfolding delete_cache_entries
delete_cache_entries-IsConsistent f =
    Keeps-statement _ (λ d h. delete_where-IsConsistent (passes f) d h)

-- Only a row that is there moves to the new location, and only to one that is there.
RefersTo-update :
    (locations : List StorageLocation) (entries : List CacheEntry) (id location_id : Bytes)
    (now : ℕ)
    → (exists (entry_has_id id) entries && not (exists (location_has_id location_id) locations))
      ≡ false
    → RefersTo locations entries
    → RefersTo locations (
        update
          (entry_has_id id)
          (λ e. record e { location_id = location_id; updated_at = now })
          entries)
RefersTo-update locations entries id location_id now checked h =
    elim (Bool-cases (exists (location_has_id location_id) locations)) [
      | inl there ↦ All-update _ (entry_has_id id) _ entries h (λ e r. there)
      | inr missing ↦
          rw
            (update_none (entry_has_id id)
              (λ e. record e { location_id = location_id; updated_at = now }) entries
              (ground arith))
            h
    ]

pub update_cache_entry_location-IsConsistent :
    (id location_id : Bytes) (now : ℕ)
    → Keeps IsConsistent (update_cache_entry_location id location_id now)
unfolding update_cache_entry_location
update_cache_entry_location-IsConsistent id location_id now = Keeps-statement _ λ d h.
    elim (Bool-cases (
      exists (entry_has_id id) d.entries
      && not (exists (location_has_id location_id) d.locations))) [
        | inl refused ↦ rw refused h
        | inr checked ↦ rw checked (record {
          uploads_unique = h.uploads_unique;
          locations_unique = h.locations_unique;
          entries_unique =
              update-IsUnique _ _ bytes_eq_iff (entry_has_id id) _ d.entries (λ e. refl)
                h.entries_unique;
          references =
              RefersTo-update d.locations d.entries id location_id now checked h.references;
        })
      ]

pub get_cache_entry-IsConsistent : (id : Bytes) → Keeps IsConsistent (get_cache_entry id)
unfolding get_cache_entry
get_cache_entry-IsConsistent id = Keeps-query _

pub find_exact_cache_entry-IsConsistent :
    (key version scope repo_id : Bytes)
    → Keeps IsConsistent (find_exact_cache_entry key version scope repo_id)
unfolding find_exact_cache_entry
find_exact_cache_entry-IsConsistent key version scope repo_id = Keeps-query _

pub find_prefixed_cache_entry-IsConsistent :
    (key version scope repo_id : Bytes)
    → Keeps IsConsistent (find_prefixed_cache_entry key version scope repo_id)
unfolding find_prefixed_cache_entry
find_prefixed_cache_entry-IsConsistent key version scope repo_id = Keeps-query _

pub find_cache_entry_with_location-IsConsistent :
    (id : Bytes) → Keeps IsConsistent (find_cache_entry_with_location id)
unfolding find_cache_entry_with_location
find_cache_entry_with_location-IsConsistent id = Keeps-query _

pub find_existing_cache_entry_with_location-IsConsistent :
    (key version scope repo_id : Bytes)
    → Keeps IsConsistent (find_existing_cache_entry_with_location key version scope repo_id)
unfolding find_existing_cache_entry_with_location
find_existing_cache_entry_with_location-IsConsistent key version scope repo_id = Keeps-query _

pub list_lru_cache_entries-IsConsistent :
    (limit : ℕ) → Keeps IsConsistent (list_lru_cache_entries limit)
unfolding list_lru_cache_entries
list_lru_cache_entries-IsConsistent limit = Keeps-query _

pub list_cache_entries-IsConsistent :
    (f : CacheEntryFilter) (limit : ℕ) (offset : ℤ)
    → Keeps IsConsistent (list_cache_entries f limit offset)
unfolding list_cache_entries
list_cache_entries-IsConsistent f limit offset =
    Keeps-bind _ _ (Keeps-query _)
      λ total. Keeps-bind _ _ (Keeps-statement _ (λ d h. h)) (λ out. Keeps-pure _)

pub ruleset entry_rules = (
  insert_cache_entry-IsConsistent, update_cache_entry_location-IsConsistent,
  get_cache_entry-IsConsistent, delete_cache_entry-IsConsistent, delete_cache_entries-IsConsistent,
  find_exact_cache_entry-IsConsistent, find_prefixed_cache_entry-IsConsistent,
  find_cache_entry_with_location-IsConsistent, find_existing_cache_entry_with_location-IsConsistent,
  list_lru_cache_entries-IsConsistent, list_cache_entries-IsConsistent,
)
