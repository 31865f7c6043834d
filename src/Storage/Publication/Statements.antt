-- ===== src/Storage/Publication/Statements.antt =====
-- internal/db/queries.go: a property of the cache entries across the statements that write.
use gha_cache_server.Base.{
  ℕ, ◌≡◌, inl, inr, true, not, ◌&&◌, [], ◌∷◌, All, All-append, All-mono, Bool-cases, Bytes,
}
use gha_cache_server.Base.Int.{ℤ}
use gha_cache_server.Action.{modify}
use gha_cache_server.Action.Keeps.{Keeps}
use gha_cache_server.Db.Models.{CacheEntry, StorageLocation}
use gha_cache_server.Db.Sql.{exists}
use gha_cache_server.Db.Sql.Laws.{All-delete, All-update_hits}
use gha_cache_server.Db.State.{Db}
use gha_cache_server.Db.Queries.{
  location_has_id, entry_refers_to, entry_has_id, find_upload_by_key, delete_upload,
  insert_storage_location, delete_storage_location, insert_cache_entry, update_cache_entry_location,
}
use gha_cache_server.Storage.World.{World, query}
use gha_cache_server.Storage.Tables.{Tables-statement, Tables-gets}

module _ (P : CacheEntry → Type 0) where
  abbrev pub AllEntries : Db → Type 0
  AllEntries d = All P d.entries

  module _ {S : Type 0} where
    pub insert_cache_entry-AllEntries :
        (e : CacheEntry)
        → P e
        → Keeps {S = World S} (λ w. AllEntries w.db) (query (insert_cache_entry e))
    unfolding insert_cache_entry
    insert_cache_entry-AllEntries e p =
        Tables-statement AllEntries (λ d fs h. h) _
          λ d h. elim (Bool-cases (exists (entry_has_id e.id) d.entries)) [
            | inl there ↦ rw there h
            | inr new ↦
                rw new (elim (Bool-cases (exists (location_has_id e.location_id) d.locations)) [
                  | inl located ↦ rw located (All-append P d.entries (e ∷ []) h (p, tt))
                  | inr lost ↦ rw lost h
                ])
          ]

    pub update_cache_entry_location-AllEntries :
        (id location_id : Bytes) (t : ℕ)
        → ((e : CacheEntry)
            → entry_has_id id e ≡ true
            → P e
            → P (record e { location_id = location_id; updated_at = t }))
        → Keeps {S = World S}
            (λ w. AllEntries w.db)
            (query (update_cache_entry_location id location_id t))
    unfolding update_cache_entry_location
    update_cache_entry_location-AllEntries id location_id t moved =
        Tables-statement AllEntries (λ d fs h. h) _
          λ d h.
            elim (Bool-cases (
              exists (entry_has_id id) d.entries
              && not (exists (location_has_id location_id) d.locations))) [
                | inl lost ↦ rw lost h
                | inr located ↦ rw located (All-update_hits P (entry_has_id id) _ d.entries h moved)
              ]

    pub delete_storage_location-AllEntries :
        (id : Bytes)
        → Keeps {S = World S} (λ w. AllEntries w.db) (query (delete_storage_location id))
    unfolding delete_storage_location modify
    delete_storage_location-AllEntries id =
        Tables-statement AllEntries (λ d fs h. h) _
          λ d h. All-mono _ _ _ (λ e k. k.0) (All-delete P (entry_refers_to id) d.entries h)

    pub delete_upload-AllEntries :
        (id : ℤ) → Keeps {S = World S} (λ w. AllEntries w.db) (query (delete_upload id))
    unfolding delete_upload modify
    delete_upload-AllEntries id = Tables-statement AllEntries (λ d fs h. h) _ λ d h. h

    pub insert_storage_location-AllEntries :
        (l : StorageLocation)
        → Keeps {S = World S} (λ w. AllEntries w.db) (query (insert_storage_location l))
    unfolding insert_storage_location
    insert_storage_location-AllEntries l =
        Tables-statement AllEntries (λ d fs h. h) _
          λ d h. elim (Bool-cases (exists (location_has_id l.id) d.locations)) [
            | inl there ↦ rw there h
            | inr new ↦ rw new h
          ]

    pub find_upload_by_key-AllEntries :
        (key version scope repo_id : Bytes)
        → Keeps {S = World S}
            (λ w. AllEntries w.db)
            (query (find_upload_by_key key version scope repo_id))
    unfolding find_upload_by_key
    find_upload_by_key-AllEntries key version scope repo_id = Tables-gets AllEntries (λ d fs h. h) _
