-- ===== src/Storage/Completion/Rows.antt =====
-- What each statement of `CompleteUpload` from that of the entry on makes of the tables.
use mathlib.Core.Path.{subst}
use gha_cache_server.Base.{
  ℕ, ◌≡◌, sym, ◌∙◌, inl, inr, Bool, true, false, not, ◌&&◌, Option, none, some, head, All,
  Bool-cases, Bytes, bytes_eq, bytes_eq_self, bytes_eq_sound, arith,
}
use gha_cache_server.Base.Int.{ℤ}
use gha_cache_server.Action.{gets, modify}
use gha_cache_server.Action.Ensures.{Ensures}
use gha_cache_server.Db.Models.{CacheEntry, StorageLocation}
use gha_cache_server.Db.Sql.{select, exists}
use gha_cache_server.Db.Sql.Laws.{exists-delete, exists-delete_self}
use gha_cache_server.Db.Sql.Find.{
  head-select, exists-append_last, exists-none, All-both, exists_mono, All-found, exists-update_hit,
  All-join,
}
use gha_cache_server.Db.State.{Db}
use gha_cache_server.Db.Queries.{
  location_has_id, entry_refers_to, entry_has_id, entry_matches, join_locations, upload_has_id,
  find_existing_cache_entry_with_location, insert_cache_entry, update_cache_entry_location,
  delete_storage_location, delete_upload,
}
use gha_cache_server.Storage.World.{World, query}
use gha_cache_server.Storage.Upload.{new_entry}
use gha_cache_server.Storage.Tables.{OfSome, Ensures-statement}
use gha_cache_server.Storage.Completion.Saved.{IsSaved, IsUnused, IsPublished, passed}

module _ (id folder : Bytes) (n : ℕ) (key version scope repo_id : Bytes) where
  -- The location is there and not used.
  abbrev pub IsReady : Db → Type 0
  IsReady d = IsUnused d id × IsSaved d id folder n

  -- The location is there, and the key leads to it.
  abbrev pub IsDone : Db → Type 0
  IsDone d = IsSaved d id folder n × IsPublished d id key version scope repo_id

  -- An entry of the key with its location, which is another one.
  abbrev pub IsOld : Db → CacheEntry × StorageLocation → Type 0
  IsOld d r =
      (exists (λ e. entry_has_id r.0.id e && entry_matches key version scope repo_id e) d.entries
        ≡ true)
      × (bytes_eq r.1.id id ≡ false)

  abbrev same_row : CacheEntry → CacheEntry → Bool
  same_row a b = entry_has_id a.id b && entry_matches a.key a.version a.scope a.repo_id b

  -- What is known of a row of the join.
  abbrev IsJoined : Db → CacheEntry × StorageLocation → Type 0
  IsJoined d r =
      (bytes_eq r.1.id r.0.location_id ≡ true)
      × (entry_refers_to id r.0 ≡ false)
      × (exists (same_row r.0) d.entries ≡ true)

  joined : (d : Db) → IsReady d → All (IsJoined d) (join_locations d)
  joined d ready =
      All-join (λ c. (entry_refers_to id c ≡ false) × (exists (same_row c) d.entries ≡ true)) _ _
        d.entries d.locations (λ c s h hit. (hit, h.0, h.1))
        (All-both _ _ d.entries (exists-none (entry_refers_to id) d.entries ready.0) (
          All-found same_row d.entries λ c. ground (
            arith,
            bytes_eq_self c.id,
            bytes_eq_self c.key,
            bytes_eq_self c.version,
            bytes_eq_self c.scope,
            bytes_eq_self c.repo_id,
          )))

  old :
      (d : Db) (o : Option (CacheEntry × StorageLocation))
      → IsReady d
      → head (select (λ r. entry_matches key version scope repo_id r.0) (join_locations d)) ≡ o
      → OfSome (IsOld d) o
  old d none ready e = tt
  old d (some r) ready e =
      let ((hit, other, row), found) =
        head-select (IsJoined d) _ (join_locations d) r (joined d ready) e in
      (
        exists_mono (same_row r.0) _ d.entries
            (λ x s.
              rw
                (
                  sym (bytes_eq_sound r.0.key key (ground arith)),
                  sym (bytes_eq_sound r.0.version version (ground arith)),
                  sym (bytes_eq_sound r.0.scope scope (ground arith)),
                  sym (bytes_eq_sound r.0.repo_id repo_id (ground arith)),
                )
                s)
            row,
        subst (λ x. bytes_eq x id ≡ false) (sym (bytes_eq_sound r.1.id r.0.location_id hit)) other,
      )

  -- What is the one is not the other.
  differs : (x l : Bytes) → bytes_eq x id ≡ true → bytes_eq l id ≡ false → bytes_eq x l ≡ false
  differs x l same other = elim (Bool-cases (bytes_eq x l)) [
    | inl e ↦
        absurd (cc (sym other ∙ subst (λ y. bytes_eq y id ≡ true) (bytes_eq_sound x l e) same))
    | inr e ↦ e
  ]

  module _ {S : Type 0} where
    pub find_existing-IsOld :
        Ensures {S = World S}
          (λ w. IsReady w.db)
          (query (find_existing_cache_entry_with_location key version scope repo_id))
          (λ o w. IsReady w.db × OfSome (IsOld w.db) o)
    unfolding find_existing_cache_entry_with_location gets
    find_existing-IsOld =
        Ensures-statement IsReady _ (λ o d. IsReady d × OfSome (IsOld d) o) (λ d fs h. h)
          λ d o h e. (h, old d o h (cc e))

    pub insert_cache_entry-IsDone :
        (entry_id : Bytes) (t : ℕ)
        → Ensures {S = World S}
            (λ w. IsReady w.db)
            (query (insert_cache_entry (new_entry entry_id key version scope repo_id t id)))
            (λ _ w. IsDone w.db)
    unfolding insert_cache_entry
    insert_cache_entry-IsDone entry_id t =
        Ensures-statement IsReady _ (λ _ d. IsDone d) (λ d fs h. h)
          λ d a h e.
            let fresh = passed (exists (entry_has_id entry_id) d.entries) _ _ _ e in
            let there = exists_mono _ (location_has_id id) d.locations (λ l m. ground arith) h.1 in
            rw (fresh, there)
              (
                h.1,
                exists-append_last _ d.entries (new_entry entry_id key version scope repo_id t id) (
                    ground (
                      arith,
                      bytes_eq_self key,
                      bytes_eq_self version,
                      bytes_eq_self scope,
                      bytes_eq_self repo_id,
                      bytes_eq_self id,
                    )),
              )

    pub update_cache_entry_location-IsDone :
        (r : CacheEntry × StorageLocation) (t : ℕ)
        → Ensures {S = World S}
            (λ w. IsReady w.db × IsOld w.db r)
            (query (update_cache_entry_location r.0.id id t))
            (λ _ w. IsDone w.db)
    unfolding update_cache_entry_location
    update_cache_entry_location-IsDone r t =
        Ensures-statement (λ d. IsReady d × IsOld d r) _ (λ _ d. IsDone d) (λ d fs h. h)
          λ d a h e.
            rw
              (passed
                (exists (entry_has_id r.0.id) d.entries
                  && not (exists (location_has_id id) d.locations))
                _ _ _ e)
              (
                h.0.1,
                exists-update_hit (entry_has_id r.0.id) (entry_matches key version scope repo_id) _
                    _ d.entries (λ x m. ground (arith, bytes_eq_self id)) h.1.0,
              )

    pub delete_storage_location-IsDone :
        (l : Bytes)
        → bytes_eq l id ≡ false
        → Ensures {S = World S}
            (λ w. IsDone w.db)
            (query (delete_storage_location l))
            (λ _ w. IsDone w.db)
    unfolding delete_storage_location modify
    delete_storage_location-IsDone l other =
        Ensures-statement IsDone _ (λ _ d. IsDone d) (λ d fs h. h)
          λ d a h e. (
            exists-delete _ (location_has_id l) d.locations
                  (λ x m. differs x.id l (ground arith) other)
                ∙ h.0,
            exists-delete _ (entry_refers_to l) d.entries
                  (λ x m. differs x.location_id l (ground arith) other)
                ∙ h.1,
          )

    pub delete_upload-IsDone :
        (u : ℤ)
        → Ensures {S = World S}
            (λ w. IsDone w.db)
            (query (delete_upload u))
            (λ _ w. IsDone w.db × (exists (upload_has_id u) w.db.uploads ≡ false))
    unfolding delete_upload modify
    delete_upload-IsDone u =
        Ensures-statement IsDone _ (λ _ d. IsDone d × (exists (upload_has_id u) d.uploads ≡ false))
          (λ d fs h. h) λ d a h e. (h, exists-delete_self (upload_has_id u) d.uploads)
