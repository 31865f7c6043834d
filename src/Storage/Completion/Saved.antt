-- ===== src/Storage/Completion/Saved.antt =====
-- What the statements of `CompleteUpload` before that of the entry make of the tables.
use mathlib.Core.Path.{subst}
use gha_cache_server.Base.{
  ℕ, ◌≡◌, refl, sym, ◌∙◌, Bool, true, false, ◌&&◌, Option, none, some, List, [], ◌∷◌, head, All,
  ◌==◌, if◌then◌else◌, Bytes, bytes_eq, bytes_eq_self, bytes_eq_sound, arith,
}
use gha_cache_server.Action.{Error, Result, ok, err, gets}
use gha_cache_server.Action.Ensures.{Ensures}
use gha_cache_server.Db.Models.{CacheEntry, StorageLocation, Upload}
use gha_cache_server.Db.Sql.{select, exists}
use gha_cache_server.Db.Sql.Find.{head-select, exists-append_last}
use gha_cache_server.Db.State.{Db}
use gha_cache_server.Db.Queries.{
  location_has_id, entry_refers_to, entry_matches, upload_matches, find_upload_by_key,
  insert_storage_location,
}
use gha_cache_server.Db.Integrity.{IsConsistent, HasLocation, RefersTo}
use gha_cache_server.Storage.World.{World, query}
use gha_cache_server.Storage.Upload.{new_location}
use gha_cache_server.Storage.Tables.{OfSome, Ensures-statement}

-- A location of the folder with the number of its parts has the id.
abbrev pub IsSaved : Db → Bytes → Bytes → ℕ → Type 0
IsSaved d id folder n =
    exists (λ l. bytes_eq l.id id && (bytes_eq l.folder_name folder && l.part_count == n))
      d.locations
    ≡ true

-- No entry refers to the location.
abbrev pub IsUnused : Db → Bytes → Type 0
IsUnused d loc_id = exists (entry_refers_to loc_id) d.entries ≡ false

-- The key leads to the location.
abbrev pub IsPublished : Db → Bytes → Bytes → Bytes → Bytes → Bytes → Type 0
IsPublished d loc_id key version scope repo_id =
    exists (λ e. entry_matches key version scope repo_id e && entry_refers_to loc_id e) d.entries
    ≡ true

unused :
    (locations : List StorageLocation) (loc_id : Bytes) (entries : List CacheEntry)
    → RefersTo locations entries
    → exists (location_has_id loc_id) locations ≡ false
    → exists (entry_refers_to loc_id) entries ≡ false
unfolding exists
unused locations loc_id [] h fresh = refl
unused locations loc_id (e ∷ entries) h fresh =
    rw (other (bytes_eq e.location_id loc_id) refl) (unused locations loc_id entries h.1 fresh)
  where
    other : (b : Bool) → bytes_eq e.location_id loc_id ≡ b → bytes_eq e.location_id loc_id ≡ false
    other false same = same
    other true same = absurd (
        cc (
          sym fresh ∙ subst (HasLocation locations) (bytes_eq_sound e.location_id loc_id same) h.0))

-- A statement that is refused where the test holds was not refused.
pub passed :
    {A : Type 0} (b : Bool) (e : Error) (d : Db) (r : Result A × Db) {a : A}
    → (if b then (err e, d) else r).0 ≡ ok a
    → b ≡ false
passed true e d r h = absurd (cc h)
passed false e d r h = refl

IsConsistent-faults :
    (d : Db) (fs : List Bool) → IsConsistent d → IsConsistent (record d { faults = fs })
IsConsistent-faults d fs h = record {
  uploads_unique = h.uploads_unique;
  locations_unique = h.locations_unique;
  entries_unique = h.entries_unique;
  references = h.references;
}

pub find_upload_by_key-Ensures :
    {S : Type 0} (key version scope repo_id : Bytes)
    → Ensures {S = World S}
        (λ w. IsConsistent w.db)
        (query (find_upload_by_key key version scope repo_id))
        (λ o w.
          IsConsistent w.db × OfSome (λ u. upload_matches key version scope repo_id u ≡ true) o)
unfolding find_upload_by_key gets
find_upload_by_key-Ensures key version scope repo_id =
    Ensures-statement IsConsistent _
      (λ o d. IsConsistent d × OfSome (λ u. upload_matches key version scope repo_id u ≡ true) o)
      IsConsistent-faults λ d o h e. (h, matching d.uploads o (cc e))
  where
    all_tt : (rows : List Upload) → All (λ _. Unit {0}) rows
    all_tt [] = tt
    all_tt (u ∷ rows) = (tt, all_tt rows)

    matching :
        (rows : List Upload) (o : Option Upload)
        → head (select (upload_matches key version scope repo_id) rows) ≡ o
        → OfSome (λ u. upload_matches key version scope repo_id u ≡ true) o
    matching rows none e = tt
    matching rows (some u) e = (head-select (λ _. Unit {0}) _ rows u (all_tt rows) e).1

pub insert_storage_location-IsSaved :
    {S : Type 0} (id folder : Bytes) (n : ℕ)
    → Ensures {S = World S}
        (λ w. IsConsistent w.db)
        (query (insert_storage_location (new_location id folder n)))
        (λ _ w. IsUnused w.db id × IsSaved w.db id folder n)
unfolding insert_storage_location
insert_storage_location-IsSaved id folder n =
    Ensures-statement IsConsistent _ (λ _ d. IsUnused d id × IsSaved d id folder n)
      IsConsistent-faults
      λ d a h e.
        let fresh = passed (exists (location_has_id id) d.locations) _ _ _ e in
        rw fresh (
          unused d.locations id d.entries h.references fresh,
          exists-append_last _ d.locations (new_location id folder n)
              (ground (arith, bytes_eq_self id, bytes_eq_self folder)),
        )
