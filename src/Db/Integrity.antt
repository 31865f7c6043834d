-- ===== src/Db/Integrity.antt =====
-- The keys and the reference that `m0Init` of internal/db/migrations.go declares: `id` is a primary
-- key of each table, and `locationId` refers to a row of `storage_locations`. The children show that
-- every statement keeps them, whether or not it fails.
pub mod Uploads
pub mod Locations
pub mod Entries
pub mod Keys
pub mod Sound
use gha_cache_server.Base.{
  ◌≡◌, Bool, true, false, List, [], ◌∷◌, All, Bytes, bytes_eq, bytes_eq_iff,
}
use gha_cache_server.Base.Int.{int_eq, int_eq_iff}
use gha_cache_server.Action.{Action, gets}
use gha_cache_server.Action.Keeps.{Keeps}
use gha_cache_server.Db.Models.{CacheEntry, StorageLocation, Upload}
use gha_cache_server.Db.Sql.{exists}
use gha_cache_server.Db.Sql.Laws.{IsUnique}
use gha_cache_server.Db.State.{Db, run_statement, statement}
use gha_cache_server.Db.Queries.{location_has_id}

abbrev pub UniqueUploads : List Upload → Type 0
UniqueUploads = IsUnique (λ u. u.id) int_eq int_eq_iff

abbrev pub UniqueLocations : List StorageLocation → Type 0
UniqueLocations = IsUnique (λ l. l.id) bytes_eq bytes_eq_iff

abbrev pub UniqueEntries : List CacheEntry → Type 0
UniqueEntries = IsUnique (λ e. e.id) bytes_eq bytes_eq_iff

-- A row of `storage_locations` has the id.
abbrev pub HasLocation : List StorageLocation → Bytes → Type 0
HasLocation locations id = exists (location_has_id id) locations ≡ true

abbrev pub RefersTo : List StorageLocation → List CacheEntry → Type 0
RefersTo locations = All (λ e. HasLocation locations e.location_id)

pub record IsConsistent (d : Db) : Type 0 where
  pub uploads_unique : UniqueUploads d.uploads
  pub locations_unique : UniqueLocations d.locations
  pub entries_unique : UniqueEntries d.entries
  pub references : RefersTo d.locations d.entries

-- A statement keeps the declarations if its effect does.
pub Keeps-statement :
    {A : Type 0} (m : Action Db A)
    → ((d : Db) → IsConsistent d → IsConsistent (m d).1)
    → Keeps IsConsistent (statement m)
unfolding statement
Keeps-statement {A} m step = record { from = λ d h. go d.faults d h }
  where
    go : (fs : List Bool) (d : Db) → IsConsistent d → IsConsistent (run_statement fs m d).1
    go [] d h = step d h
    go (true ∷ fs) d h = record {
      uploads_unique = h.uploads_unique;
      locations_unique = h.locations_unique;
      entries_unique = h.entries_unique;
      references = h.references;
    }
    go (false ∷ fs) d h =
        step (record d { faults = fs })
          (record {
            uploads_unique = h.uploads_unique;
            locations_unique = h.locations_unique;
            entries_unique = h.entries_unique;
            references = h.references;
          })

-- A query changes no row.
pub Keeps-query : {A : Type 0} (f : Db → A) → Keeps IsConsistent (statement (gets f))
unfolding gets
Keeps-query f = Keeps-statement (gets f) (λ d h. h)
