-- ===== src/Tasks/Tests.antt =====
-- The cleanup tasks on small tables.
use gha_cache_server.Base.{
  ℕ, suc, zero, ◌≡◌, refl, false, List, [], ◌∷◌, length, codes, arith, true, ◌<◌, ◌+◌, some, ◌-◌,
  bytes_eq,
}
use gha_cache_server.Base.Int.{pos, negsuc, int_eq}
use gha_cache_server.Action.{◌>>=◌, ok, pure, handle, if_nil}
use gha_cache_server.Db.Models.{Upload}
use gha_cache_server.Db.State.{sqlite, statement}
use gha_cache_server.Db.Sql.{select, delete, exists, order_by, insert_sorted, join}
use gha_cache_server.Db.Queries.{
  list_stale_uploads, delete_upload, list_lru_cache_entries, delete_cache_entry,
  delete_storage_location,
}
use gha_cache_server.Storage.World.{World, now, query, storing}
use gha_cache_server.Tasks.Pages.{for_each, each_page}
use gha_cache_server.Storage.Memory.{Objects, memory}
use gha_cache_server.Storage.Upload.{new_upload, new_location, new_entry}
use gha_cache_server.Tasks.Jobs.{
  TaskConfig, minute, retention, cleanup_storage_locations, cleanup_cache_entries, drop_upload,
  cleanup_uploads, cleanup_parts,
}
use gha_cache_server.Tasks.Ends.{HasEnded}
use gha_cache_server.Tasks.Ends.Pressure.{cleanup_disk_pressure-HasEnded}
use gha_cache_server.Tasks.Bounds.{cleanup_disk_pressure-bound}
use gha_cache_server.Storage.Adapter.{Adapter}
use gha_cache_server.Storage.Download.{usable_free_bytes}
use gha_cache_server.Tasks.Pressure.{evict, evict_all, evict_batches, cleanup_disk_pressure}
use gha_cache_server.Tasks.Sweeps.Uploads.{is_fresh, cleanup_uploads-keeps_fresh}
use gha_cache_server.Tasks.Sweeps.Locations.{is_used, cleanup_storage_locations-keeps_used}
use gha_cache_server.Tasks.Sweeps.Expired.{is_recent, cleanup_cache_entries-keeps_recent}
use gha_cache_server.Db.Integrity.{UniqueLocations, IsConsistent}
use gha_cache_server.Tasks.Ends.Jobs.{cleanup_uploads-HasEnded, cleanup_locations-HasEnded}

abbrev cfg : TaskConfig
cfg = record {
  disable_cleanup_jobs = false;
  cache_cleanup_older_than_days = 90;
  disk_pressure_min_free_bytes = pos 0;
  disk_pressure_target_free_bytes = pos 0;
}

-- Uploads `1` to `n`, all of them begun at the time 0.
abbrev stale : ℕ → List Upload
stale zero = []
stale (suc n) = new_upload (pos (suc n)) (codes "k") (codes "v") (codes "s") (codes "1") 0 ∷ stale n

abbrev world : World Objects
world = record {
  db = record {
    driver = sqlite;
    uploads = stale 12;
    locations =
        new_location (codes "l") (codes "1") 1 ∷ new_location (codes "m") (codes "2") 1 ∷ [];
    entries = [];
    faults = [];
  };
  store = [];
  clock = 100000;
  merges = [];
  jobs = [];
}

-- The second page is read behind the rows that are left, so two of the twelve uploads stay.
cleanup_uploads-run : length (cleanup_uploads memory cfg 3 world).1.db.uploads ≡ 2
unfolding cleanup_uploads ◌>>=◌ now each_page query list_stale_uploads statement for_each select
    drop_upload storing delete_upload delete int_eq
cleanup_uploads-run = refl

cleanup_uploads-HasEnded_example : HasEnded (cleanup_uploads memory cfg 2 world).0
cleanup_uploads-HasEnded_example = cleanup_uploads-HasEnded memory cfg 2 world (omega arith)

cleanup_locations-HasEnded_example :
    HasEnded (cleanup_storage_locations memory cfg 1 world).0
    × HasEnded (cleanup_cache_entries memory cfg 1 world).0
    × HasEnded (cleanup_parts memory cfg 1 world).0
cleanup_locations-HasEnded_example = cleanup_locations-HasEnded memory cfg 1 world (omega arith)

-- One stale upload and one that was begun just now; one of the two locations is in use.
abbrev two_uploads : World Objects
two_uploads = record world {
  db = record world.db {
    uploads =
        new_upload (pos 1) (codes "k") (codes "v") (codes "s") (codes "1") 0
        ∷ new_upload (pos 2) (codes "l") (codes "v") (codes "s") (codes "1") 99000
        ∷ [];
    entries =
        new_entry (codes "e") (codes "k") (codes "v") (codes "s") (codes "1") 5 (codes "l") ∷ [];
  };
}

two_uploads-IsConsistent : IsConsistent two_uploads.db
unfolding exists bytes_eq int_eq
two_uploads-IsConsistent = record {
  uploads_unique = (refl, (refl, tt));
  locations_unique = (refl, (refl, tt));
  entries_unique = (refl, tt);
  references = (refl, tt);
}

cleanup_uploads-keeps_fresh_example :
    select
      (is_fresh (two_uploads.clock - minute))
      (cleanup_uploads memory cfg 1 two_uploads).1.db.uploads
    ≡ select (is_fresh (two_uploads.clock - minute)) two_uploads.db.uploads
cleanup_uploads-keeps_fresh_example =
    cleanup_uploads-keeps_fresh memory cfg 1 two_uploads two_uploads-IsConsistent

cleanup_storage_locations-keeps_used_example :
    let d = (cleanup_storage_locations memory cfg 1 two_uploads).1.db in
    (d.entries ≡ two_uploads.db.entries)
    × (select (is_used two_uploads.db.entries) d.locations
        ≡ select (is_used two_uploads.db.entries) two_uploads.db.locations)
cleanup_storage_locations-keeps_used_example =
    cleanup_storage_locations-keeps_used memory cfg 1 two_uploads

-- 292 years are more than an `int64` of nanoseconds holds: the cut-off comes to lie ahead.
last_retention : retention 106751 ≡ negsuc 9223286399999999999
last_retention = refl

wrapped_retention : retention 106752 ≡ pos 9223371273709551616
wrapped_retention = refl

-- The disk stays full, and there is one entry to evict.
abbrev full_disk : Adapter Objects
full_disk = record memory { usable_free_bytes = some (pure (pos 5)) }

abbrev evicting : TaskConfig
evicting = record cfg {
  disk_pressure_min_free_bytes = pos 10;
  disk_pressure_target_free_bytes = pos 20;
}

cleanup_disk_pressure-run :
    (cleanup_disk_pressure full_disk evicting 3 two_uploads).0 ≡ ok (some tt)
unfolding cleanup_disk_pressure usable_free_bytes handle if_nil evict_batches evict_all evict query
    storing statement list_lru_cache_entries order_by insert_sorted select join bytes_eq
    delete_cache_entry delete_storage_location delete exists ◌>>=◌ pure
cleanup_disk_pressure-run = refl

-- The entry went with its location.
cleanup_disk_pressure-left :
    length (cleanup_disk_pressure full_disk evicting 3 two_uploads).1.db.locations ≡ 1
unfolding cleanup_disk_pressure usable_free_bytes handle if_nil evict_batches evict_all evict query
    storing statement list_lru_cache_entries order_by insert_sorted select join bytes_eq
    delete_cache_entry delete_storage_location delete exists ◌>>=◌ pure
cleanup_disk_pressure-left = refl

cleanup_disk_pressure-bound_example :
    length two_uploads.db.locations
    < length (cleanup_disk_pressure full_disk evicting 3 two_uploads).1.db.locations + 1010
cleanup_disk_pressure-bound_example =
    cleanup_disk_pressure-bound full_disk evicting 3 two_uploads
      two_uploads-IsConsistent.locations_unique

-- Two statements will fail.
abbrev failing : World Objects
failing = record two_uploads { db = record two_uploads.db { faults = false ∷ true ∷ true ∷ [] } }

cleanup_disk_pressure-HasEnded_example :
    HasEnded (cleanup_disk_pressure full_disk evicting 1004 failing).0
cleanup_disk_pressure-HasEnded_example =
    cleanup_disk_pressure-HasEnded full_disk evicting 1004 failing (omega arith)

-- 100 days after its location was downloaded an entry has expired, and after 80 it has not.
abbrev downloaded_at : ℕ → World Objects
downloaded_at t = record two_uploads {
  db = record two_uploads.db {
    locations =
        record (new_location (codes "l") (codes "1") 1) { last_downloaded_at = some t }
        ∷ record (new_location (codes "m") (codes "2") 1) {
          last_downloaded_at = some (t + 1728000000);
        }
        ∷ [];
  };
  clock = t + 8640000000;
}

downloaded_at-UniqueLocations : UniqueLocations (downloaded_at 0).db.locations
unfolding exists bytes_eq
downloaded_at-UniqueLocations = (refl, (refl, tt))

cleanup_cache_entries-keeps_recent_example :
    select
      (is_recent 864000000)
      (cleanup_cache_entries memory cfg 1 (downloaded_at 0)).1.db.locations
    ≡ select (is_recent 864000000) (downloaded_at 0).db.locations
cleanup_cache_entries-keeps_recent_example =
    cleanup_cache_entries-keeps_recent memory cfg 1 (downloaded_at 0) (omega arith)
      downloaded_at-UniqueLocations
