-- ===== src/Storage/Completion/Tests.antt =====
-- An upload of one part is completed, and replaces the entry that the key had.
use gha_cache_server.Base.{head, arith, ◌≡◌, refl, some, [], ◌∷◌, codes, bytes_eq, has_prefix}
use gha_cache_server.Base.Int.{pos}
use gha_cache_server.Base.Decimal.{format_int, format_nat}
use gha_cache_server.Action.{ok}
use gha_cache_server.Db.Models.{Upload}
use gha_cache_server.Db.Sql.{select, exists}
use gha_cache_server.Db.State.{sqlite}
use gha_cache_server.Db.Integrity.{IsConsistent}
use gha_cache_server.Db.Queries.{upload_matches}
use gha_cache_server.Storage.World.{World}
use gha_cache_server.Storage.Memory.{Objects, memory}
use gha_cache_server.Storage.Upload.{new_upload, new_location, new_entry, complete_upload}
use gha_cache_server.Storage.Completion.Live.Statements.{HasNoFault, IsFresh}
use gha_cache_server.Storage.Completion.Live.{HasStoredParts, complete_upload-succeeds}
use gha_cache_server.Storage.Completion.{IsCompleted}

abbrev upload : Upload
upload = record (new_upload (pos 7) (codes "go") (codes "v1") (codes "main") (codes "1") 10) {
  started_part_upload_count = 1;
  finished_part_upload_count = 1;
  last_part_uploaded_at = some 20;
}

abbrev world : World Objects
world = record {
  db = record {
    driver = sqlite;
    uploads = upload ∷ [];
    locations = new_location (codes "l") (codes "3") 1 ∷ [];
    entries =
        new_entry (codes "e") (codes "go") (codes "v1") (codes "main") (codes "1") 5 (codes "l")
        ∷ [];
    faults = [];
  };
  store = (codes "7/parts/0", codes "new") ∷ (codes "3/parts/0", codes "old") ∷ [];
  clock = 40;
  merges = [];
  jobs = [];
}

world-IsConsistent : IsConsistent world.db
unfolding exists bytes_eq
world-IsConsistent = record {
  uploads_unique = (refl, tt);
  locations_unique = (refl, tt);
  entries_unique = (refl, tt);
  references = (refl, tt);
}

fault_free : HasNoFault world
unfolding exists
fault_free = refl

ids-IsFresh : IsFresh (codes "m") (codes "f") world
unfolding exists bytes_eq
ids-IsFresh = (refl, refl)

upload_found :
    head (
      select (upload_matches (codes "go") (codes "v1") (codes "main") (codes "1")) world.db.uploads)
    ≡ some upload
unfolding select bytes_eq
upload_found = refl

stored_parts : HasStoredParts memory upload world.store
unfolding has_prefix format_int format_nat select
stored_parts = (omega arith, refl, refl)

complete_upload-succeeds_example :
    let (r, w) =
      complete_upload memory
        (codes "m")
        (codes "f")
        (codes "go")
        (codes "v1")
        (codes "main")
        (codes "1")
        world in
    (r ≡ ok (some upload))
    × IsCompleted memory
        (codes "m")
        (codes "f")
        (codes "go")
        (codes "v1")
        (codes "main")
        (codes "1")
        w.db
        upload
complete_upload-succeeds_example =
    complete_upload-succeeds (codes "m") (codes "f") (codes "go") (codes "v1") (codes "main")
      (codes "1") memory world upload fault_free ids-IsFresh upload_found (λ name s. refl)
      stored_parts world-IsConsistent
