-- ===== src/Storage/Match/Tests.antt =====
-- A search with a restore key, in two scopes.
use gha_cache_server.Base.{ℕ, ◌≡◌, Bool, List, [], ◌∷◌, Bytes, codes}
use gha_cache_server.Db.Models.{CacheEntry}
use gha_cache_server.Db.State.{postgres}
use gha_cache_server.Storage.World.{World}
use gha_cache_server.Storage.Memory.{Objects}
use gha_cache_server.Storage.Reads.{with_faults}
use gha_cache_server.Storage.Match.{MatchInput, match_cache_entry}
use gha_cache_server.Storage.Match.Priority.{IsAnswerTo, match_cache_entry-IsAnswer}

abbrev entry : Bytes → Bytes → Bytes → ℕ → CacheEntry
entry id key scope t = record {
  id = id;
  key = key;
  version = codes "v1";
  scope = scope;
  repo_id = codes "1";
  updated_at = t;
  location_id = id;
}

abbrev world : World Objects
world = record {
  db = record {
    driver = postgres;
    uploads = [];
    locations = [];
    entries =
        entry (codes "a") (codes "go-1") (codes "main") 10
        ∷ entry (codes "b") (codes "go-2") (codes "main") 30
        ∷ entry (codes "c") (codes "go-3") (codes "main") 20
        ∷ [];
    faults = [];
  };
  store = [];
  clock = 40;
  merges = [];
  jobs = [];
}

abbrev request : MatchInput
request = record {
  keys = codes "go-9" ∷ codes "go-" ∷ [];
  version = codes "v1";
  scopes = codes "dev" ∷ codes "main" ∷ [];
  repo_id = codes "1";
}

match_cache_entry-IsAnswer_example :
    let (r, w') = match_cache_entry request world in
    IsAnswerTo world.db request request.keys r
    × ((left : List Bool) × (w' ≡ with_faults world left))
match_cache_entry-IsAnswer_example = match_cache_entry-IsAnswer request world
