-- ===== src/System.antt =====
-- The server as a whole: the routes of internal/server, the goroutines of the service and the tasks
-- of the scheduler, each taken as one step, in any order, with a clock that goes on and statements
-- that may fail.
pub mod Invariants
pub mod Guards
mod Tests
use gha_cache_server.Base.{ℕ, ◌≤◌, ◌≡◌, Bool, Option, none, some, List, [], ◌∷◌, ◌++◌, Bytes}
use gha_cache_server.Ids.{numeric_id}
use gha_cache_server.Action.{Action}
use gha_cache_server.Db.State.{Driver, Db}
use gha_cache_server.Db.Queries.{CacheEntryFilter}
use gha_cache_server.Storage.Adapter.{Adapter}
use gha_cache_server.Storage.World.{Job, ServiceConfig, World}
use gha_cache_server.Storage.Download.{run_job}
use gha_cache_server.Tasks.Jobs.{
  TaskConfig, cleanup_merges, cleanup_storage_locations, cleanup_cache_entries, cleanup_uploads,
  cleanup_parts,
}
use gha_cache_server.Tasks.Pressure.{cleanup_disk_pressure}
use gha_cache_server.Server.Http.{AuthResult, Response}
use gha_cache_server.Server.Twirp.{
  TwirpKeyVersion, TwirpFinalizeBody, TwirpKeyRestoreVersion, twirp_create, twirp_get,
  twirp_finalize,
}
use gha_cache_server.Server.Files.{UploadRequest, upload_handler, download_handler}
use gha_cache_server.Server.Management.{
  MatchRequest, mgmt_auth, mgmt_docs_html, mgmt_docs_spec, mgmt_get_entry, mgmt_list_entries,
  mgmt_delete_entry, mgmt_delete_entries, mgmt_get_location, mgmt_match, mgmt_delete_location,
}

-- A call of the management API.
pub data Management : Type 0 where
  docs docs_spec : Management
  get_entry delete_entry get_location delete_location : Bytes → Management
  list_entries : Bytes → Bytes → CacheEntryFilter → Management
  delete_entries : CacheEntryFilter → Management
  match_entry : MatchRequest → Management

-- A request by its route, with the random ids that its handler draws; for that of an upload, the
-- random number.
pub data Request : Type 0 where
  create : ℕ → Option AuthResult → Option TwirpKeyVersion → Request
  get : Option AuthResult → Option TwirpKeyRestoreVersion → Request
  finalize : Bytes → Bytes → Option AuthResult → Option TwirpFinalizeBody → Request
  put_part : UploadRequest → Request
  fetch : Bytes → Request
  -- with the header `X-Api-Key`
  manage : Bytes → Management → Request

-- A task of the scheduler, with the fuel of its loop.
pub data Task : Type 0 where
  merges : Task
  storage_locations cache_entries uploads parts disk_pressure : ℕ → Task

pub record Config : Type 0 where
  pub service : ServiceConfig
  pub tasks : TaskConfig
  pub management_api_key : Bytes

module _ {S : Type 0} (adapter : Adapter S) (cfg : Config) where
  -- `registerManagement`: what the route of the request does, with the header `X-Api-Key`.
  unfoldable pub manage_with : Bytes → Management → Action (World S) Response
  manage_with header docs = mgmt_docs_html
  manage_with header docs_spec = mgmt_docs_spec cfg.service.api_base_url
  manage_with header (match_entry r) = mgmt_auth cfg.management_api_key header (mgmt_match r)
  manage_with header (get_entry id) = mgmt_auth cfg.management_api_key header (mgmt_get_entry id)
  manage_with header (list_entries page items f) =
      mgmt_auth cfg.management_api_key header (mgmt_list_entries page items f)
  manage_with header (delete_entry id) =
      mgmt_auth cfg.management_api_key header (mgmt_delete_entry id)
  manage_with header (delete_entries f) =
      mgmt_auth cfg.management_api_key header (mgmt_delete_entries f)
  manage_with header (get_location id) =
      mgmt_auth cfg.management_api_key header (mgmt_get_location id)
  manage_with header (delete_location id) =
      mgmt_auth cfg.management_api_key header (mgmt_delete_location adapter id)

  -- `NewHandler`, without the routes that touch no state.
  unfoldable pub serve : Request → Action (World S) Response
  serve (create n auth body) = twirp_create adapter cfg.service (numeric_id n) auth body
  serve (get auth body) = twirp_get adapter cfg.service auth body
  serve (finalize loc_id new_entry_id auth body) =
      twirp_finalize adapter cfg.service loc_id new_entry_id auth body
  serve (put_part r) = upload_handler adapter r
  serve (fetch id) = download_handler adapter id
  serve (manage header m) = manage_with header m

  -- The state that a task leaves.
  unfoldable pub run_task : Task → World S → World S
  run_task merges w = (cleanup_merges adapter cfg.tasks w).1
  run_task (storage_locations fuel) w = (cleanup_storage_locations adapter cfg.tasks fuel w).1
  run_task (cache_entries fuel) w = (cleanup_cache_entries adapter cfg.tasks fuel w).1
  run_task (uploads fuel) w = (cleanup_uploads adapter cfg.tasks fuel w).1
  run_task (parts fuel) w = (cleanup_parts adapter cfg.tasks fuel w).1
  run_task (disk_pressure fuel) w = (cleanup_disk_pressure adapter cfg.tasks fuel w).1

  pub data Step (w : World S) : World S → Type 0 where
    request : (r : Request) → Step w (serve r w).1
    task : (t : Task) → Step w (run_task t w)
    job :
        (before after : List Job) (j : Job)
        → w.jobs ≡ before ++ j ∷ after
        → Step w (run_job adapter j (record w { jobs = before ++ after })).1
    -- time goes on, other statements will fail, and the store may lose or gain objects
    environment :
        (clock : ℕ) (faults : List Bool) (store : S)
        → w.clock ≤ clock
        → Step w (record w { clock = clock; db = record w.db { faults = faults }; store = store })

  pub data Reach (w : World S) : World S → Type 0 where
    here : Reach w w
    next : {v u : World S} → Reach w v → Step v u → Reach w u

-- The tables after the migration `0_init`.
abbrev pub empty_db : Driver → Db
empty_db driver = record {
  driver = driver;
  uploads = [];
  locations = [];
  entries = [];
  faults = [];
}

abbrev pub start : {S : Type 0} → Driver → S → ℕ → World S
start driver store clock = record {
  db = empty_db driver;
  store = store;
  clock = clock;
  merges = [];
  jobs = [];
}
