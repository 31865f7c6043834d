-- ===== src/System/Tests.antt =====
-- A cache entry is saved and restored: the requests of one workflow run, the goroutines that they
-- start and a cleanup task, on the storage in memory.
use gha_cache_server.Base.{◌≡◌, refl, false, Option, none, some, [], ◌∷◌, codes}
use gha_cache_server.Base.Int.{pos}
use gha_cache_server.Db.State.{sqlite}
use gha_cache_server.Storage.World.{World}
use gha_cache_server.Storage.Memory.{Objects, memory, whole}
use gha_cache_server.Server.Http.{AuthResult, Response, respond, docs_page}
use gha_cache_server.Action.{ok, pure}
use gha_cache_server.Server.Management.{mgmt_docs_html}
use gha_cache_server.System.{
  Config, Request, create, finalize, put_part, manage, docs, delete_entry, manage_with, serve,
  run_task, storage_locations, start,
}
use gha_cache_server.System.Guards.{IsWithoutKey, serve-IsWithoutKey}

abbrev cfg : Config
cfg = record {
  service = record { api_base_url = codes "http://cache"; enable_direct_downloads = false };
  tasks = record {
    disable_cleanup_jobs = false;
    cache_cleanup_older_than_days = 90;
    disk_pressure_min_free_bytes = pos 0;
    disk_pressure_target_free_bytes = pos 0;
  };
  management_api_key = [];
}

abbrev token : Option AuthResult
token = some (record {
  repo_id = codes "1";
  scopes = record { scope = codes "refs/heads/main"; permission = pos 3 } ∷ [];
})

abbrev create_request : Request
create_request = create 7 token (some (record { key = codes "go"; version = codes "v1" }))

abbrev put_request : Request
put_request = put_part (record {
  upload_id = codes "1000000007";
  comp = codes "block";
  block_id = [];
  decoded_block_id = none;
  body = whole (codes "tar");
})

abbrev finalize_request : Request
finalize_request =
    finalize (codes "l") (codes "e") token
      (some (record { key = codes "go"; version = codes "v1"; size_bytes = codes "3" }))

abbrev initial : World Objects
initial = start sqlite [] 1000

abbrev created : World Objects
created = (serve memory cfg create_request initial).1

abbrev stored : World Objects
stored = (serve memory cfg put_request created).1

abbrev saved : World Objects
saved = (serve memory cfg finalize_request stored).1

abbrev cleaned : World Objects
cleaned = run_task memory cfg (storage_locations 2) saved

abbrev keyed_cfg : Config
keyed_cfg = record cfg { management_api_key = codes "secret" }

-- The wrong key.
serve-IsWithoutKey_example :
    (r : Response) × (serve memory keyed_cfg
        (manage (codes "guess") (delete_entry (codes "e")))
        saved
      ≡ (ok r, saved))
    × IsWithoutKey keyed_cfg (delete_entry (codes "e")) r
serve-IsWithoutKey_example =
    serve-IsWithoutKey memory keyed_cfg (codes "guess") saved (λ (some_key, same). absurd (cc same))
      (delete_entry (codes "e"))

unchecked_docs : serve memory keyed_cfg (manage [] docs) saved ≡ (ok (respond 200 docs_page), saved)
unfolding serve manage_with mgmt_docs_html pure
unchecked_docs = refl
