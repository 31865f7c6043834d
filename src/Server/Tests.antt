-- ===== src/Server/Tests.antt =====
-- A restore request that is answered by a prefix.
use gha_cache_server.Base.{◌≡◌, refl, false, Option, some, [], ◌∷◌, codes, bytes_eq}
use gha_cache_server.Base.Int.{pos}
use gha_cache_server.Action.{Result, ok, if_nil, handle, ◌>>=◌}
use gha_cache_server.Auth.Scopes.{scopes_by_permission_desc, sort_scopes, sort_rounds}
use gha_cache_server.Db.Models.{CacheEntry}
use gha_cache_server.Db.Like.{escape_like, like_from, like}
use gha_cache_server.Db.Sql.{select, order_by, insert_sorted}
use gha_cache_server.Db.State.{postgres, statement, like_fold}
use gha_cache_server.Db.Queries.{find_exact_cache_entry, find_prefixed_cache_entry}
use gha_cache_server.Storage.World.{ServiceConfig, World, query}
use gha_cache_server.Storage.Memory.{Objects, memory}
use gha_cache_server.Storage.Upload.{new_entry, new_location}
use gha_cache_server.Storage.Match.{
  match_key, match_restore, match_scopes, match_keys, match_cache_entry, resolve,
  get_cache_entry_with_download_url,
}
use gha_cache_server.Server.Http.{AuthResult, Response, respond, download_url}
use gha_cache_server.Server.Twirp.{TwirpKeyRestoreVersion, twirp_get}
use gha_cache_server.Server.Restoring.{IsRestorable, twirp_get-IsRestorable}

abbrev cfg : ServiceConfig
cfg = record { api_base_url = codes "http://cache"; enable_direct_downloads = false }

abbrev token : Option AuthResult
token = some (record {
  repo_id = codes "1";
  scopes = record { scope = codes "main"; permission = pos 3 } ∷ [];
})

abbrev world : World Objects
world = record {
  db = record {
    driver = postgres;
    uploads = [];
    locations = new_location (codes "l") (codes "7") 1 ∷ [];
    entries =
        new_entry (codes "e") (codes "go") (codes "v1") (codes "main") (codes "1") 10 (codes "l")
        ∷ [];
    faults = [];
  };
  store = [];
  clock = 40;
  merges = [];
  jobs = [];
}

abbrev restore_body : TwirpKeyRestoreVersion
restore_body = record { key = codes "g"; restore_keys = []; version = codes "v1" }

abbrev get_response : Result Response × World Objects
get_response = twirp_get memory cfg token (some restore_body) world

get_response-run :
    get_response.0 ≡ ok (respond 200 (download_url (codes "http://cache/download/e") (codes "go")))
unfolding twirp_get if_nil handle get_cache_entry_with_download_url ◌>>=◌ match_cache_entry
    match_keys match_scopes match_key match_restore scopes_by_permission_desc sort_scopes
    sort_rounds query find_exact_cache_entry find_prefixed_cache_entry statement select order_by
    insert_sorted bytes_eq like like_from escape_like resolve like_fold
get_response-run = refl

twirp_get-IsRestorable_example :
    (res : AuthResult) × (body : TwirpKeyRestoreVersion) × (e : CacheEntry) × (token ≡ some res)
    × (some restore_body ≡ some body)
    × IsRestorable world.db res body.version (codes "go") e
twirp_get-IsRestorable_example =
    twirp_get-IsRestorable memory cfg token (some restore_body) world
      (respond 200 (download_url (codes "http://cache/download/e") (codes "go")))
      (codes "http://cache/download/e") (codes "go") get_response-run refl
