-- ===== src/Server/Bearer/Tests.antt =====
-- Requests with a token in their header, at concrete values.
use gha_cache_server.Base.{
  ◌≡◌, refl, true, false, ◌⊎◌, none, some, [], ◌∷◌, All, if◌then◌else◌, Bytes, codes, bytes_eq,
  has_prefix,
}
use gha_cache_server.Base.Decimal.{format_int, format_nat}
use gha_cache_server.Base.Int.{pos, int_eq}
use gha_cache_server.Action.{Result, ok, if_nil, handle, ◌>>=◌}
use gha_cache_server.Auth.Scopes.{write_scope, scopes_by_permission_desc, sort_scopes, sort_rounds}
use gha_cache_server.Auth.Tokens.{text, number, Claims, Tools, verify}
use gha_cache_server.Auth.Keys.{Jwk, answered, JwksFetcher, add_keys, fetch}
use gha_cache_server.Auth.Authorize.{authorize}
use gha_cache_server.Db.Models.{CacheEntry, Upload}
use gha_cache_server.Db.Like.{escape_like, like_from, like}
use gha_cache_server.Db.Sql.{select, order_by, insert_sorted, exists, join, update, delete}
use gha_cache_server.Db.State.{postgres, statement, like_fold}
use gha_cache_server.Db.Integrity.{IsConsistent}
use gha_cache_server.Db.Queries.{
  find_upload_by_key, insert_storage_location, find_existing_cache_entry_with_location,
  update_cache_entry_location, delete_storage_location, delete_upload, find_exact_cache_entry,
  find_prefixed_cache_entry,
}
use gha_cache_server.Storage.World.{ServiceConfig, World, query, storing, now}
use gha_cache_server.Storage.Memory.{Objects, memory}
use gha_cache_server.Storage.Upload.{
  new_upload, new_entry, new_location, check_parts, publish, complete_upload,
}
use gha_cache_server.Storage.Match.{
  match_key, match_restore, match_scopes, match_keys, match_cache_entry, resolve,
  get_cache_entry_with_download_url,
}
use gha_cache_server.Server.Http.{AuthResult, Response, respond, download_url}
use gha_cache_server.Server.Twirp.{
  TwirpKeyVersion, TwirpKeyRestoreVersion, TwirpFinalizeBody, twirp_get, twirp_finalize,
}
use gha_cache_server.Server.Access.{Remains, IsWritable}
use gha_cache_server.Server.Restoring.{IsRestorable}
use gha_cache_server.Server.Publishing.{IsPublishable}
use gha_cache_server.Server.Bearer.{
  finalize_cache_entry_upload, Verifier, create_cache_entry, get_cache_entry_download_url,
  with_authorization,
}
use gha_cache_server.Server.Bearer.Granted.{
  finalize_cache_entry_upload-IsBearer, IsBearer, create_cache_entry-IsBearer,
  get_cache_entry_download_url-IsBearer,
}

abbrev example_claims : Claims
example_claims name =
    if bytes_eq name (codes "iss")
    then some (text (codes "i"))
    else if bytes_eq name (codes "ac")
    then some (text (codes "a"))
    else if bytes_eq name (codes "repository_id")
    then some (number (pos 1))
    else if bytes_eq name (codes "exp")
    then some (number (pos 9))
    else none

-- Every text decodes to itself, and the signature is the text "s".
abbrev example_tools : Tools
example_tools = record {
  base64 = λ s. (s, true);
  header = λ s. some (record { alg = codes "RS256"; kid = s });
  claims = λ s. some example_claims;
  scopes = λ s. some (record { scope = codes "main"; permission = pos 3 } ∷ []);
  sha256 = λ s. s;
  rsa_verify = λ n e digest sig. bytes_eq sig (codes "s");
  ecdsa_verify = λ x y digest r s. false;
}

abbrev jwk_h : Jwk
jwk_h = record {
  kty = codes "RSA";
  kid = codes "h";
  n = 5 ∷ [];
  e = 1 ∷ 0 ∷ 1 ∷ [];
  crv = [];
  x = [];
  y = [];
}

abbrev verifier : Verifier
verifier = record {
  tools = example_tools;
  answers = λ k. answered 200 (some (jwk_h ∷ []));
  times = λ n. n;
  issuer = codes "i";
  skip_auth = false;
}

abbrev no_keys : JwksFetcher
no_keys = record { current = none; expires = 0; requests = 0; readings = 0 }

abbrev cfg : ServiceConfig
cfg = record { api_base_url = codes "http://cache"; enable_direct_downloads = false }

-- An upload of one part for the key of the entry.
abbrev upload : Upload
upload = record (new_upload (pos 6) (codes "go") (codes "v1") (codes "main") (codes "1") 10) {
  started_part_upload_count = 1;
  finished_part_upload_count = 1;
  last_part_uploaded_at = some 20;
}

abbrev world : World Objects
world = record {
  db = record {
    driver = postgres;
    uploads = upload ∷ [];
    locations = new_location (codes "l") (codes "7") 1 ∷ [];
    entries =
        new_entry (codes "e") (codes "go") (codes "v1") (codes "main") (codes "1") 10 (codes "l")
        ∷ [];
    faults = [];
  };
  store = (codes "6/parts/0", codes "new") ∷ (codes "7/parts/0", codes "old") ∷ [];
  clock = 40;
  merges = [];
  jobs = [];
}

world-IsConsistent : IsConsistent world.db
unfolding exists bytes_eq
world-IsConsistent = record {
  uploads_unique = (refl, tt);
  locations_unique = (refl, tt);
  entries_unique = (refl, tt);
  references = (refl, tt);
}

abbrev create_body : TwirpKeyVersion
create_body = record { key = codes "new"; version = codes "v1" }

abbrev restore_body : TwirpKeyRestoreVersion
restore_body = record { key = codes "g"; restore_keys = []; version = codes "v1" }

abbrev header : Bytes
header = codes "Bearer h.p.s"

abbrev get_answer : Result Response × (World Objects × JwksFetcher)
get_answer =
    get_cache_entry_download_url verifier memory cfg header (some restore_body) (world, no_keys)

get_answer-run :
    get_answer.0 ≡ ok (respond 200 (download_url (codes "http://cache/download/e") (codes "go")))
unfolding get_cache_entry_download_url with_authorization authorize fetch verify has_prefix add_keys
    format_int twirp_get if_nil handle get_cache_entry_with_download_url ◌>>=◌ match_cache_entry
    match_keys match_scopes match_key match_restore scopes_by_permission_desc sort_scopes
    sort_rounds query find_exact_cache_entry find_prefixed_cache_entry statement select order_by
    insert_sorted bytes_eq like like_from escape_like resolve like_fold
get_answer-run = refl

get_cache_entry_download_url-IsBearer_example :
    (res : AuthResult) × (body : TwirpKeyRestoreVersion) × (e : CacheEntry) × IsBearer verifier
      header get_answer.1.1 res
    × (some restore_body ≡ some body)
    × IsRestorable world.db res body.version (codes "go") e
get_cache_entry_download_url-IsBearer_example =
    get_cache_entry_download_url-IsBearer verifier memory cfg header (some restore_body) world
      no_keys (respond 200 (download_url (codes "http://cache/download/e") (codes "go")))
      (codes "http://cache/download/e") (codes "go") tt get_answer-run refl

create_cache_entry-IsBearer_example :
    let (w, f) =
      (create_cache_entry verifier memory cfg
        (pos 7)
        header
        (some create_body)
        (world, no_keys)).1 in
    All
      (λ u.
        Remains u world.db.uploads
        ⊎ ((res : AuthResult) × IsBearer verifier header f res × IsWritable (some res) u))
      w.db.uploads
create_cache_entry-IsBearer_example =
    create_cache_entry-IsBearer verifier memory cfg (pos 7) header (some create_body) world no_keys
      tt

abbrev finalize_body : TwirpFinalizeBody
finalize_body = record { key = codes "go"; version = codes "v1"; size_bytes = codes "3" }

abbrev finalized : World Objects × JwksFetcher
finalized =
    (finalize_cache_entry_upload verifier memory cfg (codes "m") (codes "f") header
      (some finalize_body) (world, no_keys)).1

finalized-run :
    finalized.0.db.entries
    ≡ new_entry (codes "e") (codes "go") (codes "v1") (codes "main") (codes "1") 40 (codes "m") ∷ []
unfolding finalize_cache_entry_upload with_authorization authorize fetch verify has_prefix add_keys
    format_int format_nat twirp_finalize if_nil handle complete_upload ◌>>=◌ query
    find_upload_by_key statement select bytes_eq check_parts storing insert_storage_location exists
    publish find_existing_cache_entry_with_location now join update_cache_entry_location
    delete_storage_location delete_upload delete update int_eq write_scope
finalized-run = refl

finalize_cache_entry_upload-IsBearer_example :
    All
      (λ e.
        Remains e world.db.entries
        ⊎ ((res : AuthResult) × IsBearer verifier header finalized.1 res
            × IsPublishable (some res) (some finalize_body) e))
      finalized.0.db.entries
finalize_cache_entry_upload-IsBearer_example =
    finalize_cache_entry_upload-IsBearer verifier memory cfg (codes "m") (codes "f") header
      (some finalize_body) world no_keys tt world-IsConsistent
