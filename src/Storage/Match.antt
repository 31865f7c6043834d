-- ===== src/Storage/Match.antt =====
-- internal/storage/service.go: `MatchCacheEntry`, `Match` and `GetCacheEntryWithDownloadURL`.
pub mod Candidates
pub mod Priority
pub mod Permitted
mod Tests
use gha_cache_server.Base.{
  ℕ, Bool, true, not, is_some, Option, none, some, List, [], ◌∷◌, ◌++◌, if◌then◌else◌, Bytes, codes,
}
use gha_cache_server.Action.{Error, no_keys, location_not_found, Action, pure, fail, if_nil, ◌>>=◌}
use gha_cache_server.Db.Models.{CacheEntry}
use gha_cache_server.Db.Queries.{
  find_exact_cache_entry, find_prefixed_cache_entry, get_storage_location,
}
use gha_cache_server.Storage.Adapter.{Adapter}
use gha_cache_server.Storage.World.{ServiceConfig, World, query, storing, merged_name}

pub data MatchType : Type 0 where
  exact_primary prefixed_primary exact_restore prefixed_restore : MatchType

pub record MatchInput : Type 0 where
  pub keys : List Bytes
  pub version : Bytes
  pub scopes : List Bytes
  pub repo_id : Bytes

pub record Match : Type 0 where
  pub entry : CacheEntry
  pub type : MatchType

abbrev pub match_of : MatchType → CacheEntry → Match
match_of type e = record { entry = e; type = type }

module _ {S : Type 0} where
  -- What the loop does for one key in one scope, with the types for an exact and a prefixed match.
  unfoldable pub match_key :
      MatchType → MatchType → Bytes → Bytes → Bytes → Bytes → Action (World S) (Option Match)
  match_key exact prefixed key version scope repo_id = do
    e ← query (find_exact_cache_entry key version scope repo_id)
    if_nil e
        (do
          e ← query (find_prefixed_cache_entry key version scope repo_id)
          if_nil e (pure none) λ e. pure (some (match_of prefixed e)))
        λ e. pure (some (match_of exact e))

  -- The inner loop, over the restore keys.
  unfoldable pub match_restore :
      List Bytes → Bytes → Bytes → Bytes → Action (World S) (Option Match)
  match_restore [] version scope repo_id = pure none
  match_restore (k ∷ restore) version scope repo_id = do
    m ← match_key exact_restore prefixed_restore k version scope repo_id
    if_nil m (match_restore restore version scope repo_id) λ m. pure (some m)

  -- The outer loop, over the scopes.
  unfoldable pub match_scopes :
      Bytes → List Bytes → Bytes → List Bytes → Bytes → Action (World S) (Option Match)
  match_scopes primary restore version [] repo_id = pure none
  match_scopes primary restore version (scope ∷ scopes) repo_id = do
    m ← match_key exact_primary prefixed_primary primary version scope repo_id
    if_nil m
        (do
          m ← match_restore restore version scope repo_id
          if_nil m (match_scopes primary restore version scopes repo_id) λ m. pure (some m))
        λ m. pure (some m)

  unfoldable pub match_keys : List Bytes → MatchInput → Action (World S) (Option Match)
  match_keys [] input = fail no_keys
  match_keys (primary ∷ restore) input =
      match_scopes primary restore input.version input.scopes input.repo_id

  -- `MatchCacheEntry`
  unfoldable pub match_cache_entry : MatchInput → Action (World S) (Option Match)
  match_cache_entry input = match_keys input.keys input

  -- `Match`
  unfoldable pub match_one : Bytes → Bytes → Bytes → Bytes → Action (World S) (Option Match)
  match_one key version scope repo_id =
      match_cache_entry
        (record { keys = key ∷ []; version = version; scopes = scope ∷ []; repo_id = repo_id })

pub record ResolvedDownload : Type 0 where
  pub entry : CacheEntry
  pub download_url : Bytes

module _ {S : Type 0} (adapter : Adapter S) (cfg : ServiceConfig) where
  abbrev pub resolved : CacheEntry → Bytes → Option ResolvedDownload
  resolved e url = some (record { entry = e; download_url = url })

  abbrev pub default_url : CacheEntry → Bytes
  default_url e = cfg.api_base_url ++ codes "/download/" ++ e.id

  -- The URL of a matched entry.
  unfoldable pub resolve : CacheEntry → Action (World S) (Option ResolvedDownload)
  resolve e = if not cfg.enable_direct_downloads then pure (resolved e (default_url e)) else do
    found ← query (get_storage_location e.location_id)
    if_nil found (fail location_not_found) λ loc.
        if not (is_some loc.merged_at) then pure (resolved e (default_url e)) else do
          url ← storing (adapter.create_download_url (merged_name loc.folder_name))
          if_nil url (pure (resolved e (default_url e))) λ url. pure (resolved e url)

  -- `GetCacheEntryWithDownloadURL`
  unfoldable pub get_cache_entry_with_download_url :
      MatchInput → Action (World S) (Option ResolvedDownload)
  get_cache_entry_with_download_url input = do
    m ← match_cache_entry input
    if_nil m (pure none) λ m. resolve m.entry
