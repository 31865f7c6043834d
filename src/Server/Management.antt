-- ===== src/Server/Management.antt =====
-- internal/server/management.go: the management API.
use gha_cache_server.Base.{
  ℕ, ◌-◌, ◌*◌, ◌%◌, ◌^◌, Bool, not, ◌||◌, List, [], ◌∷◌, ltb, if◌then◌else◌, Bytes, codes, bytes_eq,
  is_empty,
}
use gha_cache_server.Base.Int.{ℤ, pos, negsuc, ltb_ℤ}
use gha_cache_server.Base.Decimal.{Parsed, number, syntax, range, parse_int}
use gha_cache_server.Action.{Action, pure, handle, attempt, if_nil, ◌>>◌}
use gha_cache_server.Db.Queries.{
  CacheEntryFilter, get_cache_entry, list_cache_entries, delete_cache_entry, delete_cache_entries,
  get_storage_location, delete_storage_location,
}
use gha_cache_server.Storage.Adapter.{Adapter}
use gha_cache_server.Storage.World.{World, query, storing}
use gha_cache_server.Storage.Match.{match_cache_entry}
use gha_cache_server.Server.Http.{
  literal, of_error, no_body, plain, error_body, entry_body, location_body, listing, deleted,
  match_body, docs_page, api_spec, Response, respond,
}

-- The value of `strconv.Atoi` where its error is dropped.
abbrev pub atoi_value : Parsed → ℤ
atoi_value (number n) = n
atoi_value syntax = pos 0
atoi_value (range n) = n

abbrev pub nat_part : ℤ → ℕ
nat_part (pos n) = n
nat_part (negsuc n) = 0

-- `page`, at least 1, and `itemsPerPage`, 20 if it is not one of 1 to 100.
unfoldable pub page_number : Bytes → ℕ
page_number s =
    let page = atoi_value (parse_int s) in if ltb_ℤ page (pos 1) then 1 else nat_part page

unfoldable pub items_per_page : Bytes → ℕ
items_per_page s =
    let ipp = atoi_value (parse_int s) in
    if ltb_ℤ ipp (pos 1) || ltb_ℤ (pos 100) ipp then 20 else nat_part ipp

-- An `int` of 64 bits by its bit pattern.
abbrev pub wrap_int64 : ℕ → ℤ
wrap_int64 n =
    let bits = n % 2 ^ 64 in if ltb bits (2 ^ 63) then pos bits else negsuc (2 ^ 64 - bits - 1)

-- `(page-1)*ipp`
unfoldable pub page_offset : ℕ → ℕ → ℤ
page_offset page ipp = wrap_int64 ((page - 1) * ipp)

pub record MatchRequest : Type 0 where
  pub primary_key : Bytes
  pub version : Bytes
  pub repo_id : Bytes
  pub scopes : List Bytes
  pub restore_keys : List Bytes

abbrev pub is_none_given : List Bytes → Bool
is_none_given [] = Bool.true
is_none_given (s ∷ scopes) = Bool.false

module _ {S : Type 0} where
  -- `mgmtAuth`, with the configured key and the header `X-Api-Key`.
  unfoldable pub mgmt_auth : Bytes → Bytes → Action (World S) Response → Action (World S) Response
  mgmt_auth key header h =
      if is_empty key
      then pure (respond 503 (plain (literal (codes "management api disabled"))))
      else if not (bytes_eq header key)
      then pure (respond 401 (plain (literal (codes "unauthorized"))))
      else h

  -- `mgmtDocsHTML` and `mgmtDocsSpec`, with the base URL of the configuration.
  unfoldable pub mgmt_docs_html : Action (World S) Response
  mgmt_docs_html = pure (respond 200 docs_page)

  unfoldable pub mgmt_docs_spec : Bytes → Action (World S) Response
  mgmt_docs_spec api_base_url = pure (respond 200 (api_spec api_base_url))

  -- `mgmtGetEntry`
  unfoldable pub mgmt_get_entry : Bytes → Action (World S) Response
  mgmt_get_entry id =
      handle (query (get_cache_entry id))
        (λ e.
          if_nil e (pure (respond 404 (error_body (codes "Cache entry not found"))))
            λ e. pure (respond 200 (entry_body e)))
        (λ e. pure (respond 500 (plain (of_error e))))

  -- `mgmtListEntries`, with the query values `page` and `itemsPerPage`.
  unfoldable pub mgmt_list_entries : Bytes → Bytes → CacheEntryFilter → Action (World S) Response
  mgmt_list_entries page items f =
      let ipp = items_per_page items in
      handle (query (list_cache_entries f ipp (page_offset (page_number page) ipp)))
        (λ r. pure (respond 200 (listing r.1 r.0))) (λ e. pure (respond 500 (plain (of_error e))))

  -- `mgmtDeleteEntry`
  unfoldable pub mgmt_delete_entry : Bytes → Action (World S) Response
  mgmt_delete_entry id =
      handle (query (delete_cache_entry id)) (λ _. pure (respond 204 no_body))
        (λ e. pure (respond 500 (plain (of_error e))))

  -- `mgmtDeleteEntries`
  unfoldable pub mgmt_delete_entries : CacheEntryFilter → Action (World S) Response
  mgmt_delete_entries f =
      handle (query (delete_cache_entries f)) (λ n. pure (respond 200 (deleted n)))
        (λ e. pure (respond 500 (plain (of_error e))))

  -- `mgmtGetLocation`
  unfoldable pub mgmt_get_location : Bytes → Action (World S) Response
  mgmt_get_location id =
      handle (query (get_storage_location id))
        (λ loc.
          if_nil loc (pure (respond 404 (error_body (codes "Storage location not found"))))
            λ loc. pure (respond 200 (location_body loc)))
        (λ e. pure (respond 500 (plain (of_error e))))

  -- `mgmtMatch`
  unfoldable pub mgmt_match : MatchRequest → Action (World S) Response
  mgmt_match r =
      if is_empty r.primary_key
        || is_empty r.version
        || is_empty r.repo_id
        || is_none_given r.scopes
      then pure
          (respond 400 (plain (literal (codes "primaryKey, version, repoId, scopes required"))))
      else handle
          (match_cache_entry (record {
            keys = r.primary_key ∷ r.restore_keys;
            version = r.version;
            scopes = r.scopes;
            repo_id = r.repo_id;
          }))
          (λ m. pure (respond 200 (match_body m))) (λ e. pure (respond 500 (plain (of_error e))))

module _ {S : Type 0} (adapter : Adapter S) where
  -- `mgmtDeleteLocation`; a location that is not there is taken for deleted.
  unfoldable pub mgmt_delete_location : Bytes → Action (World S) Response
  mgmt_delete_location id =
      handle (query (get_storage_location id))
        (λ loc. if_nil loc (pure (respond 204 no_body)) λ loc.
          handle (query (delete_storage_location id))
            (λ _. do
              attempt (storing (adapter.delete_folder loc.folder_name))
              pure (respond 204 no_body))
            (λ e. pure (respond 500 (plain (of_error e)))))
        (λ e. pure (respond 500 (plain (of_error e))))
