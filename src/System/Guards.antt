-- ===== src/System/Guards.antt =====
-- internal/server/management.go: what the management API does without the key.
use gha_cache_server.Base.{◌≡◌, ◌≢◌, refl, inl, inr, ◌⊎◌, Bool, true, false, [], Bytes}
use gha_cache_server.Action.{ok, Action, pure}
use gha_cache_server.Storage.Adapter.{Adapter}
use gha_cache_server.Storage.World.{World}
use gha_cache_server.Server.Http.{Response, respond, docs_page, api_spec}
use gha_cache_server.Server.Management.{mgmt_auth, mgmt_docs_html, mgmt_docs_spec}
use gha_cache_server.Server.Access.{mgmt_auth-guards}
use gha_cache_server.System.{
  Management, docs, docs_spec, get_entry, delete_entry, get_location, delete_location, list_entries,
  delete_entries, match_entry, manage, Config, serve, manage_with,
}

-- The two routes of the documentation.
abbrev pub is_docs : Management → Bool
is_docs docs = true
is_docs docs_spec = true
is_docs _ = false

-- The header holds the key, which is configured.
abbrev pub HasKey : Config → Bytes → Type 0
HasKey cfg header = (cfg.management_api_key ≢ []) × (header ≡ cfg.management_api_key)

-- The status of what is answered without the key.
abbrev pub IsWithoutKey : Config → Management → Response → Type 0
IsWithoutKey cfg m r =
    ((is_docs m ≡ true) × (r.status ≡ 200))
    ⊎ ((is_docs m ≡ false) × (cfg.management_api_key ≡ []) × (r.status ≡ 503))
    ⊎ ((is_docs m ≡ false) × (cfg.management_api_key ≢ []) × (r.status ≡ 401))

module _ {S : Type 0} (adapter : Adapter S) (cfg : Config) (header : Bytes) (w : World S)
    (keyless : HasKey cfg header → ⊥) where
  guarded :
      (m : Management) (h : Action (World S) Response)
      → is_docs m ≡ false
      → (r : Response) × (mgmt_auth cfg.management_api_key header h w ≡ (ok r, w))
        × IsWithoutKey cfg m r
  guarded m h closed = elim (mgmt_auth-guards cfg.management_api_key header h w) [
    | inl (some_key, same, run) ↦ absurd (keyless (some_key, same))
    | inr (r, answer, inl (no_key, status)) ↦ (r, answer, inr (inl (closed, no_key, status)))
    | inr (r, answer, inr (some_key, other, status)) ↦
        (r, answer, inr (inr (closed, some_key, status)))
  ]

  -- A request of the management API without the configured key changes nothing, on any of the
  -- routes. The two routes of the documentation answer it with 200; each other one answers 503 if no
  -- key is configured and 401 if one is.
  pub serve-IsWithoutKey :
      (m : Management)
      → (r : Response) × (serve adapter cfg (manage header m) w ≡ (ok r, w)) × IsWithoutKey cfg m r
  unfolding serve manage_with mgmt_docs_html mgmt_docs_spec pure
  serve-IsWithoutKey docs = (respond 200 docs_page, refl, inl (refl, refl))
  serve-IsWithoutKey docs_spec = (respond 200 (api_spec _), refl, inl (refl, refl))
  serve-IsWithoutKey (match_entry r) = guarded (match_entry r) _ refl
  serve-IsWithoutKey (get_entry id) = guarded (get_entry id) _ refl
  serve-IsWithoutKey (list_entries page items f) = guarded (list_entries page items f) _ refl
  serve-IsWithoutKey (delete_entry id) = guarded (delete_entry id) _ refl
  serve-IsWithoutKey (delete_entries f) = guarded (delete_entries f) _ refl
  serve-IsWithoutKey (get_location id) = guarded (get_location id) _ refl
  serve-IsWithoutKey (delete_location id) = guarded (delete_location id) _ refl
