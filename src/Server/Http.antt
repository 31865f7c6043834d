-- ===== src/Server/Http.antt =====
-- The answers of the handlers in internal/server.
use gha_cache_server.Base.{ℕ, Option, List, Bytes}
use gha_cache_server.Action.{Error}
pub use gha_cache_server.Auth.Scopes.{AuthResult}
use gha_cache_server.Db.Models.{CacheEntry, StorageLocation}
use gha_cache_server.Storage.Adapter.{Stream}
use gha_cache_server.Storage.Match.{Match}

-- A message is a text of the source, or what `err.Error()` gives.
pub data Message : Type 0 where
  literal : Bytes → Message
  of_error : Error → Message
  -- the error of `authorize`, and that of the JSON decoder
  of_authorize : Message
  of_decoder : Message

pub data Body : Type 0 where
  no_body : Body
  -- `http.Error`
  plain : Message → Body
  -- `writeTwirpErr`, with the code
  twirp_error : Bytes → Message → Body
  -- `{"ok": false, "message": …}`
  refused : Message → Body
  -- `{"ok": true, …}` with `signed_upload_url`; `signed_download_url` and `matched_key`; `entry_id`
  upload_url : Bytes → Body
  download_url : Bytes → Bytes → Body
  entry_id : Bytes → Body
  -- the bytes of a file, and what `http.ServeContent` serves
  file : Stream → Body
  content : Stream → ℕ → Body
  -- `{"error": …}` and the other answers of the management API
  error_body : Bytes → Body
  entry_body : CacheEntry → Body
  location_body : StorageLocation → Body
  listing : ℕ → List CacheEntry → Body
  deleted : ℕ → Body
  match_body : Option Match → Body
  -- the page `swaggerUIHTML`, and `openAPISpec` for the base URL
  docs_page : Body
  api_spec : Bytes → Body

pub record Response : Type 0 where
  pub status : ℕ
  pub body : Body

abbrev pub respond : ℕ → Body → Response
respond status body = record { status = status; body = body }
