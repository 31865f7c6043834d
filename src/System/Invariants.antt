-- ===== src/System/Invariants.antt =====
-- What holds in every state that the server reaches.
use gha_cache_server.Action.Keeps.{Keeps}
use gha_cache_server.Storage.Adapter.{Adapter}
use gha_cache_server.Storage.World.{World}
use gha_cache_server.System.{Management}
