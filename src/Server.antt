-- ===== src/Server.antt =====
-- internal/server: the HTTP handlers. Each runs on the world of the service and answers with a
-- status and a body; what `net/http` and `encoding/json` make of it on the wire is not modelled.
pub mod Http
pub mod Twirp
pub mod BlockId
pub mod Files
pub mod Management
mod Tests
pub mod Bearer
pub mod Restoring
pub mod Access
pub mod Publishing
pub mod Integrity
