-- ===== src/Db/Queries.antt =====
-- The methods of `Queries` in internal/db/queries.go, one statement each; the children hold those
-- of one table each.
pub mod Uploads
pub mod Locations
pub mod Entries
unfoldable pub use Uploads.*
unfoldable pub use Locations.*
unfoldable pub use Entries.*
