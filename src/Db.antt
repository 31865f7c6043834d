-- ===== src/Db.antt =====
-- internal/db: the rows, the statements over them and the state that they change.
pub mod Migrations
pub mod Like
pub mod Models
pub mod Sql
pub mod State
pub mod Queries
pub mod Integrity
pub mod Newest
