-- ===== src/Storage.antt =====
-- internal/storage: the adapter interface and the service over it and the database.
pub mod Adapter
pub mod World
pub mod Memory
pub mod Filesystem
pub mod Net
pub mod S3
pub mod SigV4
pub mod Gcs
pub mod Reads
pub mod Upload
pub mod Tables
pub mod Completion
pub mod Publication
pub mod Match
pub mod Download
pub mod Consistency
pub mod Soundness
pub mod Integrity
