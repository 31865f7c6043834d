-- ===== src/Storage/Adapter.antt =====
-- internal/storage/adapter.go: the interface of a storage adapter over a store of its own.
use gha_cache_server.Base.{ℕ, Option, Bytes}
use gha_cache_server.Base.Int.{ℤ}
use gha_cache_server.Action.{Error, Action}

-- An `io.Reader` by what it yields: the bytes, and the error in place of the end, if it has one.
pub record Stream : Type 0 where
  pub content : Bytes
  pub broken : Option Error

-- The optional interfaces `SeekableAdapter` and `DiskUsageReporter` are the two last fields.
pub record Adapter (S : Type 0) : Type 0 where
  pub create_download_stream : Bytes → Action S Stream
  pub upload_stream : Bytes → Stream → Action S (Unit {0})
  pub delete_folder : Bytes → Action S (Unit {0})
  pub count_files_in_folder : Bytes → Action S ℕ
  pub create_download_url : Bytes → Action S (Option Bytes)
  pub clear : Action S (Unit {0})
  pub open_seekable : Option (Bytes → Action S (Stream × ℕ))
  pub usable_free_bytes : Option (Action S ℤ)
