-- ===== src/Storage/Filesystem.antt =====
-- internal/storage/filesystem.go and filesystem_diskstat_unix.go: the adapter that keeps the objects
-- as files below a directory, which is given by the names of its absolute path.
pub mod Paths
pub mod Files
pub mod Changes
pub mod Objects
mod Tests
use gha_cache_server.Base.{ℕ, ◌*◌, Option, none, some, List, [], ◌∷◌, length, Bytes}
use gha_cache_server.Base.Int.{ℤ, wrap_int64}
use gha_cache_server.Action.{
  Error, object_not_found, storage_failed, Action, pure, fail, gets, if_nil, ◌>>=◌, ◌>>◌,
}
use gha_cache_server.Storage.Adapter.{Stream, Adapter}
use gha_cache_server.Storage.Filesystem.Paths.{safe}
use gha_cache_server.Storage.Filesystem.Files.{
  Tree, file, directory, Entries, Disk, count_files, mkdir_all, write_file, remove_all, open_path,
  read_directory, call,
}

-- `filepath.Dir` of a path of names; that of the root is the root.
abbrev pub parent : List Bytes → List Bytes
parent [] = []
parent (x ∷ []) = []
parent (x ∷ y ∷ p) = x ∷ parent (y ∷ p)

-- What is read of an open file; to read a directory is an error.
abbrev pub stream_of : Tree → Stream
stream_of (file b) = record { content = b; broken = none }
stream_of (directory es) = record { content = []; broken = some storage_failed }

-- `io.Copy` ends with the error of the reader, if it has one.
abbrev pub end_of_copy : Option Error → Action Disk (Unit {0})
end_of_copy none = pure tt
end_of_copy (some e) = fail e

module _ (root : List Bytes) where
  -- The path of `safe`, whose error is returned as it is.
  unfoldable pub with_safe : {A : Type 0} → Bytes → (List Bytes → Action Disk A) → Action Disk A
  unfolding if_nil
  with_safe name m = if_nil (safe root name) (fail storage_failed) m

  unfoldable pub create_download_stream : Bytes → Action Disk Stream
  unfolding with_safe
  create_download_stream name =
      with_safe name
        λ p. do o ← open_path p; if_nil o (fail object_not_found) λ t. pure (stream_of t)

  unfoldable pub upload_stream : Bytes → Stream → Action Disk (Unit {0})
  unfolding with_safe
  upload_stream name body = with_safe name λ p. do
    mkdir_all (parent p)
    write_file p []
    write_file p body.content
    end_of_copy body.broken
    call

  unfoldable pub delete_folder : Bytes → Action Disk (Unit {0})
  unfolding with_safe
  delete_folder name = with_safe name remove_all

  unfoldable pub count_files_in_folder : Bytes → Action Disk ℕ
  unfolding with_safe count_files
  count_files_in_folder name =
      with_safe name λ p. do o ← read_directory p; if_nil o (pure 0) λ es. pure (count_files es)

  unfoldable pub clear : Action Disk (Unit {0})
  clear = do remove_all root; mkdir_all root

  unfoldable pub open_seekable : ℕ → Bytes → Action Disk (Stream × ℕ)
  unfolding with_safe
  open_seekable modified name = with_safe name λ p. do
    o ← open_path p
    if_nil o (fail object_not_found) λ t. do call; pure (stream_of t, modified)

  unfoldable pub usable_free_bytes : Action Disk ℤ
  usable_free_bytes = do call; gets λ d. wrap_int64 (d.free_blocks * d.block_size)

  -- `modified` is the time of the last change that `f.Stat` gives.
  unfoldable pub filesystem : ℕ → Adapter Disk
  filesystem modified = record {
    create_download_stream = create_download_stream;
    upload_stream = upload_stream;
    delete_folder = delete_folder;
    count_files_in_folder = count_files_in_folder;
    create_download_url = λ name. pure none;
    clear = clear;
    open_seekable = some (open_seekable modified);
    usable_free_bytes = some usable_free_bytes;
  }
