-- ===== src/Storage/Download.antt =====
-- internal/storage/service.go: `Download`, the goroutines that it starts, `OpenMergedSeekable` and
-- `UsableFreeBytes`. The goroutine that streams the parts is taken to have run when `Download`
-- returns; the others wait as jobs of the world and run later, in any order.
pub mod Parts
mod Tests
use gha_cache_server.Base.{
  ℕ, zero, suc, Bool, true, false, not, is_some, Option, none, some, [], ◌∷◌, ◌++◌, ltb,
  if◌then◌else◌, Bytes, bytes_eq,
}
use gha_cache_server.Base.Int.{ℤ, pos}
use gha_cache_server.Action.{
  Error, object_not_found, insert_upload_failed, count_parts_failed, Action, pure, fail, attempt,
  handle, if_nil, modify, ◌>>=◌, ◌>>◌,
}
use gha_cache_server.Db.Models.{StorageLocation}
use gha_cache_server.Db.Sql.{delete}
use gha_cache_server.Db.Queries.{
  find_cache_entry_with_location, update_storage_last_downloaded, update_storage_merge_started,
  update_storage_merged, update_storage_parts_deleted, reset_storage_merge,
}
use gha_cache_server.Storage.Adapter.{Stream, Adapter}
use gha_cache_server.Storage.World.{
  Job, touch, merge, World, query, storing, now, spawn, parts_folder, part_name, merged_name,
}

-- `errors.Is(err, ErrObjectNotFound)`, which looks through the wrapped errors.
abbrev pub is_not_found : Error → Bool
is_not_found object_not_found = true
is_not_found (insert_upload_failed e) = is_not_found e
is_not_found (count_parts_failed e) = is_not_found e
is_not_found e = false

abbrev empty_stream : Stream
empty_stream = record { content = []; broken = none }

abbrev pub broken_stream : Error → Stream
broken_stream e = record { content = []; broken = some e }

abbrev pub append_stream : Bytes → Stream → Stream
append_stream content rest = record { content = content ++ rest.content; broken = rest.broken }

module _ {S : Type 0} where
  -- `s.merges[id] = done`, and `delete(s.merges, id)`.
  unfoldable pub register_merge : Bytes → Action (World S) (Unit {0})
  register_merge id = modify λ w. record w { merges = id ∷ delete (λ k. bytes_eq k id) w.merges }

  unfoldable pub forget_merge : Bytes → Action (World S) (Unit {0})
  forget_merge id = modify λ w. record w { merges = delete (λ k. bytes_eq k id) w.merges }

module _ {S : Type 0} (adapter : Adapter S) where
  -- `streamPartsTo`, for the parts that are left from an index on: what it writes, and the error
  -- that it ends in.
  unfoldable pub stream_parts : ℕ → ℕ → Bytes → Action S Stream
  stream_parts zero i folder = pure empty_stream
  stream_parts (suc n) i folder =
      handle (adapter.create_download_stream (part_name folder (pos i)))
        (λ r.
          if_nil r.broken
            (do rest ← stream_parts n (suc i) folder; pure (append_stream r.content rest))
            λ e. pure r)
        (λ e. pure (broken_stream e))

  -- `ensurePartsExist`
  unfoldable pub ensure_parts_exist : StorageLocation → Action (World S) (Unit {0})
  ensure_parts_exist loc = do
    n ← storing (adapter.count_files_in_folder (parts_folder loc.folder_name))
    if ltb n loc.part_count then fail object_not_found else pure tt

  -- An error that says that the object is missing is answered as a cache miss.
  unfoldable pub miss_if_not_found : {A : Type 0} → Error → Action (World S) (Option A)
  miss_if_not_found e = if is_not_found e then pure none else fail e

  -- The parts are streamed to the client and, by the job, to the merged object.
  unfoldable pub start_merge : StorageLocation → Action (World S) (Option Stream)
  start_merge loc = do
    t ← now
    query (update_storage_merge_started loc.id t)
    register_merge loc.id
    stream ← storing (stream_parts loc.part_count 0 loc.folder_name)
    spawn (merge loc stream)
    pure (some stream)

  -- What `Download` does with the location of the entry.
  unfoldable pub serve_location : StorageLocation → Action (World S) (Option Stream)
  serve_location loc =
      if is_some loc.merged_at
      then handle (storing (adapter.create_download_stream (merged_name loc.folder_name)))
          (λ r. pure (some r)) miss_if_not_found
      else if is_some loc.merge_started_at
      then (do stream ← storing (stream_parts loc.part_count 0 loc.folder_name); pure (some stream))
      else handle (ensure_parts_exist loc) (λ _. start_merge loc) miss_if_not_found

  -- `Download`; `none` if there is no such entry or its object is missing.
  unfoldable pub download : Bytes → Action (World S) (Option Stream)
  download cache_entry_id = do
    found ← query (find_cache_entry_with_location cache_entry_id)
    if_nil found (pure none) λ r. do spawn (touch r.1.id); serve_location r.1

  -- The goroutine that merges, up to its deferred calls.
  unfoldable pub merge_parts : StorageLocation → Stream → Action (World S) (Unit {0})
  merge_parts loc stream =
      handle (storing (adapter.upload_stream (merged_name loc.folder_name) stream))
        (λ _. do
          t ← now
          handle (query (update_storage_merged loc.id t))
              (λ _. do
                t' ← now
                attempt (query (update_storage_parts_deleted loc.id t'))
                attempt (storing (adapter.delete_folder (parts_folder loc.folder_name))))
              (λ e. pure tt))
        (λ e. attempt (query (reset_storage_merge loc.id)))

  unfoldable pub run_job : Job → Action (World S) (Unit {0})
  run_job (touch id) = do t ← now; attempt (query (update_storage_last_downloaded id t))
  run_job (merge loc stream) = do merge_parts loc stream; forget_merge loc.id

  -- The open merged object, of an adapter with the method.
  unfoldable pub open_with :
      (Bytes → Action S (Stream × ℕ)) → StorageLocation → Action (World S) (Option (Stream × ℕ))
  open_with open_seekable loc = do
    spawn (touch loc.id)
    handle (storing (open_seekable (merged_name loc.folder_name))) (λ r. pure (some r))
        miss_if_not_found

  -- `OpenMergedSeekable`; `none` if the merged object cannot be sought in or is not there.
  unfoldable pub open_merged_seekable : Bytes → Action (World S) (Option (Stream × ℕ))
  open_merged_seekable cache_entry_id = do
    found ← query (find_cache_entry_with_location cache_entry_id)
    if_nil found (pure none) λ r.
        if not (is_some r.1.merged_at)
        then pure none
        else if_nil adapter.open_seekable (pure none) λ open_seekable. open_with open_seekable r.1

  -- `UsableFreeBytes`; `none` if the adapter does not report the disk's usage.
  unfoldable pub usable_free_bytes : Action (World S) (Option ℤ)
  usable_free_bytes =
      if_nil adapter.usable_free_bytes (pure none) λ usable. do n ← storing usable; pure (some n)
