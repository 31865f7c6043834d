-- ===== src/Storage/World.antt =====
-- The state that a `Service` of internal/storage/service.go works on.
use gha_cache_server.Base.{ℕ, Bool, List, [], ◌∷◌, ◌++◌, Bytes, codes}
use gha_cache_server.Base.Int.{ℤ}
use gha_cache_server.Base.Decimal.{format_int}
use gha_cache_server.Action.{Action, gets, modify, zoom}
use gha_cache_server.Db.Models.{StorageLocation}
use gha_cache_server.Db.State.{Db}
use gha_cache_server.Storage.Adapter.{Stream}

pub record ServiceConfig : Type 0 where
  pub api_base_url : Bytes
  pub enable_direct_downloads : Bool

-- A goroutine that a call has started and that has still to run.
pub data Job : Type 0 where
  -- `UpdateStorageLastDownloaded`
  touch : Bytes → Job
  -- the merge of the streamed parts of a location
  merge : StorageLocation → Stream → Job

pub record World (S : Type 0) : Type 0 where
  pub db : Db
  pub store : S
  -- `time.Now().UnixMilli()`
  pub clock : ℕ
  -- the keys of the map `merges`
  pub merges : List Bytes
  pub jobs : List Job

module _ {S A : Type 0} where
  unfoldable pub query : Action Db A → Action (World S) A
  unfolding zoom
  query m = zoom (λ w. w.db) (λ d w. record w { db = d }) m

  unfoldable pub storing : Action S A → Action (World S) A
  unfolding zoom
  storing m = zoom (λ w. w.store) (λ s w. record w { store = s }) m

module _ {S : Type 0} where
  unfoldable pub now : Action (World S) ℕ
  unfolding gets
  now = gets λ w. w.clock

  -- `go func() { … }()`
  unfoldable pub spawn : Job → Action (World S) (Unit {0})
  unfolding modify
  spawn job = modify λ w. record w { jobs = w.jobs ++ job ∷ [] }

-- The names of the objects in the folder of an upload.
abbrev pub parts_folder : Bytes → Bytes
parts_folder folder = folder ++ codes "/parts"

abbrev pub part_name : Bytes → ℤ → Bytes
part_name folder index = folder ++ codes "/parts/" ++ format_int index

abbrev pub merged_name : Bytes → Bytes
merged_name folder = folder ++ codes "/merged"
