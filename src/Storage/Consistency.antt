-- ===== src/Storage/Consistency.antt =====
-- internal/storage/service.go: the keys and the reference of the schema across the steps of
-- `CompleteUpload`.
use gha_cache_server.Base.{Bytes}
use gha_cache_server.Action.{Error, Action}
use gha_cache_server.Action.Keeps.{Keeps, Keeps-pure, Keeps-bind, Keeps-if_nil, keeps_rules}
use gha_cache_server.Db.Models.{Upload}
use gha_cache_server.Db.State.{Db}
use gha_cache_server.Db.Integrity.{IsConsistent}
use gha_cache_server.Db.Integrity.Uploads.{upload_rules}
use gha_cache_server.Db.Integrity.Locations.{location_rules}
use gha_cache_server.Db.Integrity.Entries.{entry_rules}
use gha_cache_server.Storage.Adapter.{Adapter}
use gha_cache_server.Storage.World.{World, query, storing, now}
use gha_cache_server.Storage.Upload.{reject, check_parts, publish}

abbrev pub HasConsistentDb : {S : Type 0} → World S → Type 0
HasConsistentDb w = IsConsistent w.db

module _ {S A : Type 0} where
  pub Keeps-consistent :
      (m : Action Db A) → Keeps IsConsistent m → Keeps (HasConsistentDb {S = S}) (query m)
  unfolding query
  Keeps-consistent m k = record { from = λ w h. k.from w.db h }

  pub Keeps-storing : (m : Action S A) → Keeps (HasConsistentDb {S = S}) (storing m)
  unfolding storing
  Keeps-storing m = record { from = λ w h. h }

module _ {S : Type 0} where
  pub Keeps-now : Keeps (HasConsistentDb {S = S}) now
  unfolding now
  Keeps-now = record { from = λ w h. h }

pub ruleset consistent_rules = (
  keeps_rules, upload_rules, location_rules, entry_rules, Keeps-consistent, Keeps-storing,
  Keeps-now,
)

module _ {S : Type 0} (adapter : Adapter S) where
  reject-IsConsistent : (u : Upload) (e : Error) → Keeps HasConsistentDb (reject adapter u e)
  unfolding reject
  reject-IsConsistent u e = search consistent_rules depth 12

  pub check_parts-IsConsistent : (u : Upload) → Keeps HasConsistentDb (check_parts adapter u)
  unfolding check_parts
  check_parts-IsConsistent u = search (consistent_rules, reject-IsConsistent) depth 12

  pub publish-IsConsistent :
      (loc_id entry_id key version scope repo_id : Bytes)
      → Keeps HasConsistentDb (publish adapter loc_id entry_id key version scope repo_id)
  unfolding publish
  publish-IsConsistent loc_id entry_id key version scope repo_id = search consistent_rules depth 12
