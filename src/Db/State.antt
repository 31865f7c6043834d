-- ===== src/Db/State.antt =====
-- The database behind `Queries`, and the running of one statement. Every statement may fail, as a
-- connection may be lost or a context cancelled: the faults to come are a part of the state, one
-- flag for each statement, and there are none behind the end of the list. A statement that fails
-- changes no row.
use gha_cache_server.Base.{ℕ, ◌+◌, Bool, true, false, ◌&&◌, List, [], ◌∷◌, leb, if◌then◌else◌}
use gha_cache_server.Action.{err, driver_failed, Action}
use gha_cache_server.Db.Models.{CacheEntry, StorageLocation, Upload}

-- `Driver` of internal/db/db.go. The statements are not in the dialect of the third, MySQL.
pub data Driver : Type 0 where
  sqlite : Driver
  postgres : Driver

pub record Db : Type 0 where
  pub driver : Driver
  pub uploads : List Upload
  pub locations : List StorageLocation
  pub entries : List CacheEntry
  pub faults : List Bool

-- How `LIKE` compares two bytes: SQLite folds the upper case letters of ASCII.
unfoldable pub like_fold : Driver → ℕ → ℕ
like_fold sqlite c = if leb b'A' c && leb c b'Z' then c + 32 else c
like_fold postgres c = c

module _ {A : Type 0} where
  abbrev pub run_statement : List Bool → Action Db A → Action Db A
  run_statement [] m d = m d
  run_statement (true ∷ fs) m d = (err driver_failed, record d { faults = fs })
  run_statement (false ∷ fs) m d = m (record d { faults = fs })

  -- `q.d.ExecContext`, `q.d.QueryRowContext` and `q.d.QueryContext` with the scan of its rows.
  unfoldable pub statement : Action Db A → Action Db A
  statement m d = run_statement d.faults m d
