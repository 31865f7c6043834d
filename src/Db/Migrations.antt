-- ===== src/Db/Migrations.antt =====
-- internal/db/migrations.go: the migrations over the catalog of a database. Every statement may fail,
-- and one that creates what is there already does. The texts of the statements are left out, and
-- with them whether a database takes their quotes.
pub mod Runs
pub mod Again
mod Tests
use gha_cache_server.Base.{
  ℕ, Bool, true, false, Option, none, some, List, [], ◌∷◌, ◌++◌, if◌then◌else◌, Bytes, codes,
  bytes_eq,
}
use gha_cache_server.Action.{err, ok, driver_failed, duplicate_key, Action, pure, gets, ◌>>=◌, ◌>>◌}
use gha_cache_server.Db.Sql.{exists}

-- The three drivers of internal/db/db.go.
pub data Dialect : Type 0 where
  sqlite : Dialect
  postgres : Dialect
  my_sql : Dialect

pub data ColumnType : Type 0 where
  text : ColumnType
  varchar : ℕ → ColumnType

unfoldable pub id_type : Dialect → ColumnType
id_type my_sql = varchar 36
id_type _ = text

unfoldable pub text_type : Dialect → ℕ → ColumnType
text_type my_sql max = varchar max
text_type _ max = text

-- The statements of `m0Init`, with the types that they are formatted with.
pub data Ddl : Type 0 where
  create_storage_locations : ColumnType → Ddl
  create_cache_entries : ColumnType → ColumnType → ColumnType → ColumnType → ColumnType → Ddl
  create_uploads : ColumnType → ColumnType → ColumnType → ColumnType → Ddl
  create_index : Bytes → Ddl

-- The table or index that the statement creates.
abbrev pub created : Ddl → Bytes
created (create_storage_locations id) = codes "storage_locations"
created (create_cache_entries id key version scope repo) = codes "cache_entries"
created (create_uploads key version scope repo) = codes "uploads"
created (create_index name) = name

unfoldable pub m0_init : Dialect → List Ddl
unfolding id_type text_type
m0_init d =
    create_storage_locations (id_type d)
    ∷ create_cache_entries (id_type d) (text_type d 512) (text_type d 255) (text_type d 255)
        (text_type d 255)
    ∷ create_uploads (text_type d 512) (text_type d 255) (text_type d 255) (text_type d 255)
    ∷ create_index (codes "idx_cache_entries_key_version")
    ∷ create_index (codes "idx_cache_entries_scope")
    ∷ create_index (codes "idx_cache_entries_repoId")
    ∷ create_index (codes "idx_uploads_key_version")
    ∷ create_index (codes "idx_uploads_scope")
    ∷ create_index (codes "idx_uploads_repoId")
    ∷ []

-- The tables and indexes that there are, and the rows of `_migrations`, if that table is there.
pub record Catalog : Type 0 where
  pub driver : Dialect
  pub relations : List Bytes
  pub migrated : Option (List Bytes)
  pub faults : List Bool

module _ {A : Type 0} where
  abbrev pub run_on : List Bool → Action Catalog A → Action Catalog A
  run_on [] m c = m c
  run_on (true ∷ fs) m c = (err driver_failed, record c { faults = fs })
  run_on (false ∷ fs) m c = m (record c { faults = fs })

  unfoldable pub execute : Action Catalog A → Action Catalog A
  execute m c = run_on c.faults m c

unfoldable pub has_relation : Bytes → List Bytes → Bool
unfolding exists
has_relation name names = exists (λ n. bytes_eq n name) names

abbrev pub or_no_rows : Option (List Bytes) → List Bytes
or_no_rows none = []
or_no_rows (some rows) = rows

-- `CREATE TABLE IF NOT EXISTS _migrations …`
unfoldable pub ensure_migrations_table : Action Catalog (Unit {0})
unfolding execute
ensure_migrations_table = execute λ c. (ok tt, record c { migrated = some (or_no_rows c.migrated) })

abbrev pub applied_rows : Option (List Bytes) → Action Catalog (List Bytes)
applied_rows none c = (err driver_failed, c)
applied_rows (some rows) c = (ok rows, c)

unfoldable pub load_applied : Action Catalog (List Bytes)
unfolding execute
load_applied = execute λ c. applied_rows c.migrated c

abbrev pub create_new : Bool → Bytes → Action Catalog (Unit {0})
create_new true name c = (err driver_failed, c)
create_new false name c = (ok tt, record c { relations = c.relations ++ name ∷ [] })

unfoldable pub create : Ddl → Action Catalog (Unit {0})
unfolding execute has_relation
create statement =
    execute λ c. create_new (has_relation (created statement) c.relations) (created statement) c

-- The loop of `m0Init`.
unfoldable pub create_all : List Ddl → Action Catalog (Unit {0})
unfolding create
create_all [] = pure tt
create_all (statement ∷ rest) = do create statement; create_all rest

abbrev pub insert_row : Bool → Bytes → List Bytes → Action Catalog (Unit {0})
insert_row true name rows c = (err duplicate_key, c)
insert_row false name rows c = (ok tt, record c { migrated = some (rows ++ name ∷ []) })

abbrev pub insert_rows : Option (List Bytes) → Bytes → Action Catalog (Unit {0})
insert_rows none name c = (err driver_failed, c)
insert_rows (some rows) name c = insert_row (has_relation name rows) name rows c

unfoldable pub record_migration : Bytes → Action Catalog (Unit {0})
unfolding execute has_relation
record_migration name = execute λ c. insert_rows c.migrated name c

pub record Migration : Type 0 where
  pub name : Bytes
  pub statements : Dialect → List Ddl

abbrev pub migrations : List Migration
migrations = record { name = codes "0_init"; statements = m0_init } ∷ []

-- The loop of `Migrate`.
unfoldable pub run_migrations : List Bytes → List Migration → Action Catalog (Unit {0})
unfolding create_all record_migration has_relation
run_migrations applied [] = pure tt
run_migrations applied (m ∷ rest) =
    let others = run_migrations applied rest in
    if has_relation m.name applied then others else (do
      driver ← gets λ c. c.driver
      create_all (m.statements driver)
      record_migration m.name
      others)

unfoldable pub migrate : Action Catalog (Unit {0})
unfolding ensure_migrations_table load_applied run_migrations
migrate = do ensure_migrations_table; applied ← load_applied; run_migrations applied migrations
