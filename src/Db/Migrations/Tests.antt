-- ===== src/Db/Migrations/Tests.antt =====
-- Runs of the migrations.
use gha_cache_server.Base.{◌≡◌, refl, true, false, none, some, List, [], ◌∷◌, Bool, codes, bytes_eq}
use gha_cache_server.Action.{Error, ok, err, driver_failed, ◌>>=◌}
use gha_cache_server.Db.Migrations.{sqlite, Catalog, has_relation, or_no_rows, migrate, m0_init}
use gha_cache_server.Db.Migrations.Runs.{IsSame, migrate-stuck}
use gha_cache_server.Db.Migrations.Again.{migrate-again}

abbrev new_with : List Bool → Catalog
new_with faults = record { driver = sqlite; relations = []; migrated = none; faults = faults }

first_run : (migrate (new_with [])).0 ≡ ok tt
unfolding migrate m0_init bytes_eq ◌>>=◌
first_run = refl

first_run_quiet : (migrate (new_with [])).1.faults ≡ []
unfolding migrate m0_init bytes_eq ◌>>=◌
first_run_quiet = refl

migrate-again_example : migrate (migrate (new_with [])).1 ≡ (ok tt, (migrate (new_with [])).1)
migrate-again_example = migrate-again (new_with []) first_run first_run_quiet

-- The fourth statement, which creates the second table, fails.
abbrev half_made : Catalog
half_made = record {
  driver = sqlite;
  relations = codes "storage_locations" ∷ [];
  migrated = some [];
  faults = [];
}

interrupted :
    migrate (new_with (false ∷ false ∷ false ∷ true ∷ [])) ≡ (err driver_failed, half_made)
unfolding migrate m0_init bytes_eq ◌>>=◌
interrupted = refl

table_there : has_relation (codes "storage_locations") half_made.relations ≡ true
unfolding has_relation bytes_eq
table_there = refl

not_recorded : has_relation (codes "0_init") (or_no_rows half_made.migrated) ≡ false
unfolding has_relation bytes_eq
not_recorded = refl

migrate-stuck_example :
    (e : Error) × (c' : Catalog) × (migrate half_made ≡ (err e, c')) × IsSame half_made c'
migrate-stuck_example = migrate-stuck half_made table_there not_recorded
