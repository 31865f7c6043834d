-- ===== src/Db/Migrations/Runs.antt =====
-- internal/db/migrations.go: what a later run of `Migrate` does.
use gha_cache_server.Base.{
  ◌≡◌, refl, ap, ◌∙◌, ◌⊎◌, inl, inr, Bool, true, false, some, List, [], ◌∷◌, Bytes, codes,
}
use gha_cache_server.Action.{Error, ok, err, driver_failed, Action, pure, gets, ◌>>=◌}
use gha_cache_server.Action.Laws.{bind-ok, bind-err}
use gha_cache_server.Db.Migrations.{
  ColumnType, id_type, create_storage_locations, m0_init, Catalog, run_on, execute, has_relation,
  or_no_rows, ensure_migrations_table, applied_rows, load_applied, create_new, create, create_all,
  record_migration, migrations, run_migrations, migrate,
}

abbrev pub fewer_faults : Catalog → List Bool → Catalog
fewer_faults c fs = record c { faults = fs }

-- A statement fails and changes nothing, or it is carried out.
pub execute-cases :
    {A : Type 0} (m : Action Catalog A) (c : Catalog)
    → (fs : List Bool) × ((execute m c ≡ (err driver_failed, fewer_faults c fs))
        ⊎ (execute m c ≡ m (fewer_faults c fs)))
unfolding execute
execute-cases m c = by_faults c.faults refl
  where
    by_faults :
        (fs : List Bool)
        → c.faults ≡ fs
        → (gs : List Bool) × ((run_on c.faults m c ≡ (err driver_failed, fewer_faults c gs))
            ⊎ (run_on c.faults m c ≡ m (fewer_faults c gs)))
    by_faults [] e = (c.faults, inr (rw e refl))
    by_faults (true ∷ fs) e = (fs, inl (rw e refl))
    by_faults (false ∷ fs) e = (fs, inr (rw e refl))

-- The same relations and the same migrations.
abbrev pub IsSame : Catalog → Catalog → Type 0
IsSame c c' = (c'.relations ≡ c.relations) × (or_no_rows c'.migrated ≡ or_no_rows c.migrated)

-- An action that fails and changes nothing but the faults to come.
abbrev Fails : {A : Type 0} → Action Catalog A → Catalog → Type 0
Fails m c = (e : Error) × (c' : Catalog) × (m c ≡ (err e, c')) × IsSame c c'

Fails-bind :
    {A B : Type 0} (m : Action Catalog A) (f : A → Action Catalog B) (c : Catalog)
    → Fails m c
    → Fails (m >>= f) c
Fails-bind m f c (e, c', run, same) =
    (e, c', bind-err m f (ap (λ r. r.0) run) (ap (λ r. r.1) run), same)

create-Fails :
    (t : ColumnType) (c : Catalog)
    → has_relation (codes "storage_locations") c.relations ≡ true
    → Fails (create (create_storage_locations t)) c
unfolding create
create-Fails t c there =
    let name = codes "storage_locations" in
    let (fs, ran) =
      execute-cases (λ (d : Catalog). create_new (has_relation name d.relations) name d) c in
    elim ran [
      | inl bad ↦ (driver_failed, fewer_faults c fs, bad, (refl, refl))
      | inr good ↦ (driver_failed, fewer_faults c fs, good ∙ rw there refl, (refl, refl))
    ]

run_migrations-Fails :
    (applied : List Bytes) (c : Catalog)
    → has_relation (codes "storage_locations") c.relations ≡ true
    → has_relation (codes "0_init") applied ≡ false
    → Fails (run_migrations applied migrations) c
unfolding run_migrations gets m0_init
run_migrations-Fails applied c there absent =
    let (e, c', run, same) =
      Fails-bind (create_all (m0_init c.driver))
        (λ _. record_migration (codes "0_init") >>= λ _. pure tt) c
        (Fails-bind (create (create_storage_locations (id_type c.driver))) _ c
          (create-Fails (id_type c.driver) c there)) in
    (e, c', rw absent (bind-ok (gets λ (d : Catalog). d.driver) _ refl refl ∙ run), same)

load_applied-cases :
    (c : Catalog) (rows : List Bytes)
    → c.migrated ≡ some rows
    → (fs : List Bool) × ((load_applied c ≡ (err driver_failed, fewer_faults c fs))
        ⊎ (load_applied c ≡ (ok rows, fewer_faults c fs)))
unfolding load_applied
load_applied-cases c rows is =
    let (fs, ran) = execute-cases (λ (d : Catalog). applied_rows d.migrated d) c in
    (fs, elim ran [ inl bad ↦ inl bad | inr good ↦ inr (good ∙ rw is refl) ])

-- If the first table is there and the first migration is not recorded, as after a run that failed
-- behind its first statement, then `Migrate` fails, and the tables stay so that it fails again.
pub migrate-stuck :
    (c : Catalog)
    → has_relation (codes "storage_locations") c.relations ≡ true
    → has_relation (codes "0_init") (or_no_rows c.migrated) ≡ false
    → (e : Error) × (c' : Catalog) × (migrate c ≡ (err e, c')) × IsSame c c'
unfolding migrate
migrate-stuck c there absent =
    let rows = or_no_rows c.migrated in
    let (fs1, ensured) =
      execute-cases (λ (d : Catalog). (ok tt, record d { migrated = some (or_no_rows d.migrated) }))
        c in
    elim ensured [
      | inl bad ↦
          Fails-bind ensure_migrations_table _ c
            (driver_failed, fewer_faults c fs1, bad, (refl, refl))
      | inr good ↦
          let c1 : Catalog = record c { migrated = some rows; faults = fs1 } in
          let (fs2, loaded) = load_applied-cases c1 rows refl in
          let next =
            bind-ok ensure_migrations_table
              (λ _. load_applied >>= λ applied. run_migrations applied migrations)
              (ap (λ r. r.0) good) (ap (λ r. r.1) good) in
          elim loaded [
            | inl bad ↦ (
              driver_failed,
              fewer_faults c1 fs2,
              next ∙ bind-err load_applied _ (ap (λ r. r.0) bad) (ap (λ r. r.1) bad),
              (refl, refl),
            )
            | inr read ↦
                let (e, c', run, same) =
                  run_migrations-Fails rows (fewer_faults c1 fs2) there absent in
                (
                  e,
                  c',
                  next ∙ bind-ok load_applied _ (ap (λ r. r.0) read) (ap (λ r. r.1) read) ∙ run,
                  same,
                )
          ]
    ]
