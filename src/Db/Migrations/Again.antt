-- ===== src/Db/Migrations/Again.antt =====
-- internal/db/migrations.go: a run of `Migrate` behind one that returned no error.
use mathlib.Core.Path.{subst}
use gha_cache_server.Base.{
  ◌≡◌, refl, sym, ap, ◌∙◌, inl, inr, Bool, true, Option, none, some, List, [], ◌∷◌, ◌++◌,
  Bool-cases, Bytes, codes, bytes_eq, bytes_eq_self,
}
use gha_cache_server.Action.{ok, Action, pure, gets}
use gha_cache_server.Action.Laws.{bind-ok}
use gha_cache_server.Action.Ensures.{Ensures, Ensures-pure, Ensures-if, Ensures-bind}
use gha_cache_server.Db.Sql.Find.{exists-append_last}
use gha_cache_server.Db.Migrations.{
  m0_init, Catalog, run_on, execute, has_relation, or_no_rows, ensure_migrations_table,
  applied_rows, load_applied, create_all, insert_row, insert_rows, record_migration, migrations,
  run_migrations, migrate,
}
use gha_cache_server.Db.Migrations.Runs.{fewer_faults, execute-cases}

Ensures-execute :
    {A : Type 0} (P : Catalog → Type 0) (Q : A → Catalog → Type 0) (m : Action Catalog A)
    → ((c : Catalog) (fs : List Bool) → P c → P (fewer_faults c fs))
    → ((c : Catalog) (a : A) → P c → (m c).0 ≡ ok a → Q a (m c).1)
    → Ensures P (execute m) Q
Ensures-execute P Q m stable k = record {
  from = λ c a p e.
      let (fs, ran) = execute-cases m c in
      elim ran [
        | inl bad ↦ absurd (cc (sym (ap (λ r. r.0) bad) ∙ e))
        | inr good ↦
            subst (λ r. Q a r.1) (sym good)
              (k (fewer_faults c fs) a (stable c fs p) (sym (ap (λ r. r.0) good) ∙ e))
      ];
}

abbrev IsMigratedIn : List Bytes → Catalog → Type 0
IsMigratedIn rows c = (c.migrated ≡ some rows) × (has_relation (codes "0_init") rows ≡ true)

-- A catalog in which the first migration is recorded.
abbrev IsMigrated : Catalog → Type 0
IsMigrated c = (rows : List Bytes) × IsMigratedIn rows c

HasRows : Catalog → Type 0
HasRows c = (rows : List Bytes) × (c.migrated ≡ some rows)

insert_rows-IsMigrated :
    (o : Option (List Bytes)) (c : Catalog) (a : Unit {0})
    → (insert_rows o (codes "0_init") c).0 ≡ ok a
    → IsMigrated (insert_rows o (codes "0_init") c).1
unfolding has_relation
insert_rows-IsMigrated none c a e = absurd (cc e)
insert_rows-IsMigrated (some rows) c a e = elim (Bool-cases (has_relation (codes "0_init") rows)) [
  | inl there ↦
      let refused = ap (λ b. (insert_row b (codes "0_init") rows c).0) there in
      absurd (cc (sym refused ∙ e))
  | inr absent ↦ rw absent (
    rows ++ codes "0_init" ∷ [],
    (
      refl,
      exists-append_last (λ n. bytes_eq n (codes "0_init")) rows (codes "0_init")
          (bytes_eq_self (codes "0_init")),
    ),
  )
]

run_migrations-IsMigrated :
    (applied : List Bytes)
    → Ensures
        (λ c. c.migrated ≡ some applied)
        (run_migrations applied migrations)
        (λ _ c. IsMigrated c)
unfolding run_migrations
run_migrations-IsMigrated applied =
    Ensures-if (has_relation (codes "0_init") applied) _ _
      (λ there. Ensures-pure tt (λ c h. (applied, (h, there))))
      λ absent.
        Ensures-bind (gets λ c. c.driver) _ (λ _ c. Unit {0}) nothing
          λ driver.
            Ensures-bind (create_all (m0_init driver)) _ (λ _ c. Unit {0}) nothing
              λ _.
                Ensures-bind (record_migration (codes "0_init")) _ (λ _ c. IsMigrated c) inserted
                  λ _. Ensures-pure tt (λ c h. h)
  where
    nothing :
        {A : Type 0} {P : Catalog → Type 0} {m : Action Catalog A} → Ensures P m (λ _ c. Unit {0})
    nothing = record { from = λ s a h e. tt }

    inserted : Ensures (λ c. Unit {0}) (record_migration (codes "0_init")) (λ _ c. IsMigrated c)
    inserted =
        unfold record_migration in
        Ensures-execute _ (λ _ c. IsMigrated c) _ (λ c fs h. h)
          (λ c a h e. insert_rows-IsMigrated c.migrated c a e)

migrate-IsMigrated : Ensures (λ c. Unit {0}) migrate (λ _ c. IsMigrated c)
unfolding migrate
migrate-IsMigrated =
    Ensures-bind ensure_migrations_table _ (λ _ c. HasRows c) ensured
      λ _.
        Ensures-bind load_applied _ (λ applied c. c.migrated ≡ some applied) read
          run_migrations-IsMigrated
  where
    ensured : Ensures (λ c. Unit {0}) ensure_migrations_table (λ _ c. HasRows c)
    ensured =
        unfold ensure_migrations_table HasRows in
        Ensures-execute _ (λ _ c. HasRows c) _ (λ c fs h. h)
          (λ c a h e. (or_no_rows c.migrated, refl))

    by_rows :
        (o : Option (List Bytes)) (c : Catalog) (rows : List Bytes)
        → c.migrated ≡ o
        → (applied_rows o c).0 ≡ ok rows
        → (applied_rows o c).1.migrated ≡ some rows
    by_rows none c rows is e = absurd (cc e)
    by_rows (some r) c rows is e = is ∙ ap some (cc e)

    read : Ensures HasRows load_applied (λ applied c. c.migrated ≡ some applied)
    read =
        unfold load_applied HasRows in
        Ensures-execute HasRows (λ applied c. c.migrated ≡ some applied) _ (λ c fs h. h)
          (λ c rows h e. by_rows c.migrated c rows refl e)

migrate-nothing :
    (c : Catalog) (rows : List Bytes) → c.faults ≡ [] → IsMigratedIn rows c → migrate c ≡ (ok tt, c)
unfolding migrate
migrate-nothing c rows quiet (is, there) =
    bind-ok ensure_migrations_table _ (ap (λ r. r.0) ensured) (ap (λ r. r.1) ensured)
    ∙ bind-ok load_applied _ (ap (λ r. r.0) read) (ap (λ r. r.1) read)
    ∙ unfold run_migrations pure in rw there refl
  where
    ensured : ensure_migrations_table c ≡ (ok tt, c)
    ensured =
        unfold ensure_migrations_table execute in
        ap
          (λ fs.
            run_on fs
              (λ (d : Catalog). (ok tt, record d { migrated = some (or_no_rows d.migrated) })) c)
          quiet
        ∙ ap (λ o. (ok tt, record c { migrated = some (or_no_rows o) })) is
        ∙ ap (λ o. (ok tt, record c { migrated = o })) (sym is)

    read : load_applied c ≡ (ok rows, c)
    read =
        unfold load_applied execute in
        ap (λ fs. run_on fs (λ (d : Catalog). applied_rows d.migrated d) c) quiet
        ∙ ap (λ o. applied_rows o c) is

-- Behind a `Migrate` that returned no error another one returns no error and changes nothing, as long
-- as no statement fails.
pub migrate-again :
    (c : Catalog)
    → (migrate c).0 ≡ ok tt
    → (migrate c).1.faults ≡ []
    → migrate (migrate c).1 ≡ (ok tt, (migrate c).1)
migrate-again c done quiet =
    let (rows, is) = migrate-IsMigrated.from c tt tt done in
    migrate-nothing (migrate c).1 rows quiet is
