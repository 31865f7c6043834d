-- ===== src/Config/Load/Complete.antt =====
-- internal/config/config.go: what `Load` has tested of a configuration that it returns.
use gha_cache_server.Base.{
  ℕ, ◌≡◌, ◌≢◌, refl, sym, ◌∙◌, ◌⊎◌, inl, inr, Bool, true, false, ◌||◌, [], ◌∷◌, Bool-cases, Bytes,
  codes, bytes_eq, bytes_eq_sound, is_empty, arith,
}
use gha_cache_server.Base.Int.{ℤ, pos, negsuc}
use gha_cache_server.Base.Decimal.{Parsed, number, syntax, range, parse_int}
use gha_cache_server.Base.Checked.{
  passed, Yields, Yields-bind, Yields-passed, Yields-failed, Yields-any,
}
use gha_cache_server.Config.Settings.{Config, ConfigError, initial}
use gha_cache_server.Config.Load.{
  atoi, not_negative, load_days, load_size, demand, parse_base, load_general, load_s3, load_gcs,
  load_storage_of, load_storage, load_postgres, load_mysql, load_database_of, load_database,
  load_pressure, load,
}

-- A driver of the storage with the settings that it needs.
abbrev pub HasStorage : Config → Type 0
HasStorage c =
    (c.storage_driver ≡ codes "filesystem")
    ⊎ ((c.storage_driver ≡ codes "s3") × (c.s3_bucket ≢ []))
    ⊎ ((c.storage_driver ≡ codes "gcs") × (c.gcs_bucket ≢ []))

abbrev pub HasParts : Bytes → Bytes → Bytes → Bytes → ℤ → Type 0
HasParts database host user port_text port =
    (database ≢ []) × (host ≢ []) × (user ≢ []) × (parse_int port_text ≡ number port)

-- A driver of the database with the settings that it needs.
abbrev pub HasDatabase : (Bytes → Bytes) → Config → Type 0
HasDatabase env c =
    (c.db_driver ≡ codes "sqlite")
    ⊎ ((c.db_driver ≡ codes "postgres")
        × ((c.postgres_url ≢ [])
            ⊎ HasParts c.postgres_database c.postgres_host c.postgres_user
                (env (codes "DB_POSTGRES_PORT")) c.postgres_port))
    ⊎ ((c.db_driver ≡ codes "mysql")
        × HasParts c.mysql_database c.mysql_host c.mysql_user (env (codes "DB_MYSQL_PORT"))
            c.mysql_port)

abbrev pub HasGeneral : (Bytes → Bytes) → (Bytes → Bool) → Config → Type 0
HasGeneral env valid_url c =
    (c.api_base_url ≡ env (codes "API_BASE_URL"))
    × (c.api_base_url ≢ [])
    × (valid_url c.api_base_url ≡ true)
    × (days : ℕ) × (c.cache_cleanup_older_than_days ≡ pos days)

demand-given : (e : ConfigError) (v : Bytes) → Yields (λ r. (r ≡ v) × (r ≢ [])) (demand e v)
unfolding demand
demand-given e [] = Yields-failed e
demand-given e (c ∷ v) = Yields-passed (c ∷ v) (refl, λ h. absurd (cc h))

parse_base-valid :
    (valid_url : Bytes → Bool) (v : Bytes)
    → Yields (λ r. (r ≡ v) × (valid_url r ≡ true)) (parse_base valid_url v)
unfolding parse_base
parse_base-valid valid_url v = elim (Bool-cases (valid_url v)) [
  | inl good ↦ rw good (Yields-passed v (refl, good))
  | inr bad ↦ rw bad (Yields-failed _)
]

not_negative-pos :
    (name v : Bytes) (n : ℤ) → Yields (λ r. (days : ℕ) × (r ≡ pos days)) (not_negative name v n)
unfolding not_negative
not_negative-pos name v (pos n) = Yields-passed (pos n) (n, refl)
not_negative-pos name v (negsuc n) = Yields-failed _

load_days-pos :
    (name v : Bytes) (old : ℕ)
    → Yields (λ r. (days : ℕ) × (r ≡ pos days)) (load_days name v (pos old))
unfolding load_days
load_days-pos name [] old = Yields-passed (pos old) (old, refl)
load_days-pos name (c ∷ v) old =
    Yields-bind (λ n. Unit {0}) (atoi name (c ∷ v) (parse_int (c ∷ v))) _ (Yields-any _)
      λ n _. not_negative-pos name (c ∷ v) n

atoi-number : (name v : Bytes) (p : Parsed) → Yields (λ n. p ≡ number n) (atoi name v p)
unfolding atoi
atoi-number name v (number n) = Yields-passed n refl
atoi-number name v syntax = Yields-failed _
atoi-number name v (range n) = Yields-failed _

is_empty-false : (v : Bytes) → is_empty v ≡ false → v ≢ []
is_empty-false [] h = absurd (cc h)
is_empty-false (c ∷ v) h = λ e. absurd (cc e)

-- The tests of the three parts, which the two drivers share.
parts_given :
    (database host user : Bytes)
    → (is_empty database || is_empty host || is_empty user) ≡ false
    → (database ≢ []) × (host ≢ []) × (user ≢ [])
parts_given database host user h = (
  is_empty-false database (ground arith),
  is_empty-false host (ground arith),
  is_empty-false user (ground arith),
)

module _ (env : Bytes → Bytes) where
  load_general-HasGeneral :
      (valid_url : Bytes → Bool)
      → Yields (HasGeneral env valid_url) (load_general env valid_url initial)
  unfolding load_general initial
  load_general-HasGeneral valid_url =
      Yields-bind _ (demand _ (env (codes "API_BASE_URL"))) _ (demand-given _ _) λ v (same, given).
        Yields-bind _ (parse_base valid_url v) _ (parse_base-valid valid_url v) λ url (kept, good).
          Yields-bind _
            (load_days (codes "CACHE_CLEANUP_OLDER_THAN_DAYS")
              (env (codes "CACHE_CLEANUP_OLDER_THAN_DAYS")) (pos 90))
            _ (load_days-pos _ _ 90)
            λ days positive.
              Yields-passed _ (kept ∙ same, λ e. given (sym kept ∙ e), good, positive.0, positive.1)

  load_storage_of-HasStorage :
      (driver : Bytes) (valid_url : Bytes → Bool) (c : Config)
      → HasGeneral env valid_url c
      → Yields (λ r. HasGeneral env valid_url r × HasStorage r) (load_storage_of env driver c)
  unfolding load_storage_of load_s3 load_gcs
  load_storage_of-HasStorage driver valid_url c g =
      elim (Bool-cases (bytes_eq driver (codes "filesystem"))) [
        | inl files ↦ rw files (Yields-passed _ (g, inl (bytes_eq_sound _ _ files)))
        | inr no_files ↦ rw no_files (elim (Bool-cases (bytes_eq driver (codes "s3"))) [
          | inl s3 ↦ rw s3 (
              Yields-bind _ (demand _ (env (codes "STORAGE_S3_BUCKET"))) _ (demand-given _ _)
                λ b (same, given). Yields-passed _ (g, inr (inl (bytes_eq_sound _ _ s3, given))))
          | inr no_s3 ↦ rw no_s3 (elim (Bool-cases (bytes_eq driver (codes "gcs"))) [
            | inl gcs ↦ rw gcs (
                Yields-bind _ (demand _ (env (codes "STORAGE_GCS_BUCKET"))) _ (demand-given _ _)
                  λ b (same, given). Yields-passed _ (g, inr (inr (bytes_eq_sound _ _ gcs, given))))
            | inr no_gcs ↦ rw no_gcs (Yields-failed _)
          ])
        ])
      ]

  abbrev IsComplete : (Bytes → Bool) → Config → Type 0
  IsComplete valid_url c = HasGeneral env valid_url c × HasStorage c × HasDatabase env c

  module _ (valid_url : Bytes → Bool) (c : Config) (g : HasGeneral env valid_url c)
      (s : HasStorage c) where
    load_postgres-HasDatabase :
        (url : Bytes)
        → c.db_driver ≡ codes "postgres"
        → Yields (IsComplete valid_url) (load_postgres env url c)
    unfolding load_postgres
    load_postgres-HasDatabase (u ∷ url) e =
        Yields-passed _ (g, s, inr (inl (e, inl (λ h. absurd (cc h)))))
    load_postgres-HasDatabase [] e =
        Yields-bind _ (atoi _ _ (parse_int (env (codes "DB_POSTGRES_PORT")))) _ (atoi-number _ _ _)
          λ port parsed.
            elim (Bool-cases (
              is_empty (env (codes "DB_POSTGRES_DATABASE"))
              || is_empty (env (codes "DB_POSTGRES_HOST"))
              || is_empty (env (codes "DB_POSTGRES_USER")))) [
                | inl absent ↦ rw absent (Yields-failed _)
                | inr there ↦
                    let (database, host, user) = parts_given _ _ _ there in
                    rw there
                      (Yields-passed _ (g, s, inr (inl (e, inr (database, host, user, parsed)))))
              ]

    load_mysql-HasDatabase :
        c.db_driver ≡ codes "mysql" → Yields (IsComplete valid_url) (load_mysql env c)
    unfolding load_mysql
    load_mysql-HasDatabase e =
        Yields-bind _ (atoi _ _ (parse_int (env (codes "DB_MYSQL_PORT")))) _ (atoi-number _ _ _)
          λ port parsed.
            elim (Bool-cases (
              is_empty (env (codes "DB_MYSQL_DATABASE"))
              || is_empty (env (codes "DB_MYSQL_HOST"))
              || is_empty (env (codes "DB_MYSQL_USER")))) [
                | inl absent ↦ rw absent (Yields-failed _)
                | inr there ↦
                    let (database, host, user) = parts_given _ _ _ there in
                    rw there (Yields-passed _ (g, s, inr (inr (e, (database, host, user, parsed)))))
              ]

  load_database_of-HasDatabase :
      (driver : Bytes) (valid_url : Bytes → Bool) (c : Config)
      → HasGeneral env valid_url c
      → HasStorage c
      → Yields (IsComplete valid_url) (load_database_of env driver c)
  unfolding load_database_of
  load_database_of-HasDatabase driver valid_url c g s =
      elim (Bool-cases (bytes_eq driver (codes "sqlite"))) [
        | inl sqlite ↦ rw sqlite (Yields-passed _ (g, s, inl (bytes_eq_sound _ _ sqlite)))
        | inr no_sqlite ↦ rw no_sqlite (elim (Bool-cases (bytes_eq driver (codes "postgres"))) [
          | inl postgres ↦ rw postgres (
              load_postgres-HasDatabase valid_url (record c { db_driver = driver }) g s _
                (bytes_eq_sound _ _ postgres))
          | inr no_postgres ↦ rw no_postgres (elim (Bool-cases (bytes_eq driver (codes "mysql"))) [
            | inl mysql ↦ rw mysql (
                load_mysql-HasDatabase valid_url (record c { db_driver = driver }) g s
                  (bytes_eq_sound _ _ mysql))
            | inr no_mysql ↦ rw no_mysql (Yields-failed _)
          ])
        ])
      ]

  load_pressure-IsComplete :
      (valid_url : Bytes → Bool) (c : Config)
      → IsComplete valid_url c
      → Yields (IsComplete valid_url) (load_pressure env c)
  unfolding load_pressure
  load_pressure-IsComplete valid_url c h =
      Yields-bind (λ _. Unit {0})
        (load_size (codes "DISK_PRESSURE_MIN_FREE_BYTES")
          (env (codes "DISK_PRESSURE_MIN_FREE_BYTES")) c.disk_pressure_min_free_bytes)
        _ (Yields-any _)
        λ least _.
          Yields-bind (λ _. Unit {0})
            (load_size (codes "DISK_PRESSURE_TARGET_FREE_BYTES")
              (env (codes "DISK_PRESSURE_TARGET_FREE_BYTES")) c.disk_pressure_target_free_bytes)
            _ (Yields-any _) λ target _. Yields-passed _ h

  -- If `Load` returns a configuration, its base URL is that of the environment, is not empty and is
  -- valid, the days are not negative, the storage driver is one of the three and has the bucket that
  -- it needs, and the database driver is one of the three and has a URL, or a database, a host, a user
  -- and a number as the port, where it needs them.
  pub load-IsComplete :
      (valid_url : Bytes → Bool) (c : Config)
      → load env valid_url ≡ passed c
      → HasGeneral env valid_url c × HasStorage c × HasDatabase env c
  unfolding load load_storage load_database
  load-IsComplete valid_url c e =
      let known : Yields (IsComplete valid_url) (load env valid_url) =
        Yields-bind _ _ _ (load_general-HasGeneral valid_url) λ c1 g.
          Yields-bind _ _ _ (load_storage_of-HasStorage _ valid_url c1 g) λ c2 (g2, s2).
            Yields-bind _ _ _ (load_database_of-HasDatabase _ valid_url c2 g2 s2)
              (load_pressure-IsComplete valid_url) in
      known.from c e
