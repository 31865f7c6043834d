-- ===== src/Config/Load.antt =====
-- internal/config/config.go: `Load`. The environment is a function from the names of
-- the variables to their values, and the test of `url.Parse` is a parameter.
pub mod Complete
use gha_cache_server.Base.{
  ◌||◌, Bool, true, false, [], ◌∷◌, ◌++◌, if◌then◌else◌, Bytes, codes, bytes_eq, is_empty,
}
use gha_cache_server.Base.Int.{ℤ, pos, negsuc}
use gha_cache_server.Base.Decimal.{Parsed, number, syntax, range, parse_int}
use gha_cache_server.Base.Checked.{passed, failed, ◌>>=◌}
use gha_cache_server.Config.Settings.{
  Config, ConfigError, required, invalid_setting, invalid_size_of, unknown_driver,
  incomplete_database, Loaded, given_or, initial,
}
use gha_cache_server.Config.Sizes.{Size, size, refused, parse_bytes, parse_bool}

-- `strconv.Atoi(v)`, with the error for the variable `name`.
unfoldable pub atoi : Bytes → Bytes → Parsed → Loaded ℤ
atoi name v (number n) = passed n
atoi name v syntax = failed (invalid_setting name v)
atoi name v (range n) = failed (invalid_setting name v)

unfoldable pub not_negative : Bytes → Bytes → ℤ → Loaded ℤ
not_negative name v (pos n) = passed (pos n)
not_negative name v (negsuc n) = failed (invalid_setting name v)

-- The days of `CACHE_CLEANUP_OLDER_THAN_DAYS`.
unfoldable pub load_days : Bytes → Bytes → ℤ → Loaded ℤ
unfolding atoi not_negative
load_days name [] old = passed old
load_days name (c ∷ v) old =
    atoi name (c ∷ v) (parse_int (c ∷ v)) >>= λ n. not_negative name (c ∷ v) n

-- The bytes of a variable of the disk pressure.
unfoldable pub size_or_fail : Bytes → Size → Loaded ℤ
size_or_fail name (size n) = passed n
size_or_fail name (refused e) = failed (invalid_size_of name e)

unfoldable pub load_size : Bytes → Bytes → ℤ → Loaded ℤ
unfolding size_or_fail
load_size name [] old = passed old
load_size name (c ∷ v) old = size_or_fail name (parse_bytes (c ∷ v))

-- `LISTEN_ADDR`, else `PORT`, else `NITRO_PORT`.
unfoldable pub listen_addr_of : Bytes → Bytes → Bytes → Bytes → Bytes
listen_addr_of (c ∷ addr) port nitro old = c ∷ addr
listen_addr_of [] (c ∷ port) nitro old = codes ":" ++ c ∷ port
listen_addr_of [] [] (c ∷ nitro) old = codes ":" ++ c ∷ nitro
listen_addr_of [] [] [] old = old

-- `if v == "" { return nil, … }`
unfoldable pub demand : ConfigError → Bytes → Loaded Bytes
demand e [] = failed e
demand e (c ∷ v) = passed (c ∷ v)

module _ (valid_url : Bytes → Bool) where
  unfoldable pub parse_base : Bytes → Loaded Bytes
  parse_base v = if valid_url v then passed v else failed (invalid_setting (codes "API_BASE_URL") v)

module _ (env : Bytes → Bytes) where
  module _ (valid_url : Bytes → Bool) where
    unfoldable pub load_general : Config → Loaded Config
    unfolding demand parse_base load_days listen_addr_of
    load_general c = demand (required (codes "API_BASE_URL")) (env (codes "API_BASE_URL")) >>= λ v.
        parse_base valid_url v >>= λ url.
        load_days (codes "CACHE_CLEANUP_OLDER_THAN_DAYS")
          (env (codes "CACHE_CLEANUP_OLDER_THAN_DAYS")) c.cache_cleanup_older_than_days
        >>= λ days. passed (record c {
          api_base_url = url;
          default_actions_results_url =
              given_or c.default_actions_results_url (env (codes "DEFAULT_ACTIONS_RESULTS_URL"));
          cache_cleanup_older_than_days = days;
          disable_cleanup_jobs = parse_bool (env (codes "DISABLE_CLEANUP_JOBS"));
          debug = parse_bool (env (codes "DEBUG"));
          enable_direct_downloads = parse_bool (env (codes "ENABLE_DIRECT_DOWNLOADS"));
          skip_token_validation = parse_bool (env (codes "SKIP_TOKEN_VALIDATION"));
          management_api_key = env (codes "MANAGEMENT_API_KEY");
          listen_addr =
              listen_addr_of (env (codes "LISTEN_ADDR")) (env (codes "PORT"))
                (env (codes "NITRO_PORT")) c.listen_addr;
        })

  unfoldable pub load_s3 : Config → Loaded Config
  unfolding demand
  load_s3 c =
      demand (required (codes "STORAGE_S3_BUCKET")) (env (codes "STORAGE_S3_BUCKET")) >>= λ bucket.
      passed (record c {
        s3_bucket = bucket;
        aws_region = given_or c.aws_region (env (codes "AWS_REGION"));
        aws_endpoint_url = env (codes "AWS_ENDPOINT_URL");
        aws_access_key_id = env (codes "AWS_ACCESS_KEY_ID");
        aws_secret_access_key = env (codes "AWS_SECRET_ACCESS_KEY");
      })

  unfoldable pub load_gcs : Config → Loaded Config
  unfolding demand
  load_gcs c =
      demand (required (codes "STORAGE_GCS_BUCKET")) (env (codes "STORAGE_GCS_BUCKET"))
      >>= λ bucket. passed (record c {
        gcs_bucket = bucket;
        gcs_service_account_key = env (codes "STORAGE_GCS_SERVICE_ACCOUNT_KEY");
        gcs_endpoint = env (codes "STORAGE_GCS_ENDPOINT");
      })

  -- The switch on the driver of the storage.
  unfoldable pub load_storage_of : Bytes → Config → Loaded Config
  unfolding load_s3 load_gcs
  load_storage_of driver c =
      if bytes_eq driver (codes "filesystem")
      then passed (record c {
        storage_driver = driver;
        storage_filesystem_path =
            given_or c.storage_filesystem_path (env (codes "STORAGE_FILESYSTEM_PATH"));
      })
      else if bytes_eq driver (codes "s3")
      then load_s3 (record c { storage_driver = driver })
      else if bytes_eq driver (codes "gcs")
      then load_gcs (record c { storage_driver = driver })
      else failed (unknown_driver (codes "STORAGE_DRIVER") driver)

  unfoldable pub load_storage : Config → Loaded Config
  unfolding load_storage_of
  load_storage c = load_storage_of (given_or c.storage_driver (env (codes "STORAGE_DRIVER"))) c

  -- Without a URL the parts are needed; the password may be empty.
  unfoldable pub load_postgres : Bytes → Config → Loaded Config
  unfolding atoi
  load_postgres (u ∷ url) c = passed (record c { postgres_url = u ∷ url })
  load_postgres [] c =
      atoi (codes "DB_POSTGRES_PORT") (env (codes "DB_POSTGRES_PORT"))
        (parse_int (env (codes "DB_POSTGRES_PORT")))
      >>= λ port.
          if is_empty (env (codes "DB_POSTGRES_DATABASE"))
            || is_empty (env (codes "DB_POSTGRES_HOST"))
            || is_empty (env (codes "DB_POSTGRES_USER"))
          then failed (incomplete_database (codes "postgres"))
          else passed (record c {
            postgres_url = [];
            postgres_database = env (codes "DB_POSTGRES_DATABASE");
            postgres_host = env (codes "DB_POSTGRES_HOST");
            postgres_user = env (codes "DB_POSTGRES_USER");
            postgres_password = env (codes "DB_POSTGRES_PASSWORD");
            postgres_port = port;
          })

  unfoldable pub load_mysql : Config → Loaded Config
  unfolding atoi
  load_mysql c =
      atoi (codes "DB_MYSQL_PORT") (env (codes "DB_MYSQL_PORT"))
        (parse_int (env (codes "DB_MYSQL_PORT")))
      >>= λ port.
          if is_empty (env (codes "DB_MYSQL_DATABASE"))
            || is_empty (env (codes "DB_MYSQL_HOST"))
            || is_empty (env (codes "DB_MYSQL_USER"))
          then failed (incomplete_database (codes "mysql"))
          else passed (record c {
            mysql_database = env (codes "DB_MYSQL_DATABASE");
            mysql_host = env (codes "DB_MYSQL_HOST");
            mysql_user = env (codes "DB_MYSQL_USER");
            mysql_password = env (codes "DB_MYSQL_PASSWORD");
            mysql_port = port;
          })

  -- The switch on the driver of the database.
  unfoldable pub load_database_of : Bytes → Config → Loaded Config
  unfolding load_postgres load_mysql
  load_database_of driver c =
      if bytes_eq driver (codes "sqlite")
      then passed (record c {
        db_driver = driver;
        db_sqlite_path = given_or c.db_sqlite_path (env (codes "DB_SQLITE_PATH"));
      })
      else if bytes_eq driver (codes "postgres")
      then load_postgres (env (codes "DB_POSTGRES_URL")) (record c { db_driver = driver })
      else if bytes_eq driver (codes "mysql")
      then load_mysql (record c { db_driver = driver })
      else failed (unknown_driver (codes "DB_DRIVER") driver)

  unfoldable pub load_database : Config → Loaded Config
  unfolding load_database_of
  load_database c = load_database_of (given_or c.db_driver (env (codes "DB_DRIVER"))) c

  unfoldable pub load_pressure : Config → Loaded Config
  unfolding load_size
  load_pressure c =
      load_size (codes "DISK_PRESSURE_MIN_FREE_BYTES") (env (codes "DISK_PRESSURE_MIN_FREE_BYTES"))
        c.disk_pressure_min_free_bytes
      >>= λ least.
          load_size (codes "DISK_PRESSURE_TARGET_FREE_BYTES")
            (env (codes "DISK_PRESSURE_TARGET_FREE_BYTES")) c.disk_pressure_target_free_bytes
          >>= λ target. passed (record c {
            disk_pressure_min_free_bytes = least;
            disk_pressure_target_free_bytes = target;
          })

  unfoldable pub load : (Bytes → Bool) → Loaded Config
  unfolding load_general load_storage load_database load_pressure initial
  load valid_url = load_general valid_url initial >>= λ c.
      load_storage c >>= λ c. load_database c >>= λ c. load_pressure c
