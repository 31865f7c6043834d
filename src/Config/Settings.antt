-- ===== src/Config/Settings.antt =====
-- internal/config/config.go: `Config`, its first values, and the errors of `Load`.
use gha_cache_server.Base.{Bool, false, [], ◌∷◌, Bytes, codes}
use gha_cache_server.Base.Checked.{Checked}
use gha_cache_server.Base.Int.{ℤ, pos}
use gha_cache_server.Config.Sizes.{SizeError}

pub record Config : Type 0 where
  pub api_base_url : Bytes
  pub default_actions_results_url : Bytes
  pub cache_cleanup_older_than_days : ℤ
  pub disable_cleanup_jobs : Bool
  pub debug : Bool
  pub enable_direct_downloads : Bool
  pub skip_token_validation : Bool
  pub management_api_key : Bytes
  pub listen_addr : Bytes
  pub storage_driver : Bytes
  pub storage_filesystem_path : Bytes
  pub s3_bucket : Bytes
  pub aws_region : Bytes
  pub aws_endpoint_url : Bytes
  pub aws_access_key_id : Bytes
  pub aws_secret_access_key : Bytes
  pub gcs_bucket : Bytes
  pub gcs_service_account_key : Bytes
  pub gcs_endpoint : Bytes
  pub db_driver : Bytes
  pub db_sqlite_path : Bytes
  pub postgres_database : Bytes
  pub postgres_host : Bytes
  pub postgres_port : ℤ
  pub postgres_user : Bytes
  pub postgres_password : Bytes
  pub postgres_url : Bytes
  pub mysql_database : Bytes
  pub mysql_host : Bytes
  pub mysql_port : ℤ
  pub mysql_user : Bytes
  pub mysql_password : Bytes
  pub disk_pressure_min_free_bytes : ℤ
  pub disk_pressure_target_free_bytes : ℤ

-- The errors, with the names and values that they print.
pub data ConfigError : Type 0 where
  -- "… is required", for the driver that needs it
  required : Bytes → ConfigError
  -- "… invalid"
  invalid_setting : Bytes → Bytes → ConfigError
  invalid_size_of : Bytes → SizeError → ConfigError
  -- "… must be …, got %q"
  unknown_driver : Bytes → Bytes → ConfigError
  -- "postgres requires …" and "mysql requires …"
  incomplete_database : Bytes → ConfigError

abbrev pub Loaded : Type 0 → Type 0
Loaded A = Checked ConfigError A

-- `if v := env(…); v != "" { x = v }`
abbrev pub given_or : Bytes → Bytes → Bytes
given_or old [] = old
given_or old (c ∷ v) = c ∷ v

unfoldable pub initial : Config
initial = record {
  api_base_url = [];
  default_actions_results_url = codes "https://results-receiver.actions.githubusercontent.com";
  cache_cleanup_older_than_days = pos 90;
  disable_cleanup_jobs = false;
  debug = false;
  enable_direct_downloads = false;
  skip_token_validation = false;
  management_api_key = [];
  listen_addr = codes ":3000";
  storage_driver = codes "filesystem";
  storage_filesystem_path = codes ".data/storage/filesystem";
  s3_bucket = [];
  aws_region = codes "us-east-1";
  aws_endpoint_url = [];
  aws_access_key_id = [];
  aws_secret_access_key = [];
  gcs_bucket = [];
  gcs_service_account_key = [];
  gcs_endpoint = [];
  db_driver = codes "sqlite";
  db_sqlite_path = codes ".data/sqlite.db";
  postgres_database = [];
  postgres_host = [];
  postgres_port = pos 0;
  postgres_user = [];
  postgres_password = [];
  postgres_url = [];
  mysql_database = [];
  mysql_host = [];
  mysql_port = pos 0;
  mysql_user = [];
  mysql_password = [];
  disk_pressure_min_free_bytes = pos 0;
  disk_pressure_target_free_bytes = pos 0;
}
