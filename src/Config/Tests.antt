-- ===== src/Config/Tests.antt =====
-- Configurations at concrete environments.
use gha_cache_server.Base.{
  ◌-◌, ◌*◌, ◌^◌, ◌≡◌, refl, Bool, true, [], ◌∷◌, ◌++◌, bytes_eq, if◌then◌else◌, Bytes, codes, arith,
}
use gha_cache_server.Base.Int.{wrap_int64, pos, negsuc}
use gha_cache_server.Base.Spaces.{trim_space}
use gha_cache_server.Base.Decimal.{parse_int, format_int}
use gha_cache_server.Config.Sizes.{size, refused, invalid_size, parse_bytes, parse_bool}
use gha_cache_server.Config.Sizes.Units.{tebi, parse_bytes-unit}
use gha_cache_server.Base.Checked.{passed, failed}
use gha_cache_server.Config.Settings.{Config, required, initial}
use gha_cache_server.Config.Load.{load}
use gha_cache_server.Config.Load.Complete.{HasGeneral, HasStorage, HasDatabase, load-IsComplete}

ten_gib : parse_bytes (codes " 10Gi\n") ≡ size (pos 10737418240)
unfolding parse_bytes parse_int trim_space
ten_gib = refl

only_i : parse_bytes (codes "i") ≡ refused (invalid_size [])
unfolding parse_bytes trim_space
only_i = refl

overflowing : parse_bytes (codes "8388608T") ≡ size (negsuc (2 ^ 63 - 1))
unfolding parse_bytes parse_int trim_space
overflowing = refl

parse_bytes-unit_example :
    (parse_bytes (format_int (pos 8388608) ++ b'T' ∷ [])
      ≡ size (wrap_int64 (8388608 * 1099511627776)))
    × (parse_bytes ((format_int (pos 8388608) ++ b'T' ∷ []) ++ b'i' ∷ [])
        ≡ size (wrap_int64 (8388608 * 1099511627776)))
parse_bytes-unit_example = parse_bytes-unit 8388608 b'T' 1099511627776 (omega arith) tebi

abbrev any_url : Bytes → Bool
any_url v = true

abbrev s3_env : Bytes → Bytes
s3_env name =
    if bytes_eq name (codes "API_BASE_URL")
    then codes "http://cache"
    else if bytes_eq name (codes "STORAGE_DRIVER")
    then codes "s3"
    else if bytes_eq name (codes "STORAGE_S3_BUCKET")
    then codes "b"
    else if bytes_eq name (codes "PORT")
    then codes "80"
    else []

abbrev s3_config : Config
s3_config = record initial {
  api_base_url = codes "http://cache";
  storage_driver = codes "s3";
  s3_bucket = codes "b";
  listen_addr = codes ":80";
}

s3_loaded : load s3_env any_url ≡ passed s3_config
unfolding load initial bytes_eq parse_bool
s3_loaded = refl

nothing_set : load (λ name. []) any_url ≡ failed (required (codes "API_BASE_URL"))
unfolding load
nothing_set = refl

load-IsComplete_example :
    HasGeneral s3_env any_url s3_config × HasStorage s3_config × HasDatabase s3_env s3_config
load-IsComplete_example = load-IsComplete s3_env any_url s3_config s3_loaded
