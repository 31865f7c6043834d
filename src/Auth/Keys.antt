-- ===== src/Auth/Keys.antt =====
-- internal/auth/jwks.go: the set of keys that is fetched from the issuer and kept for ten minutes.
-- The answers of the issuer and the readings of the clock are functions of their number.
pub mod Served
use gha_cache_server.Base.{
  ℕ, ◌+◌, ◌*◌, ◌%◌, ◌^◌, Bool, not, Option, none, some, List, [], ◌∷◌, ltb, ◌==◌, if◌then◌else◌,
  Bytes, codes, bytes_eq,
}
use gha_cache_server.Base.Checked.{Checked, passed, failed}
use gha_cache_server.Base.Int.{ℤ, wrap_int64}
use gha_cache_server.Auth.Tokens.{Key, rsa_key, ecdsa_key, Keyset, Tools, set_bytes}

-- An element of `keys` in the decoded answer; `alg` and `use` are not read.
pub record Jwk : Type 0 where
  pub kty : Bytes
  pub kid : Bytes
  pub n : Bytes
  pub e : Bytes
  pub crv : Bytes
  pub x : Bytes
  pub y : Bytes

-- No answer, or its status and the keys, `none` where the JSON is not decoded.
pub data KeyAnswer : Type 0 where
  unreachable : KeyAnswer
  answered : ℕ → Option (List Jwk) → KeyAnswer

pub data KeysError : Type 0 where
  no_answer : KeysError
  wrong_status : ℕ → KeysError
  keys_not_decoded : KeysError

-- `eInt<<8 | int(b)` on 64 bits, behind the bytes before.
unfoldable pub exponent : ℕ → Bytes → ℕ
exponent acc [] = acc
exponent acc (b ∷ bs) = exponent (acc * 256 % 2 ^ 64 + b) bs

-- The fetcher, with the number of the requests and of the readings of the clock so far.
pub record JwksFetcher : Type 0 where
  pub current : Option Keyset
  pub expires : ℕ
  pub requests : ℕ
  pub readings : ℕ

-- `10 * time.Minute` in nanoseconds
abbrev pub ttl : ℕ
ttl = 600000000000

module _ (tools : Tools) where
  open tools use {base64}

  unfoldable pub rsa_entry : Jwk → Bytes × Bool → Bytes × Bool → Keyset → Keyset
  unfolding set_bytes exponent
  rsa_entry k (n, n_whole) (e, e_whole) keys =
      if not n_whole
      then keys
      else if not e_whole
      then keys
      else (k.kid, rsa_key (set_bytes 0 n) (wrap_int64 (exponent 0 e))) ∷ keys

  -- The body of the loop over `raw.Keys`.
  unfoldable pub add_key : Jwk → Keyset → Keyset
  unfolding rsa_entry set_bytes
  add_key k keys =
      if bytes_eq k.kty (codes "RSA")
      then rsa_entry k (base64 k.n) (base64 k.e) keys
      else if bytes_eq k.kty (codes "EC")
      then (if not (bytes_eq k.crv (codes "P-256"))
          then keys
          else (k.kid, ecdsa_key (set_bytes 0 (base64 k.x).0) (set_bytes 0 (base64 k.y).0)) ∷ keys)
      else keys

  unfoldable pub add_keys : List Jwk → Keyset → Keyset
  unfolding add_key
  add_keys [] keys = keys
  add_keys (k ∷ ks) keys = add_keys ks (add_key k keys)

  module _ (answers : ℕ → KeyAnswer) (times : ℕ → ℕ) where
    unfoldable pub keep_keys :
        Option (List Jwk) → JwksFetcher → Checked KeysError Keyset × JwksFetcher
    unfolding add_keys
    keep_keys none f = (failed keys_not_decoded, f)
    keep_keys (some raw) f =
        let keys = add_keys raw [] in
        (
          passed keys,
          record f {
            current = some keys;
            expires = times f.readings + ttl;
            readings = f.readings + 1;
          },
        )

    unfoldable pub take_answer : KeyAnswer → JwksFetcher → Checked KeysError Keyset × JwksFetcher
    unfolding keep_keys
    take_answer unreachable f = (failed no_answer, f)
    take_answer (answered status raw) f =
        if not (status == 200) then (failed (wrong_status status), f) else keep_keys raw f

    -- `refresh`, which is `ForceRefresh` too.
    unfoldable pub refresh : JwksFetcher → Checked KeysError Keyset × JwksFetcher
    unfolding take_answer
    refresh f = take_answer (answers f.requests) (record f { requests = f.requests + 1 })

    unfoldable pub fetch_current :
        Option Keyset → JwksFetcher → Checked KeysError Keyset × JwksFetcher
    unfolding refresh
    fetch_current none f = refresh f
    fetch_current (some keys) f =
        let f' = record f { readings = f.readings + 1 } in
        if ltb (times f.readings) f.expires then (passed keys, f') else refresh f'

    unfoldable pub fetch : JwksFetcher → Checked KeysError Keyset × JwksFetcher
    unfolding fetch_current
    fetch f = fetch_current f.current f
