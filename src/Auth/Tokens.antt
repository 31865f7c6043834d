-- ===== src/Auth/Tokens.antt =====
-- internal/auth/jwt.go: the verification of a token. The decoders of base64 and JSON, the hash and
-- the two signature checks of Go's standard library are parameters.
pub mod Signed
use gha_cache_server.Base.{
  ℕ, zero, ◌+◌, ◌*◌, Bool, true, false, not, Option, none, some, List, [], ◌∷◌, ◌++◌, length, take,
  drop, ◌==◌, if◌then◌else◌, Bytes, codes, bytes_eq,
}
use gha_cache_server.Base.Checked.{Checked, passed, failed, ◌>>=◌}
use gha_cache_server.Base.Int.{ℤ, pos, ltb_ℤ}
use gha_cache_server.Auth.Scopes.{Scope}

-- A value of the map of claims. The code uses a number only by its truncation to an `int64`.
pub data Claim : Type 0 where
  text : Bytes → Claim
  number : ℤ → Claim
  other : Claim

abbrev pub Claims : Type 0
Claims = Bytes → Option Claim

-- `*rsa.PublicKey` with the modulus and the exponent, and `*ecdsa.PublicKey` on P-256.
pub data Key : Type 0 where
  rsa_key : ℕ → ℤ → Key
  ecdsa_key : ℕ → ℕ → Key

abbrev pub Keyset : Type 0
Keyset = List (Bytes × Key)

-- `Get`; the last key that was put under the name stands first.
unfoldable pub key_of : Bytes → Keyset → Option Key
key_of kid [] = none
key_of kid ((name, key) ∷ keys) = if bytes_eq name kid then some key else key_of kid keys

pub record Header : Type 0 where
  pub alg : Bytes
  pub kid : Bytes

pub record Tools : Type 0 where
  -- `base64.RawURLEncoding.DecodeString`: the bytes that were decoded, and whether it was all
  pub base64 : Bytes → Bytes × Bool
  pub header : Bytes → Option Header
  pub claims : Bytes → Option Claims
  pub scopes : Bytes → Option (List Scope)
  pub sha256 : Bytes → Bytes
  -- `rsa.VerifyPKCS1v15` and `ecdsa.Verify`: the key, the digest and the signature
  pub rsa_verify : ℕ → ℤ → Bytes → Bytes → Bool
  pub ecdsa_verify : ℕ → ℕ → Bytes → ℕ → ℕ → Bool

pub data TokenError : Type 0 where
  malformed_token : TokenError
  unsupported_alg : Bytes → TokenError
  invalid_signature : TokenError
  issuer_mismatch : Bytes → TokenError
  token_expired : TokenError
  unknown_key : Bytes → TokenError
  -- "decode …: %w" and "unmarshal …: %w"
  not_decoded : TokenError
  not_unmarshaled : TokenError

-- `strings.Split(token, ".")`
abbrev pub onto_first : ℕ → List Bytes → List Bytes
onto_first c [] = (c ∷ []) ∷ []
onto_first c (p ∷ ps) = (c ∷ p) ∷ ps

unfoldable pub split_dots : Bytes → List Bytes
split_dots [] = [] ∷ []
split_dots (c ∷ s) = if c == b'.' then [] ∷ split_dots s else onto_first c (split_dots s)

pub record Parts : Type 0 where
  pub header : Bytes
  pub payload : Bytes
  pub signature : Bytes

unfoldable pub three_parts : List Bytes → Checked TokenError Parts
three_parts (h ∷ p ∷ s ∷ []) = passed (record { header = h; payload = p; signature = s })
three_parts _ = failed malformed_token

-- `new(big.Int).SetBytes(…)` behind the value of the bytes before.
unfoldable pub set_bytes : ℕ → Bytes → ℕ
set_bytes acc [] = acc
set_bytes acc (b ∷ bs) = set_bytes (acc * 256 + b) bs

abbrev pub demand : {A : Type 0} → TokenError → Option A → Checked TokenError A
demand e none = failed e
demand e (some a) = passed a

abbrev pub text_of : Option Claim → Bytes
text_of (some (text t)) = t
text_of _ = []

unfoldable pub check_expiry : ℕ → Claims → Option Claim → Checked TokenError Claims
check_expiry now c (some (number exp)) =
    if ltb_ℤ exp (pos now) then failed token_expired else passed c
check_expiry now c _ = passed c

-- The two checks of the claims; `now` is `time.Now().Unix()`.
unfoldable pub check_claims : Bytes → ℕ → Claims → Checked TokenError Claims
unfolding check_expiry
check_claims issuer now c =
    if bytes_eq (text_of (c (codes "iss"))) issuer
    then check_expiry now c (c (codes "exp"))
    else failed (issuer_mismatch (text_of (c (codes "iss"))))

module _ (tools : Tools) where
  open tools use {base64, sha256, rsa_verify, ecdsa_verify}

  unfoldable pub decoded : Bytes → Checked TokenError Bytes
  decoded s = let (bytes, whole) = base64 s in if whole then passed bytes else failed not_decoded

  -- The signature of the bytes `signed` under the two algorithms.
  unfoldable pub check_rs256 : Key → Bytes → Bytes → Bytes → Checked TokenError (Unit {0})
  check_rs256 (rsa_key n e) kid signed sig =
      if rsa_verify n e (sha256 signed) sig then passed tt else failed invalid_signature
  check_rs256 (ecdsa_key x y) kid signed sig = failed (unsupported_alg kid)

  unfoldable pub check_es256 : Key → Bytes → Bytes → Bytes → Checked TokenError (Unit {0})
  unfolding set_bytes
  check_es256 (rsa_key n e) kid signed sig = failed (unsupported_alg kid)
  check_es256 (ecdsa_key x y) kid signed sig =
      if not (length sig == 64)
      then failed invalid_signature
      else if ecdsa_verify x y (sha256 signed) (set_bytes 0 (take 32 sig))
          (set_bytes 0 (drop 32 sig))
      then passed tt
      else failed invalid_signature

  -- The switch on `hdr.Alg`.
  unfoldable pub check_signature : Header → Key → Bytes → Bytes → Checked TokenError (Unit {0})
  unfolding check_rs256 check_es256
  check_signature hdr key signed sig =
      if bytes_eq hdr.alg (codes "RS256")
      then check_rs256 key hdr.kid signed sig
      else if bytes_eq hdr.alg (codes "ES256")
      then check_es256 key hdr.kid signed sig
      else failed (unsupported_alg hdr.alg)

  unfoldable pub decode_unverified : Bytes → Checked TokenError Claims
  unfolding split_dots three_parts decoded
  decode_unverified token = three_parts (split_dots token) >>= λ parts.
      decoded parts.payload >>= λ payload. demand not_unmarshaled (tools.claims payload)

  unfoldable pub verify : Bytes → Keyset → Bytes → ℕ → Checked TokenError Claims
  unfolding split_dots three_parts decoded key_of check_signature check_claims
  verify token keys issuer now = three_parts (split_dots token) >>= λ parts.
      decoded parts.header >>= λ bytes. demand not_unmarshaled (tools.header bytes) >>= λ hdr.
      demand (unknown_key hdr.kid) (key_of hdr.kid keys) >>= λ key.
      decoded parts.signature >>= λ sig.
      check_signature hdr key (parts.header ++ codes "." ++ parts.payload) sig >>= λ _.
      decoded parts.payload >>= λ payload.
      demand not_unmarshaled (tools.claims payload) >>= λ c. check_claims issuer now c
