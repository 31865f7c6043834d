-- ===== src/Auth/Authorize/Tests.antt =====
-- Tokens, keys and authorizations at concrete values.
use gha_cache_server.Base.{
  ℕ, ◌≤◌, ◌≡◌, refl, true, false, none, some, List, [], ◌∷◌, ◌++◌, if◌then◌else◌, Bytes, codes,
  bytes_eq, has_prefix,
}
use gha_cache_server.Base.Checked.{Checked, passed, failed}
use gha_cache_server.Base.Decimal.{format_int}
use gha_cache_server.Base.Int.{pos}
use gha_cache_server.Auth.Scopes.{Scope, AuthResult}
use gha_cache_server.Auth.Tokens.{
  text, number, Claims, rsa_key, Keyset, Tools, token_expired, verify,
}
use gha_cache_server.Auth.Tokens.Signed.{IsAccepted, verify-IsAccepted}
use gha_cache_server.Auth.Keys.{Jwk, KeyAnswer, answered, JwksFetcher, add_keys, fetch}
use gha_cache_server.Auth.Keys.Served.{AreServed}
use gha_cache_server.Auth.Authorize.{AuthError, authorize}
use gha_cache_server.Auth.Authorize.Claimed.{IsGrantOf}
use gha_cache_server.Auth.Authorize.Sources.{AreTrusted}
use gha_cache_server.Auth.Authorize.Granted.{authorize-IsGranted, authorize-AreServed}

abbrev write_scope_s : List Scope
write_scope_s = record { scope = codes "s"; permission = pos 2 } ∷ []

abbrev example_claims : Claims
example_claims name =
    if bytes_eq name (codes "iss")
    then some (text (codes "i"))
    else if bytes_eq name (codes "ac")
    then some (text (codes "a"))
    else if bytes_eq name (codes "repository_id")
    then some (number (pos 7))
    else if bytes_eq name (codes "exp")
    then some (number (pos 9))
    else none

-- Every text decodes to itself, and the signature is the text "s".
abbrev example_tools : Tools
example_tools = record {
  base64 = λ s. (s, true);
  header = λ s. some (record { alg = codes "RS256"; kid = s });
  claims = λ s. some example_claims;
  scopes = λ s. some write_scope_s;
  sha256 = λ s. s;
  rsa_verify = λ n e digest sig. bytes_eq sig (codes "s");
  ecdsa_verify = λ x y digest r s. false;
}

abbrev jwk_h : Jwk
jwk_h = record {
  kty = codes "RSA";
  kid = codes "h";
  n = 5 ∷ [];
  e = 1 ∷ 0 ∷ 1 ∷ [];
  crv = [];
  x = [];
  y = [];
}

abbrev keys_h : Keyset
keys_h = (codes "h", rsa_key 5 (pos 65537)) ∷ []

abbrev example_answers : ℕ → KeyAnswer
example_answers k = answered 200 (some (jwk_h ∷ []))

abbrev example_times : ℕ → ℕ
example_times n = n

abbrev no_keys : JwksFetcher
no_keys = record { current = none; expires = 0; requests = 0; readings = 0 }

abbrev result : AuthResult
result = record { repo_id = codes "7"; scopes = write_scope_s }

abbrev run : Checked AuthError AuthResult × JwksFetcher
run =
    authorize example_tools example_answers example_times (codes "i") false (codes "Bearer h.p.s")
      no_keys

granted : run.0 ≡ passed result
unfolding authorize fetch verify has_prefix bytes_eq add_keys format_int
granted = refl

-- A key that is not served is looked for twice.
twice_asked :
    (authorize example_tools example_answers example_times
      (codes "i")
      false
      (codes "Bearer x.p.s")
      no_keys).1.requests
    ≡ 2
unfolding authorize fetch verify has_prefix bytes_eq add_keys
twice_asked = refl

expired : verify example_tools (codes "h.p.s") keys_h (codes "i") 10 ≡ failed token_expired
unfolding verify bytes_eq
expired = refl

accepted : verify example_tools (codes "h.p.s") keys_h (codes "i") 9 ≡ passed example_claims
unfolding verify bytes_eq
accepted = refl

verify-IsAccepted_example :
    IsAccepted example_tools (codes "h.p.s") keys_h (codes "i") 9 example_claims
verify-IsAccepted_example =
    verify-IsAccepted example_tools (codes "h.p.s") keys_h (codes "i") 9 example_claims accepted

authorize-IsGranted_example :
    (token : Bytes) × (c : Claims) × (codes "Bearer h.p.s" ≡ codes "Bearer " ++ token)
    × AreTrusted example_tools example_answers example_times
        (codes "i")
        false
        token
        run.1.requests
        c
    × IsGrantOf example_tools c result
authorize-IsGranted_example =
    authorize-IsGranted example_tools example_answers example_times (codes "i") false
      (codes "Bearer h.p.s") no_keys result tt granted

authorize-AreServed_example :
    AreServed example_tools example_answers run.1.requests run.1.current
    × (0 ≤ run.1.requests)
    × (run.1.requests ≤ 2)
authorize-AreServed_example =
    authorize-AreServed example_tools example_answers example_times (codes "i") false
      (codes "Bearer h.p.s") no_keys tt
