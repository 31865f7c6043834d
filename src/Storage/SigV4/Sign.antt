-- ===== src/Storage/SigV4/Sign.antt =====
-- internal/storage/sigv4.go: `signSigV4` and `presignSigV4`.
use gha_cache_server.Base.{
  Bool, List, [], ◌∷◌, ◌++◌, map, if◌then◌else◌, Bytes, codes, bytes_eq, is_empty,
}
use gha_cache_server.Base.Decimal.{format_int}
use gha_cache_server.Base.Int.{ℤ}
use gha_cache_server.Base.Order.{sort_strings}
use gha_cache_server.Db.Sql.{delete}
use gha_cache_server.Storage.SigV4.{
  Crypto, Request, Stamp, Signer, to_lower, hex_encode, query_escape, join_with,
}
use gha_cache_server.Storage.SigV4.Canonical.{
  canonical_uri, canonical_query, canonical_headers, host_of, value_of, or_nil,
}

-- `hashEmpty`
abbrev pub hash_empty : Bytes
hash_empty = codes "e3b0c44298fc1c149afbf4c8996fb92427ae41e4649b934ca495991b7852b855"

abbrev pub is_named : Bytes → Bytes × List Bytes → Bool
is_named k e = bytes_eq (to_lower e.0) (to_lower k)

-- `Header.Set`
unfoldable pub set_header : Bytes → Bytes → List (Bytes × List Bytes) → List (Bytes × List Bytes)
set_header k v header = (k, v ∷ []) ∷ delete (is_named k) header

-- `url.Values.Set`
unfoldable pub set_value : Bytes → Bytes → List (Bytes × List Bytes) → List (Bytes × List Bytes)
set_value k v q = (k, v ∷ []) ∷ delete (λ e. bytes_eq e.0 k) q

-- The pairs that `url.Values.Encode` writes, for the sorted keys.
unfoldable pub encode_keys : List (Bytes × List Bytes) → List Bytes → List Bytes
unfolding query_escape value_of
encode_keys q [] = []
encode_keys q (k ∷ keys) =
    map (λ v. query_escape k ++ (codes "=" ++ query_escape v)) (or_nil (value_of k q))
    ++ encode_keys q keys

-- `url.Values.Encode`
unfoldable pub encode : List (Bytes × List Bytes) → Bytes
unfolding encode_keys join_with
encode q = join_with (codes "&") (encode_keys q (sort_strings (map (λ e. e.0) q)))

module _ (crypto : Crypto) (now : Stamp) (signer : Signer) where
  open crypto use {sha256, hmac}

  abbrev pub cred_scope : Bytes
  cred_scope =
      join_with (codes "/")
        (now.date_stamp ∷ signer.region ∷ signer.service ∷ codes "aws4_request" ∷ [])

  unfoldable pub string_to_sign : Bytes → Bytes
  unfolding hex_encode join_with
  string_to_sign canonical =
      join_with (codes "\n")
        (codes "AWS4-HMAC-SHA256" ∷ now.amz_date ∷ cred_scope ∷ hex_encode (sha256 canonical) ∷ [])

  -- From `kDate` on.
  unfoldable pub signature_of : Bytes → Bytes
  unfolding hex_encode
  signature_of to_sign =
      let k_date = hmac (codes "AWS4" ++ signer.secret_key) now.date_stamp in
      let k_region = hmac k_date signer.region in
      let k_service = hmac k_region signer.service in
      let k_signing = hmac k_service (codes "aws4_request") in hex_encode (hmac k_signing to_sign)

  -- The headers that are set before the request is signed.
  unfoldable pub prepare : Bytes → Bytes → Request → Request
  unfolding set_header
  prepare session_token payload_hash r =
      let dated = set_header (codes "X-Amz-Date") now.amz_date r.header in
      let hashed = set_header (codes "X-Amz-Content-Sha256") payload_hash dated in
      record r {
        header =
            if is_empty session_token
            then hashed
            else set_header (codes "X-Amz-Security-Token") session_token hashed;
        host = host_of r;
      }

  -- `canonical`
  unfoldable pub canonical_request : Bytes → List (Bytes × List Bytes) → Request → Bytes
  unfolding canonical_uri join_with
  canonical_request payload_hash q r =
      let (canon_headers, signed_headers) = canonical_headers r in
      join_with (codes "\n") (
        r.method
        ∷ canonical_uri r.path
        ∷ canonical_query r.raw_query q
        ∷ canon_headers
        ∷ signed_headers
        ∷ payload_hash
        ∷ [])

  -- The value of `Authorization`.
  unfoldable pub authorization : Bytes → List (Bytes × List Bytes) → Request → Bytes
  unfolding canonical_request string_to_sign signature_of
  authorization payload_hash q r =
      codes "AWS4-HMAC-SHA256 Credential="
      ++ (signer.access_key
          ++ (codes "/"
              ++ (cred_scope
                  ++ (codes ", SignedHeaders="
                      ++ ((canonical_headers r).1
                          ++ (codes ", Signature="
                              ++ signature_of
                                  (string_to_sign (canonical_request payload_hash q r))))))))

  -- `signSigV4`, with the map of the request's query; the request that it leaves.
  unfoldable pub sign_sigv4 : Bytes → Bytes → List (Bytes × List Bytes) → Request → Request
  sign_sigv4 session_token payload_hash q r =
      let hash = if is_empty payload_hash then hash_empty else payload_hash in
      let r' = prepare session_token hash r in
      record r' { header = set_header (codes "Authorization") (authorization hash q r') r'.header }

  -- The query of `presignSigV4` before it is signed; `expires` is in seconds.
  unfoldable pub presign_query : ℤ → List (Bytes × List Bytes) → List (Bytes × List Bytes)
  unfolding set_value
  presign_query expires q = set_value (codes "X-Amz-SignedHeaders") (codes "host") (
      set_value (codes "X-Amz-Expires") (format_int expires) (
        set_value (codes "X-Amz-Date") now.amz_date (
          set_value (codes "X-Amz-Credential") (signer.access_key ++ (codes "/" ++ cred_scope))
            (set_value (codes "X-Amz-Algorithm") (codes "AWS4-HMAC-SHA256") q))))

  -- `canonical` of `presignSigV4`
  unfoldable pub presign_canonical : List (Bytes × List Bytes) → Request → Bytes
  unfolding canonical_uri join_with
  presign_canonical q r = join_with (codes "\n") (
      r.method
      ∷ canonical_uri r.path
      ∷ canonical_query (encode q) q
      ∷ (codes "host:" ++ (r.url_host ++ codes "\n"))
      ∷ codes "host"
      ∷ codes "UNSIGNED-PAYLOAD"
      ∷ [])

  -- `presignSigV4`, with the map of the request's query: the query of the URL that it returns.
  unfoldable pub presign_sigv4 : ℤ → List (Bytes × List Bytes) → Request → Bytes
  presign_sigv4 expires q r =
      let q' = presign_query expires q in
      encode (
        set_value (codes "X-Amz-Signature") (signature_of (string_to_sign (presign_canonical q' r)))
          q')
