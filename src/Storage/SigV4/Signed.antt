-- ===== src/Storage/SigV4/Signed.antt =====
-- internal/storage/sigv4.go: the signatures do not depend on the order in which a loop meets the
-- pairs of a map.
use mathlib.Core.Path.{subst}
use mathlib.Core.List.{Permᴰ}
use gha_cache_server.Base.{
  ◌≡◌, refl, ap, ◌∙◌, List, [], ◌∷◌, map, if◌then◌else◌, Bytes, codes, bytes_eq, bytes_eq_iff,
  is_empty,
}
use gha_cache_server.Base.Int.{ℤ}
use gha_cache_server.Base.Order.{sort_strings, sort_strings-perm}
use gha_cache_server.Db.Sql.Laws.{exists-delete_self, delete-IsUnique}
use gha_cache_server.Db.Sql.Reordered.{delete-reordered, map-reordered}
use gha_cache_server.Storage.SigV4.{Crypto, Request, Stamp, Signer, to_lower}
use gha_cache_server.Storage.SigV4.Sign.{
  hash_empty, is_named, set_header, set_value, encode_keys, encode, prepare, canonical_request,
  authorization, sign_sigv4, presign_query, presign_canonical, presign_sigv4, signature_of,
  string_to_sign,
}
use gha_cache_server.Storage.SigV4.Reordered.{
  HasKeys, HasNames, value_of-reordered, canonical_query-reordered, canonical_headers-reordered,
}

-- Two orders of a map.
pub record AreOrders (P : List (Bytes × List Bytes) → Type 0) (l r : List (Bytes × List Bytes))
    : Type 0 where
  pub perm : Permᴰ l r
  pub distinct : P l

module _ (k v : Bytes) (l r : List (Bytes × List Bytes)) where
  set_header-AreOrders :
      AreOrders HasNames l r → AreOrders HasNames (set_header k v l) (set_header k v r)
  unfolding set_header
  set_header-AreOrders o = record {
    perm = Permᴰ.cons refl (delete-reordered (is_named k) l r o.perm);
    distinct = (
      exists-delete_self (is_named k) l,
      delete-IsUnique (λ e. to_lower e.0) bytes_eq bytes_eq_iff (is_named k) l o.distinct,
    );
  }

  set_value-AreOrders :
      AreOrders HasKeys l r → AreOrders HasKeys (set_value k v l) (set_value k v r)
  unfolding set_value
  set_value-AreOrders o = record {
    perm = Permᴰ.cons refl (delete-reordered (λ e. bytes_eq e.0 k) l r o.perm);
    distinct = (
      exists-delete_self (λ e. bytes_eq e.0 k) l,
      delete-IsUnique (λ e. e.0) bytes_eq bytes_eq_iff (λ e. bytes_eq e.0 k) l o.distinct,
    );
  }

set_header-same :
    (k : Bytes) {v w : Bytes} {l r : List (Bytes × List Bytes)}
    → v ≡ w
    → AreOrders HasNames l r
    → AreOrders HasNames (set_header k v l) (set_header k w r)
set_header-same k {v} {w} {l} {r} e o =
    subst (λ x. AreOrders HasNames (set_header k v l) (set_header k x r)) e
      (set_header-AreOrders k v l r o)

encode-same : (l r : List (Bytes × List Bytes)) → AreOrders HasKeys l r → encode l ≡ encode r
unfolding encode
encode-same l r o = rw (sorted, keys-same (sort_strings (map (λ e. e.0) r))) refl
  where
    sorted : sort_strings (map (λ e. e.0) l) ≡ sort_strings (map (λ e. e.0) r)
    sorted = sort_strings-perm _ _ (map-reordered (λ e. e.0) l r o.perm)

    keys-same : (keys : List Bytes) → encode_keys l keys ≡ encode_keys r keys
    keys-same [] = unfold encode_keys in refl
    keys-same (k ∷ keys) =
        unfold encode_keys in rw (value_of-reordered k l r o.perm o.distinct, keys-same keys) refl

set_value-same :
    (k : Bytes) {v w : Bytes} {l r : List (Bytes × List Bytes)}
    → v ≡ w
    → AreOrders HasKeys l r
    → encode (set_value k v l) ≡ encode (set_value k w r)
set_value-same k {v} {w} {l} {r} e o =
    encode-same _ _ (set_value-AreOrders k v l r o) ∙ ap (λ x. encode (set_value k x r)) e

module _ (crypto : Crypto) (now : Stamp) (signer : Signer) where
  prepare-AreOrders :
      (session_token payload_hash : Bytes) (r : Request) (header : List (Bytes × List Bytes))
      → AreOrders HasNames r.header header
      → let r' = record r { header = header } in
        AreOrders HasNames
          (prepare crypto now signer session_token payload_hash r).header
          (prepare crypto now signer session_token payload_hash r').header
  unfolding prepare
  prepare-AreOrders [] payload_hash r header o =
      set_header-AreOrders _ payload_hash _ _ (set_header-AreOrders _ now.amz_date _ _ o)
  prepare-AreOrders (c ∷ token) payload_hash r header o =
      set_header-AreOrders _ (c ∷ token) _ _
        (set_header-AreOrders _ payload_hash _ _ (set_header-AreOrders _ now.amz_date _ _ o))

  authorization-same :
      (payload_hash : Bytes) (q q' : List (Bytes × List Bytes)) (r : Request)
      (header : List (Bytes × List Bytes))
      → AreOrders HasKeys q q'
      → AreOrders HasNames r.header header
      → authorization crypto now signer payload_hash q r
        ≡ authorization crypto now signer payload_hash q' (record r { header = header })
  unfolding authorization canonical_request
  authorization-same payload_hash q q' r header oq oh =
      rw
        (
          canonical_headers-reordered r header oh.perm oh.distinct,
          canonical_query-reordered r.raw_query q q' oq.perm oq.distinct,
        )
        refl

  presign_query-AreOrders :
      (expires : ℤ) (q q' : List (Bytes × List Bytes))
      → AreOrders HasKeys q q'
      → AreOrders HasKeys
          (presign_query crypto now signer expires q)
          (presign_query crypto now signer expires q')
  unfolding presign_query
  presign_query-AreOrders expires q q' o = set_value-AreOrders _ _ _ _ (
      set_value-AreOrders _ _ _ _
        (set_value-AreOrders _ _ _ _ (set_value-AreOrders _ _ _ _ (set_value-AreOrders _ _ _ _ o))))

  presign_canonical-same :
      (q q' : List (Bytes × List Bytes)) (r : Request) (header : List (Bytes × List Bytes))
      → AreOrders HasKeys q q'
      → presign_canonical crypto now signer q r
        ≡ presign_canonical crypto now signer q' (record r { header = header })
  unfolding presign_canonical
  presign_canonical-same q q' r header o =
      rw (encode-same q q' o, canonical_query-reordered (encode q') q q' o.perm o.distinct) refl

  -- A request whose header and query come in another order, with the same pairs and each name once,
  -- gets the same headers from `signSigV4`, in some order, the signature among them, and the same
  -- query from `presignSigV4`.
  pub sign_sigv4-AreOrders :
      (session_token payload_hash : Bytes) (expires : ℤ) (q q' : List (Bytes × List Bytes))
      (r : Request) (header : List (Bytes × List Bytes))
      → AreOrders HasKeys q q'
      → AreOrders HasNames r.header header
      → let r' = record r { header = header } in
        AreOrders HasNames
          (sign_sigv4 crypto now signer session_token payload_hash q r).header
          (sign_sigv4 crypto now signer session_token payload_hash q' r').header
        × (presign_sigv4 crypto now signer expires q r
            ≡ presign_sigv4 crypto now signer expires q' r')
  unfolding sign_sigv4 presign_sigv4 prepare
  sign_sigv4-AreOrders session_token payload_hash expires q q' r header oq oh =
      let hash = if is_empty payload_hash then hash_empty else payload_hash in
      let p = prepare crypto now signer session_token hash r in
      let p' = prepare crypto now signer session_token hash (record r { header = header }) in
      let prepared = prepare-AreOrders session_token hash r header oh in
      let asked = presign_query-AreOrders expires q q' oq in
      (
        set_header-same (codes "Authorization")
            (authorization-same hash q q' p p'.header oq prepared) prepared,
        set_value-same (codes "X-Amz-Signature")
            (ap (λ c. signature_of crypto now signer (string_to_sign crypto now signer c))
              (presign_canonical-same _ _ r header asked))
            asked,
      )
