-- ===== src/Auth/Tokens/Signed.antt =====
-- internal/auth/jwt.go: what `Verify` has tested of a token that it accepts.
use mathlib.Core.Path.{subst}
use gha_cache_server.Base.{
  ℕ, ◌≡◌, refl, sym, ap, ◌∙◌, ◌⊎◌, inl, inr, true, false, not, Option, none, some, List, [], ◌∷◌,
  ◌++◌, length, take, drop, ◌==◌, Bool-cases, Bytes, codes, bytes_eq_sound, arith,
}
use gha_cache_server.Base.Checked.{
  passed, Yields, Yields-passed, Yields-failed, Yields-if, Yields-weaken, Yields-bind,
}
use gha_cache_server.Base.Int.{ℤ, pos, ltb_ℤ}
use gha_cache_server.Auth.Tokens.{
  Claim, text, number, other, Claims, Key, rsa_key, ecdsa_key, Keyset, key_of, Header, Tools,
  TokenError, onto_first, split_dots, Parts, three_parts, set_bytes, demand, text_of, decoded,
  check_rs256, check_es256, check_signature, check_expiry, check_claims, verify,
}

-- `strings.Join(parts, ".")`
abbrev pub join_dots : List Bytes → Bytes
join_dots [] = []
join_dots (p ∷ []) = p
join_dots (p ∷ q ∷ r) = p ++ codes "." ++ join_dots (q ∷ r)

join_dots-onto_first : (c : ℕ) (ps : List Bytes) → join_dots (onto_first c ps) ≡ c ∷ join_dots ps
join_dots-onto_first c [] = refl
join_dots-onto_first c (p ∷ []) = refl
join_dots-onto_first c (p ∷ q ∷ r) = refl

split_dots-first : (s : Bytes) → (p : Bytes) × (ps : List Bytes) × (split_dots s ≡ p ∷ ps)
unfolding split_dots
split_dots-first [] = ([], [], refl)
split_dots-first (c ∷ s) =
    let (p, ps, e) = split_dots-first s in
    elim (Bool-cases (c == b'.')) [
      | inl dot ↦ rw dot ([], split_dots s, refl)
      | inr plain ↦ rw plain (rw e (c ∷ p, ps, refl))
    ]

join_dots-split_dots : (s : Bytes) → join_dots (split_dots s) ≡ s
unfolding split_dots
join_dots-split_dots [] = refl
join_dots-split_dots (c ∷ s) =
    let (p, ps, e) = split_dots-first s in
    let rest : join_dots (p ∷ ps) ≡ s = subst (λ l. join_dots l ≡ s) e (join_dots-split_dots s) in
    elim (Bool-cases (c == b'.')) [
      | inl dot ↦ let same : c ≡ b'.' = ground arith in rw dot (rw e (rw (same, rest) refl))
      | inr plain ↦
          rw plain
            (join_dots-onto_first c (split_dots s) ∙ ap (λ r. c ∷ r) (join_dots-split_dots s))
    ]

three_parts-join :
    (token : Bytes)
    → Yields
        (λ parts. token ≡ join_dots (parts.header ∷ parts.payload ∷ parts.signature ∷ []))
        (three_parts (split_dots token))
three_parts-join token = joined (split_dots token) (join_dots-split_dots token)
  where
    joined :
        (ps : List Bytes)
        → join_dots ps ≡ token
        → Yields
            (λ parts. token ≡ join_dots (parts.header ∷ parts.payload ∷ parts.signature ∷ []))
            (three_parts ps)
    joined (h ∷ p ∷ s ∷ []) e = unfold three_parts in Yields-passed _ (sym e)
    joined [] e = unfold three_parts in Yields-failed _
    joined (h ∷ []) e = unfold three_parts in Yields-failed _
    joined (h ∷ p ∷ []) e = unfold three_parts in Yields-failed _
    joined (h ∷ p ∷ s ∷ q ∷ r) e = unfold three_parts in Yields-failed _

demand-some : {A : Type 0} (e : TokenError) (o : Option A) → Yields (λ a. o ≡ some a) (demand e o)
demand-some e none = Yields-failed e
demand-some e (some a) = Yields-passed a refl

-- The time has not come, where the claim is a number.
abbrev pub IsAhead : ℕ → Option Claim → Type 0
IsAhead now (some (number exp)) = ltb_ℤ exp (pos now) ≡ false
IsAhead now _ = Unit

check_claims-issued :
    (issuer : Bytes) (now : ℕ) (c : Claims)
    → Yields
        (λ r. (r ≡ c) × (text_of (c (codes "iss")) ≡ issuer) × IsAhead now (c (codes "exp")))
        (check_claims issuer now c)
unfolding check_claims
check_claims-issued issuer now c =
    Yields-if _ _ _ (λ same. ahead (c (codes "exp")) (bytes_eq_sound _ _ same))
      (λ other. Yields-failed _)
  where
    ahead :
        (exp : Option Claim)
        → text_of (c (codes "iss")) ≡ issuer
        → Yields
            (λ r. (r ≡ c) × (text_of (c (codes "iss")) ≡ issuer) × IsAhead now exp)
            (check_expiry now c exp)
    ahead none same = Yields-passed c (refl, same, tt)
    ahead (some (text t)) same = Yields-passed c (refl, same, tt)
    ahead (some (number exp)) same =
        Yields-if _ _ _ (λ past. Yields-failed _) (λ fresh. Yields-passed c (refl, same, fresh))
    ahead (some other) same = Yields-passed c (refl, same, tt)

module _ (tools : Tools) where
  -- The signature is that of the key under the algorithm of the header.
  abbrev pub HasSignature : Header → Key → Bytes → Bytes → Type 0
  HasSignature hdr key signed sig =
      ((hdr.alg ≡ codes "RS256")
        × (n : ℕ) × (e : ℤ) × (key ≡ rsa_key n e)
        × (tools.rsa_verify n e (tools.sha256 signed) sig ≡ true))
      ⊎ ((hdr.alg ≡ codes "ES256")
          × (x : ℕ) × (y : ℕ) × (key ≡ ecdsa_key x y)
          × (length sig ≡ 64)
          × (tools.ecdsa_verify x y (tools.sha256 signed) (set_bytes 0 (take 32 sig))
                (set_bytes 0 (drop 32 sig))
              ≡ true))

  pub record IsAccepted (token : Bytes) (keys : Keyset) (issuer : Bytes) (now : ℕ) (c : Claims)
      : Type 0 where
    pub parts : Parts
    pub hdr : Header
    pub key : Key
    pub sig : Bytes
    pub header_bytes : Bytes
    pub payload_bytes : Bytes
    pub joined : token ≡ join_dots (parts.header ∷ parts.payload ∷ parts.signature ∷ [])
    pub header_decoded : tools.base64 parts.header ≡ (header_bytes, true)
    pub header_read : tools.header header_bytes ≡ some hdr
    pub known : key_of hdr.kid keys ≡ some key
    pub signature_decoded : tools.base64 parts.signature ≡ (sig, true)
    pub signed : HasSignature hdr key (parts.header ++ codes "." ++ parts.payload) sig
    pub payload_decoded : tools.base64 parts.payload ≡ (payload_bytes, true)
    pub payload_read : tools.claims payload_bytes ≡ some c
    pub issued : text_of (c (codes "iss")) ≡ issuer
    pub current : IsAhead now (c (codes "exp"))

  decoded-all : (s : Bytes) → Yields (λ bytes. tools.base64 s ≡ (bytes, true)) (decoded tools s)
  unfolding decoded
  decoded-all s =
      Yields-if (tools.base64 s).1 _ _ (λ whole. Yields-passed _ (ground arith))
        (λ part. Yields-failed _)

  check_signature-HasSignature :
      (hdr : Header) (key : Key) (signed sig : Bytes)
      → Yields (λ _. HasSignature hdr key signed sig) (check_signature tools hdr key signed sig)
  unfolding check_signature
  check_signature-HasSignature hdr key signed sig =
      Yields-if _ _ _ (λ rs256. rsa key (bytes_eq_sound _ _ rs256))
        λ no_rs256.
          Yields-if _ _ _ (λ es256. ecdsa key (bytes_eq_sound _ _ es256))
            (λ no_es256. Yields-failed _)
    where
      rsa :
          (k : Key)
          → hdr.alg ≡ codes "RS256"
          → Yields (λ _. HasSignature hdr k signed sig) (check_rs256 tools k hdr.kid signed sig)
      rsa (rsa_key n e) alg =
          unfold check_rs256 in
          Yields-if _ _ _ (λ good. Yields-passed tt (inl (alg, n, e, refl, good)))
            (λ bad. Yields-failed _)
      rsa (ecdsa_key x y) alg = unfold check_rs256 in Yields-failed _

      ecdsa :
          (k : Key)
          → hdr.alg ≡ codes "ES256"
          → Yields (λ _. HasSignature hdr k signed sig) (check_es256 tools k hdr.kid signed sig)
      ecdsa (rsa_key n e) alg = unfold check_es256 in Yields-failed _
      ecdsa (ecdsa_key x y) alg =
          unfold check_es256 in
          Yields-if _ _ _ (λ long. Yields-failed _)
            λ (fits : not (length sig == 64) ≡ false).
              Yields-if _ _ _ (λ good. Yields-passed tt (inr (alg, x, y, refl, ground arith, good)))
                (λ bad. Yields-failed _)

  -- A token that `Verify` accepts is three parts joined by dots; the set of keys has a key under the
  -- name in the decoded header; the third part is a signature of the first two under that key and the
  -- header's algorithm, of 64 bytes for ES256; and the claims are those of the second part, have the
  -- expected issuer, and are not expired if they say when.
  pub verify-IsAccepted :
      (token : Bytes) (keys : Keyset) (issuer : Bytes) (now : ℕ) (c : Claims)
      → verify tools token keys issuer now ≡ passed c
      → IsAccepted token keys issuer now c
  unfolding verify
  verify-IsAccepted token keys issuer now c e = known.from c e
    where
      known : Yields (λ r. IsAccepted token keys issuer now r) (verify tools token keys issuer now)
      known = Yields-bind _ _ _ (three_parts-join token) λ parts joined.
          Yields-bind _ _ _ (decoded-all parts.header) λ hb header_decoded.
            Yields-bind _ _ _ (demand-some _ (tools.header hb)) λ hdr header_read.
              Yields-bind _ _ _ (demand-some _ (key_of hdr.kid keys)) λ key known.
                Yields-bind _ _ _ (decoded-all parts.signature) λ sig signature_decoded.
                  Yields-bind _ _ _ (check_signature-HasSignature hdr key _ sig) λ _ signed.
                    Yields-bind _ _ _ (decoded-all parts.payload) λ pb payload_decoded.
                      Yields-bind _ _ _ (demand-some _ (tools.claims pb)) λ c payload_read.
                        Yields-weaken _
                          (λ r (same, issued, current). record {
                            parts = parts;
                            hdr = hdr;
                            key = key;
                            sig = sig;
                            header_bytes = hb;
                            payload_bytes = pb;
                            joined = joined;
                            header_decoded = header_decoded;
                            header_read = header_read;
                            known = known;
                            signature_decoded = signature_decoded;
                            signed = signed;
                            payload_decoded = payload_decoded;
                            payload_read = payload_read ∙ ap some (sym same);
                            issued = ap (λ (x : Claims). text_of (x (codes "iss"))) same ∙ issued;
                            current =
                                subst (λ (x : Claims). IsAhead now (x (codes "exp"))) (sym same)
                                  current;
                          })
                          (check_claims-issued issuer now c)
