-- ===== src/Auth/Authorize/Sources.antt =====
-- internal/auth/scope.go: where the claims that `Authorize` reads come from.
use mathlib.Core.Path.{subst}
use gha_cache_server.Base.{
  ℕ, ◌+◌, ◌/◌, ◌≤◌, ◌≡◌, refl, ◌⊎◌, inl, inr, Bool, true, false, Bytes, arith,
}
use gha_cache_server.Base.Checked.{
  Checked, passed, failed, ◌>>=◌, Yields, Yields-failed, Yields-weaken,
}
use gha_cache_server.Auth.Scopes.{AuthResult}
use gha_cache_server.Auth.Tokens.{
  Claims, Keyset, Tools, TokenError, unknown_key, decode_unverified, verify,
}
use gha_cache_server.Auth.Tokens.Signed.{IsAccepted, verify-IsAccepted}
use gha_cache_server.Auth.Keys.{KeyAnswer, KeysError, JwksFetcher, refresh, fetch}
use gha_cache_server.Auth.Keys.Served.{IsServed, AreServed, IsKept, refresh-IsKept, fetch-IsKept}
use gha_cache_server.Auth.Authorize.{
  AuthError, rejecting, grant, verify_now, verify_again, refresh_unknown, verify_with, claims_of,
}
use gha_cache_server.Auth.Authorize.Claimed.{IsGrantOf, grant-IsGrantOf}

module _ (tools : Tools) where
  module _ (answers : ℕ → KeyAnswer) (times : ℕ → ℕ) (issuer : Bytes) where
    -- The claims are those of a token that was accepted under keys that the issuer has served.
    abbrev pub IsVerified : Bytes → ℕ → Claims → Type 0
    IsVerified token requests c =
        (keys : Keyset) × (now : ℕ) × IsServed tools answers requests keys
        × IsAccepted tools token keys issuer now c

    abbrev VerifiedBy : {E : Type 0} → Bytes → ℕ → Checked E Claims → Type 0
    VerifiedBy token requests (passed c) = IsVerified token requests c
    VerifiedBy token requests (failed e) = Unit

    record IsSound {E : Type 0} (token : Bytes) (before n : ℕ) (p : Checked E Claims × JwksFetcher)
        : Type 0 where
      kept : AreServed tools answers p.1.requests p.1.current
      verified : VerifiedBy token p.1.requests p.0
      more : before ≤ p.1.requests
      few : p.1.requests ≤ before + n

    verify_now-IsSound :
        (token : Bytes) (keys : Keyset) (before n : ℕ) (f : JwksFetcher)
        → IsKept tools answers before n (passed keys, f)
        → IsSound token before n (verify_now tools answers times issuer token keys f)
    unfolding verify_now
    verify_now-IsSound token keys before n f k = record {
      kept = k.kept;
      verified = by_result (verify tools token keys issuer now) refl;
      more = k.more;
      few = k.few;
    }
      where
        now : ℕ
        now = times f.readings / 1000000000

        by_result :
            (r : Checked TokenError Claims)
            → verify tools token keys issuer now ≡ r
            → VerifiedBy token f.requests r
        by_result (passed c) e =
            (keys, now, k.returned, verify-IsAccepted tools token keys issuer now c e)
        by_result (failed x) e = tt

    refresh_unknown-IsSound :
        (token : Bytes) (before : ℕ) (r : Checked TokenError Claims) (f : JwksFetcher)
        → IsSound token before 1 (r, f)
        → IsSound token before 2 (refresh_unknown tools answers times issuer token (r, f))
    unfolding refresh_unknown
    refresh_unknown-IsSound token before (failed (unknown_key kid)) f s =
        again (refresh tools answers times f).0 (refresh tools answers times f).1
          (refresh-IsKept tools answers times f s.kept)
      where
        again :
            (a : Checked KeysError Keyset) (g : JwksFetcher)
            → IsKept tools answers f.requests 1 (a, g)
            → IsSound token before 2 (verify_again tools answers times issuer token kid (a, g))
        again (failed e) g k =
            unfold verify_again in
            record {
              kept = k.kept;
              verified = tt;
              more = omega (arith, k.more, s.more);
              few = omega (arith, k.few, s.few);
            }
        again (passed keys) g k =
            unfold verify_again in
            verify_now-IsSound token keys before 2 g record {
              kept = k.kept;
              returned = k.returned;
              more = omega (arith, k.more, s.more);
              few = omega (arith, k.few, s.few);
            }
    refresh_unknown-IsSound token before (passed c) f s = record {
      kept = s.kept;
      verified = s.verified;
      more = s.more;
      few = omega (arith, s.few);
    }
    refresh_unknown-IsSound token before (failed e) f s = record {
      kept = s.kept;
      verified = s.verified;
      more = s.more;
      few = omega (arith, s.few);
    }

    VerifiedBy-rejecting :
        (token : Bytes) (n : ℕ) (r : Checked TokenError Claims)
        → VerifiedBy token n r
        → VerifiedBy token n (rejecting r)
    VerifiedBy-rejecting token n (passed c) v = v
    VerifiedBy-rejecting token n (failed e) v = tt

    verify_with-IsSound :
        (token : Bytes) (before : ℕ) (r : Checked KeysError Keyset) (f : JwksFetcher)
        → IsKept tools answers before 1 (r, f)
        → IsSound token before 2 (verify_with tools answers times issuer token (r, f))
    unfolding verify_with
    verify_with-IsSound token before (failed e) f k = record {
      kept = k.kept;
      verified = tt;
      more = k.more;
      few = omega (arith, k.few);
    }
    verify_with-IsSound token before (passed keys) f k =
        let first = verify_now tools answers times issuer token keys f in
        let s =
          refresh_unknown-IsSound token before first.0 first.1
            (verify_now-IsSound token keys before 1 f k) in
        record {
          kept = s.kept;
          verified = VerifiedBy-rejecting token _ _ s.verified;
          more = s.more;
          few = s.few;
        }

    -- The claims of the token, which are verified unless that is switched off.
    abbrev pub AreTrusted : Bool → Bytes → ℕ → Claims → Type 0
    AreTrusted skip token requests c =
        ((skip ≡ true) × (decode_unverified tools token ≡ passed c))
        ⊎ ((skip ≡ false) × IsVerified token requests c)

    pub record IsAuthorizing (f : JwksFetcher) (p : Checked AuthError AuthResult × JwksFetcher)
        (skip : Bool) (token : Bytes) : Type 0 where
      pub kept : AreServed tools answers p.1.requests p.1.current
      pub granted :
          Yields
            (λ res. (c : Claims) × AreTrusted skip token p.1.requests c × IsGrantOf tools c res)
            p.0
      pub more : f.requests ≤ p.1.requests
      pub few : p.1.requests ≤ f.requests + 2

    granted_of :
        (skip : Bool) (token : Bytes) (n : ℕ) (r : Checked AuthError Claims)
        → ((c : Claims) → r ≡ passed c → AreTrusted skip token n c)
        → Yields
            (λ res. (c : Claims) × AreTrusted skip token n c × IsGrantOf tools c res)
            (r >>= grant tools)
    granted_of skip token n (failed e) t = Yields-failed e
    granted_of skip token n (passed c) t =
        Yields-weaken _ (λ res g. (c, t c refl, g)) (grant-IsGrantOf tools c)

    pub claims_of-IsAuthorizing :
        (skip : Bool) (token : Bytes) (f : JwksFetcher)
        → AreServed tools answers f.requests f.current
        → let p = claims_of tools answers times issuer skip token f in
          IsAuthorizing f (p.0 >>= grant tools, p.1) skip token
    unfolding claims_of
    claims_of-IsAuthorizing true token f s = record {
      kept = s;
      granted =
          granted_of true token f.requests (rejecting (decode_unverified tools token))
            (λ c e. inl (refl, unrejected (decode_unverified tools token) e));
      more = omega arith;
      few = omega arith;
    }
      where
        unrejected :
            {c : Claims} (r : Checked TokenError Claims) → rejecting r ≡ passed c → r ≡ passed c
        unrejected (passed c) e = cc e
        unrejected (failed x) e = absurd (cc e)
    claims_of-IsAuthorizing false token f s =
        let k = fetch-IsKept tools answers times f s in
        let fetched = fetch tools answers times f in
        let v = verify_with-IsSound token f.requests fetched.0 fetched.1 k in
        let out = verify_with tools answers times issuer token fetched in
        record {
          kept = v.kept;
          granted =
              granted_of false token out.1.requests out.0
                (λ c e. inr (refl, subst (VerifiedBy token out.1.requests) e v.verified));
          more = v.more;
          few = v.few;
        }
