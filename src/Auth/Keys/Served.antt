-- ===== src/Auth/Keys/Served.antt =====
-- internal/auth/jwks.go: the keys that are kept and returned are those of an answer of the issuer.
use gha_cache_server.Base.{
  ℕ, ◌+◌, ◌≤◌, ◌<◌, ◌≡◌, refl, ap, ◌∙◌, inl, inr, not, Option, none, some, List, [], ltb, ◌==◌,
  Bool-cases, arith,
}
use gha_cache_server.Base.Checked.{Checked, passed, failed}
use gha_cache_server.Auth.Tokens.{Keyset, Tools}
use gha_cache_server.Auth.Keys.{
  Jwk, KeyAnswer, unreachable, answered, KeysError, JwksFetcher, add_keys, take_answer, refresh,
  fetch_current, fetch,
}

module _ (tools : Tools) (answers : ℕ → KeyAnswer) where
  -- The keys of one of the first `n` answers, whose status was 200.
  abbrev pub IsServed : ℕ → Keyset → Type 0
  IsServed n keys =
      (k : ℕ) × (raw : List Jwk) × (k < n)
      × (answers k ≡ answered 200 (some raw))
      × (keys ≡ add_keys tools raw [])

  abbrev pub AreServed : ℕ → Option Keyset → Type 0
  AreServed n none = Unit
  AreServed n (some keys) = IsServed n keys

  pub AreServed-mono : (n m : ℕ) (o : Option Keyset) → n ≤ m → AreServed n o → AreServed m o
  AreServed-mono n m none le s = tt
  AreServed-mono n m (some keys) le (k, raw, lt, e, same) = (k, raw, omega arith, e, same)

  abbrev result_of : Checked KeysError Keyset → Option Keyset
  result_of (passed keys) = some keys
  result_of (failed e) = none

  -- What an operation leaves, which made `n` requests at most behind the first `before`.
  pub record IsKept (before n : ℕ) (p : Checked KeysError Keyset × JwksFetcher) : Type 0 where
    pub kept : AreServed p.1.requests p.1.current
    pub returned : AreServed p.1.requests (result_of p.0)
    pub more : before ≤ p.1.requests
    pub few : p.1.requests ≤ before + n

  module _ (times : ℕ → ℕ) where
    take_answer-IsKept :
        (a : KeyAnswer) (k : ℕ) (f : JwksFetcher)
        → answers k ≡ a
        → f.requests ≡ k + 1
        → AreServed f.requests f.current
        → IsKept k 1 (take_answer tools answers times a f)
    unfolding take_answer
    take_answer-IsKept unreachable k f e n s = record {
      kept = s;
      returned = tt;
      more = omega arith;
      few = omega arith;
    }
    take_answer-IsKept (answered status none) k f e n s = elim (Bool-cases (not (status == 200))) [
      | inl wrong ↦
          rw wrong record { kept = s; returned = tt; more = omega arith; few = omega arith }
      | inr right ↦
          rw right record { kept = s; returned = tt; more = omega arith; few = omega arith }
    ]
    take_answer-IsKept (answered status (some raw)) k f e n s =
        elim (Bool-cases (not (status == 200))) [
          | inl wrong ↦
              rw wrong record { kept = s; returned = tt; more = omega arith; few = omega arith }
          | inr right ↦
              let is_200 : status ≡ 200 = ground arith in
              let served : IsServed f.requests (add_keys tools raw []) =
                (k, raw, omega arith, e ∙ ap (λ x. answered x (some raw)) is_200, refl) in
              rw right
                record { kept = served; returned = served; more = omega arith; few = omega arith }
        ]

    pub refresh-IsKept :
        (f : JwksFetcher)
        → AreServed f.requests f.current
        → IsKept f.requests 1 (refresh tools answers times f)
    unfolding refresh
    refresh-IsKept f s =
        take_answer-IsKept (answers f.requests) f.requests (record f { requests = f.requests + 1 })
          refl refl (AreServed-mono f.requests (f.requests + 1) f.current (omega arith) s)

    pub fetch-IsKept :
        (f : JwksFetcher)
        → AreServed f.requests f.current
        → IsKept f.requests 1 (fetch tools answers times f)
    unfolding fetch
    fetch-IsKept f s = from_current f.current s
      where
        from_current :
            (o : Option Keyset)
            → AreServed f.requests o
            → IsKept f.requests 1 (fetch_current tools answers times o f)
        from_current none t = refresh-IsKept f s
        from_current (some keys) t = elim (Bool-cases (ltb (times f.readings) f.expires)) [
          | inl fresh ↦
              rw fresh record { kept = s; returned = t; more = omega arith; few = omega arith }
          | inr stale ↦ rw stale (refresh-IsKept (record f { readings = f.readings + 1 }) s)
        ]
