-- ===== src/Storage/Gcs/Tokens.antt =====
-- internal/storage/gcs.go: the access token is that of the cache or of an answer of the exchange.
use gha_cache_server.Base.{
  ℕ, ◌≡◌, refl, sym, ap, ◌∙◌, ◌⊎◌, inl, inr, true, false, Option, none, some, leb, Bytes,
}
use gha_cache_server.Action.{Error, storage_failed, ok, gets, modify}
use gha_cache_server.Action.Ensures.{
  Ensures, Ensures-pure, Ensures-fail, Ensures-if, Ensures-weaken, Ensures-known, Ensures-bind,
  Ensures-if_nil,
}
use gha_cache_server.Storage.Net.{HttpAnswer, check_status, required}
use gha_cache_server.Storage.Gcs.{
  TokenAnswer, GcsAdapter, Gcs, seconds, add_time, storing, is_valid, exchange_token, auth_token,
}

-- An answer with a status that is no error, whose body has been read.
pub Ensures-check_status :
    {S L : Type 0} (P : S → Type 0) (answer : HttpAnswer L)
    → Ensures P (check_status answer) (λ r s. P s × (r ≡ answer) × (leb 400 answer.status ≡ false))
unfolding check_status
Ensures-check_status P answer =
    Ensures-if (leb 400 answer.status) _ _ (λ bad. Ensures-fail storage_failed)
      (λ good. Ensures-pure answer (λ s p. (p, refl, good)))

pub Ensures-required :
    {S A : Type 0} (P : S → Type 0) (e : Error) (o : Option A)
    → Ensures P (required e o) (λ a s. P s × (o ≡ some a))
Ensures-required P e none = Ensures-fail e
Ensures-required P e (some a) = Ensures-pure a (λ s p. (p, refl))

module _ {S : Type 0} (gcs : Gcs S) (sign : ℕ → Option Bytes) (a : GcsAdapter S) where
  -- The token was exchanged at the time of the store for an assertion of that time, and is kept with
  -- its end.
  pub record IsExchanged (t : Bytes) (x : GcsAdapter S) : Type 0 where
    pub jwt : Bytes
    pub answer : HttpAnswer TokenAnswer
    pub body : TokenAnswer
    pub signed : sign (gcs.clock a.store) ≡ some jwt
    pub answered : gcs.exchange jwt a.store ≡ (ok answer, x.store)
    pub good : leb 400 answer.status ≡ false
    pub read : answer.listing ≡ some body
    pub given : t ≡ body.access_token
    pub kept : x.token ≡ t
    pub until : x.tok_exp ≡ add_time (gcs.clock a.store) (seconds body.expires_in)

  abbrev Asked : Bytes → HttpAnswer TokenAnswer → GcsAdapter S → Type 0
  Asked jwt answer x =
      (s : S) × (gcs.exchange jwt a.store ≡ (ok answer, s)) × (x ≡ record a { store = s })

  storing-Asked : (jwt : Bytes) → Ensures (λ x. x ≡ a) (storing gcs (gcs.exchange jwt)) (Asked jwt)
  unfolding storing
  storing-Asked jwt = record {
    from = λ x answer same e.
        let answered : (gcs.exchange jwt a.store).0 ≡ ok answer =
          ap (λ (y : GcsAdapter S). (gcs.exchange jwt y.store).0) (sym same) ∙ e in
        (
          (gcs.exchange jwt a.store).1,
          ap (λ r. (r, (gcs.exchange jwt a.store).1)) answered,
          ap (λ (y : GcsAdapter S). record y { store = (gcs.exchange jwt y.store).1 }) same,
        );
  }

  exchange_token-IsExchanged :
      Ensures (λ x. x ≡ a) (exchange_token gcs sign (gcs.clock a.store)) IsExchanged
  unfolding exchange_token modify
  exchange_token-IsExchanged =
      Ensures-if_nil (sign (gcs.clock a.store)) _ _ (λ unsigned. Ensures-fail storage_failed)
        λ jwt signed.
          Ensures-bind (storing gcs (gcs.exchange jwt)) _ (Asked jwt) (storing-Asked jwt) λ answer.
            Ensures-bind (check_status answer) _ _ (Ensures-check_status (Asked jwt answer) answer)
              λ checked.
                Ensures-bind (required storage_failed checked.listing) _ _
                  (Ensures-required _ storage_failed checked.listing)
                  λ body.
                    Ensures-bind (modify _) _ (λ _ x. IsExchanged body.access_token x)
                      (record { from = λ x u h e. kept jwt signed answer checked body x h })
                      λ _. Ensures-pure body.access_token (λ x h. h)
    where
      kept :
          (jwt : Bytes)
          → sign (gcs.clock a.store) ≡ some jwt
          → (answer checked : HttpAnswer TokenAnswer) (body : TokenAnswer) (x : GcsAdapter S)
          → (Asked jwt answer x × (checked ≡ answer) × (leb 400 answer.status ≡ false))
            × (checked.listing ≡ some body)
          → IsExchanged body.access_token (record x {
            token = body.access_token;
            tok_exp = add_time (gcs.clock a.store) (seconds body.expires_in);
          })
      kept jwt signed answer checked body x ((asked, same, good), read) = record {
        jwt = jwt;
        answer = answer;
        body = body;
        signed = signed;
        answered =
            asked.1 ∙ ap (λ s. (ok answer, s)) (sym (ap (λ (y : GcsAdapter S). y.store) asked.2));
        good = good;
        read = ap (λ (y : HttpAnswer TokenAnswer). y.listing) (sym same) ∙ read;
        given = refl;
        kept = refl;
        until = refl;
      }

  auth_token-current :
      gcs.credentials ≡ some sign
      → Ensures
          (λ x. x ≡ a)
          (auth_token gcs)
          (λ t x.
            ((is_valid gcs a ≡ true) × (x ≡ a) × (t ≡ a.token))
            ⊎ ((is_valid gcs a ≡ false) × IsExchanged t x))
  unfolding auth_token gets
  auth_token-current given =
      Ensures-if_nil gcs.credentials _ _ (λ absent. absurd (cc (sym absent ∙ given)))
        λ sign' same.
          let signer : sign' ≡ sign = cc (sym same ∙ given) in
          rw signer (
            Ensures-bind (gets λ x. x) _ (λ b x. (b ≡ a) × (x ≡ a))
              (record { from = λ x b h e. (sym (cc e) ∙ h, h) })
              λ b.
                Ensures-known _ (λ x h. h.0)
                  λ b_is. rw b_is (
                    Ensures-weaken _ (λ x h. h.1)
                      (Ensures-if (is_valid gcs a) _ _
                        (λ valid. Ensures-pure a.token (λ x h. inl (valid, h, refl)))
                        (λ stale. record {
                          from = λ x t h e. inr (stale, exchange_token-IsExchanged.from x t h e);
                        }))))

-- With a service account, a token that `authToken` returns is the cached one, which is good for more
-- than a minute and for which nothing is sent, or it was exchanged for a signed assertion of that
-- time, with a status that is no error, and is kept until the end that the answer gives.
pub auth_token-IsExchanged :
    {S : Type 0} (gcs : Gcs S) (sign : ℕ → Option Bytes) (a : GcsAdapter S) (t : Bytes)
    → gcs.credentials ≡ some sign
    → (auth_token gcs a).0 ≡ ok t
    → ((is_valid gcs a ≡ true) × ((auth_token gcs a).1 ≡ a) × (t ≡ a.token))
      ⊎ ((is_valid gcs a ≡ false) × IsExchanged gcs sign a t (auth_token gcs a).1)
auth_token-IsExchanged gcs sign a t given e = (auth_token-current gcs sign a given).from a t refl e
