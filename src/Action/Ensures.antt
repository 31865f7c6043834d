-- ===== src/Action/Ensures.antt =====
-- What holds of the value and the state after an action that returns a value, if something holds of
-- the state before it.
use gha_cache_server.Base.{
  ◌≡◌, refl, sym, ap, ◌∙◌, inl, inr, Bool, true, false, Option, none, some, if◌then◌else◌,
}
use mathlib.Core.Path.{subst}
use gha_cache_server.Action.{
  Error, Result, ok, err, wrap_result, Action, pure, fail, wrap, if_nil, ◌>>=◌,
}
use gha_cache_server.Action.Laws.{bind-ok, bind-err, Result-cases}

pub record Ensures {S A : Type 0} (P : S → Type 0) (m : Action S A) (Q : A → S → Type 0)
    : Type 0 where
  pub from : (s : S) (a : A) → P s → (m s).0 ≡ ok a → Q a (m s).1

module _ {S A : Type 0} {P : S → Type 0} {Q : A → S → Type 0} where
  pub Ensures-pure : (a : A) → ((s : S) → P s → Q a s) → Ensures P (pure a) Q
  unfolding pure
  Ensures-pure a q = record { from = λ s b p e. subst (λ x. Q x s) (cc e) (q s p) }

  pub Ensures-fail : (e : Error) → Ensures P (fail e) Q
  unfolding fail
  Ensures-fail e = record { from = λ s b p h. absurd (cc h) }

  pub Ensures-wrap : (w : Error → Error) (m : Action S A) → Ensures P m Q → Ensures P (wrap w m) Q
  unfolding wrap
  Ensures-wrap w m k = record { from = λ s a p h. k.from s a p (unwrapped (m s).0 a h) }
    where
      unwrapped : (r : Result A) (a : A) → wrap_result w r ≡ ok a → r ≡ ok a
      unwrapped (ok b) a h = h
      unwrapped (err e) a h = absurd (cc h)

  pub Ensures-if :
      (b : Bool) (m n : Action S A)
      → (b ≡ true → Ensures P m Q)
      → (b ≡ false → Ensures P n Q)
      → Ensures P (if b then m else n) Q
  Ensures-if true m n em en = em refl
  Ensures-if false m n em en = en refl

  pub Ensures-weaken :
      {P' : S → Type 0} (m : Action S A) → ((s : S) → P' s → P s) → Ensures P m Q → Ensures P' m Q
  Ensures-weaken m f k = record { from = λ s a p h. k.from s a (f s p) h }

  -- What holds before the action and is not about the state may be used in the proof.
  pub Ensures-known :
      {F : Type 0} (m : Action S A) → ((s : S) → P s → F) → (F → Ensures P m Q) → Ensures P m Q
  Ensures-known m f k = record { from = λ s a p h. (k (f s p)).from s a p h }

module _ {S A B : Type 0} {P : S → Type 0} {Q : B → S → Type 0} where
  pub Ensures-bind :
      (m : Action S A) (f : A → Action S B) (R : A → S → Type 0)
      → Ensures P m R
      → ((a : A) → Ensures (R a) (f a) Q)
      → Ensures P (m >>= f) Q
  Ensures-bind m f R km kf = record {
    from = λ s b p h. elim (Result-cases (m s).0) [
      | inl (a, e) ↦
          let run : (m >>= f) s ≡ f a (m s).1 = bind-ok m f e refl in
          subst (λ x. Q b x.1) (sym run)
            ((kf a).from (m s).1 b (km.from s a p e) (sym (ap (λ x. x.0) run) ∙ h))
      | inr (x, e) ↦ absurd (cc (sym (ap (λ x. x.0) (bind-err m f e refl)) ∙ h))
    ];
  }

  pub Ensures-if_nil :
      (o : Option A) (m : Action S B) (f : A → Action S B)
      → (o ≡ none → Ensures P m Q)
      → ((a : A) → o ≡ some a → Ensures P (f a) Q)
      → Ensures P (if_nil o m f) Q
  unfolding if_nil
  Ensures-if_nil none m f km kf = km refl
  Ensures-if_nil (some a) m f km kf = kf a refl
