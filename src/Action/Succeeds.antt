-- ===== src/Action/Succeeds.antt =====
-- Total correctness of an action: from a state with the one property it returns a value, and the
-- value and the state have the other. One rule for each way in which the actions are built.
use mathlib.Core.Path.{subst}
use gha_cache_server.Base.{◌≡◌, refl, sym, ap, Bool, true, false, Option, none, some, if◌then◌else◌}
use gha_cache_server.Action.{Error, ok, Action, pure, wrap, wrap_result, if_nil, ◌>>=◌}
use gha_cache_server.Action.Laws.{bind-ok}

-- How an action ends in a state.
pub record SucceedsAt {S A : Type 0} (m : Action S A) (Q : A → S → Type 0) (s : S) : Type 0 where
  pub value : A
  pub returned : (m s).0 ≡ ok value
  pub after : Q value (m s).1

pub record Succeeds {S A : Type 0} (P : S → Type 0) (m : Action S A) (Q : A → S → Type 0)
    : Type 0 where
  pub at : (s : S) → P s → SucceedsAt m Q s

module _ {S A : Type 0} {P : S → Type 0} {Q : A → S → Type 0} where
  pub Succeeds-pure : (a : A) → ((s : S) → P s → Q a s) → Succeeds P (pure a) Q
  unfolding pure
  Succeeds-pure a q = record { at = λ s p. record { value = a; returned = refl; after = q s p } }

  pub Succeeds-wrap :
      (w : Error → Error) (m : Action S A) → Succeeds P m Q → Succeeds P (wrap w m) Q
  unfolding wrap
  Succeeds-wrap w m k = record {
    at = λ s p. record {
      value = (k.at s p).value;
      returned = ap (wrap_result w) (k.at s p).returned;
      after = (k.at s p).after;
    };
  }

  -- The test does not hold.
  pub Succeeds-else :
      (b : Bool) (m n : Action S A) → b ≡ false → Succeeds P n Q → Succeeds P (if b then m else n) Q
  Succeeds-else true m n e k = absurd (cc e)
  Succeeds-else false m n e k = k

  pub Succeeds-weaken :
      {P' : S → Type 0} (m : Action S A) → ((s : S) → P' s → P s) → Succeeds P m Q → Succeeds P' m Q
  Succeeds-weaken m f k = record { at = λ s p. k.at s (f s p) }

  -- What holds before the action and is not about the state may be used in the proof.
  pub Succeeds-known :
      {F : Type 0} (m : Action S A) → ((s : S) → P s → F) → (F → Succeeds P m Q) → Succeeds P m Q
  Succeeds-known m f k = record { at = λ s p. (k (f s p)).at s p }

module _ {S A B : Type 0} {P : S → Type 0} {Q : B → S → Type 0} where
  pub Succeeds-bind :
      (m : Action S A) (f : A → Action S B) (R : A → S → Type 0)
      → Succeeds P m R
      → ((a : A) → Succeeds (R a) (f a) Q)
      → Succeeds P (m >>= f) Q
  Succeeds-bind m f R km kf = record {
    at = λ s p.
        let first = km.at s p in
        let rest = (kf first.value).at (m s).1 first.after in
        let run : f first.value (m s).1 ≡ (m >>= f) s = sym (bind-ok m f first.returned refl) in
        record {
          value = rest.value;
          returned = subst (λ x. x.0 ≡ ok rest.value) run rest.returned;
          after = subst (λ x. Q rest.value x.1) run rest.after;
        };
  }

  pub Succeeds-if_nil :
      (o : Option A) (m : Action S B) (f : A → Action S B)
      → Succeeds P m Q
      → ((a : A) → Succeeds P (f a) Q)
      → Succeeds P (if_nil o m f) Q
  unfolding if_nil
  Succeeds-if_nil none m f km kf = km
  Succeeds-if_nil (some a) m f km kf = kf a

  pub Succeeds-if_some :
      (o : Option A) (a : A) (m : Action S B) (f : A → Action S B)
      → o ≡ some a
      → Succeeds P (f a) Q
      → Succeeds P (if_nil o m f) Q
  unfolding if_nil
  Succeeds-if_some none a m f e k = absurd (cc e)
  Succeeds-if_some (some b) a m f e k = subst (λ x. Succeeds P (f x) Q) (cc e) k
