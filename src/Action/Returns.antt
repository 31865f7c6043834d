-- ===== src/Action/Returns.antt =====
-- A property of every value that an action returns, from whatever state it starts: one rule for
-- each way in which the actions are built.
use mathlib.Core.Path.{subst}
use gha_cache_server.Base.{
  ◌≡◌, refl, sym, ap, ◌∙◌, inl, inr, Bool, true, false, Option, none, some, if◌then◌else◌,
}
use gha_cache_server.Action.{Error, ok, Action, pure, fail, handle, if_nil, ◌>>=◌}
use gha_cache_server.Action.Laws.{handle-ok, handle-err, bind-ok, bind-err, Result-cases}

pub record Returns {S A : Type 0} (Q : A → Type 0) (m : Action S A) : Type 0 where
  pub from : (s : S) (a : A) → (m s).0 ≡ ok a → Q a

module _ {S A : Type 0} {Q : A → Type 0} where
  pub Returns-pure : (a : A) → Q a → Returns {S = S} Q (pure a)
  unfolding pure
  Returns-pure a q = record { from = λ s b e. subst Q (cc e) q }

  pub Returns-fail : (e : Error) → Returns {S = S} Q (fail e)
  unfolding fail
  Returns-fail e = record { from = λ s b h. absurd (cc h) }

  pub Returns-if :
      (b : Bool) (m n : Action S A) → Returns Q m → Returns Q n → Returns Q (if b then m else n)
  Returns-if true m n rm rn = rm
  Returns-if false m n rm rn = rn

  -- The branches may use what the test says.
  pub Returns-if_test :
      (b : Bool) (m n : Action S A)
      → (b ≡ true → Returns Q m)
      → (b ≡ false → Returns Q n)
      → Returns Q (if b then m else n)
  Returns-if_test true m n rm rn = rm refl
  Returns-if_test false m n rm rn = rn refl

  pub Returns-weaken :
      {P : A → Type 0} (m : Action S A) → ((a : A) → P a → Q a) → Returns P m → Returns Q m
  Returns-weaken m f r = record { from = λ s a e. f a (r.from s a e) }

module _ {S A B : Type 0} {Q : B → Type 0} where
  pub Returns-handle :
      (m : Action S A) (f : A → Action S B) (g : Error → Action S B)
      → ((a : A) → Returns Q (f a))
      → ((e : Error) → Returns Q (g e))
      → Returns Q (handle m f g)
  Returns-handle m f g rf rg = record {
    from = λ s b h. elim (Result-cases (m s).0) [
      | inl (a, e) ↦ (rf a).from (m s).1 b (sym (ap (λ p. p.0) (handle-ok m f g e refl)) ∙ h)
      | inr (a, e) ↦ (rg a).from (m s).1 b (sym (ap (λ p. p.0) (handle-err m f g e refl)) ∙ h)
    ];
  }

  pub Returns-bind :
      (m : Action S A) (f : A → Action S B) → ((a : A) → Returns Q (f a)) → Returns Q (m >>= f)
  unfolding ◌>>=◌
  Returns-bind m f rf = Returns-handle m f fail rf Returns-fail

  pub Returns-if_nil :
      (o : Option A) (m : Action S B) (f : A → Action S B)
      → Returns Q m
      → ((a : A) → Returns Q (f a))
      → Returns Q (if_nil o m f)
  unfolding if_nil
  Returns-if_nil none m f rm rf = rm
  Returns-if_nil (some a) m f rm rf = rf a

-- What the first action returns may be used for the second.
pub Returns-bind_with :
    {S A B : Type 0} {Q : B → Type 0} (P : A → Type 0) (m : Action S A) (f : A → Action S B)
    → Returns P m
    → ((a : A) → P a → Returns Q (f a))
    → Returns Q (m >>= f)
Returns-bind_with P m f rm rf = record {
  from = λ s b h. elim (Result-cases (m s).0) [
    | inl (a, e) ↦
        (rf a (rm.from s a e)).from (m s).1 b (sym (ap (λ p. p.0) (bind-ok m f e refl)) ∙ h)
    | inr (x, e) ↦ absurd (cc (sym (ap (λ p. p.0) (bind-err m f e refl)) ∙ h))
  ];
}

-- The rules, but for that of `pure`, whose property is the user's to show.
pub ruleset returns_rules =
    (Returns-pure, Returns-fail, Returns-if, Returns-handle, Returns-bind, Returns-if_nil)
