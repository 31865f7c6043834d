-- ===== src/Action/Laws.antt =====
-- How a block of actions runs on, by the way its first action ends.
use mathlib.Core.Path.{subst}
use gha_cache_server.Base.{sym, Bool, true, false, if◌then◌else◌, ◌≡◌, refl, ◌⊎◌, inl, inr}
use gha_cache_server.Action.{Error, Result, ok, err, Action, handle, ◌>>=◌}

module _ {S A B : Type 0} (m : Action S A) {s s' : S} where
  pub handle-ok :
      (f : A → Action S B) (g : Error → Action S B) {a : A}
      → (m s).0 ≡ ok a
      → (m s).1 ≡ s'
      → handle m f g s ≡ f a s'
  unfolding handle
  handle-ok f g e1 e2 = rw (e1, e2)

  pub handle-err :
      (f : A → Action S B) (g : Error → Action S B) {e : Error}
      → (m s).0 ≡ err e
      → (m s).1 ≡ s'
      → handle m f g s ≡ g e s'
  unfolding handle
  handle-err f g e1 e2 = rw (e1, e2)

  pub bind-ok : (f : A → Action S B) {a : A} → (m s).0 ≡ ok a → (m s).1 ≡ s' → (m >>= f) s ≡ f a s'
  unfolding ◌>>=◌
  bind-ok f e1 e2 = rw (e1, e2)

  pub bind-err :
      (f : A → Action S B) {e : Error} → (m s).0 ≡ err e → (m s).1 ≡ s' → (m >>= f) s ≡ (err e, s')
  unfolding ◌>>=◌
  bind-err f e1 e2 = rw (e1, e2)

pub Result-cases :
    {A : Type 0} (r : Result A) → ((a : A) × (r ≡ ok a)) ⊎ ((e : Error) × (r ≡ err e))
Result-cases (ok a) = inl (a, refl)
Result-cases (err e) = inr (e, refl)

module _ {S B : Type 0} (P : S → Type 0) where
  -- What holds after the first action if it fails, and after the second if it does not.
  pub bind-after :
      {A : Type 0} (m : Action S A) (f : A → Action S B) (s : S)
      → P (m s).1
      → ((a : A) → (m s).0 ≡ ok a → P (f a (m s).1).1)
      → P ((m >>= f) s).1
  bind-after m f s failed went = elim (Result-cases (m s).0) [
    | inl (a, e) ↦ subst (λ x. P x.1) (sym (bind-ok m f e refl)) (went a e)
    | inr (x, e) ↦ subst (λ x. P x.1) (sym (bind-err m f e refl)) failed
  ]

  -- What holds after either continuation.
  pub handle-after :
      {A : Type 0} (m : Action S A) (f : A → Action S B) (g : Error → Action S B) (s : S)
      → ((a : A) → P (f a (m s).1).1)
      → ((e : Error) → P (g e (m s).1).1)
      → P (handle m f g s).1
  handle-after m f g s went failed = elim (Result-cases (m s).0) [
    | inl (a, e) ↦ subst (λ x. P x.1) (sym (handle-ok m f g e refl)) (went a)
    | inr (x, e) ↦ subst (λ x. P x.1) (sym (handle-err m f g e refl)) (failed x)
  ]

  pub if_after :
      (b : Bool) (m n : Action S B) (s : S) → P (m s).1 → P (n s).1 → P ((if b then m else n) s).1
  if_after true m n s pm pn = pm
  if_after false m n s pm pn = pn
