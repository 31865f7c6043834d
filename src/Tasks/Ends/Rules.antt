-- ===== src/Tasks/Ends/Rules.antt =====
-- internal/tasks: when an action with a result on fuel has ended, by the ways in which it is built.
use mathlib.Core.Path.{subst}
use gha_cache_server.Base.{
  ◌≡◌, refl, sym, inl, inr, Bool, true, false, Option, none, some, if◌then◌else◌,
}
use gha_cache_server.Action.{Error, ok, Action, handle, if_nil, ◌>>=◌}
use gha_cache_server.Action.Laws.{bind-ok, bind-err, handle-ok, handle-err, Result-cases}
use gha_cache_server.Storage.World.{World}
use gha_cache_server.Tasks.Ends.{HasEnded}

module _ {S : Type 0} where
  pub HasEnded-bind :
      {A B : Type 0} (m : Action (World S) A) (f : A → Action (World S) (Option B)) (w : World S)
      → ((a : A) → (m w).0 ≡ ok a → HasEnded (f a (m w).1).0)
      → HasEnded ((m >>= f) w).0
  HasEnded-bind m f w went = elim (Result-cases (m w).0) [
    | inl (a, e) ↦ subst (λ p. HasEnded p.0) (sym (bind-ok m f e refl)) (went a e)
    | inr (x, e) ↦ subst (λ p. HasEnded p.0) (sym (bind-err m f e refl)) tt
  ]

  pub HasEnded-if :
      {B : Type 0} (b : Bool) (m n : Action (World S) (Option B)) (w : World S)
      → (b ≡ true → HasEnded (m w).0)
      → (b ≡ false → HasEnded (n w).0)
      → HasEnded ((if b then m else n) w).0
  HasEnded-if true m n w hm hn = hm refl
  HasEnded-if false m n w hm hn = hn refl

  pub HasEnded-handle :
      {A B : Type 0} (m : Action (World S) A) (f : A → Action (World S) (Option B))
      (g : Error → Action (World S) (Option B)) (w : World S)
      → ((a : A) → HasEnded (f a (m w).1).0)
      → ((e : Error) → HasEnded (g e (m w).1).0)
      → HasEnded (handle m f g w).0
  HasEnded-handle m f g w went failed = elim (Result-cases (m w).0) [
    | inl (a, e) ↦ subst (λ p. HasEnded p.0) (sym (handle-ok m f g e refl)) (went a)
    | inr (x, e) ↦ subst (λ p. HasEnded p.0) (sym (handle-err m f g e refl)) (failed x)
  ]

  pub HasEnded-if_nil :
      {A B : Type 0} (o : Option A) (m : Action (World S) (Option B))
      (f : A → Action (World S) (Option B)) (w : World S)
      → HasEnded (m w).0
      → ((a : A) → HasEnded (f a w).0)
      → HasEnded (if_nil o m f w).0
  unfolding if_nil
  HasEnded-if_nil none m f w hm hf = hm
  HasEnded-if_nil (some a) m f w hm hf = hf a
