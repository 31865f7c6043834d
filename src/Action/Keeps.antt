-- ===== src/Action/Keeps.antt =====
-- A property of the state that an action keeps, whether it returns a value or an error: one rule
-- for each way in which the actions are built.
use gha_cache_server.Base.{◌≡◌, refl, Bool, true, false, Option, none, some, if◌then◌else◌}
use gha_cache_server.Action.{
  Error, Result, ok, err, Action, branch, pure, fail, gets, wrap, attempt, handle, if_nil, ◌>>=◌,
}

pub record Keeps {S A : Type 0} (P : S → Type 0) (m : Action S A) : Type 0 where
  pub from : (s : S) → P s → P (m s).1

module _ {S A : Type 0} {P : S → Type 0} where
  pub Keeps-pure : (a : A) → Keeps P (pure a)
  unfolding pure
  Keeps-pure a = record { from = λ s h. h }

  pub Keeps-fail : (e : Error) → Keeps P (fail {A = A} e)
  unfolding fail
  Keeps-fail e = record { from = λ s h. h }

  pub Keeps-gets : (f : S → A) → Keeps P (gets f)
  unfolding gets
  Keeps-gets f = record { from = λ s h. h }

  pub Keeps-wrap : (w : Error → Error) (m : Action S A) → Keeps P m → Keeps P (wrap w m)
  unfolding wrap
  Keeps-wrap w m k = record { from = k.from }

  pub Keeps-attempt : (m : Action S A) → Keeps P m → Keeps P (attempt m)
  unfolding attempt
  Keeps-attempt m k = record { from = k.from }

  pub Keeps-if :
      (b : Bool) (m n : Action S A) → Keeps P m → Keeps P n → Keeps P (if b then m else n)
  Keeps-if true m n km kn = km
  Keeps-if false m n km kn = kn

module _ {S A B : Type 0} {P : S → Type 0} where
  Keeps-branch :
      (r : Result A) (f : A → Action S B) (g : Error → Action S B)
      → ((a : A) → Keeps P (f a))
      → ((e : Error) → Keeps P (g e))
      → Keeps P (branch r f g)
  Keeps-branch (ok a) f g kf kg = kf a
  Keeps-branch (err e) f g kf kg = kg e

  pub Keeps-handle :
      (m : Action S A) (f : A → Action S B) (g : Error → Action S B)
      → Keeps P m
      → ((a : A) → Keeps P (f a))
      → ((e : Error) → Keeps P (g e))
      → Keeps P (handle m f g)
  unfolding handle
  Keeps-handle m f g km kf kg = record {
    from = λ s h. let (r, s') = m s in (Keeps-branch r f g kf kg).from s' (km.from s h);
  }

  pub Keeps-bind :
      (m : Action S A) (f : A → Action S B)
      → Keeps P m
      → ((a : A) → Keeps P (f a))
      → Keeps P (m >>= f)
  unfolding ◌>>=◌
  Keeps-bind m f km kf = Keeps-handle m f fail km kf Keeps-fail

  pub Keeps-if_nil :
      (o : Option A) (m : Action S B) (f : A → Action S B)
      → Keeps P m
      → ((a : A) → Keeps P (f a))
      → Keeps P (if_nil o m f)
  unfolding if_nil
  Keeps-if_nil none m f km kf = km
  Keeps-if_nil (some a) m f km kf = kf a

-- The branch for a value may use which value it is.
pub Keeps-if_some :
    {S A B : Type 0} {P : S → Type 0} (o : Option A) (m : Action S B) (f : A → Action S B)
    → Keeps P m
    → ((a : A) → o ≡ some a → Keeps P (f a))
    → Keeps P (if_nil o m f)
unfolding if_nil
Keeps-if_some none m f km kf = km
Keeps-if_some (some a) m f km kf = kf a refl

pub Keeps-both :
    {S A : Type 0} {P Q : S → Type 0} (m : Action S A)
    → Keeps P m
    → Keeps Q m
    → Keeps (λ s. P s × Q s) m
Keeps-both m kp kq = record { from = λ s h. (kp.from s h.0, kq.from s h.1) }

pub ruleset keeps_rules = (
  Keeps-pure, Keeps-fail, Keeps-gets, Keeps-wrap, Keeps-attempt, Keeps-if, Keeps-handle, Keeps-bind,
  Keeps-if_nil,
)
