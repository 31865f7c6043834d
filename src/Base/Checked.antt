-- ===== src/Base/Checked.antt =====
-- Go functions that return a value or an `error` and change no state, over the errors of a component.
use mathlib.Core.Path.{subst}
use gha_cache_server.Base.Tests.{if◌then◌else◌}
use mathlib.Core.Path.{◌≡◌, refl}
use mathlib.Core.Bool.{Bool, true, false}

pub data Checked (E A : Type 0) : Type 0 where
  passed : A → Checked E A
  failed : E → Checked E A

-- `if err != nil { return nil, err }`
infixl 10 ◌>>=◌
abbrev pub ◌>>=◌ : {E A B : Type 0} → Checked E A → (A → Checked E B) → Checked E B
passed a >>= f = f a
failed e >>= f = failed e

-- What holds of the value if there is one.
pub record Yields {E A : Type 0} (Q : A → Type 0) (m : Checked E A) : Type 0 where
  pub from : (a : A) → m ≡ passed a → Q a

module _ {E A : Type 0} {Q : A → Type 0} where
  pub Yields-passed : (a : A) → Q a → Yields {E = E} Q (passed a)
  Yields-passed a q = record { from = λ b e. subst Q (cc e) q }

  pub Yields-failed : (x : E) → Yields Q (failed x)
  Yields-failed x = record { from = λ b e. absurd (cc e) }

  -- The branches may use what the test says.
  pub Yields-if :
      (b : Bool) (m n : Checked E A)
      → (b ≡ true → Yields Q m)
      → (b ≡ false → Yields Q n)
      → Yields Q (if b then m else n)
  Yields-if true m n ym yn = ym refl
  Yields-if false m n ym yn = yn refl

pub Yields-weaken :
    {E A : Type 0} {P Q : A → Type 0} (m : Checked E A)
    → ((a : A) → P a → Q a)
    → Yields P m
    → Yields Q m
Yields-weaken m f y = record { from = λ a e. f a (y.from a e) }

pub Yields-bind :
    {E A B : Type 0} {Q : B → Type 0} (P : A → Type 0) (m : Checked E A) (f : A → Checked E B)
    → Yields P m
    → ((a : A) → P a → Yields Q (f a))
    → Yields Q (m >>= f)
Yields-bind P (passed a) f p k = k a (p.from a refl)
Yields-bind P (failed e) f p k = Yields-failed e

pub Yields-any : {E A : Type 0} (m : Checked E A) → Yields (λ a. Unit {0}) m
Yields-any m = record { from = λ a e. tt }
