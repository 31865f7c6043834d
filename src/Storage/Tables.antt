-- ===== src/Storage/Tables.antt =====
-- A property of the tables, whatever it is, across the steps of the service.
use mathlib.Core.Path.{subst}
use gha_cache_server.Base.{◌≡◌, All, Bool, true, false, Option, none, some, List, [], ◌∷◌}
use gha_cache_server.Action.{ok, Action, gets}
use gha_cache_server.Action.Keeps.{Keeps}
use gha_cache_server.Action.Ensures.{Ensures}
use gha_cache_server.Db.State.{Db, run_statement, statement}
use gha_cache_server.Storage.World.{Job, World, query, storing, now, spawn}

-- A property that has nothing to do with the faults to come.
abbrev pub IgnoresFaults : (Db → Type 0) → Type 0
IgnoresFaults P = (d : Db) (fs : List Bool) → P d → P (record d { faults = fs })

module _ {S : Type 0} (P : Db → Type 0) (stable : IgnoresFaults P) where
  pub Tables-statement :
      {A : Type 0} (m : Action Db A)
      → ((d : Db) → P d → P (m d).1)
      → Keeps {S = World S} (λ w. P w.db) (query (statement m))
  unfolding query statement
  Tables-statement m step = record { from = λ w h. go w.db w.db.faults h }
    where
      go : (d : Db) (fs : List Bool) → P d → P (run_statement fs m d).1
      go d [] h = step d h
      go d (true ∷ fs) h = stable d fs h
      go d (false ∷ fs) h = step (record d { faults = fs }) (stable d fs h)

  pub Tables-gets :
      {A : Type 0} (f : Db → A) → Keeps {S = World S} (λ w. P w.db) (query (statement (gets f)))
  unfolding gets
  Tables-gets f = Tables-statement (gets f) (λ d h. h)

  pub Tables-storing : {A : Type 0} (m : Action S A) → Keeps (λ w. P w.db) (storing m)
  unfolding storing
  Tables-storing m = record { from = λ w h. h }

  pub Tables-now : Keeps {S = World S} (λ w. P w.db) now
  unfolding now
  Tables-now = record { from = λ w h. h }

  pub Tables-spawn : (job : Job) → Keeps {S = World S} (λ w. P w.db) (spawn job)
  unfolding spawn
  Tables-spawn job = record { from = λ w h. h }

-- A statement from tables with one property leaves tables with another one, also where it fails.
pub Tables-becomes :
    {S A : Type 0} (P Q : Db → Type 0) (m : Action Db A)
    → IgnoresFaults P
    → ((d : Db) → P d → Q d)
    → ((d : Db) → P d → Q (m d).1)
    → (w : World S) → P w.db
    → Q (query (statement m) w).1.db
unfolding query statement
Tables-becomes P Q m stable failed step w h = go w.db w.db.faults h
  where
    go : (d : Db) (fs : List Bool) → P d → Q (run_statement fs m d).1
    go d [] h = step d h
    go d (true ∷ fs) h = failed (record d { faults = fs }) (stable d fs h)
    go d (false ∷ fs) h = step (record d { faults = fs }) (stable d fs h)

-- A listing gives rows of the tables that it leaves.
pub Tables-listed :
    {S R : Type 0} (P : Db → Type 0)
    → IgnoresFaults P
    → (list : Db → List R) (G : R → Db → Type 0) → ((d : Db) → P d → All (λ r. G r d) (list d))
    → (w : World S) (rs : List R) → P w.db
    → (query (statement (gets list)) w).0 ≡ ok rs
    → All (λ r. G r (query {S = S} (statement (gets list)) w).1.db) rs
unfolding query statement gets
Tables-listed {R = R} P stable list G all w rs p e = go w.db w.db.faults p e
  where
    go :
        (d : Db) (fs : List Bool)
        → P d
        → (run_statement fs (gets list) d).0 ≡ ok rs
        → All (λ r. G r (run_statement fs (gets list) d).1) rs
    go d [] p e = subst (All (λ r. G r d)) (cc e) (all d p)
    go d (true ∷ fs) p e = absurd (cc e)
    go d (false ∷ fs) p e =
        subst (All (λ r. G r (record d { faults = fs }))) (cc e)
          (all (record d { faults = fs }) (stable d fs p))

abbrev pub OfSome : {A : Type 0} → (A → Type 0) → Option A → Type 0
OfSome P none = Unit
OfSome P (some a) = P a

-- A statement, by its effect on the tables; what is said of them has nothing to do with the faults.
pub Ensures-statement :
    {S A : Type 0} (P : Db → Type 0) (m : Action Db A) (Q : A → Db → Type 0)
    → ((d : Db) (fs : List Bool) → P d → P (record d { faults = fs }))
    → ((d : Db) (a : A) → P d → (m d).0 ≡ ok a → Q a (m d).1)
    → Ensures {S = World S} (λ w. P w.db) (query (statement m)) (λ a w. Q a w.db)
unfolding query statement
Ensures-statement {S} {A} P m Q stable step = record { from = λ w a p h. go w a w.db.faults p h }
  where
    go :
        (w : World S) (a : A) (fs : List Bool)
        → P w.db
        → (run_statement fs m w.db).0 ≡ ok a
        → Q a (run_statement fs m w.db).1
    go w a [] p h = step w.db a p h
    go w a (true ∷ fs) p h = absurd (cc h)
    go w a (false ∷ fs) p h = step (record w.db { faults = fs }) a (stable w.db fs p) h
