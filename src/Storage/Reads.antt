-- ===== src/Storage/Reads.antt =====
-- Actions that only read the tables: each returns what a function of the tables says, or it returns
-- the driver's error because a statement failed. Both ways no row changes.
use gha_cache_server.Base.{
  ◌≡◌, refl, ap, ◌∙◌, ◌⊎◌, inl, inr, Bool, true, false, Option, none, some, List, [], ◌∷◌,
}
use gha_cache_server.Action.{ok, err, driver_failed, Action, pure, gets, if_nil, ◌>>=◌}
use gha_cache_server.Action.Laws.{bind-ok, bind-err}
use gha_cache_server.Db.Sql.{exists}
use gha_cache_server.Db.State.{Db, run_statement, statement}
use gha_cache_server.Storage.World.{World, query}

abbrev pub with_faults : {S : Type 0} → World S → List Bool → World S
with_faults w fs = record w { db = record w.db { faults = fs } }

-- One of the statements to come fails.
abbrev pub HasFault : List Bool → Type 0
HasFault fs = exists (λ b. b) fs ≡ true

-- How a reading action ends in a world.
pub record ReadsAt {S A : Type 0} (m : Action (World S) A) (f : Db → A) (w : World S) : Type 0 where
  pub left : List Bool
  pub same : (m w).1 ≡ with_faults w left
  pub suffix : (HasFault left → HasFault w.db.faults)
  pub answer : ((m w).0 ≡ ok (f w.db)) ⊎ (((m w).0 ≡ err driver_failed) × HasFault w.db.faults)

pub record Reads {S A : Type 0} (m : Action (World S) A) (f : Db → A) : Type 0 where
  pub stable : (d : Db) (fs : List Bool) → f (record d { faults = fs }) ≡ f d
  pub at : (w : World S) → ReadsAt m f w

module _ {S A : Type 0} where
  pub Reads-pure : (a : A) → Reads {S = S} (pure a) (λ _. a)
  unfolding pure
  Reads-pure a = record {
    stable = λ d fs. refl;
    at = λ w. record { left = w.db.faults; same = refl; suffix = λ h. h; answer = inl refl };
  }

  pub Reads-statement :
      (f : Db → A)
      → ((d : Db) (fs : List Bool) → f (record d { faults = fs }) ≡ f d)
      → Reads {S = S} (query (statement (gets f))) f
  unfolding query statement gets
  Reads-statement f stable = record { stable = stable; at = λ w. go w w.db.faults refl }
    where
      go :
          (w : World S) (fs : List Bool)
          → w.db.faults ≡ fs
          → ReadsAt (query (statement (gets f))) f w
      go w [] e = record { left = w.db.faults; same = rw e; suffix = λ h. h; answer = inl (rw e) }
      go w (true ∷ fs) e = record {
        left = fs;
        same = rw e;
        suffix = λ h. unfold exists in rw e;
        answer = inr (rw e, unfold exists in rw e);
      }
      go w (false ∷ fs) e = record {
        left = fs;
        same = rw e;
        suffix = λ h. unfold exists in rw e h;
        answer = inl (ap (λ l. (run_statement l (gets f) w.db).0) e ∙ ap ok (stable w.db fs));
      }

  module _ {B : Type 0} where
    pub Reads-bind :
        (m : Action (World S) A) (k : A → Action (World S) B) (f : Db → A) (g : A → Db → B)
        → Reads m f
        → ((a : A) → Reads (k a) (g a))
        → Reads (m >>= k) (λ d. g (f d) d)
    Reads-bind m k f g rm rk = record {
      stable = λ d fs.
          ap (λ a. g a (record d { faults = fs })) (rm.stable d fs) ∙ (rk (f d)).stable d fs;
      at = λ w. go w (rm.at w) (rm.at w).answer;
    }
      where
        go :
            (w : World S) (r : ReadsAt m f w)
            → (((m w).0 ≡ ok (f w.db)) ⊎ (((m w).0 ≡ err driver_failed) × HasFault w.db.faults))
            → ReadsAt (m >>= k) (λ d. g (f d) d) w
        go w r (inl e) =
            let w' = with_faults w r.left in
            let n = (rk (f w.db)).at w' in
            let run : (m >>= k) w ≡ k (f w.db) w' = bind-ok m k e r.same in
            record {
              left = n.left;
              same = ap (λ p. p.1) run ∙ n.same;
              suffix = λ h. r.suffix (n.suffix h);
              answer = elim n.answer [
                | inl a ↦ inl (ap (λ p. p.0) run ∙ a ∙ ap ok ((rk (f w.db)).stable w.db r.left))
                | inr (a, fault) ↦ inr (ap (λ p. p.0) run ∙ a, r.suffix fault)
              ];
            }
        go w r (inr (e, fault)) = record {
          left = r.left;
          same = ap (λ p. p.1) (bind-err m k e r.same);
          suffix = r.suffix;
          answer = inr (ap (λ p. p.0) (bind-err m k e r.same), fault);
        }

    pub Reads-if_nil :
        (o : Option A) (m : Action (World S) B) (k : A → Action (World S) B) (f : Db → B)
        (g : A → Db → B)
        → Reads m f
        → ((a : A) → Reads (k a) (g a))
        → Reads (if_nil o m k) (λ d. elim o [ none ↦ f d | some a ↦ g a d ])
    unfolding if_nil
    Reads-if_nil none m k f g rm rk = rm
    Reads-if_nil (some a) m k f g rm rk = rk a
