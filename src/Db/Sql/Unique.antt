-- ===== src/Db/Sql/Unique.antt =====
-- In a table with a primary key: a row that passes a test shares its key with no row that does not,
-- and one row at most has a key.
use gha_cache_server.Base.{
  ◌≡◌, refl, sym, ◌∙◌, ◌≤◌, ◌+◌, length, inl, inr, ◌↔◌, Bool, true, false, not, ◌&&◌, List, [], ◌∷◌,
  All, All-mono, if◌then◌else◌, Bool-cases, arith,
}
use mathlib.Core.Path.{subst}
use gha_cache_server.Db.Sql.{select, delete, exists}
use gha_cache_server.Db.Sql.Laws.{IsUnique, eq_comm}
use gha_cache_server.Db.Sql.Find.{All-both, exists-none, delete_none}

module _ {R : Type 0} where
  All-select-All :
      (P : R → Type 0) (p : R → Bool) (rows : List R) → All P rows → All P (select p rows)
  unfolding select
  All-select-All P p [] h = tt
  All-select-All P p (r ∷ rows) h = elim (Bool-cases (p r)) [
    | inl hit ↦ rw hit (h.0, All-select-All P p rows h.1)
    | inr miss ↦ rw miss (All-select-All P p rows h.1)
  ]

  -- What the rows that pass have, a row has if it passes.
  pub All-select-if :
      (P : R → Type 0) (p : R → Bool) (rows : List R)
      → All P (select p rows)
      → All (λ r. p r ≡ true → P r) rows
  unfolding select
  All-select-if P p [] h = tt
  All-select-if P p (r ∷ rows) h = go (p r) refl (All-select-if P p rows) h
    where
      go :
          (b : Bool)
          → p r ≡ b
          → (All P (select p rows) → All (λ r. p r ≡ true → P r) rows)
          → All P (if b then r ∷ select p rows else select p rows)
          → All (λ r. p r ≡ true → P r) (r ∷ rows)
      go true e rest h = (λ hit. h.0, rest h.1)
      go false e rest h = (λ hit. absurd (cc (sym hit ∙ e)), rest h)

  exists-and :
      (p q : R → Bool) (rows : List R)
      → exists p rows ≡ false
      → exists (λ r. p r && q r) rows ≡ false
  unfolding exists
  exists-and p q [] h = refl
  exists-and p q (r ∷ rows) h = ground (arith, exists-and p q rows)

module _ {R K : Type 0} (key : R → K) (eq : K → K → Bool)
    (eq_iff : (a b : K) → (eq a b ≡ true) ↔ (a ≡ b)) where
  pub All-select_unique :
      (p : R → Bool) (rows : List R)
      → IsUnique key eq eq_iff rows
      → All (λ u. exists (λ x. eq (key x) (key u) && not (p x)) rows ≡ false) (select p rows)
  unfolding select exists
  All-select_unique p [] u = tt
  All-select_unique p (r ∷ rows) u = elim (Bool-cases (p r)) [
    | inl hit ↦ rw hit (
      ground (arith, exists-and (λ x. eq (key x) (key r)) (λ x. not (p x)) rows u.0),
      All-mono _ _ (select p rows) (λ x h. ground arith) (All-select_unique p rows u.1),
    )
    | inr miss ↦ rw miss (
        All-mono _ _ (select p rows)
          (λ x h. ground (arith, eq_comm key eq eq_iff (key x) (key r) h.1))
          (All-both _ _ (select p rows) (All-select_unique p rows u.1)
            (All-select-All _ p rows (exists-none (λ x. eq (key x) (key r)) rows u.0))))
  ]

-- By a key, at most one row is deleted.
pub length-delete_unique :
    {R K : Type 0} (key : R → K) (eq : K → K → Bool)
    (eq_iff : (a b : K) → (eq a b ≡ true) ↔ (a ≡ b)) (k : K) (rows : List R)
    → IsUnique key eq eq_iff rows
    → length rows ≤ length (delete (λ r. eq (key r) k) rows) + 1
unfolding delete
length-delete_unique key eq eq_iff k [] u = omega arith
length-delete_unique key eq eq_iff k (r ∷ rows) u = elim (Bool-cases (eq (key r) k)) [
  | inl hit ↦
      let alone : exists (λ x. eq (key x) k) rows ≡ false =
        subst (λ j. exists (λ x. eq (key x) j) rows ≡ false) ((eq_iff (key r) k).0 hit) u.0 in
      rw (hit, delete_none (λ x. eq (key x) k) rows alone) (omega arith)
  | inr miss ↦ rw miss (omega (arith, length-delete_unique key eq eq_iff k rows u.1))
]
