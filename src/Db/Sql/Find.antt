-- ===== src/Db/Sql/Find.antt =====
-- What is known of a row that a query finds, and of the rows that a statement leaves.
use gha_cache_server.Base.{
  ℕ, zero, suc, take, drop, ◌≡◌, refl, inl, inr, Bool, true, false, ◌&&◌, ◌||◌, none, some, List,
  [], ◌∷◌, ◌++◌, map, head, All, All-append, All-mono, if◌then◌else◌, Bool-cases, arith,
}
use mathlib.Core.Path.{subst}
use gha_cache_server.Db.Sql.Laws.{exists-append}
use gha_cache_server.Db.Sql.{select, delete, page, update, exists, join}

module _ {R : Type 0} where
  -- The first of the rows that pass is a row that passes.
  pub head-select :
      (P : R → Type 0) (p : R → Bool) (rows : List R) (r : R)
      → All P rows
      → head (select p rows) ≡ some r
      → P r × (p r ≡ true)
  unfolding select
  head-select P p [] r all h = absurd (cc h)
  head-select P p (x ∷ rows) r all h = go (p x) refl (head-select P p rows r all.1) h
    where
      go :
          (b : Bool)
          → p x ≡ b
          → (head (select p rows) ≡ some r → P r × (p r ≡ true))
          → head (if b then x ∷ select p rows else select p rows) ≡ some r
          → P r × (p r ≡ true)
      go true e rest h = subst (λ y. P y × (p y ≡ true)) (cc h) (all.0, e)
      go false e rest h = rest h

  pub exists-append_last :
      (p : R → Bool) (rows : List R) (r : R) → p r ≡ true → exists p (rows ++ r ∷ []) ≡ true
  unfolding exists
  exists-append_last p [] r h = rw h refl
  exists-append_last p (x ∷ rows) r h = ground (arith, exists-append_last p rows r h)

  pub All-select : (p : R → Bool) (rows : List R) → All (λ r. p r ≡ true) (select p rows)
  unfolding select
  All-select p [] = tt
  All-select p (r ∷ rows) = elim (Bool-cases (p r)) [
    | inl hit ↦ rw hit (hit, All-select p rows)
    | inr miss ↦ rw miss (All-select p rows)
  ]

  pub All-drop : (P : R → Type 0) (n : ℕ) (rows : List R) → All P rows → All P (drop n rows)
  All-drop P zero rows h = h
  All-drop P (suc n) [] h = tt
  All-drop P (suc n) (r ∷ rows) h = All-drop P n rows h.1

  pub All-take : (P : R → Type 0) (n : ℕ) (rows : List R) → All P rows → All P (take n rows)
  All-take P zero rows h = tt
  All-take P (suc n) [] h = tt
  All-take P (suc n) (r ∷ rows) h = (h.0, All-take P n rows h.1)

  pub All-page :
      (P : R → Type 0) (limit offset : ℕ) (rows : List R)
      → All P rows
      → All P (page limit offset rows)
  All-page P limit offset rows h = All-take P limit (drop offset rows) (All-drop P offset rows h)

  pub delete_none : (p : R → Bool) (rows : List R) → exists p rows ≡ false → delete p rows ≡ rows
  unfolding delete exists
  delete_none p [] h = refl
  delete_none p (r ∷ rows) h = ground (arith, delete_none p rows)

  pub exists-never :
      (p : R → Bool) (rows : List R) → ((r : R) → p r ≡ false) → exists p rows ≡ false
  unfolding exists
  exists-never p [] h = refl
  exists-never p (r ∷ rows) h = ground (arith, h r, exists-never p rows h)

  pub exists-middle :
      (p : R → Bool) (before : List R) (r : R) (after : List R)
      → p r ≡ true
      → exists p (before ++ r ∷ after) ≡ true
  unfolding exists
  exists-middle p [] r after h = ground arith
  exists-middle p (x ∷ before) r after h = ground (arith, exists-middle p before r after h)

  pub exists_mono :
      (p q : R → Bool) (rows : List R)
      → ((r : R) → p r ≡ true → q r ≡ true)
      → exists p rows ≡ true
      → exists q rows ≡ true
  unfolding exists
  exists_mono p q [] f h = h
  exists_mono p q (r ∷ rows) f h = elim (Bool-cases (p r)) [
    | inl hit ↦ ground (arith, f r hit)
    | inr miss ↦ rest (exists_mono p q rows f (ground arith))
  ]
    where
      rest : exists q rows ≡ true → (q r || exists q rows) ≡ true
      rest h = ground arith

  pub exists-none :
      (p : R → Bool) (rows : List R) → exists p rows ≡ false → All (λ r. p r ≡ false) rows
  unfolding exists
  exists-none p [] h = tt
  exists-none p (r ∷ rows) h = (ground arith, exists-none p rows (ground arith))

  pub All-both :
      (P Q : R → Type 0) (rows : List R) → All P rows → All Q rows → All (λ r. P r × Q r) rows
  All-both P Q [] hp hq = tt
  All-both P Q (r ∷ rows) hp hq = ((hp.0, hq.0), All-both P Q rows hp.1 hq.1)

  -- Each row is found by what it has itself.
  pub All-found :
      (q : R → R → Bool) (rows : List R)
      → ((r : R) → q r r ≡ true)
      → All (λ r. exists (q r) rows ≡ true) rows
  unfolding exists
  All-found q [] same = tt
  All-found q (r ∷ rows) same =
      (ground (arith, same r), All-mono _ _ rows (λ x h. ground arith) (All-found q rows same))

  -- A row that is changed by an update is found by what it has then.
  pub exists-update_hit :
      (a p q : R → Bool) (f : R → R) (rows : List R)
      → ((r : R) → p r ≡ true → q (f r) ≡ true)
      → exists (λ r. a r && p r) rows ≡ true
      → exists q (update a f rows) ≡ true
  unfolding exists update
  exists-update_hit a p q f [] step h = h
  exists-update_hit a p q f (r ∷ rows) step h = elim (Bool-cases (a r && p r)) [
    | inl hit ↦ here (ground arith) (step r (ground arith))
    | inr miss ↦ there (exists-update_hit a p q f rows step (ground arith))
  ]
    where
      here : a r ≡ true → q (f r) ≡ true → exists q (update a f (r ∷ rows)) ≡ true
      here hit new = rw (hit, new)

      there : exists q (update a f rows) ≡ true → exists q (update a f (r ∷ rows)) ≡ true
      there h = ground arith

module _ {R Q : Type 0} where
  pub All-join :
      (C : R → Type 0) (P : R × Q → Type 0) (p : R → Q → Bool) (left : List R) (right : List Q)
      → ((c : R) (s : Q) → C c → p c s ≡ true → P (c, s))
      → All C left
      → All P (join p left right)
  unfolding join select
  All-join C P p [] right make all = tt
  All-join C P p (c ∷ left) right make all =
      All-append P (map (λ s. (c, s)) (select (p c) right)) (join p left right) (pairs right)
        (All-join C P p left right make all.1)
    where
      pairs : (right : List Q) → All P (map (λ s. (c, s)) (select (p c) right))
      pairs [] = tt
      pairs (s ∷ right) = elim (Bool-cases (p c s)) [
        | inl hit ↦ rw hit (make c s all.0 hit, pairs right)
        | inr miss ↦ rw miss (pairs right)
      ]

module _ {R : Type 0} where
  -- If a row passes, a query finds one.
  pub head-select-none :
      (p : R → Bool) (rows : List R) → head (select p rows) ≡ none → exists p rows ≡ false
  unfolding select exists
  head-select-none p [] h = refl
  head-select-none p (r ∷ rows) h = elim (Bool-cases (p r)) [
    | inl hit ↦ absurd (found hit h)
    | inr miss ↦ rw miss (head-select-none p rows (missed miss h))
  ]
    where
      found : p r ≡ true → head (if p r then r ∷ select p rows else select p rows) ≡ none → ⊥
      found hit h = absurd (ground arith)

      missed :
          p r ≡ false
          → head (if p r then r ∷ select p rows else select p rows) ≡ none
          → head (select p rows) ≡ none
      missed miss h = ground arith

-- A row on the left that has one on the right is joined with it.
exists-pairs :
    {R Q : Type 0} (p : Q → Bool) (q : R → Bool) (c : R) (right : List Q)
    → exists p right ≡ true
    → q c ≡ true
    → exists {R = R × Q} (λ r. q r.0) (map (λ s. (c, s)) (select p right)) ≡ true
unfolding exists select
exists-pairs p q c [] has hit = has
exists-pairs p q c (s ∷ right) has hit = elim (Bool-cases (p s)) [
  | inl here ↦ rw (here, hit) refl
  | inr there ↦ rw there (exists-pairs p q c right (ground arith) hit)
]

-- If each row on the left has one on the right, a test of the left rows that no joined row passes
-- is passed by none.
pub exists-join :
    {R Q : Type 0} (p : R → Q → Bool) (q : R → Bool) (left : List R) (right : List Q)
    → All (λ c. exists (p c) right ≡ true) left
    → exists {R = R × Q} (λ r. q r.0) (join p left right) ≡ false
    → exists q left ≡ false
unfolding exists join
exists-join p q [] right has h = refl
exists-join {R} {Q} p q (c ∷ left) right has h =
    let pairs : List (R × Q) = map (λ s. (c, s)) (select (p c) right) in
    let split = exists-append (λ r. q r.0) pairs (join p left right) in
    elim (Bool-cases (q c)) [
      | inl hit ↦ absurd (ground (arith, split, h, exists-pairs (p c) q c right has.0 hit))
      | inr miss ↦ rw miss (exists-join p q left right has.1 (ground (arith, split, h)))
    ]
