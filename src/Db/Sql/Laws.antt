-- ===== src/Db/Sql/Laws.antt =====
-- What the statements do to the tests on a table, to properties of all its rows and to a key.
use gha_cache_server.Base.{
  ◌≡◌, refl, ap, ◌∙◌, inl, inr, ◌↔◌, Bool, true, false, ◌||◌, List, [], ◌∷◌, ◌++◌, All,
  if◌then◌else◌, Bool-cases, arith,
}
use gha_cache_server.Db.Sql.{delete, update, exists}

module _ {R : Type 0} where
  pub exists-append :
      (p : R → Bool) (xs ys : List R) → exists p (xs ++ ys) ≡ (exists p xs || exists p ys)
  unfolding exists
  exists-append p [] ys = refl
  exists-append p (x ∷ xs) ys = ground (arith, exists-append p xs ys)

  pub exists-update :
      (p q : R → Bool) (f : R → R) (rows : List R)
      → ((r : R) → p (f r) ≡ p r)
      → exists p (update q f rows) ≡ exists p rows
  unfolding exists update
  exists-update p q f [] same = refl
  exists-update p q f (r ∷ rows) same = ground (arith, same r, exists-update p q f rows same)

  -- A deletion that spares the rows of `p` leaves the test as it was.
  pub exists-delete :
      (p q : R → Bool) (rows : List R)
      → ((r : R) → p r ≡ true → q r ≡ false)
      → exists p (delete q rows) ≡ exists p rows
  unfolding exists delete
  exists-delete p q [] spare = refl
  exists-delete p q (r ∷ rows) spare = elim (Bool-cases (p r)) [
    | inl hit ↦ rw (spare r hit, hit)
    | inr miss ↦ ground (arith, exists-delete p q rows spare)
  ]

  pub exists-delete-false :
      (p q : R → Bool) (rows : List R) → exists p rows ≡ false → exists p (delete q rows) ≡ false
  unfolding exists delete
  exists-delete-false p q [] h = refl
  exists-delete-false p q (r ∷ rows) h = ground (arith, exists-delete-false p q rows)

  pub exists-delete_self : (p : R → Bool) (rows : List R) → exists p (delete p rows) ≡ false
  unfolding exists delete
  exists-delete_self p [] = refl
  exists-delete_self p (r ∷ rows) = ground (arith, exists-delete_self p rows)

  pub All-delete :
      (P : R → Type 0) (q : R → Bool) (rows : List R)
      → All P rows
      → All (λ r. P r × (q r ≡ false)) (delete q rows)
  unfolding delete
  All-delete P q [] h = tt
  All-delete P q (r ∷ rows) h = elim (Bool-cases (q r)) [
    | inl gone ↦ rw gone (All-delete P q rows h.1)
    | inr kept ↦ rw kept ((h.0, kept), All-delete P q rows h.1)
  ]

  -- Only the rows that are changed have to keep it.
  pub All-update_hits :
      (P : R → Type 0) (q : R → Bool) (f : R → R) (rows : List R)
      → All P rows
      → ((r : R) → q r ≡ true → P r → P (f r))
      → All P (update q f rows)
  unfolding update
  All-update_hits P q f [] h step = tt
  All-update_hits P q f (r ∷ rows) h step = elim (Bool-cases (q r)) [
    | inl hit ↦ rw hit (step r hit h.0, All-update_hits P q f rows h.1 step)
    | inr miss ↦ rw miss (h.0, All-update_hits P q f rows h.1 step)
  ]

  pub All-update :
      (P : R → Type 0) (q : R → Bool) (f : R → R) (rows : List R)
      → All P rows
      → ((r : R) → P r → P (f r))
      → All P (update q f rows)
  All-update P q f rows h step = All-update_hits P q f rows h (λ r hit. step r)

  pub update_none :
      (p : R → Bool) (f : R → R) (rows : List R) → exists p rows ≡ false → update p f rows ≡ rows
  unfolding exists update
  update_none p f [] h = refl
  update_none p f (r ∷ rows) h = ground (arith, update_none p f rows)

-- A column that is a primary key.
module _ {R K : Type 0} (key : R → K) (eq : K → K → Bool)
    (eq_iff : (a b : K) → (eq a b ≡ true) ↔ (a ≡ b)) where
  -- The rows with a key.
  abbrev pub keyed : K → R → Bool
  keyed k r = eq (key r) k

  -- No two rows have the same key.
  abbrev pub IsUnique : List R → Type 0
  IsUnique [] = Unit
  IsUnique (r ∷ rows) = (exists (keyed (key r)) rows ≡ false) × IsUnique rows

  pub eq_comm : (a b : K) → eq a b ≡ false → eq b a ≡ false
  eq_comm a b h = ground (arith, eq_iff a b, eq_iff b a)

  pub append-IsUnique :
      (rows : List R) (r : R)
      → IsUnique rows
      → exists (keyed (key r)) rows ≡ false
      → IsUnique (rows ++ r ∷ [])
  unfolding exists
  append-IsUnique [] r u fresh = (refl, tt)
  append-IsUnique (x ∷ rows) r u fresh = (
    ground (arith, exists-append (keyed (key x)) rows (r ∷ []), eq_comm (key x) (key r)),
    append-IsUnique rows r u.1 (ground arith),
  )

  pub delete-IsUnique : (q : R → Bool) (rows : List R) → IsUnique rows → IsUnique (delete q rows)
  unfolding delete
  delete-IsUnique q [] u = tt
  delete-IsUnique q (r ∷ rows) u = elim (Bool-cases (q r)) [
    | inl gone ↦ rw gone (delete-IsUnique q rows u.1)
    | inr kept ↦
        rw kept (exists-delete-false (keyed (key r)) q rows u.0, delete-IsUnique q rows u.1)
  ]

  pub update-IsUnique :
      (q : R → Bool) (f : R → R) (rows : List R)
      → ((r : R) → key (f r) ≡ key r)
      → IsUnique rows
      → IsUnique (update q f rows)
  unfolding update
  update-IsUnique q f [] same u = tt
  update-IsUnique q f (r ∷ rows) same u = (
    rw (key_if (q r))
        (exists-update (keyed (key r)) q f rows (λ x. ap (λ k. eq k (key r)) (same x)) ∙ u.0),
    update-IsUnique q f rows same u.1,
  )
    where
      key_if : (b : Bool) → key (if b then f r else r) ≡ key r
      key_if true = same r
      key_if false = refl
