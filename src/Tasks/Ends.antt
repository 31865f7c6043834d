-- ===== src/Tasks/Ends.antt =====
-- The loops of the cleanup tasks end: with a page of fuel for every ten rows of the table and one
-- more, none runs out, whatever statements fail.
use gha_cache_server.Base.{
  ℕ, zero, suc, ◌+◌, ◌-◌, ◌*◌, ◌≤◌, ◌<◌, ◌≡◌, ◌≢◌, refl, ap, sym, ◌∙◌, ◌⊎◌, inl, inr, Bool, true,
  false, Option, none, some, List, [], ◌∷◌, length, length-take, length-drop, ltb, if◌then◌else◌,
  Bool-cases, arith,
}
use gha_cache_server.Action.{Error, Result, ok, err, Action, pure, gets, modify, attempt, ◌>>=◌}
use gha_cache_server.Action.Laws.{bind-ok, bind-err, Result-cases}
use gha_cache_server.Action.Keeps.{Keeps, keeps_rules}
use gha_cache_server.Db.Models.{StorageLocation, Upload}
use gha_cache_server.Db.Sql.{select, delete, update, page}
use gha_cache_server.Db.State.{Db, run_statement, statement}
use gha_cache_server.Storage.Adapter.{Adapter}
use gha_cache_server.Storage.World.{World, query, storing, now}
use gha_cache_server.Tasks.Pages.{page_size, for_each, each_page}
use gha_cache_server.Tasks.Integrity.{Keeps-for_each}
pub mod Jobs
pub mod Rules
pub mod Pressure

module _ {R : Type 0} where
  pub length-select : (p : R → Bool) (rows : List R) → length (select p rows) ≤ length rows
  unfolding select
  length-select p [] = omega arith
  length-select p (r ∷ rows) = ground (arith, length-select p rows)

  pub length-delete : (p : R → Bool) (rows : List R) → length (delete p rows) ≤ length rows
  unfolding delete
  length-delete p [] = omega arith
  length-delete p (r ∷ rows) = ground (arith, length-delete p rows)

  pub length-update :
      (p : R → Bool) (f : R → R) (rows : List R) → length (update p f rows) ≡ length rows
  unfolding update
  length-update p f [] = refl
  length-update p f (r ∷ rows) = ap suc (length-update p f rows)

  -- A page is full only if the rows reach to its end.
  page_full :
      (offset : ℕ) (rows : List R)
      → ltb (length (page 10 offset rows)) 10 ≡ false
      → offset + 10 ≤ length rows
  page_full offset rows full =
      ground (arith, length-take 10 (drop_rows offset), length-drop offset rows)
    where
      drop_rows : ℕ → List R
      drop_rows n = gha_cache_server.Base.drop n rows

-- The run of a loop has not run out of fuel.
abbrev pub HasEnded : {A : Type 0} → Result (Option A) → Type 0
HasEnded (ok none) = ⊥
HasEnded (ok (some a)) = Unit
HasEnded (err e) = Unit

-- What a loop over pages needs to end: the list reads pages of a table of a known size, and neither
-- the list nor the body makes it longer.
pub record Shrinks {S R : Type 0} (size : S → ℕ) (list : ℕ → ℕ → Action S (List R))
    (body : R → Action S (Unit {0})) : Type 0 where
  pub reads :
      (limit offset : ℕ) (s : S) (rs : List R)
      → (list limit offset s).0 ≡ ok rs
      → (rows : List R) × (rs ≡ page limit offset rows) × (length rows ≤ size s)
  pub list_keeps : (n limit offset : ℕ) → Keeps (λ s. size s ≤ n) (list limit offset)
  pub body_keeps : (n : ℕ) (r : R) → Keeps (λ s. size s ≤ n) (body r)

module _ {S R : Type 0} {size : S → ℕ} {list : ℕ → ℕ → Action S (List R)}
    {body : R → Action S (Unit {0})} (shrinks : Shrinks size list body) where
  -- After a full page the table is known to reach to the page's end.
  reached :
      (k n : ℕ) (s : S) {rs : List R}
      → size s ≤ n
      → (list page_size (k * page_size) s).0 ≡ ok rs
      → ltb (length rs) 10 ≡ false
      → k * 10 + 10 ≤ n
  reached k n s {rs} small listed full =
      omega
        (arith, page_full (k * 10) got.0 (ap (λ x. ltb (length x) 10) (sym got.1) ∙ full), got.2)
    where
      got : (rows : List R) × (rs ≡ page 10 (k * 10) rows) × (length rows ≤ size s)
      got = shrinks.reads page_size (k * page_size) s rs listed

  one_page-HasEnded :
      (fuel k n : ℕ) (s : S)
      → size s ≤ n
      → n < (suc fuel + k) * 10
      → ((s' : S) → size s' ≤ n → 0 < fuel → HasEnded (each_page list body fuel (suc k) s').0)
      → HasEnded (each_page list body (suc fuel) k s).0
  unfolding each_page pure
  one_page-HasEnded fuel k n s small room next = elim (Result-cases (read s).0) [
    | inr (e, failed) ↦ rw (bind-err read _ failed refl) tt
    | inl (rs, listed) ↦
        rw (bind-ok read _ listed refl) (elim (Result-cases (for_each body rs (read s).1).0) [
          | inr (e, failed) ↦ rw (bind-err (for_each body rs) _ failed refl) tt
          | inl (u, done) ↦
              rw (bind-ok (for_each body rs) _ done refl) (elim (Bool-cases (ltb (length rs) 10)) [
                | inl short ↦ rw short tt
                | inr full ↦ rw full (
                    next (for_each body rs (read s).1).1
                      ((after rs).from (read s).1 (before.from s small))
                      (omega (arith, reached k n s small listed full)))
              ])
        ])
  ]
    where
      read : Action S (List R)
      read = list page_size (k * page_size)

      before : Keeps (λ s. size s ≤ n) read
      before = shrinks.list_keeps n page_size (k * page_size)

      after : (rs : List R) → Keeps (λ s. size s ≤ n) (for_each body rs)
      after rs = Keeps-for_each body rs (shrinks.body_keeps n)

  -- There is fuel for the pages that the table reaches, and one more.
  pub each_page-HasEnded :
      (fuel k n : ℕ) (s : S)
      → size s ≤ n
      → n < (fuel + k) * 10
      → 0 < fuel
      → HasEnded (each_page list body fuel k s).0
  each_page-HasEnded zero k n s small room left = absurd (omega arith)
  each_page-HasEnded (suc fuel) k n s small room left =
      one_page-HasEnded fuel k n s small room
        (λ s' small' left'. each_page-HasEnded fuel (suc k) n s' small' (omega (arith, room)) left')
