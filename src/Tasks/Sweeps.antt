-- ===== src/Tasks/Sweeps.antt =====
-- What the loop over pages leaves alone: a property that the body keeps for the rows that are listed
-- holds after the loop, whatever fails.
pub mod Locations
pub mod Uploads
pub mod Expired
use gha_cache_server.Base.{
  ℕ, zero, suc, ◌*◌, ◌≡◌, refl, sym, ap, ◌∙◌, inl, inr, Bool, true, false, not, ◌&&◌, ◌||◌, Option,
  none, some, List, [], ◌∷◌, length, All, All-mono, ltb, if◌then◌else◌, Bool-cases, arith,
}
use mathlib.Core.Path.{subst}
use gha_cache_server.Action.{Error, Result, ok, err, Action, pure, ◌>>=◌}
use gha_cache_server.Action.Laws.{bind-after, if_after}
use gha_cache_server.Action.Keeps.{Keeps}
use gha_cache_server.Db.Sql.{select, delete, exists}
use gha_cache_server.Tasks.Pages.{page_size, for_each, each_page}

-- Rows that are not deleted are not lost.
pub select-delete :
    {R : Type 0} (kept gone : R → Bool) (rows : List R)
    → exists (λ r. gone r && kept r) rows ≡ false
    → select kept (delete gone rows) ≡ select kept rows
unfolding select delete exists
select-delete kept gone [] h = refl
select-delete kept gone (r ∷ rows) h = elim (Bool-cases (gone r)) [
  | inl goes ↦ elim (Bool-cases (kept r)) [
    | inl keeps ↦ absurd (ground arith)
    | inr drops ↦ rw (goes, drops) (select-delete kept gone rows (ground arith))
  ]
  | inr stays ↦
      rw (stays, select)
        (ap (λ l. if kept r then r ∷ l else l) (select-delete kept gone rows (ground arith)))
]

pub record Sweeps {S R : Type 0} (P : S → Type 0) (G : R → S → Type 0)
    (list : ℕ → ℕ → Action S (List R)) (body : R → Action S (Unit {0})) : Type 0 where
  pub listing : (limit offset : ℕ) → Keeps P (list limit offset)
  pub listed :
      (limit offset : ℕ) (s : S) (rs : List R)
      → P s
      → (list limit offset s).0 ≡ ok rs
      → All (λ r. G r (list limit offset s).1) rs
  pub swept : (r : R) → Keeps (λ s. P s × G r s) (body r)
  pub spared : (r x : R) → Keeps (G x) (body r)

module _ {S R : Type 0} {P : S → Type 0} {G : R → S → Type 0} {list : ℕ → ℕ → Action S (List R)}
    {body : R → Action S (Unit {0})} (sweeps : Sweeps P G list body) where
  for_each-Sweeps : (rs : List R) (s : S) → P s → All (λ r. G r s) rs → P (for_each body rs s).1
  unfolding for_each pure
  for_each-Sweeps [] s p g = p
  for_each-Sweeps (r ∷ rs) s p g =
      let (after, grants) = (sweeps.swept r).from s (p, g.0) in
      bind-after P (body r) _ s after λ a e.
        for_each-Sweeps rs (body r s).1 after
          (All-mono _ _ rs (λ x. (sweeps.spared r x).from s) g.1)

  pub each_page-Sweeps : (fuel k : ℕ) (s : S) → P s → P (each_page list body fuel k s).1
  unfolding each_page pure
  each_page-Sweeps zero k s p = p
  each_page-Sweeps (suc fuel) k s p =
      let read = list page_size (k * page_size) in
      let found = (sweeps.listing page_size (k * page_size)).from s p in
      bind-after P read _ s found λ rs e.
        let swept =
          for_each-Sweeps rs (read s).1 found (sweeps.listed page_size (k * page_size) s rs p e) in
        bind-after P (for_each body rs) _ (read s).1 swept λ a done.
          if_after P (ltb (length rs) page_size) _ _ (for_each body rs (read s).1).1 swept
            (each_page-Sweeps fuel (suc k) (for_each body rs (read s).1).1 swept)
