-- ===== src/Auth/Scopes/Order/Loops.antt =====
-- internal/auth/scope.go: the loops of `ScopesByPermissionDesc` insert each scope into the prefix.
use gha_cache_server.Base.{
  ℕ, suc, ◌+◌, ◌≡◌, refl, ap, ◌∙◌, sym, inl, inr, true, false, List, [], ◌∷◌, length, if◌then◌else◌,
  Bool-cases, arith,
}
use gha_cache_server.Base.Int.{ltb_ℤ}
use gha_cache_server.Auth.Scopes.{Scope, rises_at, swap_at, sink, sort_rounds, sort_scopes}

-- The prefix of the slice that the rounds have sorted is kept reversed: `left` in front of `r`.
abbrev pub rev_append : List Scope → List Scope → List Scope
rev_append [] r = r
rev_append (y ∷ left) r = rev_append left (y ∷ r)

unfoldable pub insert_rev : Scope → List Scope → List Scope
insert_rev x [] = x ∷ []
insert_rev x (y ∷ left) =
    if ltb_ℤ y.permission x.permission then y ∷ insert_rev x left else x ∷ y ∷ left

length-insert_rev : (x : Scope) (left : List Scope) → length (insert_rev x left) ≡ suc (length left)
unfolding insert_rev
length-insert_rev x [] = refl
length-insert_rev x (y ∷ left) = ground (arith, length-insert_rev x left)

rises_at-rev_append :
    (left r : List Scope) (k : ℕ) → rises_at (length left + k) (rev_append left r) ≡ rises_at k r
rises_at-rev_append [] r k = ap (λ n. rises_at n r) (omega arith)
rises_at-rev_append (y ∷ left) r k =
    ap (λ n. rises_at n (rev_append left (y ∷ r))) (omega arith)
    ∙ rises_at-rev_append left (y ∷ r) (suc k)

swap_at-rev_append :
    (left r : List Scope) (k : ℕ)
    → swap_at (length left + k) (rev_append left r) ≡ rev_append left (swap_at k r)
swap_at-rev_append [] r k = ap (λ n. swap_at n r) (omega arith)
swap_at-rev_append (y ∷ left) r k =
    ap (λ n. swap_at n (rev_append left (y ∷ r))) (omega arith)
    ∙ swap_at-rev_append left (y ∷ r) (suc k)

sink-rises :
    (j : ℕ) (cp : List Scope) → rises_at j cp ≡ true → sink (suc j) cp ≡ sink j (swap_at j cp)
unfolding sink
sink-rises j cp h = rw (h, sink)

sink-stays : (j : ℕ) (cp : List Scope) → rises_at j cp ≡ false → sink (suc j) cp ≡ cp
unfolding sink
sink-stays j cp h = rw (h, sink)

module _ (left : List Scope) (y x : Scope) (r : List Scope) where
  rises_at-here :
      rises_at (length left) (rev_append left (y ∷ x ∷ r)) ≡ ltb_ℤ y.permission x.permission
  rises_at-here =
      ap (λ n. rises_at n (rev_append left (y ∷ x ∷ r))) (omega arith)
      ∙ rises_at-rev_append left (y ∷ x ∷ r) 0

  swap_at-here : swap_at (length left) (rev_append left (y ∷ x ∷ r)) ≡ rev_append left (x ∷ y ∷ r)
  swap_at-here =
      ap (λ n. swap_at n (rev_append left (y ∷ x ∷ r))) (omega arith)
      ∙ swap_at-rev_append left (y ∷ x ∷ r) 0

-- One run of the inner loop inserts the scope at `i` into the sorted prefix.
sink-rev_append :
    (left : List Scope) (x : Scope) (r : List Scope)
    → sink (length left) (rev_append left (x ∷ r)) ≡ rev_append (insert_rev x left) r
unfolding insert_rev
sink-rev_append [] x r = unfold sink in refl
sink-rev_append (y ∷ left) x r = elim (Bool-cases (ltb_ℤ y.permission x.permission)) [
  | inl rises ↦ rw rises (
      sink-rises (length left) _ (rises_at-here left y x r ∙ rises)
      ∙ ap (sink (length left)) (swap_at-here left y x r)
      ∙ sink-rev_append left x (y ∷ r))
  | inr stays ↦ rw stays (sink-stays (length left) _ (rises_at-here left y x r ∙ stays))
]

unfoldable pub insert_all : List Scope → List Scope → List Scope
insert_all left [] = left
insert_all left (x ∷ r) = insert_all (insert_rev x left) r

sort_rounds-rev_append :
    (left r : List Scope)
    → sort_rounds (length r) (length left) (rev_append left r) ≡ rev_append (insert_all left r) []
unfolding sort_rounds insert_all
sort_rounds-rev_append left [] = refl
sort_rounds-rev_append left (x ∷ r) =
    ap (sort_rounds (length r) (suc (length left))) (sink-rev_append left x r)
    ∙ ap (λ i. sort_rounds (length r) i (rev_append (insert_rev x left) r))
        (sym (length-insert_rev x left))
    ∙ sort_rounds-rev_append (insert_rev x left) r

pub sort_scopes-eq-insert_all :
    (scopes : List Scope) → sort_scopes scopes ≡ rev_append (insert_all [] scopes) []
unfolding sort_scopes insert_all insert_rev
sort_scopes-eq-insert_all [] = unfold sort_rounds in refl
sort_scopes-eq-insert_all (x ∷ r) =
    ap (λ n. sort_rounds n 1 (x ∷ r)) (omega arith) ∙ sort_rounds-rev_append (x ∷ []) r
