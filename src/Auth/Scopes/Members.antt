-- ===== src/Auth/Scopes/Members.antt =====
-- Sorting the scopes of a token neither adds nor drops one.
use gha_cache_server.Base.{
  ℕ, zero, suc, ◌-◌, ◌≡◌, refl, sym, ap, ◌∙◌, inl, inr, Bool, true, ◌||◌, List, [], ◌∷◌, map,
  length, Bool-cases, Bytes, bytes_eq, arith,
}
use gha_cache_server.Auth.Scopes.{
  Scope, rises_at, swap_at, sink, sort_rounds, sort_scopes, scopes_by_permission_desc,
}
use gha_cache_server.Db.Sql.{exists}

module _ (p : Scope → Bool) where
  exists-swap_at : (j : ℕ) (cp : List Scope) → exists p (swap_at j cp) ≡ exists p cp
  unfolding exists
  exists-swap_at zero [] = refl
  exists-swap_at zero (a ∷ []) = refl
  exists-swap_at zero (a ∷ b ∷ r) = ground arith
  exists-swap_at (suc j) [] = refl
  exists-swap_at (suc j) (a ∷ r) = ap (λ b. p a || b) (exists-swap_at j r)

  exists-sink : (j : ℕ) (cp : List Scope) → exists p (sink j cp) ≡ exists p cp
  unfolding sink
  exists-sink zero cp = refl
  exists-sink (suc j) cp =
      let rest = exists-sink j (swap_at j cp) in
      elim (Bool-cases (rises_at j cp)) [
        | inl e ↦ rw (e, sink) (rest ∙ exists-swap_at j cp)
        | inr e ↦ rw (e, sink) refl
      ]

  exists-sort_rounds : (n i : ℕ) (cp : List Scope) → exists p (sort_rounds n i cp) ≡ exists p cp
  unfolding sort_rounds
  exists-sort_rounds zero i cp = refl
  exists-sort_rounds (suc n) i cp = exists-sort_rounds n (suc i) (sink i cp) ∙ exists-sink i cp

exists-map :
    {A B : Type 0} (p : B → Bool) (f : A → B) (xs : List A)
    → exists p (map f xs) ≡ exists (λ x. p (f x)) xs
unfolding exists
exists-map p f [] = refl
exists-map p f (x ∷ xs) = ap (λ b. p (f x) || b) (exists-map p f xs)

-- One of the token's scopes has the name.
abbrev pub Grants : List Scope → Bytes → Type 0
Grants scopes scope = exists (λ s. bytes_eq s.scope scope) scopes ≡ true

pub scopes_by_permission_desc-Grants :
    (scopes : List Scope) (scope : Bytes)
    → exists (λ s. bytes_eq s scope) (scopes_by_permission_desc scopes) ≡ true
    → Grants scopes scope
unfolding scopes_by_permission_desc sort_scopes
scopes_by_permission_desc-Grants scopes scope h =
    sym (
      exists-map (λ s. bytes_eq s scope) (λ s. s.scope) (sort_scopes scopes)
      ∙ exists-sort_rounds (λ s. bytes_eq s.scope scope) (length scopes - 1) 1 scopes)
    ∙ h
