-- ===== src/Db/Sql/Reordered.antt =====
-- Rows in another order.
use mathlib.Core.Path.{subst}
use mathlib.Core.List.Permᴰ
use mathlib.Core.List.{Permᴰ}
use gha_cache_server.Base.{
  ◌≡◌, refl, sym, ◌∙◌, inl, inr, ◌↔◌, Bool, true, false, List, ◌∷◌, map, Bool-cases, arith,
}
use gha_cache_server.Db.Sql.{delete, exists}
use gha_cache_server.Db.Sql.Laws.{keyed, IsUnique, eq_comm}

module _ {R : Type 0} where
  pub exists-reordered : (p : R → Bool) (l r : List R) → Permᴰ l r → exists p l ≡ exists p r
  unfolding exists
  exists-reordered p _ _ Permᴰ.nil = refl
  exists-reordered p _ _ (Permᴰ.cons {a} {b} {l₁} {l₂} e q) =
      rw (e, exists-reordered p l₁ l₂ q) refl
  exists-reordered p _ _ (Permᴰ.swap {a} {b} {a'} {b'} {l} e f) = rw (e, f) (ground arith)
  exists-reordered p _ _ (Permᴰ.trans {l₁} {l₂} {l₃} q s) =
      exists-reordered p l₁ l₂ q ∙ exists-reordered p l₂ l₃ s

  pub delete-reordered : (p : R → Bool) (l r : List R) → Permᴰ l r → Permᴰ (delete p l) (delete p r)
  unfolding delete
  delete-reordered p _ _ Permᴰ.nil = Permᴰ.nil
  delete-reordered p _ _ (Permᴰ.cons {a} {b} {l₁} {l₂} e q) = rw e (elim (Bool-cases (p b)) [
    | inl gone ↦ rw gone (delete-reordered p l₁ l₂ q)
    | inr kept ↦ rw kept (Permᴰ.cons refl (delete-reordered p l₁ l₂ q))
  ])
  delete-reordered p _ _ (Permᴰ.swap {a} {b} {a'} {b'} {l} e f) =
      rw (e, f)
        (elim (Bool-cases (p a')) [
          | inl gone ↦ rw gone (Permᴰ.refl _)
          | inr kept ↦ rw kept (elim (Bool-cases (p b')) [
            | inl gone ↦ rw gone (Permᴰ.refl _)
            | inr kept' ↦ rw kept' (Permᴰ.swap refl refl)
          ])
        ])
  delete-reordered p _ _ (Permᴰ.trans {l₁} {l₂} {l₃} q s) =
      Permᴰ.trans (delete-reordered p l₁ l₂ q) (delete-reordered p l₂ l₃ s)

pub map-reordered :
    {R Q : Type 0} (f : R → Q) (l r : List R) → Permᴰ l r → Permᴰ (map f l) (map f r)
map-reordered f _ _ Permᴰ.nil = Permᴰ.nil
map-reordered f _ _ (Permᴰ.cons {a} {b} {l₁} {l₂} e q) =
    rw e (Permᴰ.cons refl (map-reordered f l₁ l₂ q))
map-reordered f _ _ (Permᴰ.swap {a} {b} {a'} {b'} {l} e f') = rw (e, f') (Permᴰ.swap refl refl)
map-reordered f _ _ (Permᴰ.trans {l₁} {l₂} {l₃} q s) =
    Permᴰ.trans (map-reordered f l₁ l₂ q) (map-reordered f l₂ l₃ s)

module _ {R K : Type 0} (key : R → K) (eq : K → K → Bool)
    (eq_iff : (a b : K) → (eq a b ≡ true) ↔ (a ≡ b)) where
  pub reordered-IsUnique :
      (l r : List R) → Permᴰ l r → IsUnique key eq eq_iff l → IsUnique key eq eq_iff r
  unfolding exists
  reordered-IsUnique _ _ Permᴰ.nil u = u
  reordered-IsUnique _ _ (Permᴰ.cons {a} {b} {l₁} {l₂} e q) u =
      let v = subst (λ x. IsUnique key eq eq_iff (x ∷ l₁)) e u in
      (
        sym (exists-reordered (keyed key eq eq_iff (key b)) l₁ l₂ q) ∙ v.0,
        reordered-IsUnique l₁ l₂ q v.1,
      )
  reordered-IsUnique _ _ (Permᴰ.swap {a} {b} {a'} {b'} {l} e f) u =
      let v =
        subst (λ y. IsUnique key eq eq_iff (b' ∷ y ∷ l)) f
          (subst (λ x. IsUnique key eq eq_iff (x ∷ b ∷ l)) e u) in
      let other : eq (key b') (key a') ≡ false =
        eq_comm key eq eq_iff (key a') (key b') (ground (arith, v.0)) in
      (ground (arith, other, v.1.0), (ground (arith, v.0), v.1.1))
  reordered-IsUnique _ _ (Permᴰ.trans {l₁} {l₂} {l₃} q s) u =
      reordered-IsUnique l₂ l₃ s (reordered-IsUnique l₁ l₂ q u)
