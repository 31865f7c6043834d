-- ===== src/Db/Newest.antt =====
-- `… WHERE p ORDER BY updatedAt DESC LIMIT 1` finds a row that was changed last among those that
-- pass.
use gha_cache_server.Base.{
  ◌≤◌, ◌≡◌, refl, ap, ◌∙◌, inl, inr, Bool, true, false, Option, none, some, List, [], ◌∷◌, ◌++◌,
  head, All, All-mono, if◌then◌else◌, Bool-cases, arith,
}
use gha_cache_server.Db.Models.{CacheEntry}
use gha_cache_server.Db.Sql.{select, exists, order_by, insert_sorted}
use gha_cache_server.Db.Queries.{newer}

abbrev pub newest : (CacheEntry → Bool) → List CacheEntry → Option CacheEntry
newest p rows = head (order_by newer (select p rows))

-- No row passes, or the row is one that passes and no row that passes was changed later.
abbrev pub IsNewest : (CacheEntry → Bool) → List CacheEntry → Option CacheEntry → Type 0
IsNewest p rows none = exists p rows ≡ false
IsNewest p rows (some e) =
    (before after : List CacheEntry) × (rows ≡ before ++ e ∷ after)
    × (p e ≡ true)
    × All (λ r. r.updated_at ≤ e.updated_at) (select p rows)

abbrev pick : CacheEntry → Option CacheEntry → CacheEntry
pick r none = r
pick r (some y) = if newer y r then y else r

head-insert_sorted :
    (r : CacheEntry) (l : List CacheEntry) → head (insert_sorted newer r l) ≡ some (pick r (head l))
unfolding insert_sorted
head-insert_sorted r [] = refl
head-insert_sorted r (y ∷ l) = elim (Bool-cases (newer y r)) [
  | inl first ↦ rw first
  | inr second ↦ rw second
]

head-order_by :
    (r : CacheEntry) (l : List CacheEntry)
    → head (order_by newer (r ∷ l)) ≡ some (pick r (head (order_by newer l)))
unfolding order_by
head-order_by r l = head-insert_sorted r (order_by newer l)

select-eq-nil :
    (p : CacheEntry → Bool) (rows : List CacheEntry) → exists p rows ≡ false → select p rows ≡ []
unfolding exists select
select-eq-nil p [] h = refl
select-eq-nil p (r ∷ rows) h = ground (arith, select-eq-nil p rows)

-- A row that does not pass changes nothing.
IsNewest-miss :
    (p : CacheEntry → Bool) (r : CacheEntry) (rows : List CacheEntry) (o : Option CacheEntry)
    → p r ≡ false
    → IsNewest p rows o
    → IsNewest p (r ∷ rows) o
unfolding exists select
IsNewest-miss p r rows none miss h = rw miss h
IsNewest-miss p r rows (some e) miss (before, after, split, hit, top) =
    (r ∷ before, after, ap (λ l. r ∷ l) split, hit, rw miss top)

IsNewest-hit :
    (p : CacheEntry → Bool) (r : CacheEntry) (rows : List CacheEntry) (o : Option CacheEntry)
    → p r ≡ true
    → IsNewest p rows o
    → IsNewest p (r ∷ rows) (some (pick r o))
unfolding select
IsNewest-hit p r rows none hit h =
    ([], rows, refl, hit, rw (hit, select-eq-nil p rows h) (omega arith, tt))
IsNewest-hit p r rows (some y) hit (before, after, split, hit_y, top) =
    elim (Bool-cases (newer y r)) [
      | inl first ↦
          rw first (r ∷ before, after, ap (λ l. r ∷ l) split, hit_y, rw hit (ground arith, top))
      | inr second ↦ rw second (
        [],
        rows,
        refl,
        hit,
        rw hit (omega arith, All-mono _ _ (select p rows) (λ x h. ground arith) top),
      )
    ]

pub newest-IsNewest :
    (p : CacheEntry → Bool) (rows : List CacheEntry) → IsNewest p rows (newest p rows)
newest-IsNewest p [] = unfold select order_by exists in refl
newest-IsNewest p (r ∷ rows) = elim (Bool-cases (p r)) [
  | inl hit ↦
      rw (select_hit hit ∙ head-order_by r (select p rows))
        (IsNewest-hit p r rows (newest p rows) hit (newest-IsNewest p rows))
  | inr miss ↦
      rw (select_miss miss) (IsNewest-miss p r rows (newest p rows) miss (newest-IsNewest p rows))
]
  where
    select_hit : p r ≡ true → newest p (r ∷ rows) ≡ head (order_by newer (r ∷ select p rows))
    select_hit hit = unfold select in rw hit

    select_miss : p r ≡ false → newest p (r ∷ rows) ≡ newest p rows
    select_miss miss = unfold select in rw miss
