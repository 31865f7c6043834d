-- ===== src/Db/Sql.antt =====
-- The parts of SQL that the statements of internal/db/queries.go are written in, over a table that
-- is the list of its rows in the order in which they were inserted.
pub mod Laws
pub mod Find
pub mod Unique
pub mod Reordered
use gha_cache_server.Base.{
  ℕ, suc, ◌+◌, Bool, true, false, not, ◌||◌, List, [], ◌∷◌, ◌++◌, map, take, drop, if◌then◌else◌,
}

module _ {R : Type 0} where
  -- `SELECT … WHERE p`
  unfoldable pub select : (R → Bool) → List R → List R
  select p [] = []
  select p (r ∷ rows) = let rest = select p rows in if p r then r ∷ rest else rest

  -- `DELETE … WHERE p`
  unfoldable pub delete : (R → Bool) → List R → List R
  delete p [] = []
  delete p (r ∷ rows) = let rest = delete p rows in if p r then rest else r ∷ rest

  -- `UPDATE … SET f WHERE p`
  unfoldable pub update : (R → Bool) → (R → R) → List R → List R
  update p f [] = []
  update p f (r ∷ rows) = (if p r then f r else r) ∷ update p f rows

  -- `EXISTS (SELECT 1 … WHERE p)`
  unfoldable pub exists : (R → Bool) → List R → Bool
  exists p [] = false
  exists p (r ∷ rows) = p r || exists p rows

  -- `SELECT count(*) … WHERE p`
  unfoldable pub count : (R → Bool) → List R → ℕ
  count p [] = 0
  count p (r ∷ rows) = let rest = count p rows in if p r then suc rest else rest

  -- `ORDER BY`, where `before a b` says that `a` has to stand in front of `b`. Rows that tie keep
  -- their order.
  unfoldable pub insert_sorted : (R → R → Bool) → R → List R → List R
  insert_sorted before x [] = x ∷ []
  insert_sorted before x (y ∷ rows) =
      let rest = insert_sorted before x rows in if before y x then y ∷ rest else x ∷ y ∷ rows

  unfoldable pub order_by : (R → R → Bool) → List R → List R
  unfolding insert_sorted
  order_by before [] = []
  order_by before (r ∷ rows) = insert_sorted before r (order_by before rows)

  -- `LIMIT … OFFSET …`
  abbrev pub page : ℕ → ℕ → List R → List R
  page limit offset rows = take limit (drop offset rows)

-- `c JOIN s ON p c s`
unfoldable pub join : {R Q : Type 0} → (R → Q → Bool) → List R → List Q → List (R × Q)
unfolding select
join p [] right = []
join p (c ∷ left) right = map (λ s. (c, s)) (select (p c) right) ++ join p left right
