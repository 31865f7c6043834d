-- ===== src/Tasks/Pages.antt =====
-- The loop `for page := 0; ; page++ { … }` that four of the tasks in internal/tasks share: a page of
-- ten rows is read at the page's offset, each row is handled, and a short page is the last one.
use gha_cache_server.Base.{
  ℕ, zero, suc, ◌*◌, Option, none, some, List, [], ◌∷◌, length, ltb, if◌then◌else◌,
}
use gha_cache_server.Action.{Action, pure, ◌>>=◌, ◌>>◌}

-- `pageSize` of internal/tasks/tasks.go
abbrev pub page_size : ℕ
page_size = 10

module _ {S R : Type 0} where
  -- `for _, l := range locs { … }`
  unfoldable pub for_each : (R → Action S (Unit {0})) → List R → Action S (Unit {0})
  for_each body [] = pure tt
  for_each body (r ∷ rows) = body r >> for_each body rows

  -- The loop from a page on, with fuel for each page; `none` means that the fuel ran out.
  unfoldable pub each_page :
      (ℕ → ℕ → Action S (List R)) → (R → Action S (Unit {0})) → ℕ → ℕ → Action S (Option (Unit {0}))
  each_page list body zero page = pure none
  each_page list body (suc fuel) page = do
    rows ← list page_size (page * page_size)
    for_each body rows
    if ltb (length rows) page_size then pure (some tt) else each_page list body fuel (suc page)
