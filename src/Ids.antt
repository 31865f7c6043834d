-- ===== src/Ids.antt =====
-- internal/ids/ids.go: the id of an upload. The random number is an argument.
use gha_cache_server.Base.{ℕ, ◌+◌}
use gha_cache_server.Base.Int.{ℤ, pos}

-- `min` of `NumericID`. The number that `rand.Int` draws is below `span`, 9000000000.
abbrev least : ℕ
least = 1000000000

-- `NumericID`, with the number that `rand.Int` draws.
abbrev pub numeric_id : ℕ → ℤ
numeric_id n = pos (least + n)
