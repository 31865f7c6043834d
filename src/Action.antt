-- ===== src/Action.antt =====
-- Go functions that change state and may return an `error`. What was written before an error stays
-- written, so the state comes back beside the error too.
pub mod Keeps
pub mod Laws
pub mod Returns
pub mod Ensures
pub mod Succeeds
use gha_cache_server.Base.{ℕ, Option, none, some}

-- The errors that the sources return, the sentinels and those that are made on the spot.
pub data Error : Type 0 where
  -- what `database/sql` returns when a statement is not carried out
  driver_failed : Error
  duplicate_key : Error
  missing_reference : Error
  -- `storage.ErrObjectNotFound`
  object_not_found : Error
  -- any other error of a storage adapter
  storage_failed : Error
  -- `fmt.Errorf("insert upload: %w", err)` and `fmt.Errorf("count parts: %w", err)`
  insert_upload_failed : Error → Error
  count_parts_failed : Error → Error
  -- the errors of `CompleteUpload`, with the counts that they print
  no_parts : Error
  not_all_parts : ℕ → ℕ → Error
  part_count_mismatch : ℕ → ℕ → Error
  -- "at least one key required", "storage location not found"
  no_keys : Error
  location_not_found : Error

pub data Result (A : Type 0) : Type 0 where
  ok : A → Result A
  err : Error → Result A

-- The error wrapped by `fmt.Errorf("…: %w", err)`.
abbrev pub wrap_result : {A : Type 0} → (Error → Error) → Result A → Result A
wrap_result w (ok a) = ok a
wrap_result w (err e) = err (w e)

abbrev pub Action : Type 0 → Type 0 → Type 0
Action S A = S → Result A × S

module _ {S A : Type 0} where
  unfoldable pub pure : A → Action S A
  pure a s = (ok a, s)

  unfoldable pub fail : Error → Action S A
  fail e s = (err e, s)

  unfoldable pub gets : (S → A) → Action S A
  gets f s = (ok (f s), s)

  unfoldable pub wrap : (Error → Error) → Action S A → Action S A
  wrap w m s = let (r, s') = m s in (wrap_result w r, s')

  -- `_ = f()`, which drops the error.
  unfoldable pub attempt : Action S A → Action S (Unit {0})
  attempt m s = let (r, s') = m s in (ok tt, s')

module _ {S : Type 0} where
  unfoldable pub modify : (S → S) → Action S (Unit {0})
  modify f s = (ok tt, f s)

module _ {S A B : Type 0} where
  -- `if x == nil { … } else { … }`
  unfoldable pub if_nil : Option A → Action S B → (A → Action S B) → Action S B
  if_nil none m f = m
  if_nil (some a) m f = f a

  abbrev pub branch : Result A → (A → Action S B) → (Error → Action S B) → Action S B
  branch (ok a) f g = f a
  branch (err e) f g = g e

  -- `if err != nil { … }`, where the error's branch goes on or returns its own answer.
  unfoldable pub handle : Action S A → (A → Action S B) → (Error → Action S B) → Action S B
  handle m f g s = let (r, s') = m s in branch r f g s'

  infixl 10 ◌>>=◌ ◌>>◌
  -- `if err != nil { return …, err }`. Opening this opens the other ways to build an action too.
  unfoldable pub ◌>>=◌ : Action S A → (A → Action S B) → Action S B
  unfolding pure fail gets wrap attempt modify handle if_nil
  m >>= f = handle m f fail

  abbrev pub ◌>>◌ : Action S A → Action S B → Action S B
  m >> n = m >>= λ _. n

-- The same action on a part of a larger state: `get` reads the part, `put` writes it back.
module _ {S T A : Type 0} where
  unfoldable pub zoom : (T → S) → (S → T → T) → Action S A → Action T A
  zoom get put m t = let (r, s') = m (get t) in (r, put s' t)
