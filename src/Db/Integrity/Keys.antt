-- ===== src/Db/Integrity/Keys.antt =====
-- The key, version, scope and repository of an entry of `cache_entries`, by which `CompleteUpload` looks
-- for one before it inserts one. No index of `m0Init` is unique in them.
use gha_cache_server.Base.{
  ◌≡◌, ap, Bool, true, ◌&&◌, List, Bytes, bytes_eq, bytes_eq_iff, arith, false, [], ◌∷◌,
}
use mathlib.Core.Logic.{◌↔◌}
use gha_cache_server.Base.Int.{ℤ}
use gha_cache_server.Action.{Action, gets, modify}
use gha_cache_server.Action.Keeps.{Keeps}
use gha_cache_server.Db.State.{Db, run_statement, statement}
use gha_cache_server.Db.Queries.{update_uploads, update_locations}
use gha_cache_server.Db.Models.{CacheEntry, StorageLocation, Upload}
use gha_cache_server.Db.Sql.Laws.{IsUnique}

-- The key, version, scope and repository of an entry.
pub record EntryKey : Type 0 where
  pub key : Bytes
  pub version : Bytes
  pub scope : Bytes
  pub repo_id : Bytes

abbrev pub key_of : CacheEntry → EntryKey
key_of e = record { key = e.key; version = e.version; scope = e.scope; repo_id = e.repo_id }

abbrev pub key_eq : EntryKey → EntryKey → Bool
key_eq a b =
    bytes_eq a.key b.key
    && (bytes_eq a.version b.version && bytes_eq a.scope b.scope && bytes_eq a.repo_id b.repo_id)

pub key_eq_iff : (a b : EntryKey) → (key_eq a b ≡ true) ↔ (a ≡ b)
key_eq_iff a b = (
  λ e.
      same ((bytes_eq_iff a.key b.key).0 (ground arith))
        ((bytes_eq_iff a.version b.version).0 (ground arith))
        ((bytes_eq_iff a.scope b.scope).0 (ground arith))
        ((bytes_eq_iff a.repo_id b.repo_id).0 (ground arith)),
  λ e. ground (
    arith,
    (bytes_eq_iff a.key b.key).1 (ap (λ k. k.key) e),
    (bytes_eq_iff a.version b.version).1 (ap (λ k. k.version) e),
    (bytes_eq_iff a.scope b.scope).1 (ap (λ k. k.scope) e),
    (bytes_eq_iff a.repo_id b.repo_id).1 (ap (λ k. k.repo_id) e),
  ),
)
  where
    same : a.key ≡ b.key → a.version ≡ b.version → a.scope ≡ b.scope → a.repo_id ≡ b.repo_id → a ≡ b
    same p q r s = cc (p, q, r, s)

-- No two of the rows have the same key, version, scope and repository.
abbrev pub UniqueKeys : List CacheEntry → Type 0
UniqueKeys = IsUnique key_of key_eq key_eq_iff

abbrev pub HasUniqueKeys : Db → Type 0
HasUniqueKeys d = UniqueKeys d.entries

pub Keys-statement :
    {A : Type 0} (m : Action Db A)
    → ((d : Db) → HasUniqueKeys d → HasUniqueKeys (m d).1)
    → Keeps HasUniqueKeys (statement m)
unfolding statement
Keys-statement m step = record { from = λ d h. go d.faults d h }
  where
    go : (fs : List Bool) (d : Db) → HasUniqueKeys d → HasUniqueKeys (run_statement fs m d).1
    go [] d h = step d h
    go (true ∷ fs) d h = h
    go (false ∷ fs) d h = step (record d { faults = fs }) h

pub Keys-gets : {A : Type 0} (f : Db → A) → Keeps HasUniqueKeys (statement (gets f))
unfolding gets
Keys-gets f = Keys-statement (gets f) (λ d h. h)

pub Keys-update_uploads :
    (id : ℤ) (f : Upload → Upload) → Keeps HasUniqueKeys (statement (modify (update_uploads id f)))
unfolding modify
Keys-update_uploads id f = Keys-statement _ (λ d h. h)

pub Keys-update_locations :
    (id : Bytes) (f : StorageLocation → StorageLocation)
    → Keeps HasUniqueKeys (statement (modify (update_locations id f)))
unfolding modify
Keys-update_locations id f = Keys-statement _ (λ d h. h)
