-- ===== src/Storage/Completion/Live/Statements.antt =====
-- What the statements of `CompleteUpload` need, so that they succeed.
use gha_cache_server.Base.{
  ℕ, ◌≡◌, refl, Bool, true, false, not, ◌&&◌, some, List, [], ◌∷◌, head, Bytes, bytes_eq_self,
  arith,
}
use gha_cache_server.Base.Int.{ℤ}
use gha_cache_server.Action.{ok, Action, gets, modify}
use gha_cache_server.Action.Succeeds.{Succeeds}
use gha_cache_server.Db.Models.{Upload}
use gha_cache_server.Db.Sql.{select, exists}
use gha_cache_server.Db.Sql.Find.{exists-append_last}
use gha_cache_server.Db.State.{Db, run_statement, statement}
use gha_cache_server.Db.Queries.{
  location_has_id, entry_has_id, upload_matches, find_upload_by_key, insert_storage_location,
  find_existing_cache_entry_with_location, insert_cache_entry, update_cache_entry_location,
  delete_storage_location, delete_upload,
}
use gha_cache_server.Storage.World.{World, query, storing, now}
use gha_cache_server.Storage.Reads.{with_faults}
use gha_cache_server.Storage.Upload.{new_location, new_entry}

-- No statement to come fails.
abbrev pub HasNoFault : {S : Type 0} → World S → Type 0
HasNoFault w = exists (λ b. b) w.db.faults ≡ false

abbrev pub IsFaultless : {S : Type 0} → World S → Type 0
IsFaultless w = HasNoFault w × Unit {0}

module _ {S A : Type 0} where
  -- A statement without a fault is its effect.
  Succeeds-statement :
      (P : World S → Type 0) (m : Action Db A) (Q : A → World S → Type 0)
      → ((w : World S) (fs : List Bool) → P w → P (with_faults w fs))
      → ((w : World S)
          → P w
          → (a : A) × ((m w.db).0 ≡ ok a)
            × ((m w.db).1.faults ≡ w.db.faults)
            × Q a (record w { db = (m w.db).1 }))
      → Succeeds (λ w. HasNoFault w × P w) (query (statement m)) (λ a w. HasNoFault w × Q a w)
  unfolding query statement exists
  Succeeds-statement P m Q stable step = record {
    at = λ w (fine, p).
        let (a, returned, kept, after) = go w w.db.faults refl fine p in
        record { value = a; returned = returned; after = (kept, after) };
  }
    where
      go :
          (w : World S) (fs : List Bool)
          → w.db.faults ≡ fs
          → exists (λ b. b) fs ≡ false
          → P w
          → (a : A) × ((run_statement fs m w.db).0 ≡ ok a)
            × (exists (λ b. b) (run_statement fs m w.db).1.faults ≡ false)
            × Q a (record w { db = (run_statement fs m w.db).1 })
      go w [] e fine p =
          let (a, returned, same, after) = step w p in (a, returned, rw (same, e) refl, after)
      go w (true ∷ fs) e fine p = absurd (cc fine)
      go w (false ∷ fs) e fine p =
          let (a, returned, same, after) = step (with_faults w fs) (stable w fs p) in
          (a, returned, rw same fine, after)

module _ {S : Type 0} where
  pub Succeeds-storing :
      {A : Type 0} {P : S → Type 0} {Q : A → S → Type 0} (R : Db → Type 0) (m : Action S A)
      → Succeeds P m Q
      → Succeeds (λ w. R w.db × P w.store) (storing m) (λ a w. R w.db × Q a w.store)
  unfolding storing
  Succeeds-storing R m k = record {
    at = λ w (r, p). record {
      value = (k.at w.store p).value;
      returned = (k.at w.store p).returned;
      after = (r, (k.at w.store p).after);
    };
  }

  pub Succeeds-now : (P : World S → Type 0) → Succeeds P now (λ _. P)
  unfolding now gets
  Succeeds-now P = record { at = λ w p. record { value = w.clock; returned = refl; after = p } }

  pub delete_location-Succeeds :
      (id : Bytes)
      → Succeeds {S = World S} IsFaultless (query (delete_storage_location id)) (λ _. IsFaultless)
  unfolding delete_storage_location modify
  delete_location-Succeeds id =
      Succeeds-statement (λ _. Unit) _ (λ _ _. Unit) (λ w fs p. p) (λ w p. (tt, refl, refl, tt))

  pub delete_upload-Succeeds :
      (id : ℤ) → Succeeds {S = World S} IsFaultless (query (delete_upload id)) (λ _. IsFaultless)
  unfolding delete_upload modify
  delete_upload-Succeeds id =
      Succeeds-statement (λ _. Unit) _ (λ _ _. Unit) (λ w fs p. p) (λ w p. (tt, refl, refl, tt))

module _ {S : Type 0} (loc_id entry_id : Bytes) where
  -- The two new ids are not taken.
  abbrev pub IsFresh : World S → Type 0
  IsFresh w =
      (exists (location_has_id loc_id) w.db.locations ≡ false)
      × (exists (entry_has_id entry_id) w.db.entries ≡ false)

  -- The location is there and the id of the entry is not taken.
  abbrev pub IsPlaced : World S → Type 0
  IsPlaced w =
      (exists (location_has_id loc_id) w.db.locations ≡ true)
      × (exists (entry_has_id entry_id) w.db.entries ≡ false)

  pub insert_location-Succeeds :
      (folder : Bytes) (n : ℕ)
      → Succeeds
          (λ w. HasNoFault w × IsFresh w)
          (query (insert_storage_location (new_location loc_id folder n)))
          (λ _ w. HasNoFault w × IsPlaced w)
  unfolding insert_storage_location
  insert_location-Succeeds folder n =
      Succeeds-statement IsFresh _ (λ _. IsPlaced) (λ w fs p. p)
        λ w p. rw p.0 (
          tt,
          refl,
          refl,
          (
            exists-append_last (location_has_id loc_id) w.db.locations
                (new_location loc_id folder n) (bytes_eq_self loc_id),
            p.1,
          ),
        )

  pub update_entry-Succeeds :
      (id : Bytes) (t : ℕ)
      → Succeeds
          (λ w. HasNoFault w × IsPlaced w)
          (query (update_cache_entry_location id loc_id t))
          (λ _. IsFaultless)
  unfolding update_cache_entry_location
  update_entry-Succeeds id t =
      Succeeds-statement IsPlaced _ (λ _ _. Unit) (λ w fs p. p)
        λ w p.
          let located : (exists (entry_has_id id) w.db.entries
                && not (exists (location_has_id loc_id) w.db.locations))
              ≡ false =
            ground arith in
          rw located (tt, refl, refl, tt)

  module _ (key version scope repo_id : Bytes) where
    pub find-Succeeds :
        (u : Upload) (s : S)
        → Succeeds
            (λ w.
              HasNoFault w
              × (IsFresh w
                  × (head (select (upload_matches key version scope repo_id) w.db.uploads) ≡ some u)
                  × (w.store ≡ s)))
            (query (find_upload_by_key key version scope repo_id))
            (λ o w. HasNoFault w × ((o ≡ some u) × IsFresh w × (w.store ≡ s)))
    unfolding find_upload_by_key gets
    find-Succeeds u s =
        Succeeds-statement _ _ (λ o w. (o ≡ some u) × IsFresh w × (w.store ≡ s)) (λ w fs p. p)
          λ w p. (_, refl, refl, (p.1, p.0, p.2))

    pub insert_entry-Succeeds :
        (t : ℕ)
        → Succeeds
            (λ w. HasNoFault w × IsPlaced w)
            (query (insert_cache_entry (new_entry entry_id key version scope repo_id t loc_id)))
            (λ _. IsFaultless)
    unfolding insert_cache_entry
    insert_entry-Succeeds t =
        Succeeds-statement IsPlaced _ (λ _ _. Unit) (λ w fs p. p)
          λ w p. rw (p.1, p.0) (tt, refl, refl, tt)

    pub find_existing-Succeeds :
        Succeeds
          (λ w. HasNoFault w × IsPlaced w)
          (query (find_existing_cache_entry_with_location key version scope repo_id))
          (λ _ w. HasNoFault w × IsPlaced w)
    unfolding find_existing_cache_entry_with_location gets
    find_existing-Succeeds =
        Succeeds-statement IsPlaced _ (λ _. IsPlaced) (λ w fs p. p) (λ w p. (_, refl, refl, p))
