-- ===== src/Storage/Match/Priority.antt =====
-- What `MatchCacheEntry` promises: it looks at a list of candidates in order, scope by scope, and
-- answers with the newest entry of the first candidate that any entry satisfies.
use mathlib.Core.Path.{fun_ext, subst}
use mathlib.Core.Option
use gha_cache_server.Base.{
  ◌≡◌, refl, sym, ap, ◌∙◌, ◌⊎◌, inl, inr, Bool, true, false, Option, none, some, List, [], ◌∷◌,
  ◌++◌, Bytes,
}
use gha_cache_server.Action.{Result, ok, err, driver_failed, no_keys, Action, fail}
use gha_cache_server.Db.Models.{CacheEntry}
use gha_cache_server.Db.State.{Db}
use gha_cache_server.Db.Queries.{find_exact_cache_entry, find_prefixed_cache_entry}
use gha_cache_server.Storage.World.{World}
use gha_cache_server.Storage.Reads.{
  with_faults, HasFault, Reads, Reads-pure, Reads-statement, Reads-bind, Reads-if_nil,
}
use gha_cache_server.Storage.Match.{
  MatchType, exact_primary, prefixed_primary, exact_restore, prefixed_restore, MatchInput, Match,
  match_of, match_key, match_restore, match_scopes, match_keys, match_cache_entry,
}
use gha_cache_server.Storage.Match.Candidates.{
  is_exact, Candidate, candidate, restore_pair, primary_pair, restore_candidates, candidates,
  or_next, first_hit, hit-exact, hit-prefixed, first_hit-append, IsBestMatch, first_hit-IsBestMatch,
}

Reads-same :
    {S A : Type 0} {m : Action (World S) A} (f g : Db → A)
    → Reads m f
    → ((d : Db) → f d ≡ g d)
    → Reads m g
Reads-same {m = m} f g r h = subst (Reads m) (fun_ext h) r

found_or :
    (f g : CacheEntry → Match) (a b : Option CacheEntry)
    → (elim a [ none ↦ elim b [ none ↦ none | some e ↦ some (g e) ] | some e ↦ some (f e) ])
      ≡ or_next (Option.map f a) (or_next (Option.map g b) none)
found_or f g none none = refl
found_or f g none (some b) = refl
found_or f g (some a) b = refl

keep_or : (a b : Option Match) → (elim a [ none ↦ b | some m ↦ some m ]) ≡ or_next a b
keep_or none b = refl
keep_or (some m) b = refl

module _ {S : Type 0} (version repo_id : Bytes) where
  match_key-Reads :
      (exact prefixed : MatchType) (key scope : Bytes)
      → is_exact exact ≡ true
      → is_exact prefixed ≡ false
      → Reads {S = S} (match_key exact prefixed key version scope repo_id) (λ d.
        first_hit version repo_id d (candidate exact scope key ∷ candidate prefixed scope key ∷ []))
  unfolding match_key find_exact_cache_entry find_prefixed_cache_entry
  match_key-Reads exact prefixed key scope he hp =
      Reads-same _ _
        (Reads-bind _ _ _ _ (Reads-statement _ (λ d fs. refl)) λ e.
          Reads-if_nil e _ _ _ _
            (Reads-bind _ _ _ _ (Reads-statement _ (λ d fs. refl))
              λ e. Reads-if_nil e _ _ _ _ (Reads-pure none) (λ e. Reads-pure _))
            (λ e. Reads-pure _))
        λ d.
          rw
            (
              hit-exact version repo_id d exact scope key he,
              hit-prefixed version repo_id d prefixed scope key hp,
            )
            (found_or (match_of exact) (match_of prefixed) _ _)

  match_restore-Reads :
      (restore : List Bytes) (scope : Bytes)
      → Reads {S = S}
          (match_restore restore version scope repo_id)
          (λ d. first_hit version repo_id d (restore_candidates scope restore))
  unfolding match_restore
  match_restore-Reads [] scope = Reads-pure none
  match_restore-Reads (k ∷ restore) scope =
      let rest = match_restore-Reads restore scope in
      Reads-same _ _
        (Reads-bind _ _ _ _ (match_key-Reads exact_restore prefixed_restore k scope refl refl)
          λ m. Reads-if_nil m _ _ _ _ rest (λ m. Reads-pure _))
        λ d.
          let hits = first_hit version repo_id d in
          keep_or (hits (restore_pair scope k)) (hits (restore_candidates scope restore))
          ∙ sym (
              first_hit-append version repo_id d (restore_pair scope k)
                (restore_candidates scope restore))

  match_scopes-Reads :
      (primary : Bytes) (restore scopes : List Bytes)
      → Reads {S = S}
          (match_scopes primary restore version scopes repo_id)
          (λ d. first_hit version repo_id d (candidates primary restore scopes))
  unfolding match_scopes
  match_scopes-Reads primary restore [] = Reads-pure none
  match_scopes-Reads primary restore (scope ∷ scopes) =
      let rest = match_scopes-Reads primary restore scopes in
      Reads-same _ _
        (Reads-bind _ _ _ _ (match_key-Reads exact_primary prefixed_primary primary scope refl refl)
          λ m.
            Reads-if_nil m _ _ _ _
              (Reads-bind _ _ _ _ (match_restore-Reads restore scope)
                λ m. Reads-if_nil m _ _ _ _ rest (λ m. Reads-pure _))
              (λ m. Reads-pure _))
        λ d.
          let hits = first_hit version repo_id d in
          let later = restore_candidates scope restore ++ candidates primary restore scopes in
          keep_or (hits (primary_pair scope primary)) _
          ∙ ap (or_next (hits (primary_pair scope primary))) (
              keep_or (hits (restore_candidates scope restore))
                (hits (candidates primary restore scopes))
              ∙ sym (
                  first_hit-append version repo_id d (restore_candidates scope restore)
                    (candidates primary restore scopes)))
          ∙ sym (first_hit-append version repo_id d (primary_pair scope primary) later)

-- What a search may answer: the best match, or the error of a statement that failed.
abbrev pub IsAnswer : Db → Bytes → Bytes → List Candidate → Result (Option Match) → Type 0
IsAnswer d version repo_id cs (ok o) = IsBestMatch d version repo_id cs o
IsAnswer d version repo_id cs (err e) = (e ≡ driver_failed) × HasFault d.faults

abbrev pub match_input : Bytes → List Bytes → Bytes → List Bytes → Bytes → MatchInput
match_input primary restore version scopes repo_id = record {
  keys = primary ∷ restore;
  version = version;
  scopes = scopes;
  repo_id = repo_id;
}

-- The search for a primary key and restore keys.
pub match_keys-IsAnswer :
    {S : Type 0} (primary : Bytes) (restore : List Bytes) (version : Bytes) (scopes : List Bytes)
    (repo_id : Bytes) (w : World S)
    → let (r, w') = match_cache_entry (match_input primary restore version scopes repo_id) w in
      IsAnswer w.db version repo_id (candidates primary restore scopes) r
      × ((left : List Bool) × (w' ≡ with_faults w left))
unfolding match_cache_entry match_keys
match_keys-IsAnswer primary restore version scopes repo_id w =
    let reads = (match_scopes-Reads version repo_id primary restore scopes).at w in
    (go _ reads.answer, (reads.left, reads.same))
  where
    go :
        (r : Result (Option Match))
        → (r ≡ ok (first_hit version repo_id w.db (candidates primary restore scopes)))
          ⊎ ((r ≡ err driver_failed) × HasFault w.db.faults)
        → IsAnswer w.db version repo_id (candidates primary restore scopes) r
    go r (inl e) =
        rw e (first_hit-IsBestMatch w.db version repo_id (candidates primary restore scopes))
    go r (inr (e, fault)) = rw e (refl, fault)

-- What is answered to a request: without a key, that one is required.
abbrev pub IsAnswerTo : Db → MatchInput → List Bytes → Result (Option Match) → Type 0
IsAnswerTo d input [] r = r ≡ err no_keys
IsAnswerTo d input (primary ∷ restore) r =
    IsAnswer d input.version input.repo_id (candidates primary restore input.scopes) r

-- `MatchCacheEntry` changes no row. Without a key its error is that one is required. With one, if no
-- statement fails it answers with the newest entry that satisfies the first candidate, in the order of
-- the scopes and keys, that any entry satisfies, or with none if no candidate is satisfied; it fails
-- only with the driver's error.
pub match_cache_entry-IsAnswer :
    {S : Type 0} (input : MatchInput) (w : World S)
    → let (r, w') = match_cache_entry input w in
      IsAnswerTo w.db input input.keys r × ((left : List Bool) × (w' ≡ with_faults w left))
unfolding match_cache_entry
match_cache_entry-IsAnswer {S} input w = go input.keys
  where
    go :
        (keys : List Bytes)
        → let (r, w') = match_keys {S = S} keys input w in
          IsAnswerTo w.db input keys r × ((left : List Bool) × (w' ≡ with_faults w left))
    go [] = unfold match_keys fail in (refl, (w.db.faults, refl))
    go (primary ∷ restore) =
        unfold match_keys in
        match_keys-IsAnswer primary restore input.version input.scopes input.repo_id w
