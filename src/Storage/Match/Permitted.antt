-- ===== src/Storage/Match/Permitted.antt =====
-- What a token may restore: only entries of its repository, in a scope that it grants.
use mathlib.Core.Path.{subst}
use gha_cache_server.Base.{
  ◌≡◌, refl, sym, ap, ◌∙◌, inl, inr, true, Option, none, some, List, [], ◌∷◌, ◌++◌, All, All-append,
  All-mono, Bytes, bytes_eq, bytes_eq_self, bytes_eq_sound, arith,
}
use gha_cache_server.Action.{Result, ok, Action, pure, if_nil}
use gha_cache_server.Action.Laws.{bind-ok, bind-err, Result-cases}
use gha_cache_server.Action.Returns.{Returns, returns_rules}
use gha_cache_server.Db.Models.{CacheEntry}
use gha_cache_server.Db.Sql.{exists}
use gha_cache_server.Db.State.{Db}
use gha_cache_server.Storage.Adapter.{Adapter}
use gha_cache_server.Storage.World.{ServiceConfig, World}
use gha_cache_server.Storage.Match.{
  MatchInput, Match, ResolvedDownload, resolve, match_cache_entry,
  get_cache_entry_with_download_url,
}
use gha_cache_server.Storage.Match.Candidates.{candidates, restore_candidates, IsBestMatch}
use gha_cache_server.Storage.Match.Priority.{match_input, IsAnswer, match_keys-IsAnswer}

abbrev OfSome : {A : Type 0} → (A → Type 0) → Option A → Type 0
OfSome P none = Unit
OfSome P (some a) = P a

-- A scope that is named in the list.
abbrev pub Names : List Bytes → Bytes → Type 0
Names scopes scope = exists (λ s. bytes_eq s scope) scopes ≡ true

Names-here : (scope : Bytes) (scopes : List Bytes) → Names (scope ∷ scopes) scope
unfolding exists
Names-here scope scopes = ground (arith, bytes_eq_self scope)

Names-skip :
    (s : Bytes) (scopes : List Bytes) (scope : Bytes)
    → Names scopes scope
    → Names (s ∷ scopes) scope
unfolding exists
Names-skip s scopes scope h = ground arith

restore_candidates-scope :
    (scope : Bytes) (restore : List Bytes)
    → All (λ c. c.scope ≡ scope) (restore_candidates scope restore)
restore_candidates-scope scope [] = tt
restore_candidates-scope scope (k ∷ restore) =
    (refl, (refl, restore_candidates-scope scope restore))

candidates-scope :
    (primary : Bytes) (restore scopes : List Bytes)
    → All (λ c. Names scopes c.scope) (candidates primary restore scopes)
candidates-scope primary restore [] = tt
candidates-scope primary restore (scope ∷ scopes) = (
  here,
  (
    here,
    All-append _ (restore_candidates scope restore) (candidates primary restore scopes)
        (All-mono _ _ (restore_candidates scope restore)
          (λ c e. subst (Names (scope ∷ scopes)) (sym e) here)
          (restore_candidates-scope scope restore))
        (All-mono _ _ (candidates primary restore scopes) (λ c. Names-skip scope scopes c.scope)
          (candidates-scope primary restore scopes)),
  ),
)
  where
    here : Names (scope ∷ scopes) scope
    here = Names-here scope scopes

All-middle :
    {A : Type 0} (P : A → Type 0) (before : List A) (x : A) (after : List A)
    → All P (before ++ x ∷ after)
    → P x
All-middle P [] x after h = h.0
All-middle P (b ∷ before) x after h = All-middle P before x after h.1

-- An entry of the table, of the version and the repository, in one of the scopes.
abbrev pub IsPermitted : Db → Bytes → List Bytes → Bytes → CacheEntry → Type 0
IsPermitted d version scopes repo_id e =
    (before after : List CacheEntry) × (d.entries ≡ before ++ e ∷ after)
    × (e.version ≡ version)
    × (e.repo_id ≡ repo_id)
    × Names scopes e.scope

best-IsPermitted :
    (d : Db) (version repo_id primary : Bytes) (restore scopes : List Bytes) (m : Match)
    → IsBestMatch d version repo_id (candidates primary restore scopes) (some m)
    → IsPermitted d version scopes repo_id m.entry
best-IsPermitted d version repo_id primary restore scopes m
      (before, after, c, split, type, (b, a, place, hit, top), missed) =
    (
      b,
      a,
      place,
      bytes_eq_sound m.entry.version version (ground arith),
      bytes_eq_sound m.entry.repo_id repo_id (ground arith),
      subst (Names scopes) (sym (bytes_eq_sound m.entry.scope c.scope (ground arith))) named,
    )
  where
    named : Names scopes c.scope
    named =
        All-middle (λ c. Names scopes c.scope) before c after
          (subst (All (λ c. Names scopes c.scope)) split (candidates-scope primary restore scopes))

module _ {S : Type 0} (adapter : Adapter S) (cfg : ServiceConfig) where
  -- Whatever URL is resolved, it is for the matched entry.
  resolve-entry :
      (e : CacheEntry) → Returns (λ o. OfSome (λ r. r.entry ≡ e) o) (resolve adapter cfg e)
  unfolding resolve
  resolve-entry e = search returns_rules depth 14

  pub get_cache_entry_with_download_url-IsPermitted :
      (primary version : Bytes) (restore scopes : List Bytes) (repo_id : Bytes) (w : World S)
      (r : ResolvedDownload)
      → (get_cache_entry_with_download_url adapter cfg
          (match_input primary restore version scopes repo_id)
          w).0
        ≡ ok (some r)
      → IsPermitted w.db version scopes repo_id r.entry
  unfolding get_cache_entry_with_download_url if_nil pure
  get_cache_entry_with_download_url-IsPermitted primary version restore scopes repo_id w r h =
      elim (Result-cases found.0) [
        | inl (none, e) ↦ absurd (cc (sym (ap (λ p. p.0) (run none e)) ∙ h))
        | inl (some m, e) ↦
            subst (IsPermitted w.db version scopes repo_id)
              (sym (
                (resolve-entry m.entry).from found.1 (some r)
                  (sym (ap (λ p. p.0) (run (some m) e)) ∙ h)))
              (best-IsPermitted w.db version repo_id primary restore scopes m (
                subst (IsAnswer w.db version repo_id (candidates primary restore scopes)) e
                  (match_keys-IsAnswer primary restore version scopes repo_id w).0))
        | inr (x, e) ↦
            absurd (cc (sym (ap (λ p. p.0) (bind-err (match_cache_entry input) next e refl)) ∙ h))
      ]
    where
      input : MatchInput
      input = match_input primary restore version scopes repo_id

      found : Result (Option Match) × World S
      found = match_cache_entry input w

      next : Option Match → Action (World S) (Option ResolvedDownload)
      next o = if_nil o (pure none) (λ m. resolve adapter cfg m.entry)

      run :
          (o : Option Match)
          → found.0 ≡ ok o
          → get_cache_entry_with_download_url adapter cfg input w ≡ next o found.1
      run o e = bind-ok (match_cache_entry input) next e refl
