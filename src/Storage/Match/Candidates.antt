-- ===== src/Storage/Match/Candidates.antt =====
-- The search of `MatchCacheEntry` as a list of candidates, of which the first that an entry
-- satisfies wins.
use mathlib.Core.Path.{fun_ext}
use mathlib.Core.Option
use gha_cache_server.Base.{
  ◌≡◌, refl, sym, ap, ◌∙◌, Bool, true, false, ◌&&◌, Option, none, some, List, [], ◌∷◌, ◌++◌, map,
  All, if◌then◌else◌, Bytes, bytes_eq, has_prefix,
}
use gha_cache_server.Db.Models.{CacheEntry}
use gha_cache_server.Db.Sql.{exists}
use gha_cache_server.Db.Like.{escape_like}
use gha_cache_server.Db.Like.Prefix.{like-escape_like}
use gha_cache_server.Db.State.{Db, like_fold}
use gha_cache_server.Db.Queries.{same_place, entry_matches, entry_like}
use gha_cache_server.Db.Newest.{newest, IsNewest, newest-IsNewest}
use gha_cache_server.Storage.Match.{
  MatchType, exact_primary, prefixed_primary, exact_restore, prefixed_restore, Match, match_of,
}

-- A key that is looked for in a scope, exactly or as a prefix.
pub record Candidate : Type 0 where
  pub type : MatchType
  pub scope : Bytes
  pub key : Bytes

abbrev pub is_exact : MatchType → Bool
is_exact exact_primary = true
is_exact prefixed_primary = false
is_exact exact_restore = true
is_exact prefixed_restore = false

-- An entry satisfies a candidate if it is of the version, the scope and the repository and its key
-- is the candidate's, or begins with it, where `LIKE` may take letters for equal.
abbrev pub satisfies : Db → Bytes → Bytes → Candidate → CacheEntry → Bool
satisfies d version repo_id c e =
    (if is_exact c.type
      then bytes_eq e.key c.key
      else has_prefix (map (like_fold d.driver) c.key) (map (like_fold d.driver) e.key))
    && same_place version c.scope repo_id e

abbrev pub candidate : MatchType → Bytes → Bytes → Candidate
candidate type scope key = record { type = type; scope = scope; key = key }

abbrev pub restore_pair : Bytes → Bytes → List Candidate
restore_pair scope k = candidate exact_restore scope k ∷ candidate prefixed_restore scope k ∷ []

abbrev pub primary_pair : Bytes → Bytes → List Candidate
primary_pair scope k = candidate exact_primary scope k ∷ candidate prefixed_primary scope k ∷ []

abbrev pub restore_candidates : Bytes → List Bytes → List Candidate
restore_candidates scope [] = []
restore_candidates scope (k ∷ restore) =
    candidate exact_restore scope k
    ∷ candidate prefixed_restore scope k
    ∷ restore_candidates scope restore

-- Scope by scope: the primary key, exactly and as a prefix, and then each restore key likewise.
abbrev pub candidates : Bytes → List Bytes → List Bytes → List Candidate
candidates primary restore [] = []
candidates primary restore (scope ∷ scopes) =
    candidate exact_primary scope primary
    ∷ candidate prefixed_primary scope primary
    ∷ (restore_candidates scope restore ++ candidates primary restore scopes)

abbrev pub or_next : Option Match → Option Match → Option Match
or_next none o = o
or_next (some m) o = some m

module _ (version repo_id : Bytes) where
  abbrev pub hit : Db → Candidate → Option Match
  hit d c = Option.map (match_of c.type) (newest (satisfies d version repo_id c) d.entries)

  abbrev pub first_hit : Db → List Candidate → Option Match
  first_hit d [] = none
  first_hit d (c ∷ cs) = or_next (hit d c) (first_hit d cs)

  pub hit-exact :
      (d : Db) (type : MatchType) (scope key : Bytes)
      → is_exact type ≡ true
      → hit d (candidate type scope key)
        ≡ Option.map (match_of type) (newest (entry_matches key version scope repo_id) d.entries)
  hit-exact d type scope key exact =
      ap (λ p. Option.map (match_of type) (newest p d.entries))
        (fun_ext λ e.
          ap
            (λ b.
              (if b
                then bytes_eq e.key key
                else has_prefix (map (like_fold d.driver) key) (map (like_fold d.driver) e.key))
              && same_place version scope repo_id e)
            exact)

  pub hit-prefixed :
      (d : Db) (type : MatchType) (scope key : Bytes)
      → is_exact type ≡ false
      → hit d (candidate type scope key)
        ≡ Option.map (match_of type) (
            newest
              (entry_like (like_fold d.driver) (escape_like key ++ b'%' ∷ []) version scope repo_id)
              d.entries)
  hit-prefixed d type scope key prefixed =
      ap (λ p. Option.map (match_of type) (newest p d.entries))
        (fun_ext λ e.
          ap
            (λ b.
              (if b
                then bytes_eq e.key key
                else has_prefix (map (like_fold d.driver) key) (map (like_fold d.driver) e.key))
              && same_place version scope repo_id e)
            prefixed
          ∙ ap (λ b. b && same_place version scope repo_id e)
              (sym (like-escape_like (like_fold d.driver) key e.key)))

  pub first_hit-append :
      (d : Db) (xs ys : List Candidate)
      → first_hit d (xs ++ ys) ≡ or_next (first_hit d xs) (first_hit d ys)
  first_hit-append d [] ys = refl
  first_hit-append d (x ∷ xs) ys =
      ap (or_next (hit d x)) (first_hit-append d xs ys) ∙ assoc (hit d x) (first_hit d xs)
    where
      assoc :
          (a b : Option Match)
          → or_next a (or_next b (first_hit d ys)) ≡ or_next (or_next a b) (first_hit d ys)
      assoc none b = refl
      assoc (some m) b = refl

-- No candidate is satisfied by any entry, or the match is the newest entry that satisfies one, and
-- no entry satisfies an earlier candidate.
abbrev pub IsBestMatch : Db → Bytes → Bytes → List Candidate → Option Match → Type 0
IsBestMatch d version repo_id cs none =
    All (λ c. exists (satisfies d version repo_id c) d.entries ≡ false) cs
IsBestMatch d version repo_id cs (some m) =
    (before after : List Candidate) × (c : Candidate) × (cs ≡ before ++ c ∷ after)
    × (m.type ≡ c.type)
    × IsNewest (satisfies d version repo_id c) d.entries (some m.entry)
    × All (λ b. exists (satisfies d version repo_id b) d.entries ≡ false) before

module _ (d : Db) (version repo_id : Bytes) where
  later_match :
      (c : Candidate) (cs : List Candidate) (o : Option Match)
      → exists (satisfies d version repo_id c) d.entries ≡ false
      → IsBestMatch d version repo_id cs o
      → IsBestMatch d version repo_id (c ∷ cs) o
  later_match c cs none miss h = (miss, h)
  later_match c cs (some m) miss (before, after, c', split, type, best, missed) =
      (c ∷ before, after, c', ap (λ l. c ∷ l) split, type, best, (miss, missed))

  pub first_hit-IsBestMatch :
      (cs : List Candidate) → IsBestMatch d version repo_id cs (first_hit version repo_id d cs)
  first_hit-IsBestMatch [] = tt
  first_hit-IsBestMatch (c ∷ cs) =
      go (newest (satisfies d version repo_id c) d.entries)
        (newest-IsNewest (satisfies d version repo_id c) d.entries) (first_hit-IsBestMatch cs)
    where
      go :
          (o : Option CacheEntry)
          → IsNewest (satisfies d version repo_id c) d.entries o
          → IsBestMatch d version repo_id cs (first_hit version repo_id d cs)
          → IsBestMatch d version repo_id
              (c ∷ cs)
              (or_next (Option.map (match_of c.type) o) (first_hit version repo_id d cs))
      go none miss rest = later_match c cs (first_hit version repo_id d cs) miss rest
      go (some e) best rest = ([], cs, c, refl, refl, best, tt)
