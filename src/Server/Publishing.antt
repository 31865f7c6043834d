-- ===== src/Server/Publishing.antt =====
-- internal/server/twirp.go: which cache entries a token may publish.
use gha_cache_server.Base.{
  ◌≡◌, refl, ◌⊎◌, inl, inr, true, ◌&&◌, Option, none, some, List, All, All-mono, Bytes, bytes_eq,
  bytes_eq_sound, arith,
}
use gha_cache_server.Action.{if_nil}
use gha_cache_server.Action.Keeps.{Keeps, Keeps-if, Keeps-if_some, Keeps-handle, Keeps-pure}
use gha_cache_server.Auth.Scopes.{Scope, can_write, write_scope}
use gha_cache_server.Db.Models.{CacheEntry}
use gha_cache_server.Db.Sql.{exists}
use gha_cache_server.Db.Integrity.{IsConsistent}
use gha_cache_server.Storage.Adapter.{Adapter}
use gha_cache_server.Storage.World.{ServiceConfig, World}
use gha_cache_server.Storage.Publication.{IsAllowed, complete_upload-AllEntries}
use gha_cache_server.Server.Http.{AuthResult}
use gha_cache_server.Server.Twirp.{TwirpFinalizeBody, twirp_finalize}
use gha_cache_server.Server.Access.{Remains, All-Remains, write_scope-granted}

-- An entry with the key and the version of the body, in the repository of the token and in a scope
-- that the token may write to.
abbrev pub IsPublishable : Option AuthResult → Option TwirpFinalizeBody → CacheEntry → Type 0
IsPublishable auth decoded e =
    (res : AuthResult) × (body : TwirpFinalizeBody) × (auth ≡ some res)
    × (decoded ≡ some body)
    × (e.key ≡ body.key)
    × (e.version ≡ body.version)
    × (e.repo_id ≡ res.repo_id)
    × (exists (λ s. can_write s && bytes_eq s.scope e.scope) res.scopes ≡ true)

publishable-IsAllowed :
    (P : CacheEntry → Type 0) (res : AuthResult) (body : TwirpFinalizeBody) (write : Scope)
    → write_scope res.scopes ≡ some write
    → ((e : CacheEntry) → IsPublishable (some res) (some body) e → P e)
    → IsAllowed body.key body.version write.scope res.repo_id P
publishable-IsAllowed P res body write granted publishable =
    let writes = write_scope-granted res.scopes write granted in
    record {
      added = λ id loc t. publishable _ (res, body, refl, refl, refl, refl, refl, writes);
      moved = λ e loc t same. publishable _ (
        res,
        body,
        refl,
        refl,
        bytes_eq_sound e.key body.key (ground arith),
        bytes_eq_sound e.version body.version (ground arith),
        bytes_eq_sound e.repo_id res.repo_id (ground arith),
        rw (bytes_eq_sound e.scope write.scope (ground arith)) writes,
      );
    }

module _ {S : Type 0} (adapter : Adapter S) (cfg : ServiceConfig)
    (loc_id new_entry_id : Bytes) where
  twirp_finalize-AllEntries :
      (old : List CacheEntry) (auth : Option AuthResult) (decoded : Option TwirpFinalizeBody)
      → Keeps {S = World S}
          (λ w.
            IsConsistent w.db
            × All (λ e. Remains e old ⊎ IsPublishable auth decoded e) w.db.entries)
          (twirp_finalize adapter cfg loc_id new_entry_id auth decoded)
  unfolding twirp_finalize if_nil
  twirp_finalize-AllEntries old none decoded = Keeps-pure _
  twirp_finalize-AllEntries old (some res) none = Keeps-pure _
  twirp_finalize-AllEntries old (some res) (some body) = Keeps-if _ _ _ (Keeps-pure _) (
      Keeps-if_some (write_scope res.scopes) _ _ (Keeps-pure _) λ write granted.
        Keeps-handle _ _ _
          (complete_upload-AllEntries body.key body.version write.scope res.repo_id _ adapter
            (publishable-IsAllowed _ res body write granted (λ e h. inr h)) loc_id new_entry_id)
          (λ o. Keeps-if_some o _ _ (Keeps-pure _) (λ u e. Keeps-pure _)) (λ e. Keeps-pure _))

  -- If the tables are consistent, then after `FinalizeCacheEntryUpload` each cache entry is one that
  -- was there as it is, or is one with the key and the version of the body, in the repository of a
  -- valid token and in a scope that the token may write to.
  pub twirp_finalize-IsPublishable :
      (auth : Option AuthResult) (decoded : Option TwirpFinalizeBody) (w : World S)
      → IsConsistent w.db
      → All
          (λ e. Remains e w.db.entries ⊎ IsPublishable auth decoded e)
          (twirp_finalize adapter cfg loc_id new_entry_id auth decoded w).1.db.entries
  twirp_finalize-IsPublishable auth decoded w consistent =
      ((twirp_finalize-AllEntries w.db.entries auth decoded).from w
        (consistent, All-mono _ _ w.db.entries (λ e r. inl r) (All-Remains w.db.entries))).1
