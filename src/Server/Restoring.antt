-- ===== src/Server/Restoring.antt =====
-- internal/server/twirp.go: what a token may restore.
use gha_cache_server.Base.{
  ◌≡◌, refl, sym, ap, ◌∙◌, inl, inr, Bool, true, false, Option, none, some, List, ◌∷◌, ◌++◌,
  if◌then◌else◌, Bytes, codes,
}
use gha_cache_server.Action.{Error, Result, ok, err, Action, pure, if_nil, handle}
use gha_cache_server.Action.Laws.{handle-ok, handle-err, Result-cases}
use gha_cache_server.Auth.Scopes.Members.{Grants, scopes_by_permission_desc-Grants}
use gha_cache_server.Auth.Scopes.{scopes_by_permission_desc}
use gha_cache_server.Db.Models.{CacheEntry}
use gha_cache_server.Db.State.{Db}
use gha_cache_server.Storage.Adapter.{Adapter}
use gha_cache_server.Storage.World.{ServiceConfig, World}
use gha_cache_server.Storage.Match.{ResolvedDownload, get_cache_entry_with_download_url}
use gha_cache_server.Storage.Match.Permitted.{get_cache_entry_with_download_url-IsPermitted}
use gha_cache_server.Server.Http.{
  AuthResult, Response, respond, download_url, twirp_error, of_error, refused, literal,
}
use gha_cache_server.Server.Twirp.{
  TwirpKeyRestoreVersion, lacks_key_or_version, key_and_version_required, storage_match_input,
  twirp_get,
}

-- An entry of the table with the key and the version, of the token's repository and in one of its
-- scopes.
abbrev pub IsRestorable : Db → AuthResult → Bytes → Bytes → CacheEntry → Type 0
IsRestorable d res version key e =
    (before after : List CacheEntry) × (d.entries ≡ before ++ e ∷ after)
    × (e.key ≡ key)
    × (e.version ≡ version)
    × (e.repo_id ≡ res.repo_id)
    × Grants res.scopes e.scope

same_body : (r q : Response) → ok r ≡ ok q → r.body ≡ q.body
same_body r q h = let e : r ≡ q = cc h in ap (λ x. x.body) e

module _ {S : Type 0} (adapter : Adapter S) (cfg : ServiceConfig) where
  -- If the answer to `GetCacheEntryDownloadURL` holds a download URL, then the request had a valid
  -- token and a body, and the key that was matched is that of an entry of the body's version, of
  -- the token's repository and in one of the token's scopes.
  pub twirp_get-IsRestorable :
      (auth : Option AuthResult) (decoded : Option TwirpKeyRestoreVersion) (w : World S)
      (r : Response) (url key : Bytes)
      → (twirp_get adapter cfg auth decoded w).0 ≡ ok r
      → r.body ≡ download_url url key
      → (res : AuthResult) × (body : TwirpKeyRestoreVersion) × (e : CacheEntry) × (auth ≡ some res)
        × (decoded ≡ some body)
        × IsRestorable w.db res body.version key e
  unfolding twirp_get if_nil pure
  twirp_get-IsRestorable none decoded w r url key h b = absurd (cc (same_body _ r h ∙ b))
  twirp_get-IsRestorable (some res) none w r url key h b = absurd (cc (same_body _ r h ∙ b))
  twirp_get-IsRestorable (some res) (some body) w r url key h b =
      go (lacks_key_or_version body.key body.version) h
    where
      keys : List Bytes
      keys = body.key ∷ body.restore_keys

      found : Result (Option ResolvedDownload) × World S
      found =
          get_cache_entry_with_download_url adapter cfg (storage_match_input keys body.version res)
            w

      answered : Option ResolvedDownload → Action (World S) Response
      answered o =
          if_nil o
            (pure
              (respond 200 (refused (literal (codes "no cache entry matched the requested keys")))))
            (λ m. pure (respond 200 (download_url m.download_url m.entry.key)))

      failed : Error → Action (World S) Response
      failed e = pure (respond 500 (twirp_error (codes "internal") (of_error e)))

      restored :
          (m : ResolvedDownload)
          → found.0 ≡ ok (some m)
          → m.entry.key ≡ key
          → (res' : AuthResult) × (body' : TwirpKeyRestoreVersion) × (e : CacheEntry) × (some res
              ≡ some res')
            × (some body ≡ some body')
            × IsRestorable w.db res' body'.version key e
      restored m e k =
          let (before, after, split, version, repo, named) =
            get_cache_entry_with_download_url-IsPermitted adapter cfg body.key body.version
              body.restore_keys (scopes_by_permission_desc res.scopes) res.repo_id w m e in
          (
            res,
            body,
            m.entry,
            refl,
            refl,
            (
              before,
              after,
              split,
              k,
              version,
              repo,
              scopes_by_permission_desc-Grants res.scopes m.entry.scope named,
            ),
          )

      go :
          (lacks : Bool)
          → ((if lacks
                then pure key_and_version_required
                else handle
                    (get_cache_entry_with_download_url adapter cfg
                      (storage_match_input keys body.version res))
                    answered
                    failed)
              w).0
            ≡ ok r
          → (res' : AuthResult) × (body' : TwirpKeyRestoreVersion) × (e : CacheEntry) × (some res
              ≡ some res')
            × (some body ≡ some body')
            × IsRestorable w.db res' body'.version key e
      go true h = absurd (cc (same_body _ r h ∙ b))
      go false h = elim (Result-cases found.0) [
        | inl (none, e) ↦ absurd (cc (same_body _ r (run_ok none e) ∙ b))
        | inl (some m, e) ↦ restored m e (cc (same_body _ r (run_ok (some m) e) ∙ b))
        | inr (x, e) ↦ absurd (cc (same_body _ r (run_err x e) ∙ b))
      ]
        where
          get : Action (World S) (Option ResolvedDownload)
          get =
              get_cache_entry_with_download_url adapter cfg
                (storage_match_input keys body.version res)

          run_ok : (o : Option ResolvedDownload) → found.0 ≡ ok o → (answered o found.1).0 ≡ ok r
          run_ok o e = sym (ap (λ p. p.0) (handle-ok get answered failed e refl)) ∙ h

          run_err : (x : Error) → found.0 ≡ err x → (failed x found.1).0 ≡ ok r
          run_err x e = sym (ap (λ p. p.0) (handle-err get answered failed e refl)) ∙ h
