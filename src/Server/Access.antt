-- ===== src/Server/Access.antt =====
-- internal/server: who may change what.
use mathlib.Core.Path.{subst}
use gha_cache_server.Base.{
  ℕ, ◌≡◌, ◌≢◌, refl, sym, ap, ◌∙◌, ◌⊎◌, inl, inr, true, ◌&&◌, Option, none, some, List, [], ◌∷◌,
  ◌++◌, All, All-append, All-mono, Bool-cases, Bytes, codes, bytes_eq, bytes_eq_self,
  bytes_eq_sound, bytes_eq_iff, arith,
}
use gha_cache_server.Base.Int.{ℤ}
use gha_cache_server.Action.{ok, Action, pure, if_nil}
use gha_cache_server.Action.Keeps.{
  Keeps, Keeps-if, Keeps-if_some, Keeps-handle, Keeps-pure, keeps_rules,
}
use gha_cache_server.Auth.Scopes.{Scope, can_write, write_scope}
use gha_cache_server.Auth.Scopes.Order.{IsFirstWriter, write_scope-IsFirstWriter}
use gha_cache_server.Db.Models.{Upload}
use gha_cache_server.Db.Sql.{exists}
use gha_cache_server.Db.Sql.Find.{exists-middle}
use gha_cache_server.Db.State.{Db}
use gha_cache_server.Db.Queries.{upload_has_id, find_upload_by_key, insert_upload}
use gha_cache_server.Storage.Adapter.{Adapter}
use gha_cache_server.Storage.World.{ServiceConfig, World, query}
use gha_cache_server.Storage.Tables.{Tables-statement, Tables-gets, Tables-now}
use gha_cache_server.Storage.Upload.{new_upload, create_upload}
use gha_cache_server.Server.Http.{AuthResult, Response, respond, plain, literal}
use gha_cache_server.Server.Twirp.{TwirpKeyVersion, twirp_create}
use gha_cache_server.Server.Management.{mgmt_auth}

-- The management API runs a handler only if a key is configured and the header is that key. If not,
-- the answer is 503 without a configured key and 401 with one, and nothing changes.
pub mgmt_auth-guards :
    {S : Type 0} (key header : Bytes) (h : Action (World S) Response) (w : World S)
    → ((key ≢ []) × (header ≡ key) × (mgmt_auth key header h w ≡ h w))
      ⊎ ((r : Response) × (mgmt_auth key header h w ≡ (ok r, w))
          × (((key ≡ []) × (r.status ≡ 503)) ⊎ ((key ≢ []) × (header ≢ key) × (r.status ≡ 401))))
unfolding mgmt_auth pure
mgmt_auth-guards [] header h w = inr (_, refl, inl (refl, refl))
mgmt_auth-guards (k ∷ key) header h w = elim (Bool-cases (bytes_eq header (k ∷ key))) [
  | inl same ↦ inl (λ e. absurd (cc e), bytes_eq_sound header (k ∷ key) same, rw same refl)
  | inr other ↦ inr (
    respond 401 (plain (literal (codes "unauthorized"))),
    rw other refl,
    inr (
      λ e. absurd (cc e),
      λ e. absurd (cc (sym other ∙ (bytes_eq_iff header (k ∷ key)).1 e)),
      refl,
    ),
  )
]

-- A new upload of a scope that the token may write to, in the token's repository.
abbrev pub IsWritable : Option AuthResult → Upload → Type 0
IsWritable auth u =
    (res : AuthResult) × (auth ≡ some res)
    × (u.repo_id ≡ res.repo_id)
    × (exists (λ s. can_write s && bytes_eq s.scope u.scope) res.scopes ≡ true)

-- One of the rows.
abbrev pub Remains : {R : Type 0} → R → List R → Type 0
Remains {R} r rows = (before after : List R) × (rows ≡ before ++ r ∷ after)

module _ (P : Upload → Type 0) where
  abbrev AllUploads : Db → Type 0
  AllUploads d = All P d.uploads

  module _ {S : Type 0} where
    find_upload_by_key-AllUploads :
        (key version scope repo_id : Bytes)
        → Keeps {S = World S}
            (λ w. AllUploads w.db)
            (query (find_upload_by_key key version scope repo_id))
    unfolding find_upload_by_key
    find_upload_by_key-AllUploads key version scope repo_id = Tables-gets AllUploads (λ d fs h. h) _

    insert_upload-AllUploads :
        (u : Upload) → P u → Keeps {S = World S} (λ w. AllUploads w.db) (query (insert_upload u))
    unfolding insert_upload
    insert_upload-AllUploads u p =
        Tables-statement AllUploads (λ d fs h. h) _
          λ d h. elim (Bool-cases (exists (upload_has_id u.id) d.uploads)) [
            | inl there ↦ rw there h
            | inr new ↦ rw new (All-append P d.uploads (u ∷ []) h (p, tt))
          ]

    create_upload-AllUploads :
        (id : ℤ) (key version scope repo_id : Bytes)
        → ((t : ℕ) → P (new_upload id key version scope repo_id t))
        → Keeps {S = World S} (λ w. AllUploads w.db) (create_upload id key version scope repo_id)
    unfolding create_upload
    create_upload-AllUploads id key version scope repo_id new =
        search
          (
            keeps_rules,
            find_upload_by_key-AllUploads,
            Tables-now AllUploads (λ d fs h. h),
            λ (t : ℕ). insert_upload-AllUploads (new_upload id key version scope repo_id t) (new t),
          )
          depth 12

pub All-Remains : {R : Type 0} (rows : List R) → All (λ r. Remains r rows) rows
All-Remains [] = tt
All-Remains (r ∷ rows) = (
  ([], rows, refl),
  All-mono _ _ rows (λ x (before, after, e). (r ∷ before, after, ap (λ l. r ∷ l) e))
      (All-Remains rows),
)

pub write_scope-granted :
    (scopes : List Scope) (s : Scope)
    → write_scope scopes ≡ some s
    → exists (λ x. can_write x && bytes_eq x.scope s.scope) scopes ≡ true
write_scope-granted scopes s e =
    let (before, after, split, writes, _) =
      subst (IsFirstWriter scopes) e (write_scope-IsFirstWriter scopes) in
    subst (λ l. exists (λ x. can_write x && bytes_eq x.scope s.scope) l ≡ true) (sym split)
      (exists-middle _ before s after (ground (arith, bytes_eq_self s.scope)))

module _ {S : Type 0} (adapter : Adapter S) (cfg : ServiceConfig) (id : ℤ) where
  twirp_create-AllUploads :
      (old : List Upload) (auth : Option AuthResult) (decoded : Option TwirpKeyVersion)
      → Keeps
          (λ w. All (λ u. Remains u old ⊎ IsWritable auth u) w.db.uploads)
          (twirp_create adapter cfg id auth decoded)
  unfolding twirp_create if_nil
  twirp_create-AllUploads old none decoded = Keeps-pure _
  twirp_create-AllUploads old (some res) none = Keeps-pure _
  twirp_create-AllUploads old (some res) (some body) = Keeps-if _ _ _ (Keeps-pure _) (
      Keeps-if_some (write_scope res.scopes) _ _ (Keeps-pure _) λ write e.
        Keeps-handle _ _ _
          (create_upload-AllUploads (λ u. Remains u old ⊎ IsWritable (some res) u) id body.key
            body.version write.scope res.repo_id
            λ t. inr (res, refl, refl, write_scope-granted res.scopes write e))
          (λ o. Keeps-if_some o _ _ (Keeps-pure _) (λ u e. Keeps-pure _)) (λ e. Keeps-pure _))

  -- After `CreateCacheEntry` each upload is one that was there, or is one in the repository of a
  -- valid token and in a scope that the token may write to.
  pub twirp_create-IsWritable :
      (auth : Option AuthResult) (decoded : Option TwirpKeyVersion) (w : World S)
      → All
          (λ u. Remains u w.db.uploads ⊎ IsWritable auth u)
          (twirp_create adapter cfg id auth decoded w).1.db.uploads
  twirp_create-IsWritable auth decoded w =
      (twirp_create-AllUploads w.db.uploads auth decoded).from w
        (All-mono _ _ w.db.uploads (λ u r. inl r) (All-Remains w.db.uploads))
