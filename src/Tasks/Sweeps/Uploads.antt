-- ===== src/Tasks/Sweeps/Uploads.antt =====
-- What internal/tasks/cleanup_uploads.go leaves alone.
use gha_cache_server.Base.{ℕ, ◌-◌, ◌≡◌, refl, ◌∙◌, Bool, false, not, ◌&&◌, List}
use gha_cache_server.Base.Int.{int_eq, int_eq_iff}
use gha_cache_server.Action.{ok, Action, gets, modify, ◌>>=◌}
use gha_cache_server.Action.Keeps.{keeps_rules}
use gha_cache_server.Action.Laws.{if_after}
use gha_cache_server.Db.Models.{Upload}
use gha_cache_server.Db.Sql.{select, delete, exists, page}
use gha_cache_server.Db.Sql.Find.{All-page}
use gha_cache_server.Db.Sql.Laws.{exists-delete-false, delete-IsUnique}
use gha_cache_server.Db.Sql.Unique.{All-select_unique}
use gha_cache_server.Db.State.{Db}
use gha_cache_server.Db.Integrity.{UniqueUploads, IsConsistent}
use gha_cache_server.Db.Queries.{upload_has_id, is_stale_upload, delete_upload, list_stale_uploads}
use gha_cache_server.Storage.Adapter.{Adapter}
use gha_cache_server.Storage.World.{World, query, now}
use gha_cache_server.Storage.Tables.{Tables-statement, Tables-gets, Tables-storing, Tables-listed}
use gha_cache_server.Tasks.Jobs.{TaskConfig, minute, drop_upload, cleanup_uploads}
use gha_cache_server.Tasks.Sweeps.{select-delete, Sweeps, each_page-Sweeps}

-- A part of the upload was stored, or the upload was begun, at the time or later.
abbrev pub is_fresh : ℕ → Upload → Bool
is_fresh t u = not (is_stale_upload t u)

module _ (t : ℕ) (fresh : List Upload) where
  abbrev IsKept : Db → Type 0
  IsKept d = UniqueUploads d.uploads × (select (is_fresh t) d.uploads ≡ fresh)

  abbrev IsStale : Upload → Db → Type 0
  IsStale u d = exists (λ x. upload_has_id u.id x && is_fresh t x) d.uploads ≡ false

  abbrev effect : Upload → Action Db (Unit {0})
  effect u d = (ok tt, record d { uploads = delete (upload_has_id u.id) d.uploads })

  effect-IsKept : (u : Upload) (d : Db) → IsKept d × IsStale u d → IsKept (effect u d).1
  effect-IsKept u d (kept, stale) = (
    delete-IsUnique _ _ int_eq_iff (upload_has_id u.id) d.uploads kept.0,
    select-delete (is_fresh t) (upload_has_id u.id) d.uploads stale ∙ kept.1,
  )

  effect-IsStale : (u x : Upload) (d : Db) → IsStale x d → IsStale x (effect u d).1
  effect-IsStale u x d stale = exists-delete-false _ (upload_has_id u.id) d.uploads stale

  module _ {S : Type 0} (adapter : Adapter S) (cfg : TaskConfig) where
    Sweeps-IsStale :
        Sweeps {S = World S}
          (λ w. IsKept w.db)
          (λ u w. IsStale u w.db)
          (λ limit offset. query (list_stale_uploads t limit offset))
          (drop_upload adapter cfg)
    unfolding list_stale_uploads drop_upload delete_upload modify
    Sweeps-IsStale = record {
      listing = λ limit offset. Tables-gets IsKept (λ d fs h. h) _;
      listed = λ limit offset w rs p e.
          Tables-listed IsKept (λ d fs h. h)
            (λ d. page limit offset (select (is_stale_upload t) d.uploads)) IsStale
            (λ d k.
              All-page (λ u. IsStale u d) limit offset _
                (All-select_unique (λ u. u.id) int_eq int_eq_iff (is_stale_upload t) d.uploads k.0))
            w rs p e;
      swept = λ u.
          search
            (
              keeps_rules,
              Tables-storing (λ d. IsKept d × IsStale u d),
              Tables-statement (λ d. IsKept d × IsStale u d) (λ d fs h. h) (effect u)
                  (λ d h. (effect-IsKept u d h, effect-IsStale u u d h.1)),
            )
            depth 8;
      spared = λ u x.
          search
            (
              keeps_rules,
              Tables-storing (IsStale x),
              Tables-statement (IsStale x) (λ d fs h. h) (effect u) (λ d h. effect-IsStale u x d h),
            )
            depth 8;
    }

-- `CleanupUploads` deletes no upload that is not stale, whatever fails: those that were begun or
-- had a part stored within the last minute are the same after it, in the same order.
pub cleanup_uploads-keeps_fresh :
    {S : Type 0} (adapter : Adapter S) (cfg : TaskConfig) (fuel : ℕ) (w : World S)
    → IsConsistent w.db
    → select (is_fresh (w.clock - minute)) (cleanup_uploads adapter cfg fuel w).1.db.uploads
      ≡ select (is_fresh (w.clock - minute)) w.db.uploads
unfolding cleanup_uploads now gets ◌>>=◌
cleanup_uploads-keeps_fresh adapter cfg fuel w h =
    let t = w.clock - minute in
    let fresh = select (is_fresh t) w.db.uploads in
    (if_after (λ v. IsKept t fresh v.db) cfg.disable_cleanup_jobs _ _ w (h.uploads_unique, refl)
      (each_page-Sweeps (Sweeps-IsStale t fresh adapter cfg) fuel 0 w (h.uploads_unique, refl))).1
