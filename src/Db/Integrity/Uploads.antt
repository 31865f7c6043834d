-- ===== src/Db/Integrity/Uploads.antt =====
-- The statements on `uploads` keep the declared keys and references.
use gha_cache_server.Base.{ℕ, ◌≡◌, refl, inl, inr, Bool-cases, Bytes}
use gha_cache_server.Base.Int.{ℤ, int_eq_iff}
use gha_cache_server.Action.{modify}
use gha_cache_server.Action.Keeps.{Keeps}
use gha_cache_server.Db.Models.{Upload}
use gha_cache_server.Db.Sql.{exists}
use gha_cache_server.Db.Sql.Laws.{append-IsUnique, delete-IsUnique, update-IsUnique}
use gha_cache_server.Db.State.{statement}
use gha_cache_server.Db.Queries.{
  upload_has_id, update_uploads, insert_upload, find_upload_by_key, find_upload_by_id,
  inc_started_part_count, inc_finished_part_count, delete_upload, list_stale_uploads,
  set_upload_created_at,
}
use gha_cache_server.Db.Integrity.{IsConsistent, Keeps-statement, Keeps-query}

pub insert_upload-IsConsistent : (u : Upload) → Keeps IsConsistent (insert_upload u)
unfolding insert_upload
insert_upload-IsConsistent u = Keeps-statement _ λ d h.
    elim (Bool-cases (exists (upload_has_id u.id) d.uploads)) [
      | inl taken ↦ rw taken h
      | inr fresh ↦ rw fresh (record {
        uploads_unique = append-IsUnique _ _ int_eq_iff d.uploads u h.uploads_unique fresh;
        locations_unique = h.locations_unique;
        entries_unique = h.entries_unique;
        references = h.references;
      })
    ]

pub update_uploads-IsConsistent :
    (id : ℤ) (f : Upload → Upload)
    → ((u : Upload) → (f u).id ≡ u.id)
    → Keeps IsConsistent (statement (modify (update_uploads id f)))
unfolding modify
update_uploads-IsConsistent id f same = Keeps-statement _ λ d h. record {
  uploads_unique =
      update-IsUnique _ _ int_eq_iff (upload_has_id id) f d.uploads same h.uploads_unique;
  locations_unique = h.locations_unique;
  entries_unique = h.entries_unique;
  references = h.references;
}

pub delete_upload-IsConsistent : (id : ℤ) → Keeps IsConsistent (delete_upload id)
unfolding delete_upload modify
delete_upload-IsConsistent id = Keeps-statement _ λ d h. record {
  uploads_unique = delete-IsUnique _ _ int_eq_iff (upload_has_id id) d.uploads h.uploads_unique;
  locations_unique = h.locations_unique;
  entries_unique = h.entries_unique;
  references = h.references;
}

pub inc_started_part_count-IsConsistent : (id : ℤ) → Keeps IsConsistent (inc_started_part_count id)
unfolding inc_started_part_count
inc_started_part_count-IsConsistent id = update_uploads-IsConsistent id _ (λ r. refl)

pub inc_finished_part_count-IsConsistent :
    (id : ℤ) (now : ℕ) → Keeps IsConsistent (inc_finished_part_count id now)
unfolding inc_finished_part_count
inc_finished_part_count-IsConsistent id now = update_uploads-IsConsistent id _ (λ r. refl)

pub set_upload_created_at-IsConsistent :
    (id : ℤ) (t : ℕ) → Keeps IsConsistent (set_upload_created_at id t)
unfolding set_upload_created_at
set_upload_created_at-IsConsistent id t = update_uploads-IsConsistent id _ (λ r. refl)

pub find_upload_by_key-IsConsistent :
    (key version scope repo_id : Bytes)
    → Keeps IsConsistent (find_upload_by_key key version scope repo_id)
unfolding find_upload_by_key
find_upload_by_key-IsConsistent key version scope repo_id = Keeps-query _

pub find_upload_by_id-IsConsistent : (id : ℤ) → Keeps IsConsistent (find_upload_by_id id)
unfolding find_upload_by_id
find_upload_by_id-IsConsistent id = Keeps-query _

pub list_stale_uploads-IsConsistent :
    (before limit offset : ℕ) → Keeps IsConsistent (list_stale_uploads before limit offset)
unfolding list_stale_uploads
list_stale_uploads-IsConsistent before limit offset = Keeps-query _

pub ruleset upload_rules = (
  insert_upload-IsConsistent, delete_upload-IsConsistent, inc_started_part_count-IsConsistent,
  inc_finished_part_count-IsConsistent, find_upload_by_key-IsConsistent,
  find_upload_by_id-IsConsistent, list_stale_uploads-IsConsistent,
)
