-- ===== src/Db/Queries/Uploads.antt =====
-- internal/db/queries.go: the statements on the table `uploads`.
use gha_cache_server.Base.{
  ℕ, suc, Bool, ◌&&◌, Option, none, some, List, [], ◌∷◌, ◌++◌, head, ltb, if◌then◌else◌, Bytes,
  bytes_eq,
}
use gha_cache_server.Base.Int.{ℤ, int_eq}
use gha_cache_server.Action.{ok, err, duplicate_key, Action, gets, modify}
use gha_cache_server.Db.Models.{Upload}
use gha_cache_server.Db.Sql.{select, delete, update, exists, page}
use gha_cache_server.Db.State.{Db, statement}

abbrev pub upload_has_id : ℤ → Upload → Bool
upload_has_id id u = int_eq u.id id

abbrev pub upload_matches : Bytes → Bytes → Bytes → Bytes → Upload → Bool
upload_matches key version scope repo_id u =
    bytes_eq u.key key
    && bytes_eq u.version version
    && bytes_eq u.scope scope
    && bytes_eq u.repo_id repo_id

-- `id BIGINT PRIMARY KEY` of `uploads` in `m0Init`
abbrev pub upload_id_taken : ℤ → Db → Bool
upload_id_taken id d = exists (upload_has_id id) d.uploads

-- `InsertUpload`
unfoldable pub insert_upload : Upload → Action Db (Unit {0})
insert_upload u = statement λ d.
    if upload_id_taken u.id d
    then (err duplicate_key, d)
    else (ok tt, record d { uploads = d.uploads ++ u ∷ [] })

-- `FindUploadByKey`
unfoldable pub find_upload_by_key : Bytes → Bytes → Bytes → Bytes → Action Db (Option Upload)
find_upload_by_key key version scope repo_id =
    statement (gets λ d. head (select (upload_matches key version scope repo_id) d.uploads))

-- `FindUploadByID`
unfoldable pub find_upload_by_id : ℤ → Action Db (Option Upload)
find_upload_by_id id = statement (gets λ d. head (select (upload_has_id id) d.uploads))

abbrev pub update_uploads : ℤ → (Upload → Upload) → Db → Db
update_uploads id f d = record d { uploads = update (upload_has_id id) f d.uploads }

-- `IncStartedPartCount`
unfoldable pub inc_started_part_count : ℤ → Action Db (Unit {0})
inc_started_part_count id = statement (
    modify (
      update_uploads id
        λ u. record u { started_part_upload_count = suc u.started_part_upload_count }))

-- `IncFinishedPartCount`
unfoldable pub inc_finished_part_count : ℤ → ℕ → Action Db (Unit {0})
inc_finished_part_count id now = statement (
    modify (
      update_uploads id λ u. record u {
        finished_part_upload_count = suc u.finished_part_upload_count;
        last_part_uploaded_at = some now;
      }))

-- `DeleteUpload`
unfoldable pub delete_upload : ℤ → Action Db (Unit {0})
delete_upload id =
    statement (modify λ d. record d { uploads = delete (upload_has_id id) d.uploads })

-- `lastPartUploadedAt IS NULL OR lastPartUploadedAt < …`
abbrev pub null_or_before : ℕ → Option ℕ → Bool
null_or_before t none = Bool.true
null_or_before t (some at) = ltb at t

abbrev pub is_stale_upload : ℕ → Upload → Bool
is_stale_upload t u = null_or_before t u.last_part_uploaded_at && ltb u.created_at t

-- `ListStaleUploads`
unfoldable pub list_stale_uploads : ℕ → ℕ → ℕ → Action Db (List Upload)
list_stale_uploads before limit offset =
    statement (gets λ d. page limit offset (select (is_stale_upload before) d.uploads))

-- `SetUploadCreatedAt`
unfoldable pub set_upload_created_at : ℤ → ℕ → Action Db (Unit {0})
set_upload_created_at id t =
    statement
      (modify (update_uploads id λ u. record u { created_at = t; last_part_uploaded_at = some t }))
