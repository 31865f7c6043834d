-- ===== src/Storage/S3.antt =====
-- internal/storage/s3.go: the adapter for S3 over a service that is a parameter. A request stands for
-- its URL and body: their texts, and the signature of sigv4.go in the headers, are left out.
pub mod Batches
pub mod Without
pub mod Bucket
pub mod Folders
mod Tests
use gha_cache_server.Base.{
  ℕ, zero, suc, ◌+◌, Bool, true, false, not, Option, none, some, List, [], ◌∷◌, ◌++◌, length, take,
  drop, ltb, if◌then◌else◌, Bytes, codes, is_empty,
}
use gha_cache_server.Action.{
  Error, storage_failed, object_not_found, Action, pure, fail, ◌>>=◌, ◌>>◌,
}
use gha_cache_server.Storage.Adapter.{Stream}
use gha_cache_server.Storage.Net.{
  HttpAnswer, Net, trim_slashes, read_all, check_status, check_found, required,
}

-- `listResult`
pub record ListResult : Type 0 where
  pub contents : List Bytes
  pub is_truncated : Bool
  pub next_continuation_token : Bytes

-- The requests, with the full names of the objects.
pub data S3Request : Type 0 where
  head_bucket : S3Request
  get_object : Bytes → S3Request
  put_object : Bytes → Bytes → S3Request
  list_objects_v2 : Bytes → Bytes → S3Request
  delete_objects_quiet : List Bytes → S3Request

abbrev pub is_nil : {A : Type 0} → List A → Bool
is_nil [] = true
is_nil (x ∷ xs) = false

abbrev pub page_limit : ℕ
page_limit = 1000

-- The slices of `keys` that `deleteObjects` takes; a round for each key is enough.
unfoldable pub batches : ℕ → List Bytes → List (List Bytes)
batches zero keys = []
batches (suc f) [] = []
batches (suc f) (k ∷ keys) = take page_limit (k ∷ keys) ∷ batches f (drop page_limit (k ∷ keys))

-- The endpoint of `NewS3Adapter`.
unfoldable pub s3_endpoint : Bytes → Bytes → Bytes
s3_endpoint given region =
    trim_slashes
      (if is_empty given then codes "https://s3." ++ region ++ codes ".amazonaws.com" else given)

-- The field `prefix` of the adapter.
abbrev pub s3_prefix : Bytes
s3_prefix = codes "gh-actions-cache"

abbrev pub s3_object : Bytes → Bytes
s3_object name = s3_prefix ++ codes "/" ++ name

abbrev pub s3_folder : Bytes → Bytes
s3_folder name = s3_prefix ++ codes "/" ++ name ++ codes "/"

module _ {S : Type 0} (net : Net S3Request ListResult S) where
  -- `do`
  unfoldable pub send_checked : S3Request → Action S (HttpAnswer ListResult)
  send_checked request = do answer ← net request; check_status answer

  unfoldable pub check_bucket : Action S (Unit {0})
  unfolding send_checked
  check_bucket = do send_checked head_bucket; pure tt

  unfoldable pub create_download_stream : Bytes → Action S Stream
  create_download_stream name = do
    answer ← net (get_object (s3_object name))
    there ← check_found answer
    pure there.content

  unfoldable pub upload_stream : Bytes → Stream → Action S (Unit {0})
  unfolding send_checked
  upload_stream name body = do
    buf ← read_all body
    send_checked (put_object (s3_object name) buf)
    pure tt

  unfoldable pub list_objects : Bytes → Bytes → Action S ListResult
  unfolding send_checked
  list_objects prefix token = do
    answer ← send_checked (list_objects_v2 prefix token)
    required storage_failed answer.listing

  unfoldable pub delete_batches : List (List Bytes) → Action S (Unit {0})
  unfolding send_checked
  delete_batches [] = pure tt
  delete_batches (batch ∷ rest) = do send_checked (delete_objects_quiet batch); delete_batches rest

  unfoldable pub delete_objects : List Bytes → Action S (Unit {0})
  unfolding delete_batches batches
  delete_objects keys = delete_batches (batches (length keys) keys)

  -- The loops take a unit of fuel for each page; `none` means that it ran out.
  unfoldable pub delete_pages : ℕ → Bytes → Bytes → Action S (Option (Unit {0}))
  unfolding list_objects delete_objects
  delete_pages zero prefix token = pure none
  delete_pages (suc f) prefix token = do
    lr ← list_objects prefix token
    let rest = delete_pages f prefix lr.next_continuation_token
    if is_nil lr.contents
        then pure (some tt)
        else (do delete_objects lr.contents; if not lr.is_truncated then pure (some tt) else rest)

  unfoldable pub delete_by_prefix : ℕ → Bytes → Action S (Option (Unit {0}))
  unfolding delete_pages
  delete_by_prefix fuel prefix = delete_pages fuel prefix []

  unfoldable pub delete_folder : ℕ → Bytes → Action S (Option (Unit {0}))
  unfolding delete_by_prefix
  delete_folder fuel name = delete_by_prefix fuel (s3_folder name)

  unfoldable pub clear : ℕ → Action S (Option (Unit {0}))
  unfolding delete_by_prefix
  clear fuel = delete_by_prefix fuel (s3_prefix ++ codes "/")

  -- The loop, with the count so far.
  unfoldable pub count_pages : ℕ → Bytes → Bytes → ℕ → Action S (Option ℕ)
  unfolding list_objects
  count_pages zero prefix token count = pure none
  count_pages (suc f) prefix token count = do
    lr ← list_objects prefix token
    let count' = count + length lr.contents
    let rest = count_pages f prefix lr.next_continuation_token count'
    if not lr.is_truncated then pure (some count') else rest

  unfoldable pub count_files_in_folder : ℕ → Bytes → Action S (Option ℕ)
  unfolding count_pages
  count_files_in_folder fuel name = count_pages fuel (s3_folder name) [] 0

  -- The URL of the request is signed for ten minutes, which is a parameter.
  unfoldable pub create_download_url : (S3Request → Bytes) → Bytes → Action S (Option Bytes)
  create_download_url presign name = pure (some (presign (get_object (s3_object name))))
