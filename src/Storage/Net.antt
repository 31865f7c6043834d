-- ===== src/Storage/Net.antt =====
-- What the adapters for S3 and GCS (internal/storage/s3.go and gcs.go) share: the HTTP client over an
-- unknown network, and texts of URLs.
use gha_cache_server.Base.{ℕ, Option, none, some, [], ◌∷◌, leb, ◌==◌, if◌then◌else◌, Bytes}
use gha_cache_server.Action.{
  Error, storage_failed, object_not_found, Result, ok, err, Action, pure, fail,
}
use gha_cache_server.Storage.Adapter.{Stream}

-- An answer by its status and its body, which is read as bytes, or as a page of a listing of the type
-- `L`; `none` is the error of the decoder.
pub record HttpAnswer (L : Type 0) : Type 0 where
  pub status : ℕ
  pub content : Stream
  pub listing : Option L

-- `client.Do` with a request of the type `R`, which fails where there is no answer.
abbrev pub Net : Type 0 → Type 0 → Type 0 → Type 0
Net R L S = R → Action S (HttpAnswer L)

-- `strings.TrimRight(s, "/")`
abbrev pub without_slash : ℕ → Bytes → Bytes
without_slash c [] = if c == b'/' then [] else c ∷ []
without_slash c (d ∷ s) = c ∷ d ∷ s

unfoldable pub trim_slashes : Bytes → Bytes
trim_slashes [] = []
trim_slashes (c ∷ s) = without_slash c (trim_slashes s)

-- `io.ReadAll`, which returns the error of the reader.
abbrev pub ended_with : Option Error → Bytes → Result Bytes
ended_with none content = ok content
ended_with (some e) content = err e

unfoldable pub read_all : {S : Type 0} → Stream → Action S Bytes
read_all body s = (ended_with body.broken body.content, s)

module _ {S L : Type 0} where
  -- `if resp.StatusCode >= 400 { return …, fmt.Errorf(…) }`
  unfoldable pub check_status : HttpAnswer L → Action S (HttpAnswer L)
  check_status answer = if leb 400 answer.status then fail storage_failed else pure answer

  -- The status of a download, where 404 is `ErrObjectNotFound`.
  unfoldable pub check_found : HttpAnswer L → Action S (HttpAnswer L)
  unfolding check_status
  check_found answer = if answer.status == 404 then fail object_not_found else check_status answer

abbrev pub required : {S A : Type 0} → Error → Option A → Action S A
required e none = fail e
required e (some a) = pure a
