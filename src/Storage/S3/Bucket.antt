-- ===== src/Storage/S3/Bucket.antt =====
-- internal/storage/s3.go: the loop over the pages of a listing, against what S3 documents of a bucket.
use gha_cache_server.Base.{
  ℕ, ◌≤◌, ◌<◌, ◌≡◌, refl, sym, ap, ◌∙◌, ◌⊎◌, false, some, List, [], ◌∷◌, All, length, take, drop,
  ltb, Bytes, arith,
}
use gha_cache_server.Action.{ok, pure}
use gha_cache_server.Action.Laws.{bind-ok}
use gha_cache_server.Storage.Net.{HttpAnswer, Net, check_status}
use gha_cache_server.Storage.S3.{
  ListResult, S3Request, list_objects_v2, delete_objects_quiet, batches, page_limit, send_checked,
  list_objects, delete_batches, delete_objects,
}
use gha_cache_server.Storage.S3.Batches.{concat, Fits, concat-batches, batches-Fits}
use gha_cache_server.Storage.S3.Without.{without, without-nil, without-without}

module _ {S : Type 0} (net : Net S3Request ListResult S) where
  -- `left prefix token s`: the keys with the prefix that a listing from the token on has still to give.
  -- A listing gives the first of them, `page` at most, and a token for the others if there are any; a
  -- deletion of as many keys as a request may have takes them away.
  pub record IsBucket (left : Bytes → Bytes → S → List Bytes) (page : ℕ) : Type 0 where
    pub gives_some : 0 < page
    pub listed :
        (prefix token : Bytes) (s : S)
        → (answer : HttpAnswer ListResult) × (lr : ListResult) × (net
              (list_objects_v2 prefix token)
              s
            ≡ (ok answer, s))
          × (answer.status ≡ 200)
          × (answer.listing ≡ some lr)
          × (lr.contents ≡ take page (left prefix token s))
          × (lr.is_truncated ≡ ltb page (length (left prefix token s)))
          × ((lr.is_truncated ≡ false)
              ⊎ (left prefix lr.next_continuation_token s ≡ drop page (left prefix token s)))
    pub deleted :
        (keys : List Bytes) (s : S)
        → length keys ≤ page_limit
        → (answer : HttpAnswer ListResult) × (s' : S) × (net (delete_objects_quiet keys) s
            ≡ (ok answer, s'))
          × (answer.status ≡ 200)
          × ((prefix token : Bytes) → left prefix token s' ≡ without keys (left prefix token s))

  send_checked-200 :
      (request : S3Request) (answer : HttpAnswer ListResult) (s s' : S)
      → net request s ≡ (ok answer, s')
      → answer.status ≡ 200
      → send_checked net request s ≡ (ok answer, s')
  unfolding send_checked check_status pure
  send_checked-200 request answer s s' sent good =
      bind-ok (net request) _ (ap (λ r. r.0) sent) (ap (λ r. r.1) sent) ∙ rw good refl

  pub list_objects-some :
      (prefix token : Bytes) (answer : HttpAnswer ListResult) (lr : ListResult) (s : S)
      → net (list_objects_v2 prefix token) s ≡ (ok answer, s)
      → answer.status ≡ 200
      → answer.listing ≡ some lr
      → list_objects net prefix token s ≡ (ok lr, s)
  unfolding list_objects pure
  list_objects-some prefix token answer lr s sent good read =
      let checked = send_checked-200 (list_objects_v2 prefix token) answer s s sent good in
      bind-ok (send_checked net (list_objects_v2 prefix token)) _ (ap (λ r. r.0) checked)
        (ap (λ r. r.1) checked)
      ∙ rw read refl

  module _ (left : Bytes → Bytes → S → List Bytes) (page : ℕ) (bucket : IsBucket left page) where
    -- What a deletion leaves.
    abbrev pub Leaves : List Bytes → S → S → Type 0
    Leaves keys s s' =
        (prefix token : Bytes) → left prefix token s' ≡ without keys (left prefix token s)

    delete_batches-Leaves :
        (bs : List (List Bytes)) (s : S)
        → All Fits bs
        → (s' : S) × (delete_batches net bs s ≡ (ok tt, s')) × Leaves (concat bs) s s'
    unfolding delete_batches
    delete_batches-Leaves [] s fit =
        (s, unfold pure in refl, λ prefix token. sym (without-nil (left prefix token s)))
    delete_batches-Leaves (b ∷ bs) s fit =
        let (answer, s1, sent, good, gone) = bucket.deleted b s fit.0 in
        let (s2, rest, more) = delete_batches-Leaves bs s1 fit.1 in
        let checked = send_checked-200 (delete_objects_quiet b) answer s s1 sent good in
        (
          s2,
          bind-ok (send_checked net (delete_objects_quiet b)) _ (ap (λ r. r.0) checked)
                (ap (λ r. r.1) checked)
              ∙ rest,
          λ prefix token.
              more prefix token
              ∙ ap (without (concat bs)) (gone prefix token)
              ∙ without-without b (concat bs) (left prefix token s),
        )

    pub delete_objects-Leaves :
        (keys : List Bytes) (s : S)
        → (s' : S) × (delete_objects net keys s ≡ (ok tt, s')) × Leaves keys s s'
    unfolding delete_objects
    delete_objects-Leaves keys s =
        let (s', run, gone) =
          delete_batches-Leaves (batches (length keys) keys) s (batches-Fits (length keys) keys) in
        (
          s',
          run,
          λ prefix token.
              gone prefix token
              ∙ ap (λ l. without l (left prefix token s))
                  (concat-batches (length keys) keys (omega arith)),
        )
