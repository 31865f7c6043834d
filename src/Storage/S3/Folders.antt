-- ===== src/Storage/S3/Folders.antt =====
-- internal/storage/s3.go: a folder that is deleted or counted, page by page.
use mathlib.Core.List.{append-nil}
use gha_cache_server.Base.{
  ℕ, zero, suc, ◌+◌, ◌≤◌, ◌<◌, ◌≡◌, refl, sym, ap, ◌∙◌, ◌⊎◌, inl, inr, Bool, true, false, not, some,
  List, [], ◌∷◌, ◌++◌, length, take, drop, length-take, length-drop, take-append-drop, ltb→lt,
  if◌then◌else◌, Bool-cases, Bytes, arith,
}
use gha_cache_server.Action.{ok, pure}
use gha_cache_server.Action.Laws.{bind-ok}
use gha_cache_server.Storage.Net.{Net}
use gha_cache_server.Storage.S3.{
  ListResult, S3Request, is_nil, s3_folder, list_objects, delete_objects, delete_pages,
  delete_by_prefix, delete_folder, count_pages, count_files_in_folder,
}
use gha_cache_server.Storage.S3.Without.{without, length-without_le, without-append, without_self}
use gha_cache_server.Storage.S3.Bucket.{IsBucket, list_objects-some, delete_objects-Leaves}

nil_of_length : {A : Type 0} (xs : List A) → length xs ≡ 0 → xs ≡ []
nil_of_length [] h = refl
nil_of_length (x ∷ xs) h = absurd (omega arith)

is_nil-true : {A : Type 0} (xs : List A) → is_nil xs ≡ true → length xs ≡ 0
is_nil-true [] h = refl
is_nil-true (x ∷ xs) h = absurd (cc h)

second_of : {P : Type 0} {b : Bool} → b ≡ true → (b ≡ false) ⊎ P → P
second_of e (inl last) = absurd (cc (sym e ∙ last))
second_of e (inr p) = p

take_whole : {A : Type 0} (n : ℕ) (xs : List A) → length xs ≤ n → take n xs ≡ xs
take_whole n xs h =
    sym (append-nil (take n xs))
    ∙ ap (λ r. take n xs ++ r) (sym (nil_of_length (drop n xs) (omega (arith, length-drop n xs))))
    ∙ take-append-drop n xs

module _ {S : Type 0} (net : Net S3Request ListResult S) (left : Bytes → Bytes → S → List Bytes)
    (page : ℕ) (bucket : IsBucket net left page) where
  module _ (prefix : Bytes) where
    -- After a page that was deleted the keys that are left are those behind it.
    left_behind :
        (token next : Bytes) (contents : List Bytes) (s s' : S)
        → contents ≡ take page (left prefix token s)
        → ((t : Bytes) → left prefix t s' ≡ without contents (left prefix t s))
        → left prefix [] s ≡ left prefix token s
        → left prefix next s ≡ drop page (left prefix token s)
        → left prefix [] s' ≡ left prefix next s'
    left_behind token next contents s s' first gone all behind =
        gone []
        ∙ ap (without contents) (all ∙ sym (take-append-drop page (left prefix token s)))
        ∙ without-append contents (take page (left prefix token s))
            (drop page (left prefix token s))
        ∙ ap (λ r. r ++ without contents (drop page (left prefix token s)))
            (ap (without contents) (sym first) ∙ without_self contents)
        ∙ ap (without contents) (sym behind)
        ∙ sym (gone next)

    -- A page that has keys, which are deleted.
    delete_pages-step :
        (f : ℕ) (token : Bytes) (lr : ListResult) (s s1 : S)
        → list_objects net prefix token s ≡ (ok lr, s)
        → is_nil lr.contents ≡ false
        → delete_objects net lr.contents s ≡ (ok tt, s1)
        → delete_pages net (suc f) prefix token s
          ≡ (if not lr.is_truncated
                then pure (some tt)
                else delete_pages net f prefix lr.next_continuation_token)
              s1
    unfolding delete_pages
    delete_pages-step f token lr s s1 listing something deletion =
        bind-ok (list_objects net prefix token) _ (ap (λ r. r.0) listing) (ap (λ r. r.1) listing)
        ∙ rw something (
            bind-ok (delete_objects net lr.contents) _ (ap (λ r. r.0) deletion)
              (ap (λ r. r.1) deletion))

    delete_pages-empties :
        (f : ℕ) (token : Bytes) (s : S)
        → length (left prefix token s) < f
        → left prefix [] s ≡ left prefix token s
        → (s' : S) × (delete_pages net f prefix token s ≡ (ok (some tt), s'))
          × (left prefix [] s' ≡ [])
    unfolding delete_pages
    delete_pages-empties zero token s h all = absurd (omega arith)
    delete_pages-empties (suc f) token s h all =
        let (answer, lr, sent, good, read, first, more, behind) = bucket.listed prefix token s in
        let listing = list_objects-some net prefix token answer lr s sent good read in
        let some_page : 0 < page = bucket.gives_some in
        elim (Bool-cases (is_nil lr.contents)) [
          | inl nothing ↦
              let none_left : left prefix token s ≡ [] = nil_of_length (left prefix token s) (
                omega (
                  arith,
                  length-take page (left prefix token s),
                  ap length first,
                  is_nil-true lr.contents nothing,
                )) in
              (
                s,
                bind-ok (list_objects net prefix token) _ (ap (λ r. r.0) listing)
                      (ap (λ r. r.1) listing)
                    ∙ rw nothing (unfold pure in refl),
                all ∙ none_left,
              )
          | inr something ↦
              let (s1, deletion, gone) = delete_objects-Leaves net left page bucket lr.contents s in
              let step = delete_pages-step f token lr s s1 listing something deletion in
              let gone' = λ (t : Bytes). gone prefix t in
              elim (Bool-cases lr.is_truncated) [
                | inr last ↦
                    let short : length (left prefix token s) ≤ page = ground (arith, more, last) in
                    let whole : lr.contents ≡ left prefix token s =
                      first ∙ take_whole page (left prefix token s) short in
                    (
                      s1,
                      step ∙ rw last (unfold pure in refl),
                      gone' []
                          ∙ ap (without lr.contents) (all ∙ sym whole)
                          ∙ without_self lr.contents,
                    )
                | inl truncated ↦
                    let next : left prefix lr.next_continuation_token s
                        ≡ drop page (left prefix token s) =
                      second_of truncated behind in
                    let fewer : length (left prefix lr.next_continuation_token s1) < f = omega (
                      arith,
                      ap length (gone' lr.next_continuation_token),
                      length-without_le lr.contents (left prefix lr.next_continuation_token s),
                      ap length next,
                      length-drop page (left prefix token s),
                      ltb→lt page (length (left prefix token s)) (sym more ∙ truncated),
                    ) in
                    let (s2, rest, empty) =
                      delete_pages-empties f lr.next_continuation_token s1 fewer (
                        left_behind token lr.next_continuation_token lr.contents s s1 first gone'
                          all next) in
                    (s2, step ∙ rw truncated rest, empty)
              ]
        ]

    count_pages-length :
        (f : ℕ) (token : Bytes) (count : ℕ) (s : S)
        → length (left prefix token s) < f
        → count_pages net f prefix token count s
          ≡ (ok (some (count + length (left prefix token s))), s)
    unfolding count_pages
    count_pages-length zero token count s h = absurd (omega arith)
    count_pages-length (suc f) token count s h =
        let (answer, lr, sent, good, read, first, more, behind) = bucket.listed prefix token s in
        let listing = list_objects-some net prefix token answer lr s sent good read in
        let some_page : 0 < page = bucket.gives_some in
        let keys = left prefix token s in
        bind-ok (list_objects net prefix token) _ (ap (λ r. r.0) listing) (ap (λ r. r.1) listing)
        ∙ elim (Bool-cases lr.is_truncated) [
          | inr last ↦
              let short : length keys ≤ page = ground (arith, more, last) in
              let all : length lr.contents ≡ length keys =
                ap length (first ∙ take_whole page keys short) in
              rw last (unfold pure in ap (λ n. (ok (some (count + n)), s)) all)
          | inl truncated ↦
              let next : left prefix lr.next_continuation_token s ≡ drop page keys =
                second_of truncated behind in
              let long : page < length keys = ltb→lt page (length keys) (sym more ∙ truncated) in
              let sum : count
                    + length lr.contents
                    + length (left prefix lr.next_continuation_token s)
                  ≡ count + length keys =
                omega (
                  arith,
                  ap length next,
                  ap length first,
                  length-drop page keys,
                  length-take page keys,
                ) in
              rw truncated (
                count_pages-length f lr.next_continuation_token (count + length lr.contents) s
                  (omega (arith, ap length next, length-drop page keys))
                ∙ ap (λ n. (ok (some n), s)) sum)
        ]

  -- With a unit of fuel more than the folder has objects, `DeleteFolder` returns without an error, and
  -- the folder has none left, if the service lists and deletes what it documents.
  pub delete_folder-empties :
      (fuel : ℕ) (name : Bytes) (s : S)
      → length (left (s3_folder name) [] s) < fuel
      → (s' : S) × (delete_folder net fuel name s ≡ (ok (some tt), s'))
        × (left (s3_folder name) [] s' ≡ [])
  unfolding delete_folder delete_by_prefix
  delete_folder-empties fuel name s h = delete_pages-empties (s3_folder name) fuel [] s h refl

  -- With a unit of fuel more than the folder has objects, `CountFilesInFolder` returns their number and
  -- changes nothing, if the service lists what it documents.
  pub count_files_in_folder-length :
      (fuel : ℕ) (name : Bytes) (s : S)
      → length (left (s3_folder name) [] s) < fuel
      → count_files_in_folder net fuel name s ≡ (ok (some (length (left (s3_folder name) [] s))), s)
  unfolding count_files_in_folder
  count_files_in_folder-length fuel name s h =
      count_pages-length (s3_folder name) fuel [] 0 s h ∙ ap (λ n. (ok (some n), s)) (omega arith)
