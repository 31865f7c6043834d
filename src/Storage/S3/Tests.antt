-- ===== src/Storage/S3/Tests.antt =====
-- A bucket of two places, whose listings have one key on a page.
use gha_cache_server.Base.{
  ℕ, ◌<◌, ◌≡◌, refl, sym, ap, ◌∙◌, ◌⊎◌, inl, inr, true, false, Option, none, some, List, [], ◌∷◌,
  ◌++◌, length, take, drop, ltb, if◌then◌else◌, Bool-cases, Bytes, codes, has_prefix, arith,
}
use gha_cache_server.Action.{ok}
use gha_cache_server.Storage.Net.{HttpAnswer, Net}
use gha_cache_server.Storage.S3.{
  ListResult, S3Request, head_bucket, get_object, put_object, list_objects_v2, delete_objects_quiet,
  s3_folder, delete_folder, count_files_in_folder,
}
use gha_cache_server.Storage.S3.Without.{contains, without, without-append}
use gha_cache_server.Storage.S3.Bucket.{IsBucket}
use gha_cache_server.Storage.S3.Folders.{delete_folder-empties, count_files_in_folder-length}

abbrev Places : Type 0
Places = Option Bytes × Option Bytes

matching : Bytes → Option Bytes → List Bytes
matching prefix none = []
matching prefix (some k) = if has_prefix prefix k then k ∷ [] else []

left : Bytes → Bytes → Places → List Bytes
left prefix [] (a, b) = matching prefix a ++ matching prefix b
left prefix (c ∷ []) (a, b) = matching prefix b
left prefix (c ∷ d ∷ token) (a, b) = []

without_place : List Bytes → Option Bytes → Option Bytes
without_place keys none = none
without_place keys (some k) = if contains keys k then none else some k

abbrev last_page : List Bytes → ListResult
last_page keys = record { contents = keys; is_truncated = false; next_continuation_token = [] }

abbrev first_page : List Bytes → List Bytes → ListResult
first_page (k ∷ ks) (l ∷ ls) = record {
  contents = k ∷ [];
  is_truncated = true;
  next_continuation_token = 1 ∷ [];
}
first_page (k ∷ ks) [] = last_page (k ∷ ks)
first_page [] ls = last_page ls

listing : Bytes → Bytes → Places → ListResult
listing prefix [] (a, b) = first_page (matching prefix a) (matching prefix b)
listing prefix (c ∷ []) (a, b) = last_page (matching prefix b)
listing prefix (c ∷ d ∷ token) (a, b) = last_page []

abbrev answer : ℕ → Option ListResult → HttpAnswer ListResult
answer status listing = record {
  status = status;
  content = record { content = []; broken = none };
  listing = listing;
}

two_places : Net S3Request ListResult Places
two_places head_bucket s = (ok (answer 200 none), s)
two_places (get_object key) s = (ok (answer 404 none), s)
two_places (put_object key body) s = (ok (answer 500 none), s)
two_places (list_objects_v2 prefix token) s = (ok (answer 200 (some (listing prefix token s))), s)
two_places (delete_objects_quiet keys) (a, b) =
    (ok (answer 200 none), (without_place keys a, without_place keys b))

matching-without_place :
    (prefix : Bytes) (keys : List Bytes) (o : Option Bytes)
    → matching prefix (without_place keys o) ≡ without keys (matching prefix o)
unfolding matching without_place without
matching-without_place prefix keys none = refl
matching-without_place prefix keys (some k) = elim (Bool-cases (contains keys k)) [
  | inl there ↦ elim (Bool-cases (has_prefix prefix k)) [
    | inl inside ↦ rw there (rw inside (rw there refl))
    | inr outside ↦ rw there (rw outside refl)
  ]
  | inr absent ↦ elim (Bool-cases (has_prefix prefix k)) [
    | inl inside ↦ rw absent (rw inside (rw absent refl))
    | inr outside ↦ rw absent (rw outside refl)
  ]
]

left-without_place :
    (keys : List Bytes) (prefix token : Bytes) (a b : Option Bytes)
    → left prefix token (without_place keys a, without_place keys b)
      ≡ without keys (left prefix token (a, b))
unfolding left
left-without_place keys prefix [] a b =
    ap (λ l. l ++ matching prefix (without_place keys b)) (matching-without_place prefix keys a)
    ∙ ap (λ r. without keys (matching prefix a) ++ r) (matching-without_place prefix keys b)
    ∙ sym (without-append keys (matching prefix a) (matching prefix b))
left-without_place keys prefix (c ∷ []) a b = matching-without_place prefix keys b
left-without_place keys prefix (c ∷ d ∷ token) a b = unfold without in refl

abbrev IsPageOf : List Bytes → ListResult → List Bytes → Type 0
IsPageOf keys lr behind =
    (lr.contents ≡ take 1 keys)
    × (lr.is_truncated ≡ ltb 1 (length keys))
    × ((lr.is_truncated ≡ false) ⊎ (behind ≡ drop 1 keys))

last_page-IsPageOf :
    (prefix : Bytes) (o : Option Bytes) (behind : List Bytes)
    → IsPageOf (matching prefix o) (last_page (matching prefix o)) behind
unfolding matching
last_page-IsPageOf prefix none behind = (refl, refl, inl refl)
last_page-IsPageOf prefix (some k) behind = elim (Bool-cases (has_prefix prefix k)) [
  | inl inside ↦ rw inside (refl, refl, inl refl)
  | inr outside ↦ rw outside (refl, refl, inl refl)
]

-- The page that a listing begins with, and what its token leaves.
abbrev first_of : Bytes → Option Bytes → Option Bytes → ListResult
first_of prefix a b = first_page (matching prefix a) (matching prefix b)

first_page-IsPageOf :
    (prefix : Bytes) (a b : Option Bytes)
    → IsPageOf
        (matching prefix a ++ matching prefix b)
        (first_of prefix a b)
        (left prefix (first_of prefix a b).next_continuation_token (a, b))
unfolding matching left
first_page-IsPageOf prefix none b = last_page-IsPageOf prefix b _
first_page-IsPageOf prefix (some k) none = elim (Bool-cases (has_prefix prefix k)) [
  | inl inside ↦ rw inside (refl, refl, inl refl)
  | inr outside ↦ rw outside (refl, refl, inl refl)
]
first_page-IsPageOf prefix (some k) (some l) = elim (Bool-cases (has_prefix prefix k)) [
  | inl inside ↦ elim (Bool-cases (has_prefix prefix l)) [
    | inl within ↦ rw inside (rw within (refl, refl, inr (rw within refl)))
    | inr apart ↦ rw inside (rw apart (refl, refl, inl refl))
  ]
  | inr outside ↦ rw outside (last_page-IsPageOf prefix (some l) _)
]

listing-IsPageOf :
    (prefix token : Bytes) (a b : Option Bytes)
    → IsPageOf
        (left prefix token (a, b))
        (listing prefix token (a, b))
        (left prefix (listing prefix token (a, b)).next_continuation_token (a, b))
unfolding left listing
listing-IsPageOf prefix [] a b = first_page-IsPageOf prefix a b
listing-IsPageOf prefix (c ∷ []) a b = last_page-IsPageOf prefix b _
listing-IsPageOf prefix (c ∷ d ∷ token) a b = (refl, refl, inl refl)

two_places-IsBucket : IsBucket two_places left 1
unfolding two_places
two_places-IsBucket = record {
  gives_some = omega arith;
  listed = λ prefix token s.
      let page = listing-IsPageOf prefix token s.0 s.1 in
      (
        answer 200 (some (listing prefix token s)),
        listing prefix token s,
        refl,
        refl,
        refl,
        page.0,
        page.1,
        page.2,
      );
  deleted = λ keys s fits. (
    answer 200 none,
    (without_place keys s.0, without_place keys s.1),
    refl,
    refl,
    λ prefix token. left-without_place keys prefix token s.0 s.1,
  );
}

abbrev folder_f : Places
folder_f = (some (codes "gh-actions-cache/f/0"), some (codes "gh-actions-cache/f/1"))

two_left : length (left (s3_folder (codes "f")) [] folder_f) < 3
unfolding left matching has_prefix
two_left = omega arith

delete_folder-empties_example :
    (s' : Places) × (delete_folder two_places 3 (codes "f") folder_f ≡ (ok (some tt), s'))
    × (left (s3_folder (codes "f")) [] s' ≡ [])
delete_folder-empties_example =
    delete_folder-empties two_places left 1 two_places-IsBucket 3 (codes "f") folder_f two_left

count_files_in_folder-length_example :
    count_files_in_folder two_places 3 (codes "f") folder_f
    ≡ (ok (some (length (left (s3_folder (codes "f")) [] folder_f))), folder_f)
count_files_in_folder-length_example =
    count_files_in_folder-length two_places left 1 two_places-IsBucket 3 (codes "f") folder_f
      two_left
