-- ===== src/Storage/S3/Batches.antt =====
-- internal/storage/s3.go: the slices in which `deleteObjects` sends the keys.
use gha_cache_server.Base.{
  ℕ, zero, suc, ◌≤◌, ◌≡◌, refl, ap, ◌∙◌, List, [], ◌∷◌, ◌++◌, All, length, take, drop, length-take,
  length-drop, take-append-drop, Bytes, arith,
}
use gha_cache_server.Storage.S3.{batches, page_limit}

abbrev pub concat : {A : Type 0} → List (List A) → List A
concat [] = []
concat (xs ∷ xss) = xs ++ concat xss

-- As many keys as a request may have.
abbrev pub Fits : List Bytes → Type 0
Fits keys = length keys ≤ page_limit

pub concat-batches : (f : ℕ) (keys : List Bytes) → length keys ≤ f → concat (batches f keys) ≡ keys
unfolding batches
concat-batches zero [] h = refl
concat-batches zero (k ∷ keys) h = absurd (omega arith)
concat-batches (suc f) [] h = refl
concat-batches (suc f) (k ∷ keys) h =
    ap (λ r. take page_limit (k ∷ keys) ++ r)
      (concat-batches f (drop page_limit (k ∷ keys))
        (omega (arith, length-drop page_limit (k ∷ keys))))
    ∙ take-append-drop page_limit (k ∷ keys)

pub batches-Fits : (f : ℕ) (keys : List Bytes) → All Fits (batches f keys)
unfolding batches
batches-Fits zero keys = tt
batches-Fits (suc f) [] = tt
batches-Fits (suc f) (k ∷ keys) =
    (omega (arith, length-take page_limit (k ∷ keys)), batches-Fits f (drop page_limit (k ∷ keys)))
