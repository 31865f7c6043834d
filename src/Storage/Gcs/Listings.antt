-- ===== src/Storage/Gcs/Listings.antt =====
-- internal/storage/gcs.go: the listing of a folder, whose status is not looked at.
use gha_cache_server.Base.{ℕ, suc, ◌≡◌, refl, ap, ◌∙◌, some, [], Bytes}
use gha_cache_server.Action.{ok, storage_failed, pure}
use gha_cache_server.Action.Laws.{bind-ok}
use gha_cache_server.Storage.Net.{HttpAnswer, required}
use gha_cache_server.Storage.Gcs.{
  list_page, Page, GcsAdapter, Gcs, gcs_folder, call, list_prefix, delete_keys, delete_listed,
  delete_folder, count_files_in_folder,
}

module _ {S : Type 0} (gcs : Gcs S) where
  -- One page is the whole listing.
  list_prefix-last :
      (f : ℕ) (prefix : Bytes) (answer : HttpAnswer Page) (page : Page) (a a' : GcsAdapter S)
      → call gcs (list_page prefix []) a ≡ (ok answer, a')
      → answer.listing ≡ some page
      → page.next_page_token ≡ []
      → list_prefix gcs (suc f) prefix a ≡ (ok (some page.items), a')
  unfolding list_prefix pure
  list_prefix-last f prefix answer page a a' sent read last =
      bind-ok (call gcs (list_page prefix [])) _ (ap (λ r. r.0) sent) (ap (λ r. r.1) sent)
      ∙ rw read (bind-ok (required storage_failed (some page)) _ refl refl ∙ rw last refl)

  -- An answer whose JSON has neither items nor a token, as that of an error, is taken for an empty
  -- listing whatever its status: the folder counts no files, and its deletion sends no request more
  -- and returns no error.
  pub delete_folder-unlisted :
      (f : ℕ) (name : Bytes) (answer : HttpAnswer Page) (page : Page) (a a' : GcsAdapter S)
      → call gcs (list_page (gcs_folder name) []) a ≡ (ok answer, a')
      → answer.listing ≡ some page
      → page.items ≡ []
      → page.next_page_token ≡ []
      → (delete_folder gcs (suc f) name a ≡ (ok (some tt), a'))
        × (count_files_in_folder gcs (suc f) name a ≡ (ok (some 0), a'))
  unfolding delete_folder count_files_in_folder delete_listed pure
  delete_folder-unlisted f name answer page a a' sent read nothing last =
      let listing = list_prefix-last f (gcs_folder name) answer page a a' sent read last in
      let empty : list_prefix gcs (suc f) (gcs_folder name) a ≡ (ok (some []), a') =
        listing ∙ ap (λ l. (ok (some l), a')) nothing in
      (
        bind-ok (list_prefix gcs (suc f) (gcs_folder name)) _ (ap (λ r. r.0) empty)
              (ap (λ r. r.1) empty)
            ∙ bind-ok (delete_keys gcs []) _ refl refl,
        bind-ok (list_prefix gcs (suc f) (gcs_folder name)) _ (ap (λ r. r.0) empty)
            (ap (λ r. r.1) empty),
      )
