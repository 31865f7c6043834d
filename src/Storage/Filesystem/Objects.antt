-- ===== src/Storage/Filesystem/Objects.antt =====
-- internal/storage/filesystem.go: an object that was stored is read back, and the others stay.
use gha_cache_server.Base.{
  ◌≡◌, ◌≢◌, refl, sym, ap, ◌∙◌, true, false, Option, none, some, List, [], ◌∷◌, Bytes,
}
use gha_cache_server.Action.{Error, ok, Action, ◌>>=◌}
use gha_cache_server.Action.Keeps.{Keeps, Keeps-pure, Keeps-fail, Keeps-bind, Keeps-if_some}
use gha_cache_server.Action.Ensures.{Ensures, Ensures-bind, Ensures-if_nil}
use gha_cache_server.Storage.Adapter.{Stream}
use gha_cache_server.Storage.Filesystem.{
  parent, stream_of, end_of_copy, with_safe, create_download_stream, upload_stream, delete_folder,
}
use gha_cache_server.Storage.Filesystem.Paths.{safe}
use gha_cache_server.Storage.Filesystem.Files.{
  Tree, file, Disk, make_directories, put_file, remove_tree, system_call, mkdir_all, write_file,
  remove_all, open_path, call,
}
use gha_cache_server.Storage.Filesystem.Files.Laws.{find-put_file}
use gha_cache_server.Storage.Filesystem.Files.Kept.{
  below, HasFile, HasFile-make_directories, HasFile-put_file, HasFile-remove_tree,
  remove_tree-removes,
}
use gha_cache_server.Storage.Filesystem.Changes.{
  Keeps-change, Ensures-change, Keeps-call, Ensures-kept, Ensures-end_of_copy,
}

module _ (root : List Bytes) (name : Bytes) (p : List Bytes)
    (resolved : safe root name ≡ some p) where
  -- Behind an upload that does not fail the file has the whole content, and the reader ended well.
  upload_stream-HasFile :
      (body : Stream)
      → Ensures
          (λ d. Unit {0})
          (upload_stream root name body)
          (λ _ d. HasFile p body.content d.tree × (body.broken ≡ none))
  unfolding upload_stream with_safe
  upload_stream-HasFile body =
      Ensures-if_nil _ _ _
        (λ (refused : safe root name ≡ none). absurd (cc (sym refused ∙ resolved)))
        λ q same.
          let here : q ≡ p = cc (sym same ∙ resolved) in
          let written : Tree → Type 0 = HasFile p body.content in
          rw here (
            Ensures-bind (mkdir_all (parent p)) _ (λ _ d. Unit {0}) nothing
              λ _.
                Ensures-bind (write_file p []) _ (λ _ d. Unit {0}) nothing
                  λ _.
                    Ensures-bind (write_file p body.content) _ (λ _ d. written d.tree) stored
                      λ _.
                        Ensures-bind (end_of_copy body.broken) _
                          (λ _ d. written d.tree × (body.broken ≡ none))
                          (Ensures-end_of_copy _ body.broken)
                          λ _.
                            Ensures-kept _ call (Keeps-call λ t. written t × (body.broken ≡ none)))
    where
      nothing : {A : Type 0} {m : Action Disk A} → Ensures (λ d. Unit {0}) m (λ _ d. Unit {0})
      nothing = record { from = λ s a h e. tt }

      stored :
          Ensures (λ d. Unit {0}) (write_file p body.content) (λ _ d. HasFile p body.content d.tree)
      stored =
          unfold write_file in
          Ensures-change (HasFile p body.content) (put_file p body.content)
            (λ t t' e. find-put_file p body.content t t' e)

  create_download_stream-HasFile :
      (d : Disk) (content : Bytes)
      → d.faults ≡ []
      → HasFile p content d.tree
      → create_download_stream root name d ≡ (ok (stream_of (file content)), d)
  unfolding create_download_stream with_safe open_path system_call ◌>>=◌
  create_download_stream-HasFile d content quiet there = rw resolved (rw quiet (rw there refl))

  -- An object that was uploaded without an error is downloaded with its content, as long as no call
  -- fails, and the reader that it came from ended without an error.
  pub create_download_stream-upload_stream :
      (body : Stream) (d : Disk)
      → (upload_stream root name body d).0 ≡ ok tt
      → (upload_stream root name body d).1.faults ≡ []
      → create_download_stream root name (upload_stream root name body d).1
        ≡ (ok body, (upload_stream root name body d).1)
  create_download_stream-upload_stream body d done quiet =
      let (there, ended) = (upload_stream-HasFile body).from d tt tt done in
      create_download_stream-HasFile (upload_stream root name body d).1 body.content quiet there
      ∙ ap
          (λ (o : Option Error). (
            ok (record { content = body.content; broken = o }),
            (upload_stream root name body d).1,
          ))
          (sym ended)

  -- An upload keeps the files of other paths, whatever fails.
  pub upload_stream-keeps :
      (body : Stream) (q : List Bytes) (c : Bytes) (d : Disk)
      → p ≢ q
      → HasFile q c d.tree
      → HasFile q c (upload_stream root name body d).1.tree
  unfolding upload_stream with_safe
  upload_stream-keeps body q c d apart h = kept.from d h
    where
      P : Disk → Type 0
      P d = HasFile q c d.tree

      made : Keeps P (mkdir_all (parent p))
      made =
          unfold mkdir_all in
          Keeps-change (HasFile q c) (make_directories (parent p))
            (HasFile-make_directories c (parent p) q)

      written : (b : Bytes) → Keeps P (write_file p b)
      written b =
          unfold write_file in
          Keeps-change (HasFile q c) (put_file p b)
            (λ t t' e. HasFile-put_file c p q b t t' apart e)

      ended : (o : Option Error) → Keeps P (end_of_copy o)
      ended none = Keeps-pure tt
      ended (some x) = Keeps-fail x

      kept : Keeps P (upload_stream root name body)
      kept = Keeps-if_some (safe root name) _ _ (Keeps-fail _) λ r same.
          let here : r ≡ p = cc (sym same ∙ resolved) in
          rw here (
            Keeps-bind _ _ made λ _. Keeps-bind _ _ (written []) λ _.
              Keeps-bind _ _ (written body.content)
                λ _. Keeps-bind _ _ (ended body.broken) λ _. Keeps-call (HasFile q c))

  -- The deletion of a folder keeps the files that do not lie below it, whatever fails.
  pub delete_folder-keeps :
      (q : List Bytes) (c : Bytes) (d : Disk)
      → below p q ≡ false
      → HasFile q c d.tree
      → HasFile q c (delete_folder root name d).1.tree
  unfolding delete_folder with_safe
  delete_folder-keeps q c d apart h = kept.from d h
    where
      removed : Keeps (λ d. HasFile q c d.tree) (remove_all p)
      removed =
          unfold remove_all in
          Keeps-change (HasFile q c) (remove_tree p)
            (λ t t' e. HasFile-remove_tree c p q t t' apart e)

      kept : Keeps (λ d. HasFile q c d.tree) (delete_folder root name)
      kept =
          Keeps-if_some (safe root name) _ _ (Keeps-fail _)
            λ r same. let here : r ≡ p = cc (sym same ∙ resolved) in rw here removed

-- If the deletion of a folder below the root returns no error, no file is left at its path or below.
pub delete_folder-removes :
    (root : List Bytes) (name x : Bytes) (p q : List Bytes) (c : Bytes) (d : Disk)
    → safe root name ≡ some (x ∷ p)
    → below (x ∷ p) q ≡ true
    → (delete_folder root name d).0 ≡ ok tt
    → ¬ (HasFile q c (delete_folder root name d).1.tree)
unfolding delete_folder with_safe
delete_folder-removes root name x p q c d resolved inside done = removed.from d tt tt done
  where
    Gone : Tree → Type 0
    Gone t = HasFile q c t → ⊥

    gone : Ensures (λ d. Unit {0}) (remove_all (x ∷ p)) (λ _ d. Gone d.tree)
    gone =
        unfold remove_all in
        Ensures-change Gone (remove_tree (x ∷ p))
          (λ t t' e. remove_tree-removes c x p q t t' inside e)

    removed : Ensures (λ d. Unit {0}) (delete_folder root name) (λ _ d. Gone d.tree)
    removed =
        Ensures-if_nil (safe root name) _ _
          (λ (refused : safe root name ≡ none). absurd (cc (sym refused ∙ resolved)))
          λ r same. let here : r ≡ x ∷ p = cc (sym same ∙ resolved) in rw here gone
