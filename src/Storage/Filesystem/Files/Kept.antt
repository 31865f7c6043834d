-- ===== src/Storage/Filesystem/Files/Kept.antt =====
-- The files that stay when another is written, or when a folder is made or removed.
use mathlib.Core.Path.{subst}
use gha_cache_server.Base.{
  ◌≡◌, ◌≢◌, refl, sym, ap, ◌∙◌, inl, inr, Bool, true, false, ◌&&◌, none, some, List, [], ◌∷◌,
  Bool-cases, Bytes, bytes_eq, bytes_eq_self, bytes_eq_sound, arith,
}
use gha_cache_server.Storage.Filesystem.Files.{
  Tree, file, directory, Entries, child, set_child, remove_child, found, find, or_empty,
  make_directories, new_file, put_file, remove_tree,
}
use gha_cache_server.Storage.Filesystem.Files.Laws.{
  Option-cases, child-set_child_other, child-remove_child, child-remove_child_other, rename_in-some,
  find-child, find-set_child, find-same_child,
}

-- The path itself, or one below it.
unfoldable pub below : List Bytes → List Bytes → Bool
below [] q = true
below (x ∷ p) [] = false
below (x ∷ p) (y ∷ q) = bytes_eq x y && below p q

-- A file that is found in a tree.
abbrev pub HasFile : List Bytes → Bytes → Tree → Type 0
HasFile q c t = find q t ≡ found (file c)

module _ (c : Bytes) where
  -- A change at one child keeps the files of the others, and those of the child that it keeps.
  HasFile-set_child :
      (x y : Bytes) (q : List Bytes) (es : Entries) (u : Tree)
      → HasFile (y ∷ q) c (directory es)
      → (bytes_eq x y ≡ true → HasFile q c u)
      → HasFile (y ∷ q) c (directory (set_child x u es))
  HasFile-set_child x y q es u h k = elim (Bool-cases (bytes_eq x y)) [
    | inl same ↦
        subst (λ z. HasFile (z ∷ q) c (directory (set_child x u es))) (bytes_eq_sound x y same)
          (find-set_child x q es u ∙ k same)
    | inr other ↦
        find-same_child y q (set_child x u es) es (child-set_child_other x y u es other) ∙ h
  ]

  -- The file of a child that is there.
  HasFile-child :
      (x y : Bytes) (q : List Bytes) (es : Entries) (u : Tree)
      → HasFile (y ∷ q) c (directory es)
      → child x es ≡ some u
      → bytes_eq x y ≡ true
      → HasFile q c u
  HasFile-child x y q es u h there same =
      sym (find-child x q es u there)
      ∙ subst (λ z. HasFile (z ∷ q) c (directory es)) (sym (bytes_eq_sound x y same)) h

  -- No file lies below a child that is not there.
  HasFile-absent :
      (x y : Bytes) (q : List Bytes) (es : Entries)
      → HasFile (y ∷ q) c (directory es)
      → child x es ≡ none
      → bytes_eq x y ≡ true
      → ⊥
  unfolding find
  HasFile-absent x y q es h absent same =
      let there : HasFile (x ∷ q) c (directory es) =
        subst (λ z. HasFile (z ∷ q) c (directory es)) (sym (bytes_eq_sound x y same)) h in
      absurd (cc (rw (absent, find) at there))

  pub HasFile-make_directories :
      (p q : List Bytes) (t t' : Tree)
      → make_directories p t ≡ some t'
      → HasFile q c t
      → HasFile q c t'
  unfolding make_directories
  HasFile-make_directories [] q (file b) t' e h = absurd (cc e)
  HasFile-make_directories [] q (directory es) t' e h = subst (HasFile q c) (cc e) h
  HasFile-make_directories (x ∷ p) q (file b) t' e h = absurd (cc e)
  HasFile-make_directories (x ∷ p) [] (directory es) t' e h = unfold find in absurd (cc h)
  HasFile-make_directories (x ∷ p) (y ∷ q) (directory es) t' e h =
      elim (Option-cases (child x es)) [
        | inl absent ↦
            let (u, made, same) =
              rename_in-some x es (make_directories p (or_empty (child x es))) t' e in
            rw same
              (HasFile-set_child x y q es u h λ eq. absurd (HasFile-absent x y q es h absent eq))
        | inr (v, there) ↦
            let (u, made, same) =
              rename_in-some x es (make_directories p (or_empty (child x es))) t' e in
            let made' : make_directories p v ≡ some u =
              sym (ap (λ o. make_directories p (or_empty o)) there) ∙ made in
            rw same (
              HasFile-set_child x y q es u h
                λ eq. HasFile-make_directories p q v u made' (HasFile-child x y q es v h there eq))
      ]

  pub HasFile-put_file :
      (p q : List Bytes) (b : Bytes) (t t' : Tree)
      → p ≢ q
      → put_file p b t ≡ some t'
      → HasFile q c t
      → HasFile q c t'
  unfolding put_file
  HasFile-put_file [] [] b t t' apart e h = absurd (apart refl)
  HasFile-put_file [] (y ∷ q) b (file old) t' apart e h = unfold find in absurd (cc h)
  HasFile-put_file [] (y ∷ q) b (directory es) t' apart e h = absurd (cc e)
  HasFile-put_file (x ∷ p) q b (file old) t' apart e h = absurd (cc e)
  HasFile-put_file (x ∷ p) [] b (directory es) t' apart e h = unfold find in absurd (cc h)
  HasFile-put_file (x ∷ p) (y ∷ q) b (directory es) t' apart e h =
      elim (Option-cases (child x es)) [
        | inl absent ↦
            let (u, new, same) = rename_in-some x es (new_file p b) t' (rw absent at e) in
            rw same
              (HasFile-set_child x y q es u h λ eq. absurd (HasFile-absent x y q es h absent eq))
        | inr (v, there) ↦
            let (u, put, same) = rename_in-some x es (put_file p b v) t' (rw there at e) in
            rw same (
              HasFile-set_child x y q es u h λ eq.
                HasFile-put_file p q b v u
                  (λ (tails : p ≡ q). apart (cc (bytes_eq_sound x y eq, tails))) put
                  (HasFile-child x y q es v h there eq))
      ]

  pub HasFile-remove_tree :
      (p q : List Bytes) (t t' : Tree)
      → below p q ≡ false
      → remove_tree p t ≡ some t'
      → HasFile q c t
      → HasFile q c t'
  unfolding remove_tree below
  HasFile-remove_tree [] q t t' apart e h = absurd (cc apart)
  HasFile-remove_tree (x ∷ p) q (file b) t' apart e h = absurd (cc e)
  HasFile-remove_tree (x ∷ []) [] (directory es) t' apart e h = unfold find in absurd (cc h)
  HasFile-remove_tree (x ∷ []) (y ∷ q) (directory es) t' apart e h =
      let other : bytes_eq x y ≡ false = ground arith in
      subst (HasFile (y ∷ q) c) (cc e)
        (find-same_child y q (remove_child x es) es (child-remove_child_other x y es other) ∙ h)
  HasFile-remove_tree (x ∷ z ∷ p) [] (directory es) t' apart e h = unfold find in absurd (cc h)
  HasFile-remove_tree (x ∷ z ∷ p) (y ∷ q) (directory es) t' apart e h =
      elim (Option-cases (child x es)) [
        | inl absent ↦
            let same : some (directory es) ≡ some t' = rw (absent, remove_tree) at e in
            subst (HasFile (y ∷ q) c) (cc same) h
        | inr (v, there) ↦
            let (u, removed, same) =
              rename_in-some x es (remove_tree (z ∷ p) v) t' (rw (there, remove_tree) at e) in
            rw same (
              HasFile-set_child x y q es u h λ eq.
                HasFile-remove_tree (z ∷ p) q v u (rw eq at apart) removed
                  (HasFile-child x y q es v h there eq))
      ]

  no_file_below_missing :
      (x : Bytes) (q : List Bytes) (es : Entries)
      → child x es ≡ none
      → HasFile (x ∷ q) c (directory es)
      → ⊥
  no_file_below_missing x q es absent h = HasFile-absent x x q es h absent (bytes_eq_self x)

  -- No file is left at the removed path or below it.
  pub remove_tree-removes :
      (x : Bytes) (p q : List Bytes) (t t' : Tree)
      → below (x ∷ p) q ≡ true
      → remove_tree (x ∷ p) t ≡ some t'
      → HasFile q c t'
      → ⊥
  unfolding remove_tree below
  remove_tree-removes x p [] t t' inside e h = absurd (cc inside)
  remove_tree-removes x [] (y ∷ q) (file b) t' inside e h = absurd (cc e)
  remove_tree-removes x (z ∷ p) (y ∷ q) (file b) t' inside e h = absurd (cc e)
  remove_tree-removes x [] (y ∷ q) (directory es) t' inside e h =
      let same : x ≡ y = bytes_eq_sound x y (ground arith) in
      let is : directory (remove_child x es) ≡ t' = cc e in
      no_file_below_missing x q (remove_child x es) (child-remove_child x es) (
        subst (λ n. HasFile (n ∷ q) c (directory (remove_child x es))) (sym same)
          (subst (HasFile (y ∷ q) c) (sym is) h))
  remove_tree-removes x (z ∷ p) (y ∷ q) (directory es) t' inside e h =
      let same : x ≡ y = bytes_eq_sound x y (ground arith) in
      let h' : HasFile (x ∷ q) c t' = subst (λ n. HasFile (n ∷ q) c t') (sym same) h in
      elim (Option-cases (child x es)) [
        | inl absent ↦
            let is : some (directory es) ≡ some t' = rw (absent, remove_tree) at e in
            no_file_below_missing x q es absent (subst (HasFile (x ∷ q) c) (sym (cc is)) h')
        | inr (v, there) ↦
            let (u, removed, is) =
              rename_in-some x es (remove_tree (z ∷ p) v) t' (rw (there, remove_tree) at e) in
            remove_tree-removes z p q v u (ground arith) removed
              (sym (find-set_child x q es u) ∙ subst (HasFile (x ∷ q) c) is h')
      ]
