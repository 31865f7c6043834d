-- ===== src/Storage/Filesystem/Files/Laws.antt =====
-- How the files of a tree stand to each other when one is written or removed.
use gha_cache_server.Base.{
  ◌≡◌, refl, sym, ap, ◌∙◌, ◌⊎◌, inl, inr, false, Option, none, some, List, [], ◌∷◌, if◌then◌else◌,
  Bool-cases, Bytes, bytes_eq, bytes_eq_self, bytes_eq_sound,
}
use gha_cache_server.Storage.Filesystem.Files.{
  Tree, file, directory, Entries, nil, entry, child, set_child, remove_child, found, find,
  rename_in, new_file, put_file,
}

pub Option-cases : {A : Type 0} (o : Option A) → (o ≡ none) ⊎ ((a : A) × (o ≡ some a))
Option-cases none = inl refl
Option-cases (some a) = inr (a, refl)

child-set_child : (x : Bytes) (t : Tree) (es : Entries) → child x (set_child x t es) ≡ some t
unfolding child set_child
child-set_child x t nil = rw (bytes_eq_self x) refl
child-set_child x t (entry y u es) = elim (Bool-cases (bytes_eq y x)) [
  | inl same ↦ rw same (rw (bytes_eq_self x) refl)
  | inr other ↦ rw other (rw other (child-set_child x t es))
]

pub child-set_child_other :
    (x y : Bytes) (t : Tree) (es : Entries)
    → bytes_eq x y ≡ false
    → child y (set_child x t es) ≡ child y es
unfolding child set_child
child-set_child_other x y t nil h = rw h refl
child-set_child_other x y t (entry z u es) h = elim (Bool-cases (bytes_eq z x)) [
  | inl same ↦
      let moved : bytes_eq z y ≡ false = ap (λ k. bytes_eq k y) (bytes_eq_sound z x same) ∙ h in
      rw same (rw (h, moved) refl)
  | inr other ↦ rw other (
      ap (λ (r : Option Tree). if bytes_eq z y then some u else r)
        (child-set_child_other x y t es h))
]

pub child-remove_child_other :
    (x y : Bytes) (es : Entries) → bytes_eq x y ≡ false → child y (remove_child x es) ≡ child y es
unfolding child remove_child
child-remove_child_other x y nil h = refl
child-remove_child_other x y (entry z u es) h = elim (Bool-cases (bytes_eq z x)) [
  | inl same ↦
      let moved : bytes_eq z y ≡ false = ap (λ k. bytes_eq k y) (bytes_eq_sound z x same) ∙ h in
      rw same (child-remove_child_other x y es h ∙ rw moved refl)
  | inr other ↦ rw other (
      ap (λ (r : Option Tree). if bytes_eq z y then some u else r)
        (child-remove_child_other x y es h))
]

pub child-remove_child : (x : Bytes) (es : Entries) → child x (remove_child x es) ≡ none
unfolding child remove_child
child-remove_child x nil = refl
child-remove_child x (entry y u es) = elim (Bool-cases (bytes_eq y x)) [
  | inl same ↦ rw same (child-remove_child x es)
  | inr other ↦ rw other (rw other (child-remove_child x es))
]

pub rename_in-some :
    (x : Bytes) (es : Entries) (o : Option Tree) (t' : Tree)
    → rename_in x es o ≡ some t'
    → (t : Tree) × (o ≡ some t) × (t' ≡ directory (set_child x t es))
rename_in-some x es none t' e = absurd (cc e)
rename_in-some x es (some t) t' e = (t, refl, sym (cc e))

-- What is found behind a directory entry.
pub find-child :
    (x : Bytes) (p : List Bytes) (es : Entries) (t : Tree)
    → child x es ≡ some t
    → find (x ∷ p) (directory es) ≡ find p t
unfolding find
find-child x p es t e = rw (e, find) refl

pub find-set_child :
    (x : Bytes) (p : List Bytes) (es : Entries) (t : Tree)
    → find (x ∷ p) (directory (set_child x t es)) ≡ find p t
find-set_child x p es t = find-child x p (set_child x t es) t (child-set_child x t es)

pub find-same_child :
    (y : Bytes) (q : List Bytes) (es ds : Entries)
    → child y es ≡ child y ds
    → find (y ∷ q) (directory es) ≡ find (y ∷ q) (directory ds)
unfolding find
find-same_child y q es ds e = rw (e, find) refl

-- A file that was written is found with its content.
pub find-put_file :
    (p : List Bytes) (b : Bytes) (t t' : Tree)
    → put_file p b t ≡ some t'
    → find p t' ≡ found (file b)
unfolding put_file find
find-put_file [] b (file old) t' e = ap found (sym (cc e))
find-put_file [] b (directory es) t' e = absurd (cc e)
find-put_file (x ∷ p) b (file old) t' e = absurd (cc e)
find-put_file (x ∷ p) b (directory es) t' e = elim (Option-cases (child x es)) [
  | inl absent ↦ made p (rw absent at e)
  | inr (u, there) ↦
      let e' : rename_in x es (put_file p b u) ≡ some t' = rw there at e in
      let (u', put, same) = rename_in-some x es (put_file p b u) t' e' in
      rw same (find-set_child x p es u' ∙ find-put_file p b u u' put)
]
  where
    made :
        (q : List Bytes)
        → rename_in x es (new_file q b) ≡ some t'
        → find (x ∷ q) t' ≡ found (file b)
    made [] h =
        let (u', new, same) = rename_in-some x es (some (file b)) t' h in
        rw same (find-set_child x [] es u' ∙ ap found (sym (cc new)))
    made (y ∷ q) h = absurd (cc h)
