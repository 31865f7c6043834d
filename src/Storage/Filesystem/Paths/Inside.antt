-- ===== src/Storage/Filesystem/Paths/Inside.antt =====
-- internal/storage/filesystem.go: `safe` gives a path below the root, and the names of the service
-- stay what they are.
use mathlib.Core.List.{reverse, reverse-cons, append-nil}
use mathlib.Core.Path.{subst}
use gha_cache_server.Base.{
  ℕ, ◌≡◌, refl, sym, ap, ◌∙◌, inl, inr, Bool, true, false, ◌||◌, none, some, List, [], ◌∷◌, ◌++◌,
  All, All-append, ◌==◌, if◌then◌else◌, Bool-cases, Bytes, codes, bytes_eq, bytes_eq_self,
  bytes_eq_sound, arith,
}
use gha_cache_server.Storage.Filesystem.Paths.{
  onto_first, split_slashes, dots, up, enter, enter_all, is_rooted, clean, join_root, rel, leaves,
  resolve_names, safe,
}

abbrev pub HasNoSlash : Bytes → Type 0
HasNoSlash n = All (λ c. (c == b'/') ≡ false) n

abbrev pub IsProper : Bytes → Type 0
IsProper n = (bytes_eq n [] ≡ false) × (bytes_eq n (codes ".") ≡ false) × (bytes_eq n dots ≡ false)

-- A name of a file: no slash, not empty, and neither `.` nor `..`.
abbrev pub IsName : Bytes → Type 0
IsName n = HasNoSlash n × IsProper n

onto_first-HasNoSlash :
    (c : ℕ) (ps : List Bytes)
    → (c == b'/') ≡ false
    → All HasNoSlash ps
    → All HasNoSlash (onto_first (c ∷ []) ps)
onto_first-HasNoSlash c [] plain h = ((plain, tt), tt)
onto_first-HasNoSlash c (p ∷ ps) plain h = ((plain, h.0), h.1)

split_slashes-HasNoSlash : (s : Bytes) → All HasNoSlash (split_slashes s)
unfolding split_slashes
split_slashes-HasNoSlash [] = (tt, tt)
split_slashes-HasNoSlash (c ∷ s) =
    let rest = split_slashes-HasNoSlash s in
    elim (Bool-cases (c == b'/')) [
      | inl slash ↦ rw slash (tt, rest)
      | inr plain ↦ rw plain (onto_first-HasNoSlash c (split_slashes s) plain rest)
    ]

-- What holds of the elements and of `..` holds of the names that are left.
enter-All :
    (P : Bytes → Type 0) (rooted : Bool) (e : Bytes) (names : List Bytes)
    → P dots
    → P e
    → All P names
    → All P (enter rooted e names)
unfolding enter
enter-All P rooted e names d h hs = elim (Bool-cases (bytes_eq e [] || bytes_eq e (codes "."))) [
  | inl skipped ↦ rw skipped hs
  | inr kept ↦ rw kept (elim (Bool-cases (bytes_eq e dots)) [
    | inl two ↦ rw two (up-All rooted names hs)
    | inr name ↦ rw name (h, hs)
  ])
]
  where
    up-All : (r : Bool) (ns : List Bytes) → All P ns → All P (up r ns)
    up-All true [] a = unfold up in tt
    up-All false [] a = unfold up in (d, tt)
    up-All r (n ∷ ns) a =
        unfold up in
        elim (Bool-cases (bytes_eq n dots)) [ inl two ↦ rw two (d, a) | inr name ↦ rw name a.1 ]

enter_all-All :
    (P : Bytes → Type 0) (rooted : Bool) (es names : List Bytes)
    → P dots
    → All P es
    → All P names
    → All P (enter_all rooted es names)
unfolding enter_all
enter_all-All P rooted [] names d h hs = hs
enter_all-All P rooted (e ∷ es) names d h hs =
    enter_all-All P rooted es _ d h.1 (enter-All P rooted e names d h.0 hs)

All-reverse : (P : Bytes → Type 0) (xs : List Bytes) → All P xs → All P (reverse xs)
All-reverse P [] h = tt
All-reverse P (x ∷ xs) h =
    subst (All P) (sym (reverse-cons x xs))
      (All-append P (reverse xs) (x ∷ []) (All-reverse P xs h.1) (h.0, tt))

-- Below the root `..` leaves no name behind.
enter-IsProper :
    (e : Bytes) (names : List Bytes) → All IsProper names → All IsProper (enter true e names)
unfolding enter
enter-IsProper e names hs = elim (Bool-cases (bytes_eq e [] || bytes_eq e (codes "."))) [
  | inl skipped ↦ rw skipped hs
  | inr kept ↦ rw kept (elim (Bool-cases (bytes_eq e dots)) [
    | inl two ↦ rw two (up-IsProper names hs)
    | inr name ↦ rw name ((ground arith, ground arith, name), hs)
  ])
]
  where
    up-IsProper : (ns : List Bytes) → All IsProper ns → All IsProper (up true ns)
    up-IsProper [] a = unfold up in tt
    up-IsProper (n ∷ ns) a = unfold up in rw a.0.2 a.1

enter_all-IsProper :
    (es names : List Bytes) → All IsProper names → All IsProper (enter_all true es names)
unfolding enter_all
enter_all-IsProper [] names hs = hs
enter_all-IsProper (e ∷ es) names hs = enter_all-IsProper es _ (enter-IsProper e names hs)

-- A target that is not above or beside the base lies below it.
rel-below :
    (base target : List Bytes) → leaves (rel base target) ≡ false → target ≡ base ++ rel base target
unfolding rel
rel-below [] target h = refl
rel-below (b ∷ base) [] h = absurd (cc (sym (bytes_eq_self dots) ∙ h))
rel-below (b ∷ base) (t ∷ target) h = elim (Bool-cases (bytes_eq b t)) [
  | inl same ↦
      let inside : leaves (rel base target) ≡ false = rw same at h in
      rw same (rw (sym (bytes_eq_sound b t same)) (ap (λ r. b ∷ r) (rel-below base target inside)))
  | inr other ↦
      let above : bytes_eq dots dots ≡ false = rw other at h in
      absurd (cc (sym (bytes_eq_self dots) ∙ above))
]

-- Both are kept: the names of the root and of the result have no slash.
join_root-IsName :
    (root es : List Bytes)
    → All HasNoSlash root
    → All HasNoSlash es
    → All IsName (join_root root es)
unfolding join_root
join_root-IsName root es hr he = All-reverse IsName _ (
    both _
      (enter_all-All HasNoSlash true (root ++ es) [] (refl, (refl, tt))
        (All-append HasNoSlash root es hr he) tt)
      (enter_all-IsProper (root ++ es) [] tt))
  where
    both : (ns : List Bytes) → All HasNoSlash ns → All IsProper ns → All IsName ns
    both [] a b = tt
    both (n ∷ ns) a b = ((a.0, b.0), both ns a.1 b.1)

All-after : (P : Bytes → Type 0) (xs ys : List Bytes) → All P (xs ++ ys) → All P ys
All-after P [] ys h = h
All-after P (x ∷ xs) ys h = All-after P xs ys h.1

abbrev pub IsInside : List Bytes → List Bytes → Type 0
IsInside root p = (names : List Bytes) × (p ≡ root ++ names) × All IsName names

joined-IsInside :
    (root es p : List Bytes)
    → All HasNoSlash root
    → All HasNoSlash es
    → (if leaves (rel root (join_root root es)) then none else some (join_root root es)) ≡ some p
    → IsInside root p
joined-IsInside root es p hr he e = elim (Bool-cases (leaves (rel root (join_root root es)))) [
  | inl outside ↦ let no : none ≡ some p = rw outside at e in absurd (cc no)
  | inr inside ↦
      let same : some (join_root root es) ≡ some p = rw inside at e in
      let below = rel-below root (join_root root es) inside in
      (
        rel root (join_root root es),
        sym (cc same) ∙ below,
        All-after IsName root _ (subst (All IsName) below (join_root-IsName root es hr he)),
      )
]

resolve_names-IsInside :
    (root : List Bytes) (rooted : Bool) (es p : List Bytes)
    → All HasNoSlash root
    → All HasNoSlash es
    → resolve_names root rooted es ≡ some p
    → IsInside root p
unfolding resolve_names
resolve_names-IsInside root false [] p hr he e = ([], sym (cc e) ∙ sym (append-nil root), tt)
resolve_names-IsInside root true [] p hr he e = joined-IsInside root [] p hr he e
resolve_names-IsInside root false (x ∷ es) p hr he e = joined-IsInside root (x ∷ es) p hr he e
resolve_names-IsInside root true (x ∷ es) p hr he e = joined-IsInside root (x ∷ es) p hr he e

-- A name that `safe` does not refuse is resolved to the root followed by names of files, so no `..`
-- and no absolute name leads out of the root.
pub safe-IsInside :
    (root : List Bytes) (name : Bytes) (p : List Bytes)
    → All HasNoSlash root
    → safe root name ≡ some p
    → IsInside root p
unfolding safe
safe-IsInside root name p hr e =
    resolve_names-IsInside root (is_rooted name) (clean name) p hr
      (All-reverse HasNoSlash _ (
        enter_all-All HasNoSlash (is_rooted name) (split_slashes name) [] (refl, (refl, tt))
          (split_slashes-HasNoSlash name) tt))
      e
