-- ===== src/Storage/Filesystem/Paths/Named.antt =====
-- internal/storage/filesystem.go: the names of the service's objects are resolved as they are.
use mathlib.Core.List.{reverse, reverse-reverse, reverse-cons, append-nil, append_assoc}
use gha_cache_server.Base.{
  ◌≡◌, refl, sym, ap, ◌∙◌, Bool, true, false, some, List, [], ◌∷◌, ◌++◌, All, All-append, Bytes,
  bytes_eq_self,
}
use gha_cache_server.Storage.Filesystem.Paths.{
  split_slashes, enter, enter_all, is_rooted, clean, join_root, rel, resolve_names, safe,
}
use gha_cache_server.Storage.Filesystem.Paths.Inside.{HasNoSlash, IsProper, IsName}

-- Names joined by slashes.
abbrev pub join_slashes : Bytes → List Bytes → Bytes
join_slashes n [] = n
join_slashes n (m ∷ names) = n ++ b'/' ∷ join_slashes m names

split_slashes-name : (n : Bytes) → HasNoSlash n → split_slashes n ≡ n ∷ []
unfolding split_slashes
split_slashes-name [] h = refl
split_slashes-name (c ∷ n) h = rw h.0 (rw (split_slashes-name n h.1) refl)

split_slashes-append :
    (n s : Bytes) → HasNoSlash n → split_slashes (n ++ b'/' ∷ s) ≡ n ∷ split_slashes s
unfolding split_slashes
split_slashes-append [] s h = refl
split_slashes-append (c ∷ n) s h = rw h.0 (rw (split_slashes-append n s h.1) refl)

split_slashes-join_slashes :
    (n : Bytes) (names : List Bytes)
    → HasNoSlash n
    → All IsName names
    → split_slashes (join_slashes n names) ≡ n ∷ names
split_slashes-join_slashes n [] h hs = split_slashes-name n h
split_slashes-join_slashes n (m ∷ names) h hs =
    split_slashes-append n (join_slashes m names) h
    ∙ ap (λ l. n ∷ l) (split_slashes-join_slashes m names hs.0.0 hs.1)

enter_all-names :
    (rooted : Bool) (es names : List Bytes)
    → All IsProper es
    → enter_all rooted es names ≡ reverse es ++ names
unfolding enter_all
enter_all-names rooted [] names h = refl
enter_all-names rooted (e ∷ es) names h =
    let entered : enter rooted e names ≡ e ∷ names =
      unfold enter in rw (h.0.0, h.0.1) (rw h.0.2 refl) in
    rw entered (
      enter_all-names rooted es (e ∷ names) h.1
      ∙ sym (append_assoc (reverse es) (e ∷ []) names)
      ∙ ap (λ l. l ++ names) (sym (reverse-cons e es)))

enter_all-reverse :
    (rooted : Bool) (es : List Bytes) → All IsProper es → reverse (enter_all rooted es []) ≡ es
enter_all-reverse rooted es h =
    ap reverse (enter_all-names rooted es [] h ∙ append-nil (reverse es)) ∙ reverse-reverse es

is_rooted-name :
    (n : Bytes) (names : List Bytes) → IsName n → is_rooted (join_slashes n names) ≡ false
is_rooted-name [] names h = absurd (cc (sym (bytes_eq_self []) ∙ h.1.0))
is_rooted-name (c ∷ n) [] h = h.0.0
is_rooted-name (c ∷ n) (m ∷ names) h = h.0.0

rel-append : (root names : List Bytes) → rel root (root ++ names) ≡ names
unfolding rel
rel-append [] names = refl
rel-append (b ∷ root) names = rw (bytes_eq_self b) (rel-append root names)

All-IsProper : (ns : List Bytes) → All IsName ns → All IsProper ns
All-IsProper [] h = tt
All-IsProper (n ∷ ns) h = (h.0.1, All-IsProper ns h.1)

-- Names of files joined by slashes are resolved to the root followed by them.
pub safe-join_slashes :
    (root : List Bytes) (n : Bytes) (names : List Bytes)
    → All IsName root
    → IsName n
    → All IsName names
    → safe root (join_slashes n names) ≡ some (root ++ n ∷ names)
unfolding safe clean
safe-join_slashes root n names hr h hs = rw (is_rooted-name n names h) (
    rw (split_slashes-join_slashes n names h.0 hs)
      (rw (enter_all-reverse false (n ∷ names) (h.1, All-IsProper names hs)) resolved))
  where
    joined : join_root root (n ∷ names) ≡ root ++ n ∷ names
    joined =
        unfold join_root in
        enter_all-reverse true (root ++ n ∷ names)
          (All-append IsProper root (n ∷ names) (All-IsProper root hr) (h.1, All-IsProper names hs))

    resolved : resolve_names root false (n ∷ names) ≡ some (root ++ n ∷ names)
    resolved = unfold resolve_names in rw joined (rw (rel-append root (n ∷ names)) (rw h.1.2 refl))
