-- ===== src/Storage/SigV4/Reordered.antt =====
-- internal/storage/sigv4.go: a request whose header and query come in another order, as the maps of
-- Go give them, has the same canonical form.
use mathlib.Core.Path.{subst}
use mathlib.Core.List.Permᴰ
use mathlib.Core.List.{Permᴰ}
use gha_cache_server.Base.{
  ℕ, suc, ◌≡◌, refl, ap, ◌∙◌, inl, inr, Bool, false, none, some, List, [], ◌∷◌, ◌++◌, map,
  if◌then◌else◌, Bool-cases, Bytes, codes, bytes_eq, bytes_eq_iff, bytes_eq_sound, arith,
}
use gha_cache_server.Base.Order.{sort_strings, sort_strings-perm}
use gha_cache_server.Db.Sql.{delete, exists}
use gha_cache_server.Db.Sql.Laws.{IsUnique, eq_comm, delete-IsUnique}
use gha_cache_server.Db.Sql.Reordered.{delete-reordered, map-reordered, reordered-IsUnique}
use gha_cache_server.Storage.SigV4.{Request, to_lower, join_with}
use gha_cache_server.Storage.SigV4.Canonical.{
  value_of, write_keys, canonical_query, host_name, header_names, header_values, write_headers,
  host_of, canonical_headers,
}

-- The keys of a map.
abbrev pub HasKeys : {V : Type 0} → List (Bytes × V) → Type 0
HasKeys {V} = IsUnique {R = Bytes × V} (λ e. e.0) bytes_eq bytes_eq_iff

-- The names of a header, in any case.
abbrev pub HasNames : List (Bytes × List Bytes) → Type 0
HasNames = IsUnique (λ e. to_lower e.0) bytes_eq bytes_eq_iff

bytes_eq_comm : (s t : Bytes) → bytes_eq s t ≡ false → bytes_eq t s ≡ false
bytes_eq_comm = eq_comm {R = Bytes} (λ s. s) bytes_eq bytes_eq_iff

module _ {V : Type 0} where
  HasKeys-reordered : (l r : List (Bytes × V)) → Permᴰ l r → HasKeys l → HasKeys r
  HasKeys-reordered = reordered-IsUnique (λ e. e.0) bytes_eq bytes_eq_iff

  value_of-absent :
      (x : Bytes) (l : List (Bytes × V))
      → exists (λ e. bytes_eq e.0 x) l ≡ false
      → value_of x l ≡ none
  unfolding value_of exists
  value_of-absent x [] h = refl
  value_of-absent x ((k, v) ∷ l) h =
      let other : bytes_eq k x ≡ false = ground arith in
      rw (value_of-absent x l (ground arith), other) refl

  value_of-swap :
      (x j k : Bytes) (v w : V) (l : List (Bytes × V))
      → bytes_eq j k ≡ false
      → value_of x ((j, v) ∷ (k, w) ∷ l) ≡ value_of x ((k, w) ∷ (j, v) ∷ l)
  unfolding value_of
  value_of-swap x j k v w l other = elim (Bool-cases (bytes_eq j x)) [
    | inl hit ↦
        let same : j ≡ x = bytes_eq_sound j x hit in
        let miss : bytes_eq k x ≡ false =
          bytes_eq_comm x k (subst (λ y. bytes_eq y k ≡ false) same other) in
        ground (arith, miss)
    | inr miss ↦ ground arith
  ]

  value_of-tail :
      (x k : Bytes) (v : V) (l r : List (Bytes × V))
      → value_of x l ≡ value_of x r
      → value_of x ((k, v) ∷ l) ≡ value_of x ((k, v) ∷ r)
  unfolding value_of
  value_of-tail x k v l r same = rw same refl

  pub value_of-reordered :
      (x : Bytes) (l r : List (Bytes × V)) → Permᴰ l r → HasKeys l → value_of x l ≡ value_of x r
  unfolding value_of exists
  value_of-reordered x _ _ Permᴰ.nil u = refl
  value_of-reordered x _ _ (Permᴰ.cons {a} {b} {l₁} {l₂} e q) u =
      ap (λ y. value_of x (y ∷ l₁)) e
      ∙ value_of-tail x b.0 b.1 l₁ l₂ (value_of-reordered x l₁ l₂ q u.1)
  value_of-reordered x _ _ (Permᴰ.swap {a} {b} {a'} {b'} {l} e f) u =
      let apart : bytes_eq b.0 a.0 ≡ false = ground (arith, u.0) in
      ap (λ y. value_of x (y ∷ b ∷ l)) e
      ∙ ap (λ y. value_of x (b' ∷ y ∷ l)) f
      ∙ value_of-swap x b'.0 a'.0 b'.1 a'.1 l (
          subst (λ y. bytes_eq y.0 a'.0 ≡ false) e
            (subst (λ y. bytes_eq a.0 y.0 ≡ false) f (bytes_eq_comm b.0 a.0 apart)))
  value_of-reordered x _ _ (Permᴰ.trans {l₁} {l₂} {l₃} q s) u =
      value_of-reordered x l₁ l₂ q u ∙ value_of-reordered x l₂ l₃ s (HasKeys-reordered l₁ l₂ q u)

  value_of-last :
      (x k : Bytes) (v : V) (l : List (Bytes × V))
      → value_of x (l ++ (k, v) ∷ []) ≡ (if bytes_eq k x then some v else value_of x l)
  unfolding value_of
  value_of-last x k v [] = refl
  value_of-last x k v ((j, w) ∷ l) = ground (arith, value_of-last x k v l)

-- The loops over the sorted names read the map alone.
write_keys-same :
    (q q' : List (Bytes × List Bytes)) (i : ℕ) (keys : List Bytes)
    → ((k : Bytes) → value_of k q ≡ value_of k q')
    → write_keys q i keys ≡ write_keys q' i keys
unfolding write_keys
write_keys-same q q' i [] same = refl
write_keys-same q q' i (k ∷ keys) same = rw (same k, write_keys-same q q' (suc i) keys same) refl

write_headers-same :
    (l r : List (Bytes × Bytes)) (hdrs : List Bytes)
    → ((h : Bytes) → value_of h l ≡ value_of h r)
    → write_headers l hdrs ≡ write_headers r hdrs
unfolding write_headers
write_headers-same l r [] same = refl
write_headers-same l r (h ∷ hdrs) same = rw (same h, write_headers-same l r hdrs same) refl

pub canonical_query-reordered :
    (raw : Bytes) (q q' : List (Bytes × List Bytes))
    → Permᴰ q q'
    → HasKeys q
    → canonical_query raw q ≡ canonical_query raw q'
unfolding canonical_query
canonical_query-reordered raw q q' p u =
    let sorted = sort_strings-perm _ _ (map-reordered (λ e. e.0) q q' p) in
    rw
      (
        sorted,
        write_keys-same q q' 0 (sort_strings (map (λ e. e.0) q'))
            (λ k. value_of-reordered k q q' p u),
      )
      refl

abbrev is_host : Bytes × List Bytes → Bool
is_host e = bytes_eq (to_lower e.0) host_name

abbrev entry_of : Bytes × List Bytes → Bytes × Bytes
entry_of e = (to_lower e.0, join_with (codes ",") e.1)

header_names-map :
    (l : List (Bytes × List Bytes)) → header_names l ≡ map (λ e. to_lower e.0) (delete is_host l)
unfolding header_names delete
header_names-map [] = refl
header_names-map ((k, v) ∷ l) = elim (Bool-cases (bytes_eq (to_lower k) host_name)) [
  | inl host ↦ rw host (header_names-map l)
  | inr other ↦ rw other (ap (λ r. to_lower k ∷ r) (header_names-map l))
]

header_values-map :
    (l : List (Bytes × List Bytes)) → header_values l ≡ map entry_of (delete is_host l)
unfolding header_values delete
header_values-map [] = refl
header_values-map ((k, v) ∷ l) = elim (Bool-cases (bytes_eq (to_lower k) host_name)) [
  | inl host ↦ rw host (header_values-map l)
  | inr other ↦ rw other (ap (λ r. entry_of (k, v) ∷ r) (header_values-map l))
]

entry_of-HasKeys : (l : List (Bytes × List Bytes)) → HasNames l → HasKeys (map entry_of l)
unfolding exists
entry_of-HasKeys [] u = tt
entry_of-HasKeys (e ∷ l) u = (absent l u.0, entry_of-HasKeys l u.1)
  where
    absent :
        (l : List (Bytes × List Bytes))
        → exists (λ x. bytes_eq (to_lower x.0) (to_lower e.0)) l ≡ false
        → exists (λ x. bytes_eq x.0 (to_lower e.0)) (map entry_of l) ≡ false
    absent [] h = refl
    absent (x ∷ l) h = ground (arith, absent l)

-- A header in another order gives the same two texts.
pub canonical_headers-reordered :
    (r : Request) (header : List (Bytes × List Bytes))
    → Permᴰ r.header header
    → HasNames r.header
    → canonical_headers r ≡ canonical_headers (record r { header = header })
unfolding canonical_headers
canonical_headers-reordered r header p u =
    rw
      (
        sorted,
        write_headers-same (header_values r.header ++ (host_name, host_of r) ∷ [])
            (header_values header ++ (host_name, host_of r) ∷ [])
            (sort_strings (header_names header ++ host_name ∷ [])) same,
      )
      refl
  where
    kept : Permᴰ (delete is_host r.header) (delete is_host header)
    kept = delete-reordered is_host r.header header p

    sorted :
        sort_strings (header_names r.header ++ host_name ∷ [])
        ≡ sort_strings (header_names header ++ host_name ∷ [])
    sorted =
        rw (header_names-map r.header, header_names-map header)
          (sort_strings-perm _ _
            (Permᴰ.append_right (host_name ∷ []) (map-reordered (λ e. to_lower e.0) _ _ kept)))

    same :
        (h : Bytes)
        → value_of h (header_values r.header ++ (host_name, host_of r) ∷ [])
          ≡ value_of h (header_values header ++ (host_name, host_of r) ∷ [])
    same h =
        rw
          (
            value_of-last h host_name (host_of r) (header_values r.header),
            value_of-last h host_name (host_of r) (header_values header),
            header_values-map r.header,
            header_values-map header,
            value_of-reordered h (map entry_of (delete is_host r.header))
                (map entry_of (delete is_host header)) (map-reordered entry_of _ _ kept)
                (entry_of-HasKeys (delete is_host r.header)
                  (delete-IsUnique (λ e. to_lower e.0) bytes_eq bytes_eq_iff is_host r.header u)),
          )
          refl
