-- ===== src/Storage/SigV4/Canonical.antt =====
-- internal/storage/sigv4.go: the canonical form of a request.
use gha_cache_server.Base.{
  ℕ, suc, ◌||◌, Option, none, some, List, [], ◌∷◌, ◌++◌, map, ltb, if◌then◌else◌, Bytes, codes,
  bytes_eq, is_empty,
}
use gha_cache_server.Base.Order.{sort_strings}
use gha_cache_server.Base.Spaces.{trim_space}
use gha_cache_server.Storage.Filesystem.Paths.{split_slashes}
use gha_cache_server.Storage.SigV4.{Request, to_lower, query_escape, path_escape, join_with}

-- The value that was put under the name last.
unfoldable pub value_of : {V : Type 0} → Bytes → List (Bytes × V) → Option V
value_of name [] = none
value_of name ((k, v) ∷ rest) = elim (value_of name rest) [
  | some w ↦ some w
  | none ↦ if bytes_eq k name then some v else none
]

-- `canonicalURI`
unfoldable pub canonical_uri : Bytes → Bytes
unfolding split_slashes path_escape join_with
canonical_uri path =
    if is_empty path
    then codes "/"
    else join_with (codes "/") (map path_escape (split_slashes path))

-- The inner loop, with the two indices.
unfoldable pub write_values : ℕ → ℕ → Bytes → List Bytes → Bytes
unfolding query_escape
write_values i j k [] = []
write_values i j k (v ∷ vals) =
    (if ltb 0 i || ltb 0 j then codes "&" else [])
    ++ (query_escape k ++ (codes "=" ++ (query_escape v ++ write_values i (suc j) k vals)))

abbrev pub or_nil : Option (List Bytes) → List Bytes
or_nil none = []
or_nil (some vals) = vals

-- The outer loop over the sorted keys.
unfoldable pub write_keys : List (Bytes × List Bytes) → ℕ → List Bytes → Bytes
unfolding write_values value_of
write_keys q i [] = []
write_keys q i (k ∷ keys) =
    write_values i 0 k (sort_strings (or_nil (value_of k q))) ++ write_keys q (suc i) keys

-- `canonicalQuery`, with the map of `u.Query()`.
unfoldable pub canonical_query : Bytes → List (Bytes × List Bytes) → Bytes
unfolding write_keys
canonical_query raw_query q =
    if is_empty raw_query then [] else write_keys q 0 (sort_strings (map (λ e. e.0) q))

abbrev pub host_name : Bytes
host_name = codes "host"

-- `hdrs` and `values` after the loop over the header.
unfoldable pub header_names : List (Bytes × List Bytes) → List Bytes
header_names [] = []
header_names ((k, v) ∷ header) =
    let rest = header_names header in
    if bytes_eq (to_lower k) host_name then rest else to_lower k ∷ rest

unfoldable pub header_values : List (Bytes × List Bytes) → List (Bytes × Bytes)
unfolding join_with
header_values [] = []
header_values ((k, v) ∷ header) =
    let rest = header_values header in
    if bytes_eq (to_lower k) host_name then rest else (to_lower k, join_with (codes ",") v) ∷ rest

abbrev pub or_empty : Option Bytes → Bytes
or_empty none = []
or_empty (some s) = s

-- The loop over the sorted names.
unfoldable pub write_headers : List (Bytes × Bytes) → List Bytes → Bytes
unfolding value_of
write_headers values [] = []
write_headers values (h ∷ hdrs) =
    h
    ++ (codes ":"
        ++ (trim_space (or_empty (value_of h values)) ++ (codes "\n" ++ write_headers values hdrs)))

abbrev pub host_of : Request → Bytes
host_of r = if is_empty r.host then r.url_host else r.host

-- `canonicalHeaders`
unfoldable pub canonical_headers : Request → Bytes × Bytes
unfolding header_names header_values write_headers join_with
canonical_headers r =
    let hdrs = sort_strings (header_names r.header ++ host_name ∷ []) in
    (
      write_headers (header_values r.header ++ (host_name, host_of r) ∷ []) hdrs,
      join_with (codes ";") hdrs,
    )
