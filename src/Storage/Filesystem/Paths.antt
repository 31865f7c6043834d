-- ===== src/Storage/Filesystem/Paths.antt =====
-- internal/storage/filesystem.go: `safe`, with `filepath.Clean`, `filepath.Join` and `filepath.Rel` on
-- a Unix system. A clean absolute path is the list of its names.
pub mod Inside
pub mod Named
use mathlib.Core.List.{reverse}
use gha_cache_server.Base.{
  Bool, true, false, ◌||◌, Option, none, some, List, [], ◌∷◌, ◌++◌, map, ◌==◌, if◌then◌else◌, Bytes,
  codes, bytes_eq,
}

-- The text between the slashes.
abbrev pub onto_first : Bytes → List Bytes → List Bytes
onto_first c [] = c ∷ []
onto_first c (p ∷ ps) = (c ++ p) ∷ ps

unfoldable pub split_slashes : Bytes → List Bytes
split_slashes [] = [] ∷ []
split_slashes (c ∷ s) =
    if c == b'/' then [] ∷ split_slashes s else onto_first (c ∷ []) (split_slashes s)

abbrev pub dots : Bytes
dots = codes ".."

-- The last name taken off, where there is one that is not `..`; the names are given from the last on.
unfoldable pub up : Bool → List Bytes → List Bytes
up true [] = []
up false [] = dots ∷ []
up rooted (n ∷ names) = if bytes_eq n dots then dots ∷ n ∷ names else names

-- One element of the path, behind the names before it.
unfoldable pub enter : Bool → Bytes → List Bytes → List Bytes
unfolding up
enter rooted element names =
    if bytes_eq element [] || bytes_eq element (codes ".")
    then names
    else if bytes_eq element dots
    then up rooted names
    else element ∷ names

unfoldable pub enter_all : Bool → List Bytes → List Bytes → List Bytes
unfolding enter
enter_all rooted [] names = names
enter_all rooted (e ∷ es) names = enter_all rooted es (enter rooted e names)

abbrev pub is_rooted : Bytes → Bool
is_rooted [] = false
is_rooted (c ∷ s) = c == b'/'

-- The names of `filepath.Clean(name)`. The result is "." where there are none and no slash in front.
unfoldable pub clean : Bytes → List Bytes
unfolding split_slashes enter_all
clean name = reverse (enter_all (is_rooted name) (split_slashes name) [])

-- `filepath.Join(root, cleaned)` for an absolute root.
unfoldable pub join_root : List Bytes → List Bytes → List Bytes
unfolding enter_all
join_root root cleaned = reverse (enter_all true (root ++ cleaned) [])

-- `filepath.Rel` of two absolute paths; "." where there are no names.
unfoldable pub rel : List Bytes → List Bytes → List Bytes
rel [] target = target
rel (b ∷ base) [] = dots ∷ map (λ n. dots) base
rel (b ∷ base) (t ∷ target) =
    let inside = rel base target in
    if bytes_eq b t then inside else (dots ∷ map (λ n. dots) base) ++ t ∷ target

-- `rel == ".." || strings.HasPrefix(rel, "../")`
abbrev pub leaves : List Bytes → Bool
leaves [] = false
leaves (n ∷ names) = bytes_eq n dots

-- `none` is the error "invalid object name".
unfoldable pub resolve_names : List Bytes → Bool → List Bytes → Option (List Bytes)
unfolding join_root rel
resolve_names root false [] = some root
resolve_names root rooted cleaned =
    let resolved = join_root root cleaned in
    if leaves (rel root resolved) then none else some resolved

unfoldable pub safe : List Bytes → Bytes → Option (List Bytes)
unfolding clean resolve_names
safe root name = resolve_names root (is_rooted name) (clean name)
