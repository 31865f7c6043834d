-- ===== src/Storage/Filesystem/Tests.antt =====
-- Paths and files at concrete values.
use gha_cache_server.Base.{
  ◌≡◌, ◌≢◌, refl, ap, true, false, none, some, List, [], ◌∷◌, ◌++◌, Bytes, codes, bytes_eq,
}
use gha_cache_server.Action.{ok, err, storage_failed, ◌>>=◌}
use gha_cache_server.Storage.Adapter.{Stream}
use gha_cache_server.Storage.Filesystem.{
  create_download_stream, upload_stream, delete_folder, count_files_in_folder,
}
use gha_cache_server.Storage.Filesystem.Paths.{safe}
use gha_cache_server.Storage.Filesystem.Paths.Inside.{IsName, IsInside, safe-IsInside}
use gha_cache_server.Storage.Filesystem.Paths.Named.{join_slashes, safe-join_slashes}
use gha_cache_server.Storage.Filesystem.Files.{
  file, directory, nil, entry, Disk, find, mkdir_all, write_file, remove_all, read_directory, call,
}
use gha_cache_server.Storage.Filesystem.Files.Kept.{below, HasFile}
use gha_cache_server.Storage.Filesystem.Objects.{
  create_download_stream-upload_stream, upload_stream-keeps, delete_folder-keeps,
  delete_folder-removes,
}

abbrev root : List Bytes
root = codes "r" ∷ []

abbrev f_parts_0 : List Bytes
f_parts_0 = codes "r" ∷ codes "f" ∷ codes "0" ∷ []

outside : safe root (codes "../x") ≡ none
unfolding safe bytes_eq
outside = refl

still_inside : safe root (codes "/../f/./../f//0") ≡ some f_parts_0
unfolding safe bytes_eq
still_inside = refl

resolved : safe root (codes "f/0") ≡ some f_parts_0
unfolding safe bytes_eq
resolved = refl

folder_resolved : safe root (codes "f") ≡ some (codes "r" ∷ codes "f" ∷ [])
unfolding safe bytes_eq
folder_resolved = refl

safe-IsInside_example : IsInside root f_parts_0
safe-IsInside_example =
    safe-IsInside root (codes "/../f/./../f//0") f_parts_0 ((refl, tt), tt) still_inside

IsName-r : IsName (codes "r")
unfolding bytes_eq
IsName-r = ((refl, tt), (refl, refl, refl))

IsName-f : IsName (codes "f")
unfolding bytes_eq
IsName-f = ((refl, tt), (refl, refl, refl))

IsName-0 : IsName (codes "0")
unfolding bytes_eq
IsName-0 = ((refl, tt), (refl, refl, refl))

safe-join_slashes_example :
    safe root (join_slashes (codes "f") (codes "0" ∷ []))
    ≡ some (root ++ codes "f" ∷ codes "0" ∷ [])
safe-join_slashes_example =
    safe-join_slashes root (codes "f") (codes "0" ∷ []) (IsName-r, tt) IsName-f (IsName-0, tt)

abbrev body : Stream
body = record { content = 1 ∷ 2 ∷ []; broken = none }

abbrev with_folder : Disk
with_folder = record {
  tree = directory (entry (codes "r") (directory (entry (codes "g") (file (7 ∷ [])) nil)) nil);
  free_blocks = 0;
  block_size = 0;
  faults = [];
}

abbrev with_object : Disk
with_object = record with_folder {
  tree = directory (
      entry (codes "r")
        (directory (
          entry (codes "g") (file (7 ∷ []))
            (entry (codes "f") (directory (entry (codes "0") (file (1 ∷ 2 ∷ [])) nil)) nil)))
        nil);
}

uploaded : upload_stream root (codes "f/0") body with_folder ≡ (ok tt, with_object)
unfolding upload_stream safe mkdir_all write_file call bytes_eq ◌>>=◌
uploaded = refl

deleted : delete_folder root (codes "f") with_object ≡ (ok tt, with_folder)
unfolding delete_folder safe remove_all bytes_eq
deleted = refl

-- A fault leaves what was written before it.
broken_upload :
    (upload_stream root
      (codes "f/0")
      (record { content = 1 ∷ []; broken = some storage_failed })
      with_folder).0
    ≡ err storage_failed
unfolding upload_stream safe mkdir_all write_file call bytes_eq ◌>>=◌
broken_upload = refl

no_folder : count_files_in_folder root (codes "h") with_object ≡ (ok 0, with_object)
unfolding count_files_in_folder safe read_directory bytes_eq ◌>>=◌
no_folder = refl

upload_done : (upload_stream root (codes "f/0") body with_folder).0 ≡ ok tt
upload_done = ap (λ r. r.0) uploaded

upload_quiet : (upload_stream root (codes "f/0") body with_folder).1.faults ≡ []
upload_quiet = ap (λ r. r.1.faults) uploaded

create_download_stream-upload_stream_example :
    create_download_stream root (codes "f/0") (upload_stream root (codes "f/0") body with_folder).1
    ≡ (ok body, (upload_stream root (codes "f/0") body with_folder).1)
create_download_stream-upload_stream_example =
    create_download_stream-upload_stream root (codes "f/0") f_parts_0 resolved body with_folder
      upload_done upload_quiet

abbrev g_path : List Bytes
g_path = codes "r" ∷ codes "g" ∷ []

apart : f_parts_0 ≢ g_path
apart e = absurd (cc e)

g_there : HasFile g_path (7 ∷ []) with_folder.tree
unfolding find bytes_eq
g_there = refl

g_still_there : HasFile g_path (7 ∷ []) with_object.tree
unfolding find bytes_eq
g_still_there = refl

upload_stream-keeps_example :
    HasFile g_path (7 ∷ []) (upload_stream root (codes "f/0") body with_folder).1.tree
upload_stream-keeps_example =
    upload_stream-keeps root (codes "f/0") f_parts_0 resolved body g_path (7 ∷ []) with_folder apart
      g_there

not_below : below (codes "r" ∷ codes "f" ∷ []) g_path ≡ false
unfolding below bytes_eq
not_below = refl

is_below : below (codes "r" ∷ codes "f" ∷ []) f_parts_0 ≡ true
unfolding below bytes_eq
is_below = refl

delete_folder-keeps_example :
    HasFile g_path (7 ∷ []) (delete_folder root (codes "f") with_object).1.tree
delete_folder-keeps_example =
    delete_folder-keeps root (codes "f") (codes "r" ∷ codes "f" ∷ []) folder_resolved g_path
      (7 ∷ []) with_object not_below g_still_there

delete_folder-removes_example :
    ¬ (HasFile f_parts_0 (1 ∷ 2 ∷ []) (delete_folder root (codes "f") with_object).1.tree)
delete_folder-removes_example =
    delete_folder-removes root (codes "f") (codes "r") (codes "f" ∷ []) f_parts_0 (1 ∷ 2 ∷ [])
      with_object folder_resolved is_below (ap (λ r. r.0) deleted)
