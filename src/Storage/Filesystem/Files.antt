-- ===== src/Storage/Filesystem/Files.antt =====
-- The files that internal/storage/filesystem.go works on, with the calls of `os` that it makes. A
-- call may fail at any time: the faults to come are a part of the state, as in the database.
pub mod Laws
pub mod Kept
use gha_cache_server.Base.{
  ℕ, ◌+◌, Bool, true, false, Option, none, some, List, [], ◌∷◌, if◌then◌else◌, Bytes, bytes_eq,
}
use gha_cache_server.Action.{err, ok, storage_failed, Action}

mutual
  pub data Tree : Type 0 where
    file : Bytes → Tree
    directory : Entries → Tree

  pub data Entries : Type 0 where
    nil : Entries
    entry : Bytes → Tree → Entries → Entries

unfoldable pub child : Bytes → Entries → Option Tree
child x nil = none
child x (entry y t es) = if bytes_eq y x then some t else child x es

unfoldable pub set_child : Bytes → Tree → Entries → Entries
set_child x t nil = entry x t nil
set_child x t (entry y u es) =
    let rest = set_child x t es in if bytes_eq y x then entry x t es else entry y u rest

unfoldable pub remove_child : Bytes → Entries → Entries
remove_child x nil = nil
remove_child x (entry y u es) =
    let rest = remove_child x es in if bytes_eq y x then rest else entry y u rest

-- `fs.ErrNotExist`, another error, as where a file stands for a directory, or what is there.
pub data Found : Type 0 where
  not_exist : Found
  not_directory : Found
  found : Tree → Found

unfoldable pub find : List Bytes → Tree → Found
unfolding child
find [] t = found t
find (x ∷ p) (file b) = not_directory
find (x ∷ p) (directory es) = elim (child x es) [ none ↦ not_exist | some t ↦ find p t ]

abbrev pub rename_in : Bytes → Entries → Option Tree → Option Tree
rename_in x es none = none
rename_in x es (some t) = some (directory (set_child x t es))

abbrev pub or_empty : Option Tree → Tree
or_empty none = directory nil
or_empty (some t) = t

-- `os.MkdirAll`; `none` where a file is in the way.
unfoldable pub make_directories : List Bytes → Tree → Option Tree
unfolding child set_child
make_directories [] (file b) = none
make_directories [] (directory es) = some (directory es)
make_directories (x ∷ p) (file b) = none
make_directories (x ∷ p) (directory es) =
    rename_in x es (make_directories p (or_empty (child x es)))

-- A file that is not there is made in its directory, which must be there.
abbrev pub new_file : List Bytes → Bytes → Option Tree
new_file [] b = some (file b)
new_file (x ∷ p) b = none

-- The content of the file of the path is replaced; `none` where it is a directory or lies nowhere.
unfoldable pub put_file : List Bytes → Bytes → Tree → Option Tree
unfolding child set_child
put_file [] b (file old) = some (file b)
put_file [] b (directory es) = none
put_file (x ∷ p) b (file old) = none
put_file (x ∷ p) b (directory es) =
    rename_in x es (elim (child x es) [ none ↦ new_file p b | some t ↦ put_file p b t ])

-- `os.RemoveAll` below a directory.
unfoldable pub remove_tree : List Bytes → Tree → Option Tree
unfolding child set_child remove_child
remove_tree [] t = some (directory nil)
remove_tree (x ∷ p) (file b) = none
remove_tree (x ∷ []) (directory es) = some (directory (remove_child x es))
remove_tree (x ∷ y ∷ p) (directory es) = elim (child x es) [
  | none ↦ some (directory es)
  | some t ↦ rename_in x es (remove_tree (y ∷ p) t)
]

unfoldable pub count_files : Entries → ℕ
count_files nil = 0
count_files (entry x (file b) es) = count_files es + 1
count_files (entry x (directory ds) es) = count_files es

pub record Disk : Type 0 where
  pub tree : Tree
  -- `stat.Bavail` and `stat.Bsize` of `syscall.Statfs`
  pub free_blocks : ℕ
  pub block_size : ℕ
  pub faults : List Bool

module _ {A : Type 0} where
  abbrev pub run_call : List Bool → Action Disk A → Action Disk A
  run_call [] m d = m d
  run_call (true ∷ fs) m d = (err storage_failed, record d { faults = fs })
  run_call (false ∷ fs) m d = m (record d { faults = fs })

  unfoldable pub system_call : Action Disk A → Action Disk A
  system_call m d = run_call d.faults m d

abbrev pub changed : Option Tree → Action Disk (Unit {0})
changed none d = (err storage_failed, d)
changed (some t) d = (ok tt, record d { tree = t })

unfoldable pub mkdir_all : List Bytes → Action Disk (Unit {0})
unfolding system_call make_directories
mkdir_all p = system_call λ d. changed (make_directories p d.tree) d

-- The content of the file, from `os.Create` or `io.Copy`.
unfoldable pub write_file : List Bytes → Bytes → Action Disk (Unit {0})
unfolding system_call put_file
write_file p b = system_call λ d. changed (put_file p b d.tree) d

unfoldable pub remove_all : List Bytes → Action Disk (Unit {0})
unfolding system_call remove_tree
remove_all p = system_call λ d. changed (remove_tree p d.tree) d

-- `os.Open`; the answer is `none` for `fs.ErrNotExist`.
abbrev pub opened : Found → Action Disk (Option Tree)
opened not_exist d = (ok none, d)
opened not_directory d = (err storage_failed, d)
opened (found t) d = (ok (some t), d)

unfoldable pub open_path : List Bytes → Action Disk (Option Tree)
unfolding system_call find
open_path p = system_call λ d. opened (find p d.tree) d

-- `os.ReadDir`
abbrev pub listed : Found → Action Disk (Option Entries)
listed not_exist d = (ok none, d)
listed not_directory d = (err storage_failed, d)
listed (found (file b)) d = (err storage_failed, d)
listed (found (directory es)) d = (ok (some es), d)

unfoldable pub read_directory : List Bytes → Action Disk (Option Entries)
unfolding system_call find
read_directory p = system_call λ d. listed (find p d.tree) d

-- A call that reads or writes no file's content here: `f.Sync`, `f.Stat`, `syscall.Statfs`.
unfoldable pub call : Action Disk (Unit {0})
unfolding system_call
call = system_call λ d. (ok tt, d)
