-- ===== src/Storage/Memory.antt =====
-- A storage adapter that keeps its objects in an association list, to run the service on in
-- examples. An object that is stored twice keeps its last content.
use gha_cache_server.Base.{
  none, some, List, [], ◌∷◌, ◌++◌, head, length, Bytes, codes, bytes_eq, has_prefix,
}
use gha_cache_server.Action.{object_not_found, Result, ok, err}
use gha_cache_server.Db.Sql.{select, delete}
use gha_cache_server.Storage.Adapter.{Stream, Adapter}

abbrev pub Objects : Type 0
Objects = List (Bytes × Bytes)

abbrev pub whole : Bytes → Stream
whole content = record { content = content; broken = none }

abbrev put : Bytes → Stream → Objects → Result (Unit {0}) × Objects
put name s objects = elim s.broken [
  | none ↦ (ok tt, (name, s.content) ∷ delete (λ o. bytes_eq o.0 name) objects)
  | some e ↦ (err e, objects)
]

abbrev find : Bytes → Objects → Result Stream
find name objects = elim (head (select (λ o. bytes_eq o.0 name) objects)) [
  | none ↦ err object_not_found
  | some o ↦ ok (whole o.1)
]

abbrev pub memory : Adapter Objects
memory = record {
  create_download_stream = λ name objects. (find name objects, objects);
  upload_stream = put;
  delete_folder =
      λ folder objects. (ok tt, delete (λ o. has_prefix (folder ++ codes "/") o.0) objects);
  count_files_in_folder = λ folder objects.
      (ok (length (select (λ o. has_prefix (folder ++ codes "/") o.0) objects)), objects);
  create_download_url = λ name objects. (ok none, objects);
  clear = λ objects. (ok tt, []);
  open_seekable = none;
  usable_free_bytes = none;
}
