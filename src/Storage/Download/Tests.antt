-- ===== src/Storage/Download/Tests.antt =====
-- Two parts are streamed from the storage in memory.
use gha_cache_server.Base.{◌≡◌, refl, ap, List, [], ◌∷◌, Bytes, codes}
use gha_cache_server.Base.Decimal.{format_int, format_nat}
use gha_cache_server.Action.{ok, handle, if_nil, ◌>>=◌}
use gha_cache_server.Storage.Memory.{Objects, memory}
use gha_cache_server.Storage.Download.{stream_parts}
use gha_cache_server.Storage.Download.Parts.{
  whole_stream, IsWhole, stream_parts-HasParts, stream_parts-IsWhole,
}
use gha_cache_server.Base.{bytes_eq}
use gha_cache_server.Db.Sql.{select}

abbrev objects : Objects
objects = (codes "7/parts/1", codes "world") ∷ (codes "7/parts/0", codes "hello ") ∷ []

abbrev contents : List Bytes
contents = codes "hello " ∷ codes "world" ∷ []

stream_parts-run :
    stream_parts memory 2 0 (codes "7") objects ≡ (ok (whole_stream (codes "hello world")), objects)
unfolding select bytes_eq format_int format_nat stream_parts handle if_nil ◌>>=◌
stream_parts-run = refl

stream_parts-HasParts_example :
    stream_parts memory 2 0 (codes "7") objects ≡ (ok (whole_stream (codes "hello world")), objects)
unfolding select bytes_eq format_int format_nat
stream_parts-HasParts_example =
    stream_parts-HasParts memory (codes "7") objects contents 0 (refl, (refl, tt))

stream_parts-IsWhole_example : IsWhole memory (codes "7") 2 0 objects (codes "hello world")
stream_parts-IsWhole_example =
    stream_parts-IsWhole memory (codes "7") 2 0 objects (whole_stream (codes "hello world"))
      (ap (λ p. p.0) stream_parts-run) refl
