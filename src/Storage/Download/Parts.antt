-- ===== src/Storage/Download/Parts.antt =====
-- What `streamPartsTo` of internal/storage/service.go streams.
use mathlib.Core.Path.{subst}
use gha_cache_server.Base.{
  ℕ, zero, suc, ◌≡◌, refl, sym, ap, ◌∙◌, Option, none, some, List, [], ◌∷◌, ◌++◌, length, Bytes,
}
use gha_cache_server.Base.Int.{pos}
use gha_cache_server.Action.{Error, Result, ok, err, Action, pure, handle, if_nil, ◌>>=◌}
use gha_cache_server.Action.Laws.{handle-ok, handle-err, bind-ok}
use gha_cache_server.Storage.Adapter.{Stream, Adapter}
use gha_cache_server.Storage.World.{part_name}
use gha_cache_server.Storage.Download.{broken_stream, append_stream, stream_parts}

abbrev pub whole_stream : Bytes → Stream
whole_stream content = record { content = content; broken = none }

abbrev pub concat : List Bytes → Bytes
concat [] = []
concat (c ∷ cs) = c ++ concat cs

module _ {S : Type 0} (adapter : Adapter S) (folder : Bytes) where
  -- The parts from an index on, each of which can be read to its end.
  abbrev pub HasParts : S → ℕ → List Bytes → Type 0
  HasParts s i [] = Unit
  HasParts s i (c ∷ cs) =
      (adapter.create_download_stream (part_name folder (pos i)) s ≡ (ok (whole_stream c), s))
      × HasParts s (suc i) cs

  -- If each of the parts can be read, they are streamed in the order of their indices.
  pub stream_parts-HasParts :
      (s : S) (cs : List Bytes) (i : ℕ)
      → HasParts s i cs
      → stream_parts adapter (length cs) i folder s ≡ (ok (whole_stream (concat cs)), s)
  unfolding stream_parts pure handle ◌>>=◌ if_nil
  stream_parts-HasParts s [] i h = refl
  stream_parts-HasParts s (c ∷ cs) i (read, h) =
      let rest = stream_parts-HasParts s cs (suc i) h in
      handle-ok (adapter.create_download_stream (part_name folder (pos i))) _ _ (ap (λ p. p.0) read)
        (ap (λ p. p.1) read)
      ∙ bind-ok (stream_parts adapter (length cs) (suc i) folder) _ (ap (λ p. p.0) rest)
          (ap (λ p. p.1) rest)

  -- The content is what the next parts give, each read to its end.
  abbrev pub IsWhole : ℕ → ℕ → S → Bytes → Type 0
  IsWhole zero i s content = content ≡ []
  IsWhole (suc n) i s content =
      (c rest : Bytes) × (content ≡ c ++ rest)
      × ((adapter.create_download_stream (part_name folder (pos i)) s).0 ≡ ok (whole_stream c))
      × IsWhole n (suc i) (adapter.create_download_stream (part_name folder (pos i)) s).1 rest

  stream_parts_outcome :
      (n i : ℕ) (s : S)
      → (r : Stream) × ((stream_parts adapter n i folder s).0 ≡ ok r)
        × (r.broken ≡ none → IsWhole n i s r.content)
  unfolding stream_parts pure handle ◌>>=◌ if_nil
  stream_parts_outcome zero i s = (whole_stream [], refl, λ e. refl)
  stream_parts_outcome (suc n) i s =
      next (adapter.create_download_stream (part_name folder (pos i)) s).0 refl (
        stream_parts_outcome n (suc i)
          (adapter.create_download_stream (part_name folder (pos i)) s).1)
    where
      read : Result Stream × S
      read = adapter.create_download_stream (part_name folder (pos i)) s

      get : Action S Stream
      get = adapter.create_download_stream (part_name folder (pos i))

      next :
          (x : Result Stream)
          → read.0 ≡ x
          → ((r : Stream) × ((stream_parts adapter n (suc i) folder read.1).0 ≡ ok r)
              × (r.broken ≡ none → IsWhole n (suc i) read.1 r.content))
          → (r : Stream) × ((stream_parts adapter (suc n) i folder s).0 ≡ ok r)
            × (r.broken ≡ none → IsWhole (suc n) i s r.content)
      next (err e) h rest =
          (broken_stream e, ap (λ p. p.0) (handle-err get _ _ h refl), λ x. absurd (cc x))
      next (ok r) h rest = part r.content r.broken h
        where
          part :
              (c : Bytes) (b : Option Error)
              → read.0 ≡ ok (record { content = c; broken = b })
              → (r : Stream) × ((stream_parts adapter (suc n) i folder s).0 ≡ ok r)
                × (r.broken ≡ none → IsWhole (suc n) i s r.content)
          part c (some e) h = (
            record { content = c; broken = some e },
            ap (λ p. p.0) (handle-ok get _ _ h refl),
            λ x. absurd (cc x),
          )
          part c none h = (
            append_stream c rest.0,
            ap (λ p. p.0)
                (handle-ok get _ _ h refl
                  ∙ bind-ok (stream_parts adapter n (suc i) folder) _ rest.1 refl),
            λ x. (c, rest.0.content, refl, h, rest.2 x),
          )

  -- If the stream of the parts ends without an error, it has the bytes of all of the parts in the
  -- order of their indices, each of them read to its end.
  pub stream_parts-IsWhole :
      (n i : ℕ) (s : S) (r : Stream)
      → (stream_parts adapter n i folder s).0 ≡ ok r
      → r.broken ≡ none
      → IsWhole n i s r.content
  stream_parts-IsWhole n i s r e whole =
      let (q, same, all) = stream_parts_outcome n i s in
      let qr : q ≡ r = cc (sym same ∙ e) in
      subst (λ x. x.broken ≡ none → IsWhole n i s x.content) qr all whole
