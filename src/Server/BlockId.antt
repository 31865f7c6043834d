-- ===== src/Server/BlockId.antt =====
-- internal/server/blockid.go: the index of a part in the block id of an Azure upload.
use gha_cache_server.Base.{
  ℕ, ◌+◌, ◌*◌, Option, none, some, [], ◌∷◌, length, take, drop, ◌==◌, if◌then◌else◌, Bytes,
}
use gha_cache_server.Base.Int.{ℤ, pos}
use gha_cache_server.Base.Decimal.{Parsed, number, syntax, range, parse_int}

-- `binary.BigEndian`: the value of the bytes behind `acc`.
unfoldable pub big_endian : ℕ → Bytes → ℕ
big_endian acc [] = acc
big_endian acc (b ∷ bs) = big_endian (acc * 256 + b) bs

abbrev pub parsed_index : Parsed → Option ℤ
parsed_index (number n) = some n
parsed_index syntax = none
parsed_index (range n) = none

abbrev pub slice : ℕ → ℕ → Bytes → Bytes
slice from count bs = take count (drop from bs)

-- `chunkIndexFromBlockID` on the bytes that `base64.StdEncoding.DecodeString` gives, if it does.
unfoldable pub chunk_index : Option Bytes → Option ℤ
unfolding big_endian
chunk_index none = none
chunk_index (some dec) =
    if length dec == 64
    then some (pos (big_endian 0 (slice 16 4 dec)))
    else if length dec == 48
    then parsed_index (parse_int (drop 36 dec))
    else none
