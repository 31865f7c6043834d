-- ===== src/Storage/SigV4.antt =====
-- internal/storage/sigv4.go: the signature of a request to S3. The hash and the keyed hash of Go's
-- standard library are parameters, and so are the two texts of the time. A map of Go is the list of
-- its pairs in the order in which a loop meets them.
pub mod Canonical
pub mod Sign
pub mod Reordered
pub mod Signed
mod Tests
use gha_cache_server.Base.{
  ℕ, zero, suc, ◌+◌, ◌/◌, ◌%◌, Bool, true, false, ◌||◌, ◌&&◌, Option, none, some, List, [], ◌∷◌,
  ◌++◌, map, ltb, leb, ◌==◌, if◌then◌else◌, Bytes, codes, bytes_eq, is_empty,
}
use gha_cache_server.Base.Order.{sort_strings}
use gha_cache_server.Base.Spaces.{trim_space}
use gha_cache_server.Db.Sql.{delete}

-- `crypto/sha256` and `crypto/hmac`; the key comes first.
pub record Crypto : Type 0 where
  pub sha256 : Bytes → Bytes
  pub hmac : Bytes → Bytes → Bytes

-- The names of a header are in their canonical form, so two that differ in case are one.
pub record Request : Type 0 where
  pub method : Bytes
  -- `Path`, `RawQuery` and `Host` of the URL
  pub path : Bytes
  pub raw_query : Bytes
  pub url_host : Bytes
  pub host : Bytes
  pub header : List (Bytes × List Bytes)

-- `time.Time` in the formats "20060102T150405Z" and "20060102".
pub record Stamp : Type 0 where
  pub amz_date : Bytes
  pub date_stamp : Bytes

-- `now.UTC()`, with the arguments of the two functions that stay the same for an adapter.
pub record Signer : Type 0 where
  pub region : Bytes
  pub service : Bytes
  pub access_key : Bytes
  pub secret_key : Bytes

-- `strings.ToLower` on the name of a header
abbrev pub lower : ℕ → ℕ
lower c = if leb b'A' c && leb c b'Z' then c + 32 else c

abbrev pub to_lower : Bytes → Bytes
to_lower s = map lower s

unfoldable pub hex_digit : ℕ → ℕ → ℕ
hex_digit above n = if ltb n 10 then n + b'0' else n + above

-- `hex.EncodeToString`
unfoldable pub hex_encode : Bytes → Bytes
unfolding hex_digit
hex_encode [] = []
hex_encode (b ∷ s) = hex_digit 87 (b / 16) ∷ hex_digit 87 (b % 16) ∷ hex_encode s

-- Letters, digits and the four marks that `net/url` never escapes.
abbrev pub is_unreserved : ℕ → Bool
is_unreserved c =
    (leb b'a' c && leb c b'z')
    || (leb b'A' c && leb c b'Z')
    || (leb b'0' c && leb c b'9')
    || c == b'-'
    || c == b'_'
    || c == b'.'
    || c == b'~'

unfoldable pub escape_byte : ℕ → Bytes
unfolding hex_digit
escape_byte c = b'%' ∷ hex_digit 55 (c / 16) ∷ hex_digit 55 (c % 16) ∷ []

-- `url.QueryEscape`
unfoldable pub query_escape : Bytes → Bytes
unfolding escape_byte
query_escape [] = []
query_escape (c ∷ s) =
    (if is_unreserved c then c ∷ [] else if c == b' ' then b'+' ∷ [] else escape_byte c)
    ++ query_escape s

abbrev pub is_path_mark : ℕ → Bool
is_path_mark c = c == b'$' || c == b'&' || c == b'+' || c == b'=' || c == b':' || c == b'@'

-- `url.PathEscape`
unfoldable pub path_escape : Bytes → Bytes
unfolding escape_byte
path_escape [] = []
path_escape (c ∷ s) =
    (if is_unreserved c || is_path_mark c then c ∷ [] else escape_byte c) ++ path_escape s

-- `strings.Join`
unfoldable pub join_with : Bytes → List Bytes → Bytes
join_with sep [] = []
join_with sep (s ∷ []) = s
join_with sep (s ∷ t ∷ parts) = s ++ (sep ++ join_with sep (t ∷ parts))
