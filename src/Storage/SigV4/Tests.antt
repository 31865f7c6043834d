-- ===== src/Storage/SigV4/Tests.antt =====
-- Canonical forms and signatures at concrete requests.
use mathlib.Core.List.Permᴰ
use gha_cache_server.Base.{◌≡◌, refl, List, [], ◌∷◌, ◌++◌, Bytes, codes, bytes_eq}
use gha_cache_server.Base.Int.{pos}
use gha_cache_server.Base.Order.{sort_strings, bytes_leb}
use gha_cache_server.Base.Spaces.{trim_space}
use gha_cache_server.Db.Sql.{exists}
use gha_cache_server.Storage.SigV4.{Crypto, Request, Stamp, Signer}
use gha_cache_server.Storage.SigV4.Canonical.{canonical_uri, canonical_query, canonical_headers}
use gha_cache_server.Storage.SigV4.Sign.{sign_sigv4, presign_sigv4}
use gha_cache_server.Storage.SigV4.Reordered.{HasKeys, HasNames}
use gha_cache_server.Storage.SigV4.Signed.{AreOrders, sign_sigv4-AreOrders}

abbrev crypto : Crypto
crypto = record { sha256 = λ s. s; hmac = λ k s. k ++ s }

abbrev now : Stamp
now = record { amz_date = codes "20130524T000000Z"; date_stamp = codes "20130524" }

abbrev signer : Signer
signer = record {
  region = codes "us-east-1";
  service = codes "s3";
  access_key = codes "A";
  secret_key = codes "s";
}

abbrev listing : List (Bytes × List Bytes)
listing = (codes "prefix", codes "a/b" ∷ []) ∷ (codes "list-type", codes "2" ∷ []) ∷ []

abbrev swapped_listing : List (Bytes × List Bytes)
swapped_listing = (codes "list-type", codes "2" ∷ []) ∷ (codes "prefix", codes "a/b" ∷ []) ∷ []

abbrev request : Request
request = record {
  method = codes "GET";
  path = codes "/b/x y";
  raw_query = codes "prefix=a/b&list-type=2";
  url_host = codes "h";
  host = [];
  header = (codes "Range", codes " bytes=0-9" ∷ []) ∷ (codes "Content-Type", codes "t" ∷ []) ∷ [];
}

abbrev swapped_header : List (Bytes × List Bytes)
swapped_header =
    (codes "Content-Type", codes "t" ∷ []) ∷ (codes "Range", codes " bytes=0-9" ∷ []) ∷ []

uri : canonical_uri request.path ≡ codes "/b/x%20y"
unfolding canonical_uri
uri = refl

query : canonical_query request.raw_query listing ≡ codes "list-type=2&prefix=a%2Fb"
unfolding canonical_query sort_strings bytes_leb bytes_eq
query = refl

headers :
    canonical_headers request
    ≡ (codes "content-type:t\nhost:h\nrange:bytes=0-9\n", codes "content-type;host;range")
unfolding canonical_headers sort_strings bytes_leb bytes_eq trim_space
headers = refl

listing-AreOrders : AreOrders HasKeys listing swapped_listing
unfolding exists bytes_eq
listing-AreOrders = record { perm = Permᴰ.swap refl refl; distinct = (refl, (refl, tt)) }

header-AreOrders : AreOrders HasNames request.header swapped_header
unfolding exists bytes_eq
header-AreOrders = record { perm = Permᴰ.swap refl refl; distinct = (refl, (refl, tt)) }

sign_sigv4-AreOrders_example :
    let swapped = record request { header = swapped_header } in
    AreOrders HasNames
      (sign_sigv4 crypto now signer [] [] listing request).header
      (sign_sigv4 crypto now signer [] [] swapped_listing swapped).header
    × (presign_sigv4 crypto now signer (pos 600) listing request
        ≡ presign_sigv4 crypto now signer (pos 600) swapped_listing swapped)
sign_sigv4-AreOrders_example =
    sign_sigv4-AreOrders crypto now signer [] [] (pos 600) listing swapped_listing request
      swapped_header listing-AreOrders header-AreOrders
