-- ===== src/Storage/Gcs/Tests.antt =====
-- The adapter over a service that refuses every request but the exchange of tokens.
use gha_cache_server.Base.{
  ℕ, suc, ◌+◌, ◌≡◌, refl, ap, ◌⊎◌, true, false, Option, none, some, [], Bytes, codes,
}
use gha_cache_server.Base.Int.{pos}
use gha_cache_server.Action.{ok, err, storage_failed, ◌>>=◌}
use gha_cache_server.Storage.Adapter.{Stream}
use gha_cache_server.Storage.Net.{HttpAnswer, check_status, check_found}
use gha_cache_server.Storage.Gcs.{
  Page, TokenAnswer, list_page, GcsAdapter, Gcs, gcs_folder, seconds, add_time, is_valid,
  auth_token, call, create_download_stream, delete_folder, count_files_in_folder,
}
use gha_cache_server.Storage.Gcs.Tokens.{IsExchanged, auth_token-IsExchanged}
use gha_cache_server.Storage.Gcs.Listings.{delete_folder-unlisted}

abbrev no_content : Stream
no_content = record { content = []; broken = none }

abbrev no_items : Page
no_items = record { items = []; next_page_token = [] }

abbrev forbidden : HttpAnswer Page
forbidden = record { status = 403; content = no_content; listing = some no_items }

abbrev hour : TokenAnswer
hour = record { access_token = codes "t"; expires_in = pos 3600 }

abbrev assertion : ℕ → Option Bytes
assertion now = some (codes "jwt")

-- The store counts the requests, and is its own clock.
abbrev refusing : Gcs ℕ
refusing = record {
  send = λ token request n. (ok forbidden, n + 1);
  exchange =
      λ jwt n. (ok (record { status = 200; content = no_content; listing = some hour }), n + 1);
  credentials = some assertion;
  clock = λ n. n;
}

abbrev no_token : GcsAdapter ℕ
no_token = record { token = []; tok_exp = pos 0; store = 0 }

abbrev with_token : GcsAdapter ℕ
with_token = record { token = codes "t"; tok_exp = pos 3600000000000; store = 1 }

exchanged : auth_token refusing no_token ≡ (ok (codes "t"), with_token)
unfolding auth_token ◌>>=◌ check_status seconds add_time
exchanged = refl

cached : auth_token refusing with_token ≡ (ok (codes "t"), with_token)
unfolding auth_token ◌>>=◌
cached = refl

refused :
    create_download_stream refusing (codes "f/0") with_token
    ≡ (err storage_failed, record with_token { store = 2 })
unfolding create_download_stream auth_token ◌>>=◌ check_found
refused = refl

auth_token-IsExchanged_example :
    ((is_valid refusing no_token ≡ true)
      × ((auth_token refusing no_token).1 ≡ no_token)
      × (codes "t" ≡ no_token.token))
    ⊎ ((is_valid refusing no_token ≡ false)
        × IsExchanged refusing assertion no_token (codes "t") (auth_token refusing no_token).1)
auth_token-IsExchanged_example =
    auth_token-IsExchanged refusing assertion no_token (codes "t") refl (ap (λ r. r.0) exchanged)

unlisted :
    call refusing (list_page (gcs_folder (codes "f")) []) with_token
    ≡ (ok forbidden, record with_token { store = 2 })
unfolding call auth_token ◌>>=◌
unlisted = refl

delete_folder-unlisted_example :
    (delete_folder refusing (suc 0) (codes "f") with_token
      ≡ (ok (some tt), record with_token { store = 2 }))
    × (count_files_in_folder refusing (suc 0) (codes "f") with_token
        ≡ (ok (some 0), record with_token { store = 2 }))
delete_folder-unlisted_example =
    delete_folder-unlisted refusing 0 (codes "f") forbidden no_items with_token
      (record with_token { store = 2 }) unlisted refl refl refl
