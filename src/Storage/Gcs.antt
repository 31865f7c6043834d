-- ===== src/Storage/Gcs.antt =====
-- internal/storage/gcs.go: the adapter for Google Cloud Storage over a service that is a parameter. A
-- request stands for its URL and body, and comes with the token of its `Authorization` header.
pub mod Tokens
pub mod Listings
mod Tests
use gha_cache_server.Base.{
  ℕ, zero, suc, ◌+◌, ◌-◌, ◌*◌, ◌%◌, ◌^◌, Bool, true, false, not, ◌&&◌, Option, none, some, List, [],
  ◌∷◌, ◌++◌, length, leb, ◌==◌, if◌then◌else◌, Bytes, codes, is_empty,
}
use gha_cache_server.Base.Int.{ℤ, pos, negsuc, ltb_ℤ, wrap_int64}
use gha_cache_server.Action.{
  storage_failed, Action, pure, fail, gets, modify, if_nil, zoom, ◌>>=◌, ◌>>◌,
}
use gha_cache_server.Storage.Adapter.{Stream}
use gha_cache_server.Storage.Net.{HttpAnswer, Net, read_all, check_status, check_found, required}

pub data GcsRequest : Type 0 where
  get_bucket : GcsRequest
  get_media : Bytes → GcsRequest
  upload_media : Bytes → Bytes → GcsRequest
  list_page : Bytes → Bytes → GcsRequest
  delete_object : Bytes → GcsRequest

-- A page of a listing: the names of its items and the token of the next.
pub record Page : Type 0 where
  pub items : List Bytes
  pub next_page_token : Bytes

-- The answer of the token exchange.
pub record TokenAnswer : Type 0 where
  pub access_token : Bytes
  pub expires_in : ℤ

-- The cached token, with the store behind the network. Times are nanoseconds.
pub record GcsAdapter (S : Type 0) : Type 0 where
  pub token : Bytes
  pub tok_exp : ℤ
  pub store : S

abbrev pub minute : ℕ
minute = 60000000000

abbrev pub second : ℕ
second = 1000000000

-- `time.Duration(n) * time.Second`
unfoldable pub seconds : ℤ → ℤ
seconds (pos n) = wrap_int64 (n * second)
seconds (negsuc n) = wrap_int64 (2 ^ 64 - (n + 1) * second % 2 ^ 64)

-- `now.Add(d)`
unfoldable pub add_time : ℕ → ℤ → ℤ
add_time now (pos d) = pos (now + d)
add_time now (negsuc d) = if leb (d + 1) now then pos (now - (d + 1)) else negsuc (d - now)

abbrev pub gcs_prefix : Bytes
gcs_prefix = codes "gh-actions-cache"

abbrev pub gcs_object : Bytes → Bytes
gcs_object name = gcs_prefix ++ codes "/" ++ name

abbrev pub gcs_folder : Bytes → Bytes
gcs_folder name = gcs_prefix ++ codes "/" ++ name ++ codes "/"

abbrev pub if_deletable : {A : Type 0} → ℕ → A → A → A
if_deletable status refused done = if leb 400 status && not (status == 404) then refused else done

-- What the adapter calls: the service with a token, the exchange of a signed assertion for a token, the
-- signing of the assertion at a time, `none` where the private key is not one, and the clock. Without
-- a service account there are no credentials.
pub record Gcs (S : Type 0) : Type 0 where
  pub send : Bytes → Net GcsRequest Page S
  pub exchange : Net Bytes TokenAnswer S
  pub credentials : Option (ℕ → Option Bytes)
  pub clock : S → ℕ

module _ {S : Type 0} (gcs : Gcs S) where
  unfoldable pub storing : {A : Type 0} → Action S A → Action (GcsAdapter S) A
  unfolding zoom
  storing m = zoom (λ a. a.store) (λ s a. record a { store = s }) m

  -- `time.Now().Before(a.tokExp.Add(-time.Minute))`, with a token.
  abbrev pub is_valid : GcsAdapter S → Bool
  is_valid a = not (is_empty a.token) && ltb_ℤ (pos (gcs.clock a.store + minute)) a.tok_exp

  unfoldable pub exchange_token : (ℕ → Option Bytes) → ℕ → Action (GcsAdapter S) Bytes
  unfolding storing if_nil
  exchange_token sign now = if_nil (sign now) (fail storage_failed) λ jwt. do
    answer ← storing (gcs.exchange jwt)
    checked ← check_status answer
    t ← required storage_failed checked.listing
    modify λ a. record a { token = t.access_token; tok_exp = add_time now (seconds t.expires_in) }
    pure t.access_token

  unfoldable pub renew_token : (ℕ → Option Bytes) → GcsAdapter S → Action (GcsAdapter S) Bytes
  unfolding exchange_token
  renew_token sign a = if is_valid a then pure a.token else exchange_token sign (gcs.clock a.store)

  unfoldable pub auth_token : Action (GcsAdapter S) Bytes
  unfolding renew_token if_nil
  auth_token = if_nil gcs.credentials (pure []) λ sign. do a ← gets λ a. a; renew_token sign a

  -- `authReq` and `client.Do`
  unfoldable pub call : GcsRequest → Action (GcsAdapter S) (HttpAnswer Page)
  unfolding auth_token storing
  call request = do token ← auth_token; storing (gcs.send token request)

  unfoldable pub head_bucket : Action (GcsAdapter S) (Unit {0})
  unfolding call
  head_bucket = do answer ← call get_bucket; check_status answer; pure tt

  unfoldable pub create_download_stream : Bytes → Action (GcsAdapter S) Stream
  unfolding call
  create_download_stream name = do
    answer ← call (get_media (gcs_object name))
    there ← check_found answer
    pure there.content

  unfoldable pub upload_stream : Bytes → Stream → Action (GcsAdapter S) (Unit {0})
  unfolding call
  upload_stream name body = do
    buf ← read_all body
    answer ← call (upload_media (gcs_object name) buf)
    check_status answer
    pure tt

  -- The loop, with the keys so far and a unit of fuel for each page. The status of the answer is not
  -- looked at.
  unfoldable pub list_pages :
      ℕ → Bytes → Bytes → List Bytes → Action (GcsAdapter S) (Option (List Bytes))
  unfolding call
  list_pages zero prefix token keys = pure none
  list_pages (suc f) prefix token keys = do
    answer ← call (list_page prefix token)
    page ← required storage_failed answer.listing
    let keys' = keys ++ page.items
    let rest = list_pages f prefix page.next_page_token keys'
    if is_empty page.next_page_token then pure (some keys') else rest

  unfoldable pub list_prefix : ℕ → Bytes → Action (GcsAdapter S) (Option (List Bytes))
  unfolding list_pages
  list_prefix fuel prefix = list_pages fuel prefix [] []

  -- An object that is not there counts as deleted.
  unfoldable pub delete_one : Bytes → Action (GcsAdapter S) (Unit {0})
  unfolding call
  delete_one key = do
    answer ← call (delete_object key)
    if_deletable answer.status (fail storage_failed) (pure tt)

  unfoldable pub delete_keys : List Bytes → Action (GcsAdapter S) (Unit {0})
  unfolding delete_one
  delete_keys [] = pure tt
  delete_keys (k ∷ keys) = do delete_one k; delete_keys keys

  unfoldable pub delete_listed : Option (List Bytes) → Action (GcsAdapter S) (Option (Unit {0}))
  unfolding delete_keys
  delete_listed none = pure none
  delete_listed (some keys) = do delete_keys keys; pure (some tt)

  unfoldable pub delete_folder : ℕ → Bytes → Action (GcsAdapter S) (Option (Unit {0}))
  unfolding list_prefix delete_listed
  delete_folder fuel name = do listed ← list_prefix fuel (gcs_folder name); delete_listed listed

  unfoldable pub clear : ℕ → Action (GcsAdapter S) (Option (Unit {0}))
  unfolding list_prefix delete_listed
  clear fuel = do listed ← list_prefix fuel (gcs_prefix ++ codes "/"); delete_listed listed

  abbrev pub count_listed : Option (List Bytes) → Option ℕ
  count_listed none = none
  count_listed (some keys) = some (length keys)

  unfoldable pub count_files_in_folder : ℕ → Bytes → Action (GcsAdapter S) (Option ℕ)
  unfolding list_prefix
  count_files_in_folder fuel name = do
    listed ← list_prefix fuel (gcs_folder name)
    pure (count_listed listed)

  unfoldable pub create_download_url : Bytes → Action (GcsAdapter S) (Option Bytes)
  create_download_url name = pure none
