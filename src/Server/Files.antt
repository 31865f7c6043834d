-- ===== src/Server/Files.antt =====
-- internal/server/upload.go and download.go: the parts of an upload and the file of an entry.
use gha_cache_server.Base.{Option, some, if◌then◌else◌, Bytes, codes, bytes_eq, is_empty}
use gha_cache_server.Base.Int.{ℤ, pos}
use gha_cache_server.Base.Decimal.{parse_int}
use gha_cache_server.Action.{Action, pure, handle, if_nil}
use gha_cache_server.Storage.Adapter.{Stream, Adapter}
use gha_cache_server.Storage.World.{World}
use gha_cache_server.Storage.Upload.{upload_part}
use gha_cache_server.Storage.Download.{download, open_merged_seekable}
use gha_cache_server.Server.Http.{literal, no_body, plain, file, content, Response, respond}
use gha_cache_server.Server.BlockId.{parsed_index, chunk_index}

-- The request of `uploadHandler`: the path value, the two query values and the body. The block id is
-- there with the bytes that it decodes to.
pub record UploadRequest : Type 0 where
  pub upload_id : Bytes
  pub comp : Bytes
  pub block_id : Bytes
  pub decoded_block_id : Option Bytes
  pub body : Stream

-- The index of the part: 0 if the request has no block id.
abbrev pub part_index : UploadRequest → Option ℤ
part_index r = if is_empty r.block_id then some (pos 0) else chunk_index r.decoded_block_id

module _ {S : Type 0} (adapter : Adapter S) where
  -- `uploadHandler`
  unfoldable pub upload_handler : UploadRequest → Action (World S) Response
  upload_handler r =
      if_nil (parsed_index (parse_int r.upload_id))
        (pure (respond 400 (plain (literal (codes "invalid upload id")))))
        λ upload_id.
          if bytes_eq r.comp (codes "blocklist")
          then pure (respond 201 no_body)
          else if_nil (part_index r)
              (pure (respond 400 (plain (literal (codes "invalid block id")))))
              λ index.
                handle (upload_part adapter upload_id index r.body)
                  (λ _. pure (respond 201 no_body))
                  (λ e. pure (respond 500 (plain (literal (codes "upload failed")))))

  -- The handler of `GET /download/{cacheEntryId}` in `registerDownload`
  unfoldable pub download_handler : Bytes → Action (World S) Response
  download_handler id =
      handle (open_merged_seekable adapter id)
        (λ seeker.
          if_nil seeker
            (handle (download adapter id)
              (λ stream.
                if_nil stream (pure (respond 404 (plain (literal (codes "cache file not found")))))
                  λ s. pure (respond 200 (file s)))
              (λ e. pure (respond 500 (plain (literal (codes "download failed"))))))
            λ s. pure (respond 200 (content s.0 s.1)))
        (λ e. pure (respond 500 (plain (literal (codes "download failed")))))
