-- ===== src/Db/Models.antt =====
-- internal/db/models.go: the rows of the three tables. Times are milliseconds since 1970.
use gha_cache_server.Base.{ℕ, Option, Bytes}
use gha_cache_server.Base.Int.{ℤ}

pub record CacheEntry : Type 0 where
  pub id : Bytes
  pub key : Bytes
  pub version : Bytes
  pub scope : Bytes
  pub repo_id : Bytes
  pub updated_at : ℕ
  pub location_id : Bytes

pub record StorageLocation : Type 0 where
  pub id : Bytes
  pub folder_name : Bytes
  pub part_count : ℕ
  pub merge_started_at : Option ℕ
  pub merged_at : Option ℕ
  pub parts_deleted_at : Option ℕ
  pub last_downloaded_at : Option ℕ

pub record Upload : Type 0 where
  pub id : ℤ
  pub key : Bytes
  pub version : Bytes
  pub scope : Bytes
  pub repo_id : Bytes
  pub created_at : ℕ
  pub last_part_uploaded_at : Option ℕ
  pub started_part_upload_count : ℕ
  pub finished_part_upload_count : ℕ
  pub folder_name : Bytes
