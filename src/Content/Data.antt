-- ===== src/Content/Data.antt =====
-- repo/backend/internal/model/content.go and models.go: the records of the content component.
use training_ops_scheduling.Base.{ℕ, String, List}
use training_ops_scheduling.Base.Int.{ℤ}
use training_ops_scheduling.Clock.{Time}

pub record ContentItem : Type 0 where
  pub id : String
  pub tenant_id : String
  pub created_by_user_id : String
  pub title : String
  pub category_id : String
  pub difficulty : ℤ
  pub duration_m : ℤ
  pub duration_minutes : ℤ
  pub version : ℤ
  pub checksum : String
  pub created_at : Time
  pub updated_at : Time

pub record ContentTag : Type 0 where
  pub id : String
  pub tenant_id : String
  pub name : String
  pub created_at : Time
  pub updated_at : Time

pub record Document : Type 0 where
  pub id : String
  pub tenant_id : String
  pub title : String
  pub description : String
  pub current_version : ℤ
  pub checksum : String
  pub created_at : Time
  pub updated_at : Time

pub record DocumentVersion : Type 0 where
  pub id : String
  pub tenant_id : String
  pub document_id : String
  pub version : ℕ
  pub file_name : String
  pub checksum : String
  pub size_bytes : ℕ
  pub created_at : Time

abbrev pub Bytes : Type 0
Bytes = List ℕ

-- The chunks by their index, as a map with at most one chunk for an index.
abbrev pub Chunks : Type 0
Chunks = List (ℤ × Bytes)

pub record UploadSession : Type 0 where
  pub id : String
  pub tenant_id : String
  pub document_id : String
  pub file_name : String
  pub expected_chunks : ℤ
  pub received_chunks : Chunks
  pub expected_checksum : String
  pub created_at : Time
  pub expires_at : Time
  pub updated_at : Time

-- `other` is an error that a store or the file system makes itself.
pub data ContentError : Type 0 where
  content_not_found invalid_content_metadata unsupported_file_type : ContentError
  upload_chunk_checksum upload_checksum_mismatch upload_incomplete : ContentError
  other : String → ContentError
