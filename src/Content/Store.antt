-- ===== src/Content/Store.antt =====
-- repo/backend/internal/repository/interfaces.go: the ContentStore interface.
use training_ops_scheduling.Base.{String, Option, List}
use training_ops_scheduling.Base.Result.{Result}
use training_ops_scheduling.Content.Data.{
  ContentItem, ContentTag, Document, DocumentVersion, UploadSession, ContentError,
}

-- A method that returns only an error: `nil` is `none`.
abbrev pub Error? : Type 0
Error? = Option ContentError

pub record ContentStore : Type 1 where
  pub State : Type 0
  pub upsert_content_item : ContentItem → State → State × Error?
  pub delete_content_item : String → String → State → State × Error?
  pub list_content_items : String → State → Result ContentError (List ContentItem)
  pub upsert_tag : ContentTag → State → State × Error?
  pub delete_tag : String → String → State → State × Error?
  pub list_tags : String → State → Result ContentError (List ContentTag)
  pub save_document : Document → State → State × Error?
  pub list_documents : String → State → Result ContentError (List Document)
  pub add_document_version : DocumentVersion → State → State × Result ContentError DocumentVersion
  pub list_document_versions : String → String → State → Result ContentError (List DocumentVersion)
  pub save_upload_session : UploadSession → State → State × Error?
  pub get_upload_session : String → String → State → Result ContentError UploadSession
  pub delete_upload_session : String → String → State → State × Error?
