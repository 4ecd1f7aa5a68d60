-- ===== src/Content/Memory.antt =====
-- repo/backend/internal/repository/memory/content_store.go: the in-memory content repository. `to_lower`
-- is strings.ToLower.
pub mod Versions
use training_ops_scheduling.Base.{
  ℕ, ◌+◌, String, Option, none, some, List, [], ◌∷◌, ◌++◌, select, length, ltb, str_eq, str_lt,
}
use training_ops_scheduling.Base.Text.{◌+ˢ◌}
use training_ops_scheduling.Base.Sort.{sort_slice}
use training_ops_scheduling.Base.Table.{Table, lookup, insert, delete, values}
use training_ops_scheduling.Base.Result.{Result, ok, err}
use training_ops_scheduling.Content.Data.{
  ContentItem, ContentTag, Document, DocumentVersion, UploadSession, ContentError,
}
use training_ops_scheduling.Content.Store.{Error?, ContentStore}

pub record ContentRepository : Type 0 where
  pub items : Table ContentItem
  pub tags : Table ContentTag
  pub documents : Table Document
  pub versions : Table (List DocumentVersion)
  pub uploads : Table UploadSession

unfoldable pub new_content_repository : ContentRepository
new_content_repository = record {
  items = [];
  tags = [];
  documents = [];
  versions = [];
  uploads = [];
}

unfoldable pub content_key : String → String → String
content_key tenant_id id = tenant_id +ˢ ":" +ˢ id

unfoldable pub upsert_content_item : ContentItem → ContentRepository → ContentRepository × Error?
upsert_content_item item r =
    (record r { items = insert (content_key item.tenant_id item.id) item r.items }, none)

unfoldable pub delete_content_item :
    String → String → ContentRepository → ContentRepository × Error?
delete_content_item tenant_id item_id r =
    (record r { items = delete (content_key tenant_id item_id) r.items }, none)

unfoldable pub list_content_items :
    (String → String) → String → ContentRepository → Result ContentError (List ContentItem)
list_content_items to_lower tenant_id r = ok (
    sort_slice (λ a b. str_lt (to_lower a.title) (to_lower b.title))
      (select (λ item. str_eq item.tenant_id tenant_id) (values r.items)))

unfoldable pub upsert_tag : ContentTag → ContentRepository → ContentRepository × Error?
upsert_tag tag r = (record r { tags = insert (content_key tag.tenant_id tag.id) tag r.tags }, none)

unfoldable pub delete_tag : String → String → ContentRepository → ContentRepository × Error?
delete_tag tenant_id tag_id r =
    (record r { tags = delete (content_key tenant_id tag_id) r.tags }, none)

unfoldable pub list_tags :
    (String → String) → String → ContentRepository → Result ContentError (List ContentTag)
list_tags to_lower tenant_id r = ok (
    sort_slice (λ a b. str_lt (to_lower a.name) (to_lower b.name))
      (select (λ tag. str_eq tag.tenant_id tenant_id) (values r.tags)))

unfoldable pub save_document : Document → ContentRepository → ContentRepository × Error?
save_document document r = (
  record r { documents = insert (content_key document.tenant_id document.id) document r.documents },
  none,
)

unfoldable pub list_documents : String → ContentRepository → Result ContentError (List Document)
list_documents tenant_id r = ok (
    sort_slice (λ a b. str_lt a.title b.title)
      (select (λ document. str_eq document.tenant_id tenant_id) (values r.documents)))

-- `versions[key]`, which is nil on a missing key.
unfoldable pub versions_at : String → Table (List DocumentVersion) → List DocumentVersion
versions_at key versions = elim (lookup key versions) [ none ↦ [] | some found ↦ found ]

unfoldable pub add_document_version :
    DocumentVersion → ContentRepository → ContentRepository × Result ContentError DocumentVersion
unfolding versions_at
add_document_version version r =
    let key = content_key version.tenant_id version.document_id in
    let numbered : DocumentVersion = record version {
      version = length (versions_at key r.versions) + 1;
    } in
    (
      record r { versions = insert key (versions_at key r.versions ++ numbered ∷ []) r.versions },
      ok numbered,
    )

unfoldable pub list_document_versions :
    String → String → ContentRepository → Result ContentError (List DocumentVersion)
unfolding versions_at
list_document_versions tenant_id document_id r = ok (
    sort_slice (λ a b. ltb a.version b.version)
      (versions_at (content_key tenant_id document_id) r.versions))

unfoldable pub save_upload_session : UploadSession → ContentRepository → ContentRepository × Error?
save_upload_session session r = (
  record r { uploads = insert (content_key session.tenant_id session.id) session r.uploads },
  none,
)

unfoldable pub get_upload_session :
    String → String → ContentRepository → Result ContentError UploadSession
get_upload_session tenant_id session_id r =
    elim (lookup (content_key tenant_id session_id) r.uploads) [
      | none ↦ err ContentError.content_not_found
      | some session ↦ ok session
    ]

unfoldable pub delete_upload_session :
    String → String → ContentRepository → ContentRepository × Error?
delete_upload_session tenant_id session_id r =
    (record r { uploads = delete (content_key tenant_id session_id) r.uploads }, none)

abbrev pub memory_store : (String → String) → ContentStore
memory_store to_lower = record {
  State = ContentRepository;
  upsert_content_item = upsert_content_item;
  delete_content_item = delete_content_item;
  list_content_items = list_content_items to_lower;
  upsert_tag = upsert_tag;
  delete_tag = delete_tag;
  list_tags = list_tags to_lower;
  save_document = save_document;
  list_documents = list_documents;
  add_document_version = add_document_version;
  list_document_versions = list_document_versions;
  save_upload_session = save_upload_session;
  get_upload_session = get_upload_session;
  delete_upload_session = delete_upload_session;
}
