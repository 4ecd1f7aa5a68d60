-- ===== src/Content/Tests.antt =====
-- The content component on a concrete upload: its theorems applied. The checksum of the tests counts
-- bytes.
use training_ops_scheduling.Base.{
  ℕ, ◌+◌, ◌≡◌, refl, String, false, none, List, [], ◌∷◌, ◌++◌, length, str_eq,
}
use training_ops_scheduling.Base.Int.{ℤ, pos}
use training_ops_scheduling.Base.Text.{decimal}
use training_ops_scheduling.Base.Sort.{sort_slice}
use training_ops_scheduling.Base.Result.{ok}
use training_ops_scheduling.Content.Data.{DocumentVersion, UploadSession, Bytes}
use training_ops_scheduling.Content.Store.{Error?}
use training_ops_scheduling.Content.Memory.{
  ContentRepository, new_content_repository, content_key, versions_at, add_document_version,
  memory_store,
}
use training_ops_scheduling.Content.Memory.Versions.{
  NumberedFrom, nothing, added, add_document_version-numbered,
}
use training_ops_scheduling.Content.Upload.{ordered_of, content_of, checksum_differs}

abbrev keep : String → String
keep text = text

abbrev count_bytes : Bytes → String
count_bytes bytes = decimal (length bytes)

-- A disk that counts its files.
abbrev write_file : UploadSession → List ℤ → ℕ → ℕ × Error?
write_file session order disk = (disk + 1, none)

abbrev upload : UploadSession
upload = record {
  id = "u1";
  tenant_id = "acme";
  document_id = "d1";
  file_name = "plan.pdf";
  expected_chunks = pos 2;
  received_chunks = (pos 1, 3 ∷ []) ∷ (pos 0, 1 ∷ 2 ∷ []) ∷ [];
  expected_checksum = "3";
  created_at = 0;
  expires_at = 100;
  updated_at = 0;
}

abbrev archive : ContentRepository
archive = record {
  items = [];
  tags = [];
  documents = [];
  versions = [];
  uploads = ("acme:u1", upload) ∷ [];
}

-- The chunks are there and their checksum is the one announced.
upload_sound : checksum_differs (memory_store keep) count_bytes write_file str_eq upload ≡ false
unfolding checksum_differs decimal str_eq content_of ordered_of sort_slice
upload_sound = refl

abbrev draft : DocumentVersion
draft = record {
  id = "v1";
  tenant_id = "acme";
  document_id = "d1";
  version = 0;
  file_name = "plan.pdf";
  checksum = "3";
  size_bytes = 3;
  created_at = 5;
}

abbrev filed : ContentRepository
filed = (add_document_version draft new_content_repository).0

add_document_version-numbered_example :
    NumberedFrom 0 (versions_at (content_key "acme" "d1") filed.versions)
    × ((add_document_version draft filed).1
        ≡ ok (record draft {
          version = length (versions_at (content_key "acme" "d1") filed.versions) + 1;
        }))
    × (versions_at (content_key "acme" "d1") (add_document_version draft filed).0.versions
        ≡ versions_at (content_key "acme" "d1") filed.versions
          ++ record draft {
            version = length (versions_at (content_key "acme" "d1") filed.versions) + 1;
          }
            ∷ [])
add_document_version-numbered_example =
    add_document_version-numbered filed draft (added draft nothing)
