-- ===== src/Content/Upload/Finalize.antt =====
-- FinalizeUpload against the in-memory content repository.
use training_ops_scheduling.Base.{◌+◌, ◌≡◌, String, Bool, true, List, length, ◌≢◌}
use training_ops_scheduling.Base.Int.{ℤ, pos, ◌≤ℤ◌}
use training_ops_scheduling.Base.Result.{Result, ok}
use training_ops_scheduling.Clock.{Time, unix_nano}
use training_ops_scheduling.Base.Text.{◌+ˢ◌, itoa}
use training_ops_scheduling.Content.Data.{DocumentVersion, UploadSession, ContentError, Bytes}
use training_ops_scheduling.Content.Store.{Error?}
use training_ops_scheduling.Content.Memory.{
  ContentRepository, content_key, versions_at, get_upload_session, memory_store,
}
use training_ops_scheduling.Content.Upload.{ordered_of, content_of, total_size, finalize_upload}

module _ (to_lower : String → String) (equal_fold : String → String → Bool)
    (sha256_hex : Bytes → String) {Disk : Type 0}
    (write_upload : UploadSession → List ℤ → Disk → Disk × Error?) where
  abbrev pub finalize :
      String
      → String
      → Time
      → ContentRepository × Disk
      → (ContentRepository × Disk) × Result ContentError DocumentVersion
  finalize tenant_id session_id now s =
      finalize_upload (memory_store to_lower) sha256_hex write_upload equal_fold tenant_id
        session_id now s

  -- The version that a finished upload is stored as.
  abbrev pub finished : String → UploadSession → Time → ContentRepository → DocumentVersion
  finished tenant_id session now r = record {
    id = "dv_" +ˢ itoa (unix_nano now);
    tenant_id = tenant_id;
    document_id = session.document_id;
    version = length (versions_at (content_key tenant_id session.document_id) r.versions) + 1;
    file_name = session.file_name;
    checksum = sha256_hex (content_of (ordered_of session.received_chunks) session.received_chunks);
    size_bytes = total_size session.received_chunks;
    created_at = now;
  }

  module _ (tenant_id session_id : String) (session : UploadSession) (now : Time)
      (r : ContentRepository) (disk : Disk)
      (found : get_upload_session tenant_id session_id r ≡ ok session) where
    -- The checksum of the chunks in order.
    abbrev pub received_checksum : String
    received_checksum =
        sha256_hex (content_of (ordered_of session.received_chunks) session.received_chunks)

    -- No chunk is missing, and the announced checksum, if any, is the received one.
    pub record IsComplete : Type 0 where
      pub all_there : session.expected_chunks ≤ℤ pos (length session.received_chunks)
      pub same_checksum :
          session.expected_checksum ≢ ""
          → equal_fold session.expected_checksum received_checksum ≡ true
