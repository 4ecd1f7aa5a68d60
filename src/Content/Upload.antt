-- ===== src/Content/Upload.antt =====
-- repo/backend/internal/service/content.go: metadata rules and uploads in chunks, over any content store.
-- SHA-256, strings.EqualFold, strings.ToLower and the file that an upload is written to are parameters.
pub mod Finalize
use Prim.Native.Char.{code}
use training_ops_scheduling.Base.{
  ℕ, ◌+◌, String, Bool, true, false, not, ◌&&◌, ◌||◌, Option, none, some, List, [], ◌∷◌, ◌++◌, map,
  length, any, str_eq, ◌==◌, if◌then◌else◌,
}
use training_ops_scheduling.Base.Int.{ℤ, pos, negsuc, eqb_ℤ, ltb_ℤ}
use training_ops_scheduling.Base.Text.{◌+ˢ◌, itoa}
use training_ops_scheduling.Base.Sort.{sort_slice}
use training_ops_scheduling.Base.Result.{Result, ok, err}
use training_ops_scheduling.Clock.{Time, unix_nano}
use training_ops_scheduling.Content.Data.{
  ContentItem, DocumentVersion, UploadSession, ContentError, Bytes, Chunks,
}
use training_ops_scheduling.Content.Store.{Error?, ContentStore}

unfoldable pub validate_content_metadata : ℤ → ℤ → Error?
validate_content_metadata difficulty duration_minutes =
    if ltb_ℤ difficulty (pos 1) || ltb_ℤ (pos 5) difficulty
    then some ContentError.invalid_content_metadata
    else if ltb_ℤ duration_minutes (pos 5) || ltb_ℤ (pos 480) duration_minutes
    then some ContentError.invalid_content_metadata
    else none

-- filepath.Ext: the text from the last dot on, of the part behind the last slash.
ext_scan : String → Option String × Bool
ext_scan String.[] = (none, false)
ext_scan (String.◌∷◌ c s) =
    let (found, slash) = ext_scan s in
    elim found [
      | some e ↦ (some e, slash)
      | none ↦
          if slash || code c == b'/'
          then (none, true)
          else if code c == b'.'
          then (some (String.◌∷◌ c s), false)
          else (none, false)
    ]

ext : String → String
unfolding ext_scan
ext name = elim (ext_scan name).0 [ none ↦ "" | some e ↦ e ]

abbrev pub allowed_exts : List String
allowed_exts = ".pdf" ∷ ".jpg" ∷ ".jpeg" ∷ ".png" ∷ ".txt" ∷ []

unfoldable pub allowed_file : (String → String) → String → Bool
unfolding ext any
allowed_file to_lower name = any (str_eq (to_lower (ext name))) allowed_exts

-- `chunks[index] = chunk`
unfoldable pub put_chunk : ℤ → Bytes → Chunks → Chunks
put_chunk index chunk [] = (index, chunk) ∷ []
put_chunk index chunk ((i, c) ∷ chunks) =
    if eqb_ℤ i index then (i, chunk) ∷ chunks else (i, c) ∷ put_chunk index chunk chunks

-- `chunks[index]`, which is nil on a missing index.
unfoldable pub chunk_at : ℤ → Chunks → Bytes
chunk_at index [] = []
chunk_at index ((i, c) ∷ chunks) = if eqb_ℤ i index then c else chunk_at index chunks

unfoldable pub ordered_of : Chunks → List ℤ
ordered_of chunks = sort_slice ltb_ℤ (map (λ c. c.0) chunks)

-- What is written to the hash and to the file: the chunks in the order of their indices.
unfoldable pub content_of : List ℤ → Chunks → Bytes
unfolding chunk_at
content_of [] chunks = []
content_of (i ∷ order) chunks = chunk_at i chunks ++ content_of order chunks

unfoldable pub total_size : Chunks → ℕ
total_size [] = 0
total_size ((i, c) ∷ chunks) = length c + total_size chunks

module _ (store : ContentStore) where
  unfoldable pub save_content_item : ContentItem → store.State → store.State × Error?
  unfolding validate_content_metadata
  save_content_item item s =
      let duration =
        if eqb_ℤ item.duration_minutes (pos 0) then item.duration_m else item.duration_minutes in
      elim (validate_content_metadata item.difficulty duration) [
        | some e ↦ (s, some e)
        | none ↦
            store.upsert_content_item
              (record item {
                duration_minutes = duration;
                version = if eqb_ℤ item.version (pos 0) then pos 1 else item.version;
              })
              s
      ]

  unfoldable pub start_upload :
      (String → String) → UploadSession → Time → store.State → store.State × Error?
  unfolding allowed_file
  start_upload to_lower session now s =
      if not (allowed_file to_lower session.file_name)
      then (s, some ContentError.unsupported_file_type)
      else store.save_upload_session (record session { created_at = now; updated_at = now }) s

  module _ (sha256_hex : Bytes → String) where
    -- AppendChunk after the session was found and the checksum matched.
    save_chunk : UploadSession → Time → store.State → store.State × Result ContentError Bool
    save_chunk session now s =
        let (s', failed) = store.save_upload_session session s in
        elim failed [
          | some e ↦ (s', err e)
          | none ↦
              (s', ok (not (ltb_ℤ (pos (length session.received_chunks)) session.expected_chunks)))
        ]

    unfoldable pub append_chunk :
        String
        → String
        → ℤ
        → Bytes
        → String
        → Time
        → store.State
        → store.State × Result ContentError Bool
    unfolding save_chunk put_chunk
    append_chunk tenant_id session_id index chunk checksum now s =
        elim (store.get_upload_session tenant_id session_id s) [
          | err e ↦ (s, err e)
          | ok session ↦
              if not (str_eq checksum (sha256_hex chunk))
              then (s, err ContentError.upload_chunk_checksum)
              else save_chunk
                  (record session {
                    received_chunks = put_chunk index chunk session.received_chunks;
                    updated_at = now;
                  })
                  now s
        ]

    module _ {Disk : Type 0} (write_upload : UploadSession → List ℤ → Disk → Disk × Error?) where
      -- The version that FinalizeUpload adds.
      unfoldable pub new_version : String → UploadSession → Time → DocumentVersion
      new_version tenant_id session now = record {
        id = "dv_" +ˢ itoa (unix_nano now);
        tenant_id = tenant_id;
        document_id = session.document_id;
        version = 0;
        file_name = session.file_name;
        checksum =
            sha256_hex (content_of (ordered_of session.received_chunks) session.received_chunks);
        size_bytes = total_size session.received_chunks;
        created_at = now;
      }

      -- FinalizeUpload after the version was added.
      drop_session :
          String
          → String
          → store.State × Result ContentError DocumentVersion
          → store.State × Result ContentError DocumentVersion
      drop_session tenant_id session_id (s, err e) = (s, err e)
      drop_session tenant_id session_id (s, ok version) =
          let (s', failed) = store.delete_upload_session tenant_id session_id s in
          elim failed [ some e ↦ (s', err e) | none ↦ (s', ok version) ]

      -- FinalizeUpload after the checks.
      store_upload :
          String
          → String
          → UploadSession
          → Time
          → store.State × Disk
          → (store.State × Disk) × Result ContentError DocumentVersion
      unfolding new_version drop_session ordered_of content_of total_size
      store_upload tenant_id session_id session now (s, disk) =
          let (disk', failed) = write_upload session (ordered_of session.received_chunks) disk in
          elim failed [
            | some e ↦ ((s, disk'), err e)
            | none ↦
                let (s', result) =
                  drop_session tenant_id session_id
                    (store.add_document_version (new_version tenant_id session now) s) in
                ((s', disk'), result)
          ]

      unfoldable pub checksum_differs : (String → String → Bool) → UploadSession → Bool
      checksum_differs equal_fold session =
          not (str_eq session.expected_checksum "")
          && not (
              equal_fold session.expected_checksum (
                sha256_hex
                  (content_of (ordered_of session.received_chunks) session.received_chunks)))

      unfoldable pub finalize_upload :
          (String → String → Bool)
          → String
          → String
          → Time
          → store.State × Disk
          → (store.State × Disk) × Result ContentError DocumentVersion
      unfolding store_upload checksum_differs
      finalize_upload equal_fold tenant_id session_id now (s, disk) =
          elim (store.get_upload_session tenant_id session_id s) [
            | err e ↦ ((s, disk), err e)
            | ok session ↦
                if ltb_ℤ (pos (length session.received_chunks)) session.expected_chunks
                then ((s, disk), err ContentError.upload_incomplete)
                else if checksum_differs equal_fold session
                then ((s, disk), err ContentError.upload_checksum_mismatch)
                else store_upload tenant_id session_id session now (s, disk)
          ]
