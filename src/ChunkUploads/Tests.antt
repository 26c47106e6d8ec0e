-- ===== src/ChunkUploads/Tests.antt =====
-- The last chunk of an upload of five bytes.
use almond.ChunkUploads.Published.{IsAside}
use almond.ChunkUploads.Joined.{IsJoined, patch_upload-IsJoined}
use almond.Retention.{FileMetadata}
use almond.Storage.Roots.{IsCachedInPlace, completed_path-root}
use almond.Auth.{
  check_pubkey_authorization, parse_auth_header, validate_event_kind, validate_upload_auth,
  verify_event_with_policy, validate_chunk_upload_auth,
}
use almond.Authorization.{authorize, read_event, bind}
use almond.Text.{parse_u64, strip_prefix, split_once, trim}
use almond.BlobName.{is_valid_hash, require_hash, object_key}
use almond.Storage.Publish.{drop_temp, publish_blob, publish_metadata}
use almond.BlobIndex.{publish, insert_stamp}
use almond.ChunkHeaders.{check_headers, check_sizes, parse_header, extract_content_type}
use almond.Reconstruction.{
  insert_by_offset, sort_by_offset, coverage, discard_chunk_files, copy_chunk, copy_chunks,
  assemble, after_coverage, reconstruct_blob,
}
use almond.Prelude.{
  ℕ, ◌≡◌, refl, true, false, none, some, [], ◌∷◌, ◌++◌, codes, text_eq, if◌then◌else◌, Bytes, get,
  insert, remove, contains_key, text_eq_instance,
}
use almond.Error.{ok}
use almond.Payments.{HeaderMap, charge, is_paid}
use almond.Retention
use almond.ChunkSessions.{
  SessionState, reserve, commit, consume_reservation, or_insert, overlaps, checked_total,
}
use almond.Storage.{
  StoredBlob, completed_path, ensure_not_quarantined, ensure_storage_capacity, metadata,
}
use almond.Uploads.{
  received, extract_declared_upload_hash, extract_expiration, resolve_expiration,
  ensure_upload_hash_matches, publication, stream_to_temp_file, write_body, get_extension_from_mime,
}
use almond.Uploads.Tests.{hash, app, settings, cdk, storage, sending}
use almond.ChunkUploads.{
  PatchRequest, PatchSettings, PatchNode, reconstructed, patch_upload, completed, reconstruction,
}
use almond.ChunkUploads.Reservations.{Settles, patch_upload-Settles}

abbrev patch_settings : PatchSettings
patch_settings = record {
  uploads = settings;
  max_chunk_size_bytes = 3;
  limits = record { max_sessions = 1; max_sessions_per_pubkey = 1 };
}

abbrev headers : HeaderMap
headers = record {
  header = λ name.
      if text_eq name (codes "authorization")
      then some (some (codes "Nostr x"))
      else if text_eq name (codes "X-SHA-256")
      then some (some hash)
      else if text_eq name (codes "Upload-Type")
      then some (some (codes "text/plain"))
      else if text_eq name (codes "Upload-Length")
      then some (some (codes "5"))
      else if text_eq name (codes "content-length")
      then some (some (codes "2"))
      else if text_eq name (codes "Upload-Offset")
      then some (some (codes "3"))
      else none;
}

-- Another request for the same upload is under way.
abbrev sessions : SessionState
sessions = record {
  uploads =
      (
        record { pubkey = 7; sha256 = hash },
        record {
          sha256 = hash;
          owner = 7;
          upload_type = codes "text/plain";
          upload_length = 5;
          chunks = record { offset = 0; length = 3; chunk_path = codes "/s/temp/a" } ∷ [];
          created_at = 100;
          expiration = none;
        },
      )
      ∷ [];
  pending = (record { pubkey = 7; sha256 = hash }, 1) ∷ [];
}

abbrev node : PatchNode ℕ
node = record {
  app = app;
  sessions = sessions;
  storage = record storage { disk = (codes "/s/temp/a", codes "hel") ∷ [] };
  wallet = none;
}

abbrev request : PatchRequest
request = record {
  request = record (sending []) {
    headers = headers;
    body = received (codes "l") ∷ received (codes "o") ∷ [];
    temp_path = codes "/s/temp/b";
  };
  create_dir_error = false;
  committed_at = 121;
  joined_path = codes "/s/temp/j";
  chunk_faults = record {
    ensure_temp_dir = false;
    create = false;
    open_file = λ p. false;
    read = λ p. false;
    write = λ p. false;
    sync_all = false;
    remove_file = λ p. false;
  };
}

abbrev final_path : Bytes
final_path = codes "/s/uploads/0/1/" ++ (hash ++ codes ".txt")

abbrev blob : StoredBlob
blob = record {
  metadata = record {
    location = Retention.local final_path;
    extension = some (codes "txt");
    mime_type = some (codes "text/plain");
    size = 5;
    created_at = 121;
    pubkey = none;
    expiration = none;
    origin = Retention.upload;
  };
  created = true;
}

abbrev after : PatchNode ℕ
after = record node {
  sessions = record sessions { uploads = [] };
  storage = record storage {
    disk = (final_path, codes "hello") ∷ [];
    file_index = record {
      map = (hash, blob.metadata) ∷ [];
      total_bytes = 5;
      order = (121, hash) ∷ [];
      generation = 1;
    };
    changes_pending = true;
  };
}

joins : patch_upload cdk patch_settings node request ≡ (after, ok (reconstructed blob))
unfolding after_coverage assemble authorize bind charge check_headers check_pubkey_authorization
    check_sizes checked_total commit completed completed_path consume_reservation contains_key
    copy_chunk copy_chunks coverage discard_chunk_files drop_temp ensure_not_quarantined
    ensure_storage_capacity ensure_upload_hash_matches extract_content_type
    extract_declared_upload_hash extract_expiration get get_extension_from_mime insert
    insert_by_offset insert_stamp is_paid is_valid_hash metadata object_key or_insert overlaps
    parse_auth_header parse_header parse_u64 patch_upload publication publish publish_blob
    publish_metadata read_event reconstruct_blob reconstruction remove require_hash reserve
    resolve_expiration sort_by_offset split_once stream_to_temp_file strip_prefix text_eq trim
    validate_chunk_upload_auth validate_event_kind validate_upload_auth verify_event_with_policy
    write_body
joins = refl

patch_upload-Settles_example :
    Settles cdk patch_settings node (patch_upload cdk patch_settings node request)
patch_upload-Settles_example = patch_upload-Settles cdk patch_settings node request

aside : (sha256 : Bytes) → IsAside cdk patch_settings (codes "/s") sha256 (codes "/s/temp/j")
unfolding text_eq
aside sha256 extension expiration path named =
    let (y, below) =
      completed_path-root (codes "/s") Retention.upload sha256 extension expiration path named in
    rw (← below) refl

nothing_cached : (sha256 : Bytes) → IsCachedInPlace node.storage sha256
unfolding get
nothing_cached sha256 old found cached = absurd (cc found)

patch_upload-IsJoined_example : IsJoined cdk patch_settings node after request blob
patch_upload-IsJoined_example =
    patch_upload-IsJoined cdk patch_settings node after request blob aside nothing_cached joins
