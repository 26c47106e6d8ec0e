-- ===== src/Uploads/Tests.antt =====
-- An upload of five bytes to an empty server.
use almond.ChunkHeaders.{extract_content_type}
use almond.BlobIndex.{publish, insert_stamp}
use almond.Storage.Publish.{drop_temp, publish_blob, publish_metadata}
use almond.BlobName.{is_valid_hash, require_hash, object_key}
use almond.Text.{parse_u64, strip_prefix, split_once, trim}
use almond.Authorization.{authorize, read_event, bind}
use almond.Prelude.{
  ℕ, ◌≡◌, refl, true, false, none, some, [], ◌∷◌, ◌++◌, codes, text_eq, if◌then◌else◌, Bytes, get,
  insert, text_eq_instance, contains_key, remove,
}
use almond.Error.{ok, err, conflict, payload_too_large}
use almond.Auth.{
  AppState, Event, off, public, check_pubkey_authorization, parse_auth_header, validate_event_kind,
  validate_upload_auth, verify_event_with_policy,
}
use almond.Payments.{HeaderMap, Cdk, charge, is_paid}
use almond.Storage.{
  Storage, StoredBlob, ensure_storage_capacity, completed_path, ensure_not_quarantined, metadata,
}
use almond.Storage.Roots.{IsCachedInPlace, completed_path-root}
use almond.Retention
use almond.Retention.{FileMetadata}
use almond.Uploads.{
  received, Request, Settings, Node, upload_file, admitted, extract_declared_upload_hash,
  extract_expiration, read_request, resolve_expiration, take_body, ensure_upload_hash_matches,
  publication, stream_to_temp_file, write_body, get_extension_from_mime,
}
use almond.Uploads.Accepted.{IsAccepted, IsAside, upload_file-IsAccepted}

abbrev pub hash : Bytes
hash = codes "0123456789abcdef0123456789abcdef0123456789abcdef0123456789abcdef"

abbrev event : Event
event = record {
  id = codes "e";
  pubkey = 7;
  created_at = 100;
  kind = 24242;
  tags =
      record { kind = codes "t"; content = some (codes "upload") }
      ∷ record { kind = codes "x"; content = some hash }
      ∷ record { kind = codes "expiration"; content = some (codes "150") }
      ∷ [];
}

abbrev pub app : AppState
app = record {
  allowed_pubkeys = [];
  trusted_pubkeys = [];
  dvm_pubkeys = [];
  feature_upload_enabled = public;
  feature_mirror_enabled = off;
  auth_max_ttl_secs = 100;
  auth_require_server_tag = false;
  public_url = [];
  destructive_event_replays = [];
}

abbrev pub settings : Settings
settings = record {
  backend = record { decode = λ t. some event; verify = λ e. true; announced = λ p. none };
  pricing = record {
    feature_paid_upload = false;
    feature_paid_mirror = false;
    feature_paid_download = false;
    cashu_price_per_mb = 0;
    cashu_accepted_mints = [];
  };
  quota = record {
    max_blob_size_bytes = 5;
    max_total_size = 0;
    max_total_files = 0;
    min_free_disk_bytes = 0;
  };
  mime_extension = λ t. none;
  sha256_hex = λ t. if text_eq t (codes "hello") then hash else [];
}

abbrev pub cdk : Cdk Bytes ℕ
cdk = record {
  from_str = λ t. some t;
  to_text = λ t. t;
  mint_url = λ t. none;
  value = λ t. none;
  receive = λ w t. (none, w);
}

abbrev pub storage : Storage
storage = record {
  disk = [];
  root = codes "/s";
  quarantine = none;
  has_s3 = false;
  s3_available = false;
  objects = [];
  file_index = record { map = []; total_bytes = 0; order = []; generation = 0 };
  superseded_blob_deletions = [];
  changes_pending = false;
}

abbrev pub node : Node ℕ
node = record { app = app; storage = storage; wallet = none }

abbrev headers : HeaderMap
headers = record {
  header = λ name.
      if text_eq name (codes "authorization")
      then some (some (codes "Nostr x"))
      else if text_eq name (codes "X-SHA-256")
      then some (some hash)
      else if text_eq name (codes "content-type")
      then some (some (codes "text/plain; charset=utf-8"))
      else none;
}

abbrev pub sending : Bytes → Request
sending bytes = record {
  headers = headers;
  body = received (codes "he") ∷ received bytes ∷ [];
  now = 120;
  bound_at = 121;
  temp_path = codes "/s/temp/u";
  available = some 1000;
  temp_dir_error = false;
  create_error = false;
  sync_error = false;
  faults = record {
    read_dir = false;
    mkdir = false;
    exists = false;
    rename = false;
    remove_file = λ path. false;
    s3_put = false;
    s3_list = false;
    s3_delete = λ key. false;
  };
}

abbrev final_path : Bytes
final_path = codes "/s/uploads/0/1/" ++ (hash ++ codes ".txt")

abbrev pub blob : StoredBlob
blob = record {
  metadata = record {
    location = Retention.local final_path;
    extension = some (codes "txt");
    mime_type = some (codes "text/plain; charset=utf-8");
    size = 5;
    created_at = 121;
    pubkey = none;
    expiration = none;
    origin = Retention.upload;
  };
  created = true;
}

abbrev pub after : Node ℕ
after = record node {
  storage = record storage {
    disk = (final_path, codes "hello") ∷ [];
    file_index = record {
      map = (hash, blob.metadata) ∷ [];
      total_bytes = 5;
      order = (121, hash) ∷ [];
      generation = 1;
    };
    changes_pending = true;
  };
}

accepts : upload_file cdk settings node (sending (codes "llo")) ≡ (after, ok (201, blob))
unfolding admitted authorize bind charge check_pubkey_authorization completed_path contains_key
    drop_temp ensure_not_quarantined ensure_storage_capacity ensure_upload_hash_matches
    extract_content_type extract_declared_upload_hash extract_expiration get get_extension_from_mime
    insert insert_stamp is_paid is_valid_hash metadata object_key parse_auth_header parse_u64
    publication publish publish_blob publish_metadata read_event read_request remove require_hash
    resolve_expiration split_once stream_to_temp_file strip_prefix take_body text_eq trim
    upload_file validate_event_kind validate_upload_auth verify_event_with_policy write_body
accepts = refl

other_bytes : upload_file cdk settings node (sending (codes "lp!")) ≡ (node, err conflict)
unfolding admitted authorize bind charge check_pubkey_authorization completed_path contains_key
    drop_temp ensure_not_quarantined ensure_storage_capacity ensure_upload_hash_matches
    extract_content_type extract_declared_upload_hash extract_expiration get get_extension_from_mime
    insert insert_stamp is_paid is_valid_hash metadata object_key parse_auth_header parse_u64
    publication publish publish_blob publish_metadata read_event read_request remove require_hash
    resolve_expiration split_once stream_to_temp_file strip_prefix take_body text_eq trim
    upload_file validate_event_kind validate_upload_auth verify_event_with_policy write_body
other_bytes = refl

too_large : upload_file cdk settings node (sending (codes "llo!")) ≡ (node, err payload_too_large)
unfolding admitted authorize bind charge check_pubkey_authorization completed_path contains_key
    drop_temp ensure_not_quarantined ensure_storage_capacity ensure_upload_hash_matches
    extract_content_type extract_declared_upload_hash extract_expiration get get_extension_from_mime
    insert insert_stamp is_paid is_valid_hash metadata object_key parse_auth_header parse_u64
    publication publish publish_blob publish_metadata read_event read_request remove require_hash
    resolve_expiration split_once stream_to_temp_file strip_prefix take_body text_eq trim
    upload_file validate_event_kind validate_upload_auth verify_event_with_policy write_body
too_large = refl

aside : IsAside cdk settings storage hash (codes "/s/temp/u")
unfolding text_eq
aside extension expiration path named =
    let (y, below) =
      completed_path-root (codes "/s") Retention.upload hash extension expiration path named in
    rw (← below) refl

nothing_cached : IsCachedInPlace storage hash
unfolding get
nothing_cached old found cached = absurd (cc found)

upload_file-IsAccepted_example :
    IsAccepted cdk settings node after (sending (codes "llo")) 201 blob (codes "hello")
unfolding text_eq
upload_file-IsAccepted_example =
    upload_file-IsAccepted cdk settings node after (sending (codes "llo")) 201 blob aside
      nothing_cached accepts
