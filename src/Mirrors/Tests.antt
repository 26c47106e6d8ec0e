-- ===== src/Mirrors/Tests.antt =====
-- A mirror of five bytes to an empty server.
use almond.Retention.{FileMetadata, resolve_limit}
use almond.Storage.{ensure_storage_capacity, completed_path, ensure_not_quarantined, metadata}
use almond.Payments.{charge, is_paid}
use almond.Authorization.{authorize, read_event, bind}
use almond.Text.{parse_u64, strip_prefix, split_once, trim, is_hexdigit}
use almond.BlobName.{is_valid_hash, require_hash, object_key}
use almond.Storage.Publish.{drop_temp, publish_blob, publish_metadata}
use almond.BlobIndex.{publish, insert_stamp}
use almond.ChunkHeaders.{extract_content_type}
use almond.Prelude.{
  ℕ, ◌≡◌, refl, false, none, some, [], ◌∷◌, codes, Bytes, text_eq, get, insert, text_eq_instance,
  contains_key, remove,
}
use almond.Error.{ok, err, timeout}
use almond.Auth.{
  public, check_pubkey_authorization, parse_auth_header, validate_event_kind, validate_upload_auth,
  verify_event_with_policy, tags_of, validate_t_tag,
}
use almond.Retention
use almond.Ssrf.{
  Net, v4, found, answer, fetch_from_url, fetch_rounds, resolve_public_target, after_answer,
  reachable, is_reachable, addresses_of, is_allowed_scheme, check_size_limit, is_private_ip,
  is_private_v4,
}
use almond.Storage.Roots.{IsCachedInPlace, completed_path-root}
use almond.Uploads.{
  Node, extract_declared_upload_hash, extract_expiration, resolve_expiration,
  ensure_upload_hash_matches, publication, stream_to_temp_file, write_body, get_extension_from_mime,
}
use almond.Uploads.Accepted.{IsAside}
use almond.Uploads.Tests.{app, settings, cdk, storage, sending, blob, after}
use almond.Mirrors.{
  ResponseChunk, arrived, late, MirrorRequest, mirror_blob, extract_sha256_from_event,
  stream_response_to_temp_file, write_response, read_mirror,
}
use almond.Mirrors.Mirrored.{IsMirrored, mirror_blob-IsMirrored}

abbrev net : Net
net = record {
  parse_url =
      λ t. some (record { text = t; scheme = codes "https"; host = some (codes "h"); port = none });
  lookup_host = λ h p. found (v4 1 1 1 1 ∷ []);
  send = λ target. answer 200 none;
  join = λ u t. none;
}

abbrev origin_node : Node ℕ
origin_node = record {
  app = record app { feature_mirror_enabled = public };
  storage = storage;
  wallet = none;
}

abbrev mirrored_node : Node ℕ
mirrored_node = record after { app = record app { feature_mirror_enabled = public } }

abbrev asking : ResponseChunk → MirrorRequest
asking last = record {
  request = sending [];
  body_too_large = false;
  json_url = ok (some (codes "https://h/x"));
  net = net;
  content_type = some (codes "text/plain; charset=utf-8");
  content_length = none;
  chunks = arrived (codes "he") ∷ last ∷ [];
}

mirrors :
    mirror_blob cdk settings 9 origin_node (asking (arrived (codes "llo")))
    ≡ (mirrored_node, ok (201, blob))
unfolding addresses_of after_answer authorize bind charge check_pubkey_authorization
    check_size_limit completed_path contains_key drop_temp ensure_not_quarantined
    ensure_storage_capacity ensure_upload_hash_matches extract_content_type
    extract_declared_upload_hash extract_expiration extract_sha256_from_event fetch_from_url
    fetch_rounds get get_extension_from_mime insert insert_stamp is_allowed_scheme is_hexdigit
    is_paid is_private_ip is_private_v4 is_reachable is_valid_hash metadata mirror_blob object_key
    parse_auth_header parse_u64 publication publish publish_blob publish_metadata reachable
    read_event read_mirror remove require_hash resolve_expiration resolve_limit
    resolve_public_target split_once stream_response_to_temp_file stream_to_temp_file strip_prefix
    tags_of text_eq trim validate_event_kind validate_t_tag validate_upload_auth
    verify_event_with_policy write_body write_response
mirrors = refl

-- A response that stalls.
too_late : mirror_blob cdk settings 9 origin_node (asking late) ≡ (origin_node, err timeout)
unfolding addresses_of after_answer authorize bind charge check_pubkey_authorization
    check_size_limit completed_path contains_key drop_temp ensure_not_quarantined
    ensure_storage_capacity ensure_upload_hash_matches extract_content_type
    extract_declared_upload_hash extract_expiration extract_sha256_from_event fetch_from_url
    fetch_rounds get get_extension_from_mime insert insert_stamp is_allowed_scheme is_hexdigit
    is_paid is_private_ip is_private_v4 is_reachable is_valid_hash metadata mirror_blob object_key
    parse_auth_header parse_u64 publication publish publish_blob publish_metadata reachable
    read_event read_mirror remove require_hash resolve_expiration resolve_limit
    resolve_public_target split_once stream_response_to_temp_file stream_to_temp_file strip_prefix
    tags_of text_eq trim validate_event_kind validate_t_tag validate_upload_auth
    verify_event_with_policy write_body write_response
too_late = refl

aside : (sha256 : Bytes) → IsAside cdk settings storage sha256 (codes "/s/temp/u")
unfolding text_eq
aside sha256 extension expiration path named =
    let (y, below) =
      completed_path-root (codes "/s") Retention.upload sha256 extension expiration path named in
    rw (← below) refl

nothing_cached : (sha256 : Bytes) → IsCachedInPlace storage sha256
unfolding get
nothing_cached sha256 old indexed cached = absurd (cc indexed)

mirror_blob-IsMirrored_example :
    IsMirrored cdk settings 9 origin_node mirrored_node (asking (arrived (codes "llo"))) 201 blob
mirror_blob-IsMirrored_example =
    mirror_blob-IsMirrored cdk settings 9 origin_node mirrored_node (asking (arrived (codes "llo")))
      201 blob aside nothing_cached mirrors
