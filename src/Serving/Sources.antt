-- ===== src/Serving/Sources.antt =====
-- src/handlers/file_serving.rs: where a requested blob comes from, with `NativeS3Storage::find` of
-- src/services/native_storage.rs, and the memory of hashes that no upstream server had. What the
-- upstream servers answer to a plan is an argument, `none` standing for a failure.
use almond.Prelude.{
  ℕ, ◌-◌, Bool, true, false, not, ◌&&◌, ◌||◌, Option, none, some, List, [], ◌∷◌, ltb, ◌==◌, text_eq,
  if◌then◌else◌, Bytes, HashMap, get, retain, text_eq_instance, length, all,
}
use almond.Text.{split_once, is_hexdigit, starts_with, trim}
use almond.Error.{AppResult, ok, err, forbidden, service_unavailable, ensure, ◌>>=◌, ◌>>◌}
use almond.BlobName.{hash_prefix, parse_object_key, ParsedName}
use almond.Auth.{AppState, FeatureMode, off, wot, dvm, public, is_pubkey_authorized}
use almond.Retention.{FileMetadata, s3, upload}
use almond.Storage.{Storage, Faults, Outcome, and_do}
use almond.Storage.Publish.{publish_existing_metadata}

-- What a key parser, a bucket listing and MIME tables of other libraries give.
pub record Lookups : Type 0 where
  pub from_bech32 : Bytes → Option ℕ
  pub from_hex : Bytes → Option ℕ
  pub last_modified : Bytes → ℕ
  pub mime_of_extension : Bytes → Option Bytes

pub record ServeFileMetadata : Type 0 where
  pub path : Bytes
  pub extension : Option Bytes
  pub mime_type : Option Bytes
  pub size : ℕ

pub record FileRequestQuery : Type 0 where
  pub servers : List Bytes
  pub origin : Option Bytes
  pub xs : List Bytes
  pub author_pubkey : Option Bytes

pub record UpstreamPlan : Type 0 where
  pub custom_origin : Option Bytes
  pub xs_servers : Option (List Bytes)
  pub author_pubkey : Option ℕ

pub data BlobSource : Type 0 where
  indexed : FileMetadata → BlobSource
  serve_file : ServeFileMetadata → BlobSource
  upstream : UpstreamPlan → BlobSource
  recently_missing : BlobSource

abbrev pub is_some {ℓ} : {A : Type ℓ} → Option A → Bool
is_some none = false
is_some (some a) = true

unfoldable pub names_specific_servers : UpstreamPlan → Bool
names_specific_servers p = is_some p.custom_origin || is_some p.xs_servers

abbrev pub before_dot : Bytes → Option (Bytes × Bytes) → Bytes
before_dot filename none = filename
before_dot filename (some (hash, rest)) = hash

unfoldable pub get_sha256_hash_from_filename : Bytes → Option Bytes
get_sha256_hash_from_filename filename =
    let hash = before_dot filename (split_once b'.' filename) in
    if length hash == 64 && all is_hexdigit hash then some hash else none

unfoldable pub is_enabled : FeatureMode → Bool
is_enabled off = false
is_enabled wot = true
is_enabled dvm = true
is_enabled public = true

unfoldable pub requires_wot : FeatureMode → Bool
requires_wot wot = true
requires_wot off = false
requires_wot dvm = false
requires_wot public = false

abbrev or_hex : Option ℕ → Option ℕ → Option ℕ
or_hex none hex = hex
or_hex (some pubkey) hex = some pubkey

unfoldable pub parse_pubkey : Lookups → Bytes → Option ℕ
parse_pubkey lookups text = or_hex (lookups.from_bech32 (trim text)) (lookups.from_hex (trim text))

-- `xs` has priority over the legacy list.
unfoldable pub request_servers : FileRequestQuery → Option (List Bytes)
request_servers q =
    if length q.xs == 0 then if length q.servers == 0 then none else some q.servers else some q.xs

-- An author that does not parse is ignored; one outside of the web of trust may be refused.
unfoldable pub author : Lookups → AppState → Bool → Option Bytes → AppResult (Option ℕ)
author lookups state needs_wot none = ok none
author lookups state needs_wot (some text) = elim (parse_pubkey lookups text) [
  | none ↦ ok none
  | some pubkey ↦ do
    ensure (not (needs_wot && not (is_pubkey_authorized pubkey state))) forbidden
    ok (some pubkey)
]

unfoldable pub upstream_plan :
    Lookups → AppState → FeatureMode → FileRequestQuery → AppResult UpstreamPlan
upstream_plan lookups state feature q =
    if is_enabled feature
    then author lookups state (requires_wot feature) q.author_pubkey >>= (λ pubkey.
      ok (record {
        custom_origin = q.origin;
        xs_servers = request_servers q;
        author_pubkey = pubkey;
      }))
    else ok (record { custom_origin = none; xs_servers = none; author_pubkey = none })

abbrev extension_mime : Lookups → Option Bytes → Option Bytes
extension_mime lookups none = none
extension_mime lookups (some ext) = lookups.mime_of_extension ext

abbrev object_metadata : Lookups → Bytes → Bytes → ParsedName → FileMetadata
object_metadata lookups key bytes p = record {
  location = s3 key;
  extension = p.extension;
  mime_type = extension_mime lookups p.extension;
  size = length bytes;
  created_at = lookups.last_modified key;
  pubkey = none;
  expiration = p.expiration;
  origin = upload;
}

abbrev object_for :
    Lookups → Bytes → Bytes → Bytes → Option ParsedName → Option FileMetadata → Option FileMetadata
object_for lookups sha256 key bytes none rest = rest
object_for lookups sha256 key bytes (some p) rest =
    if text_eq p.hash sha256 then some (object_metadata lookups key bytes p) else rest

-- The first object below the prefix whose name has the hash.
unfoldable pub first_object : Lookups → Bytes → Bytes → HashMap Bytes Bytes → Option FileMetadata
first_object lookups prefix sha256 [] = none
first_object lookups prefix sha256 ((key, bytes) ∷ objects) =
    let rest = first_object lookups prefix sha256 objects in
    if starts_with prefix key
    then object_for lookups sha256 key bytes (parse_object_key key) rest
    else rest

-- `find`, behind `ensure_available`.
unfoldable pub find_object : Lookups → Faults → Storage → Bytes → AppResult (Option FileMetadata)
find_object lookups io s sha256 = do
  ensure s.s3_available service_unavailable
  prefix ← hash_prefix sha256
  ensure (not io.s3_list) service_unavailable
  ok (first_object lookups prefix sha256 s.objects)

unfoldable pub find_native : Lookups → Faults → Storage → Bytes → AppResult (Option FileMetadata)
find_native lookups io s sha256 = if s.has_s3 then find_object lookups io s sha256 else ok none

abbrev pub upstream_miss_ttl : ℕ
upstream_miss_ttl = 3600

abbrev is_recent : ℕ → Option ℕ → Bool
is_recent now none = false
is_recent now (some missed_at) = ltb (now - missed_at) upstream_miss_ttl

unfoldable pub upstream_recently_missed : HashMap Bytes ℕ → ℕ → Bytes → Bool
upstream_recently_missed failed now file_hash = is_recent now (get failed file_hash)

-- `cleanup_expired_failed_lookups` of src/utils.rs
unfoldable pub cleanup_expired_failed_lookups : HashMap Bytes ℕ → ℕ → HashMap Bytes ℕ
cleanup_expired_failed_lookups failed now =
    retain (λ hash missed_at. ltb (now - missed_at) 3600) failed

-- What a lookup reads besides storage.
pub record Config : Type 0 where
  pub lookups : Lookups
  pub app : AppState
  pub feature_custom_upstream_origin_enabled : FeatureMode
  pub serve_file_index : HashMap Bytes ServeFileMetadata

abbrev pub planned : HashMap Bytes ℕ → ℕ → Bytes → UpstreamPlan → BlobSource
planned failed now file_hash plan =
    if not (names_specific_servers plan) && upstream_recently_missed failed now file_hash
    then recently_missing
    else upstream plan

unfoldable pub beyond_storage :
    Config
    → HashMap Bytes ℕ
    → ℕ
    → Bytes
    → FileRequestQuery
    → Option ServeFileMetadata
    → AppResult BlobSource
beyond_storage c failed now file_hash q (some file) = ok (serve_file file)
beyond_storage c failed now file_hash q none =
    upstream_plan c.lookups c.app c.feature_custom_upstream_origin_enabled q
    >>= (λ plan. ok (planned failed now file_hash plan))

unfoldable pub beyond_index :
    Config
    → Faults
    → Storage
    → HashMap Bytes ℕ
    → ℕ
    → Bytes
    → FileRequestQuery
    → AppResult (Option FileMetadata)
    → Outcome BlobSource
beyond_index c io s failed now file_hash q (err e) = (s, err e)
beyond_index c io s failed now file_hash q (ok (some m)) =
    and_do (publish_existing_metadata s io file_hash m)
      (λ s' published. (s', ok (indexed published)))
beyond_index c io s failed now file_hash q (ok none) =
    (s, beyond_storage c failed now file_hash q (get c.serve_file_index file_hash))

abbrev pub from_index : Option FileMetadata → Storage → Outcome BlobSource → Outcome BlobSource
from_index none s otherwise = otherwise
from_index (some m) s otherwise = (s, ok (indexed m))

unfoldable pub resolve_blob :
    Config → Faults → Storage → HashMap Bytes ℕ → ℕ → Bytes → FileRequestQuery → Outcome BlobSource
resolve_blob c io s failed now file_hash q =
    from_index (get s.file_index.map file_hash) s
      (beyond_index c io s failed now file_hash q (find_native c.lookups io s file_hash))
