-- ===== src/Uploads.antt =====
-- `upload_file` of src/handlers/upload.rs: a whole upload, from the signed event to the stored blob,
-- with `stream_to_temp_file` of src/services/upload.rs and the header readers of src/helpers.rs. The
-- hash is the parameter `sha256_hex`. What is returned is the status with the stored blob, which the
-- handler renders as a descriptor.
pub mod Streams
pub mod Steps
pub mod Accepted
pub mod Tests
use almond.Prelude.{
  ℕ, ◌+◌, Bool, true, false, not, Option, none, some, List, [], ◌∷◌, ◌++◌, codes, ltb, leb, text_eq,
  if◌then◌else◌, Bytes, insert, text_eq_instance, length,
}
use almond.Text.{parse_u64, trim, split_once}
use almond.Error.{
  AppError, AppResult, ok, err, bad_request, payload_too_large, io_error, conflict, ensure, ◌>>=◌,
  ◌>>◌, or_refuse,
}
use almond.BlobName.{require_hash}
use almond.Auth.{Backend, AppState, Event, validate_upload_auth}
use almond.Authorization.{Authorized, authorize, bind, upload}
use almond.Payments.{HeaderMap, as_text, Pricing, Cdk, charge}
use almond.ChunkHeaders.{extract_content_type}
use almond.Storage.{
  Storage, Faults, Quota, BlobPublication, StoredBlob, Outcome, ensure_not_quarantined,
  ensure_storage_capacity,
}
use almond.Storage.Publish.{publish_blob, drop_temp}
use almond.Retention
use almond.Payments

-- What the stream of the body brings, in slices of at most `CHUNK_SIZE` bytes, and whether a slice
-- can be written.
pub data BodyChunk : Type 0 where
  received unwritable : Bytes → BodyChunk
  broken : BodyChunk

pub record Request : Type 0 where
  pub headers : HeaderMap
  pub body : List BodyChunk
  pub now : ℕ
  pub bound_at : ℕ
  pub temp_path : Bytes
  pub available : Option ℕ
  pub temp_dir_error : Bool
  pub create_error : Bool
  pub sync_error : Bool
  pub faults : Faults

pub record Settings : Type 0 where
  pub backend : Backend
  pub pricing : Pricing
  pub quota : Quota
  pub mime_extension : Bytes → Option Bytes
  pub sha256_hex : Bytes → Bytes

pub record Node (Wallet : Type 0) : Type 0 where
  pub app : AppState
  pub storage : Storage
  pub wallet : Option Wallet

unfoldable pub extract_declared_upload_hash : HeaderMap → AppResult Bytes
extract_declared_upload_hash headers = do
  sha256 ← or_refuse (as_text (headers.header (codes "X-SHA-256")))
  require_hash sha256
  ok sha256

unfoldable pub ensure_upload_hash_matches : Bytes → Bytes → AppResult (Unit {0})
ensure_upload_hash_matches declared_sha256 calculated_sha256 =
    ensure (text_eq declared_sha256 calculated_sha256) conflict

unfoldable pub resolve_expiration : ℕ → Option ℕ → AppResult (Option ℕ)
resolve_expiration now none = ok none
resolve_expiration now (some expiration) =
    if leb expiration now then err bad_request else ok (some expiration)

abbrev read_expiration : ℕ → Option (Option Bytes) → AppResult (Option ℕ)
read_expiration now none = resolve_expiration now none
read_expiration now (some none) = err bad_request
read_expiration now (some (some value)) =
    or_refuse (parse_u64 value) >>= (λ at. resolve_expiration now (some at))

unfoldable pub extract_expiration : HeaderMap → ℕ → AppResult (Option ℕ)
extract_expiration headers now = read_expiration now (headers.header (codes "X-Expiration"))

abbrev first_part : Bytes → Option (Bytes × Bytes) → Bytes
first_part text none = text
first_part text (some (first, rest)) = first

abbrev among : Bytes → List Bytes → Bool
among text [] = false
among text (t ∷ ts) = if text_eq text t then true else among text ts

-- The types that have a fixed extension, and a table of another library for the rest.
unfoldable pub get_extension_from_mime : (Bytes → Option Bytes) → Bytes → Option Bytes
get_extension_from_mime mime_extension content_type =
    let mime_type = trim (first_part content_type (split_once b';' content_type)) in
    if among mime_type (
      codes "application/vnd.apple.mpegurl"
      ∷ codes "application/x-mpegurl"
      ∷ codes "audio/mpegurl"
      ∷ codes "audio/x-mpegurl"
      ∷ [])
    then some (codes "m3u8")
    else if among mime_type (codes "video/mp2t" ∷ [])
    then some (codes "ts")
    else if among mime_type (codes "application/dash+xml" ∷ [])
    then some (codes "mpd")
    else if among mime_type (codes "image/jpeg" ∷ codes "image/pjpeg" ∷ [])
    then some (codes "jpg")
    else if among mime_type (codes "text/plain" ∷ [])
    then some (codes "txt")
    else if among mime_type (codes "audio/mpeg" ∷ [])
    then some (codes "mp3")
    else if among mime_type (codes "audio/mp4" ∷ [])
    then some (codes "m4a")
    else if among mime_type (codes "application/xml" ∷ codes "text/xml" ∷ [])
    then some (codes "xml")
    else if among mime_type (codes "text/javascript" ∷ codes "application/javascript" ∷ [])
    then some (codes "js")
    else if among mime_type (codes "application/octet-stream" ∷ [])
    then some (codes "bin")
    else mime_extension mime_type

-- The loop over the slices of the body, with what is in the temporary file. An overflow of the count
-- is beyond any limit.
unfoldable pub write_body : ℕ → Bytes → List BodyChunk → Bytes × AppResult (Unit {0})
write_body max_bytes written [] = (written, ok tt)
write_body max_bytes written (broken ∷ chunks) = (written, err payload_too_large)
write_body max_bytes written (received chunk ∷ chunks) =
    let rest = write_body max_bytes (written ++ chunk) chunks in
    if ltb max_bytes (length written + length chunk) then (written, err payload_too_large) else rest
write_body max_bytes written (unwritable chunk ∷ chunks) =
    if ltb max_bytes (length written + length chunk)
    then (written, err payload_too_large)
    else (written, err io_error)

abbrev pub synced : Bool → AppResult (Unit {0}) → AppResult (Unit {0})
synced sync_error result = result >> ensure (not sync_error) io_error

-- The content of the temporary file, where it was created, and the outcome.
unfoldable pub stream_to_temp_file :
    Storage → Request → ℕ → Storage × (Bytes × AppResult (Unit {0}))
stream_to_temp_file s r max_bytes =
    if r.create_error
    then (s, ([], err io_error))
    else let (content, result) = write_body max_bytes [] r.body in
      (record s { disk = insert s.disk r.temp_path content }, (content, synced r.sync_error result))

-- What the handler reads before it takes the body.
pub record Declared : Type 0 where
  pub sha256 : Bytes
  pub content_type : Bytes
  pub expiration : Option ℕ

abbrev declared_size : Settings → Option Bytes → ℕ
declared_size settings none = settings.quota.max_blob_size_bytes
declared_size settings (some value) = elim (parse_u64 value) [
  | none ↦ settings.quota.max_blob_size_bytes
  | some n ↦ n
]

pub read_request : Settings → Storage → Event → Request → AppResult Declared
read_request settings s event r = do
  sha256 ← extract_declared_upload_hash r.headers
  validate_upload_auth event sha256
  expiration ← extract_expiration r.headers r.now
  ensure_storage_capacity settings.quota s.file_index r.available
      (declared_size settings (as_text (r.headers.header (codes "content-length"))))
  ensure (not r.temp_dir_error) io_error
  ok (record {
    sha256 = sha256;
    content_type = extract_content_type r.headers;
    expiration = expiration;
  })

unfoldable pub publication : Settings → Declared → Bytes → ℕ → BlobPublication
publication settings d sha256 size = record {
  sha256 = sha256;
  origin = Retention.upload;
  extension = get_extension_from_mime settings.mime_extension d.content_type;
  mime_type = some d.content_type;
  size = size;
  expiration = d.expiration;
}

-- `201` for a new blob.
abbrev pub status_of : StoredBlob → ℕ
status_of blob = if blob.created then 201 else 200

module _ {Token Wallet : Type 0} (cdk : Cdk Token Wallet) (settings : Settings) where
  abbrev pub Reply : Type 0
  Reply = Node Wallet × AppResult (ℕ × StoredBlob)

  -- An early return, on which the temporary file is dropped.
  abbrev pub fail : Node Wallet → Request → AppError → Reply
  fail node r e = (record node { storage = drop_temp node.storage r.faults r.temp_path }, err e)

  abbrev pub responds : Node Wallet → Outcome StoredBlob → Reply
  responds node (s, err e) = (record node { storage = s }, err e)
  responds node (s, ok blob) = (record node { storage = s }, ok (status_of blob, blob))

  abbrev finalized :
      Node Wallet → Request → BlobPublication → AppResult (Unit {0}) × Option Wallet → Reply
  finalized node r p (err e, wallet) = fail (record node { wallet = wallet }) r e
  finalized node r p (ok done, wallet) =
      responds (record node { wallet = wallet })
        (publish_blob node.storage r.faults r.temp_path p r.bound_at)

  abbrev checked_quarantine : Node Wallet → Request → BlobPublication → AppResult (Unit {0}) → Reply
  checked_quarantine node r p (err e) = fail node r e
  checked_quarantine node r p (ok done) =
      finalized node r p (charge cdk settings.pricing node.wallet r.headers Payments.upload p.size)

  abbrev bound : Node Wallet → Request → BlobPublication → AppState × AppResult (Unit {0}) → Reply
  bound node r p (app, err e) = fail (record node { app = app }) r e
  bound node r p (app, ok done) =
      checked_quarantine (record node { app = app }) r p
        (ensure_not_quarantined node.storage r.faults p.sha256)

  abbrev matched :
      Node Wallet → Request → Authorized → Declared → BlobPublication → AppResult (Unit {0}) → Reply
  matched node r a d p (err e) = fail node r e
  matched node r a d p (ok done) = bound node r p (bind a node.app d.sha256 r.bound_at)

  abbrev streamed :
      Node Wallet
      → Request
      → Authorized
      → Declared
      → Storage × (Bytes × AppResult (Unit {0}))
      → Reply
  streamed node r a d (s, (content, err e)) = fail (record node { storage = s }) r e
  streamed node r a d (s, (content, ok done)) =
      let sha256 = settings.sha256_hex content in
      matched (record node { storage = s }) r a d (publication settings d sha256 (length content))
        (ensure_upload_hash_matches d.sha256 sha256)

  pub take_body : Node Wallet → Request → Authorized → AppResult Declared → Reply
  take_body node r a (err e) = (node, err e)
  take_body node r a (ok d) =
      streamed node r a d (stream_to_temp_file node.storage r settings.quota.max_blob_size_bytes)

  pub admitted : Node Wallet → Request → AppState × AppResult Authorized → Reply
  admitted node r (app, err e) = (record node { app = app }, err e)
  admitted node r (app, ok a) =
      take_body (record node { app = app }) r a (read_request settings node.storage a.event r)

  pub upload_file : Node Wallet → Request → Reply
  upload_file node r = admitted node r (
      authorize settings.backend r.now (as_text (r.headers.header (codes "authorization"))) node.app
        upload)
