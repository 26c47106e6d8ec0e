-- ===== src/Mirrors.antt =====
-- `mirror_blob` of src/handlers/upload.rs, without the background copy of what an HLS playlist
-- references: a blob that the server fetches from a URL, with `stream_response_to_temp_file` of
-- src/services/upload.rs and `extract_sha256_from_event` of src/services/auth.rs. The JSON of the
-- request and the body of the response are arguments.
pub mod Streams
pub mod Mirrored
pub mod Tests
use almond.Prelude.{
  ℕ, ◌+◌, Bool, true, false, not, ◌&&◌, all, Option, none, some, List, [], ◌∷◌, ◌++◌, codes, ltb,
  ◌==◌, if◌then◌else◌, Bytes, insert, text_eq, text_eq_instance, length,
}
use almond.Text.{is_hexdigit}
use almond.Error.{
  AppError, AppResult, ok, err, unauthorized, bad_request, payload_too_large, io_error,
  network_error, timeout, conflict, internal_error, ensure, ◌>>=◌, ◌>>◌, or_refuse,
}
use almond.Auth.{AppState, Event, Tag, tags_of, validate_t_tag}
use almond.Authorization.{Authorized, authorize, mirror}
use almond.ChunkHeaders.{or_default}
use almond.Payments
use almond.Payments.{as_text, Cdk, charge}
use almond.Retention
use almond.Retention.{resolve_limit, upstream_fetch}
use almond.Ssrf.{Net, Response, fetch_from_url, check_size_limit}
use almond.Storage.{Storage, StoredBlob, Outcome, ensure_not_quarantined}
use almond.Storage.Publish.{publish_blob}
use almond.Uploads.{
  Request, Settings, Node, Reply, Declared, extract_expiration, fail, publication, responds, synced,
}

-- What the stream of the response brings.
pub data ResponseChunk : Type 0 where
  arrived unwritable : Bytes → ResponseChunk
  late lost : ResponseChunk

-- The body of `request` is not read; `json_url` is the URL of the JSON, if it is JSON and has one.
pub record MirrorRequest : Type 0 where
  pub request : Request
  pub body_too_large : Bool
  pub json_url : AppResult (Option Bytes)
  pub net : Net
  pub content_type : Option Bytes
  pub content_length : Option ℕ
  pub chunks : List ResponseChunk

abbrev first_hash : List Tag → Option Bytes
first_hash [] = none
first_hash (t ∷ ts) = or_next t.content (first_hash ts)
  where
    or_next : Option Bytes → Option Bytes → Option Bytes
    or_next none rest = rest
    or_next (some c) rest = if length c == 64 && all is_hexdigit c then some c else rest

pub extract_sha256_from_event : Event → Option Bytes
extract_sha256_from_event event = first_hash (tags_of (codes "x") event.tags)

-- The loop over the response, with what is in the temporary file; an overflow of the size is beyond
-- any limit.
pub write_response : ℕ → Bytes → List ResponseChunk → Bytes × AppResult (Unit {0})
write_response max_size_bytes body [] = (body, ok tt)
write_response max_size_bytes body (late ∷ chunks) = (body, err timeout)
write_response max_size_bytes body (lost ∷ chunks) = (body, err network_error)
write_response max_size_bytes body (arrived chunk ∷ chunks) =
    let rest = write_response max_size_bytes (body ++ chunk) chunks in
    if ltb max_size_bytes (length body + length chunk) then (body, err payload_too_large) else rest
write_response max_size_bytes body (unwritable chunk ∷ chunks) =
    if ltb max_size_bytes (length body + length chunk)
    then (body, err payload_too_large)
    else (body, err io_error)

pub stream_response_to_temp_file :
    Storage → MirrorRequest → ℕ → Storage × (Bytes × AppResult (Unit {0}))
stream_response_to_temp_file s r max_size_bytes =
    if r.request.create_error
    then (s, ([], err io_error))
    else let (content, result) = write_response max_size_bytes [] r.chunks in
      (
        record s { disk = insert s.disk r.request.temp_path content },
        (content, synced r.request.sync_error result),
      )

-- The expected hash and the expiration.
abbrev or_unauthorized : Option Bytes → AppResult Bytes
or_unauthorized none = err unauthorized
or_unauthorized (some sha256) = ok sha256

-- The loop of the fetch always returns, so `none` does not happen.
abbrev returned : Option (AppResult Response) → AppResult Response
returned none = err internal_error
returned (some r) = r

abbrev pub limit_of : Settings → ℕ → ℕ
limit_of settings max_upstream =
    resolve_limit settings.quota.max_blob_size_bytes max_upstream upstream_fetch

pub read_mirror : Settings → ℕ → Event → MirrorRequest → AppResult Declared
read_mirror settings max_upstream event r = do
  validate_t_tag event (codes "upload")
  expected_sha256 ← or_unauthorized (extract_sha256_from_event event)
  expiration ← extract_expiration r.request.headers r.request.now
  ensure (not r.body_too_large) payload_too_large
  body ← r.json_url
  url ← or_refuse body
  response ← returned (fetch_from_url r.net url).1
  check_size_limit r.content_length (limit_of settings max_upstream)
  ensure (not r.request.temp_dir_error) io_error
  ok (record {
    sha256 = expected_sha256;
    content_type = or_default r.content_type;
    expiration = expiration;
  })

module _ {Token Wallet : Type 0} (cdk : Cdk Token Wallet) (settings : Settings)
    (max_upstream_download_size_bytes : ℕ) where
  abbrev pub finalized_mirror :
      Node Wallet
      → MirrorRequest
      → Declared
      → ℕ
      → AppResult (Unit {0}) × Option Wallet
      → Reply cdk settings
  finalized_mirror node r d size (err e, wallet) =
      fail cdk settings (record node { wallet = wallet }) r.request e
  finalized_mirror node r d size (ok done, wallet) =
      responds cdk settings (record node { wallet = wallet })
        (publish_blob node.storage r.request.faults r.request.temp_path
          (publication settings d d.sha256 size) r.request.bound_at)

  abbrev pub checked_mirror :
      Node Wallet → MirrorRequest → Declared → ℕ → AppResult (Unit {0}) → Reply cdk settings
  checked_mirror node r d size (err e) = fail cdk settings node r.request e
  checked_mirror node r d size (ok done) =
      finalized_mirror node r d size
        (charge cdk settings.pricing node.wallet r.request.headers Payments.mirror size)

  abbrev pub streamed_mirror :
      Node Wallet
      → MirrorRequest
      → Declared
      → Storage × (Bytes × AppResult (Unit {0}))
      → Reply cdk settings
  streamed_mirror node r d (s, (content, err e)) =
      fail cdk settings (record node { storage = s }) r.request e
  streamed_mirror node r d (s, (content, ok done)) =
      checked_mirror (record node { storage = s }) r d (length content)
        (ensure (text_eq (settings.sha256_hex content) d.sha256) conflict
          >> ensure_not_quarantined s r.request.faults d.sha256)

  abbrev pub take_response : Node Wallet → MirrorRequest → AppResult Declared → Reply cdk settings
  take_response node r (err e) = (node, err e)
  take_response node r (ok d) = streamed_mirror node r d (
      stream_response_to_temp_file node.storage r
        (limit_of settings max_upstream_download_size_bytes))

  abbrev pub authorized_mirror :
      Node Wallet → MirrorRequest → AppState × AppResult Authorized → Reply cdk settings
  authorized_mirror node r (app, err e) = (record node { app = app }, err e)
  authorized_mirror node r (app, ok a) =
      take_response (record node { app = app }) r
        (read_mirror settings max_upstream_download_size_bytes a.event r)

  pub mirror_blob : Node Wallet → MirrorRequest → Reply cdk settings
  mirror_blob node r = authorized_mirror node r (
      authorize settings.backend r.request.now
        (as_text (r.request.headers.header (codes "authorization"))) node.app mirror)
