-- ===== src/Serving/Requests.antt =====
-- `handle_file_request` of src/handlers/file_serving.rs: from the name in the request to the response.
-- What the upstream handlers answer to a plan comes with the request, `none` standing for a failure,
-- and so does the time at which they have answered.
use almond.Prelude.{
  ℕ, Option, none, some, Bytes, HashMap, insert, text_eq_instance, ◌==◌, length, if◌then◌else◌,
}
use almond.Text.{split_once}
use almond.Error.{AppError, AppResult, ok, err, bad_request, not_found, service_unavailable}
use almond.Payments.{HeaderMap, Pricing, Cdk}
use almond.Retention.{FileMetadata, FileLocation, local, s3, sunset_expiration}
use almond.Storage.{Storage, Faults, Outcome}
use almond.Serving.{Http, Method, Response, FileFaults, GetObject}
use almond.Serving.Blobs.{local_file, native, Bucket, serve_blob}
use almond.Serving.Sources.{
  FileRequestQuery, UpstreamPlan, BlobSource, indexed, serve_file, upstream, recently_missing,
  names_specific_servers, get_sha256_hash_from_filename, Config, resolve_blob, before_dot,
}

pub record Request : Type 0 where
  pub filename : Bytes
  pub query : FileRequestQuery
  pub headers : HeaderMap
  pub method : Method
  pub now : ℕ
  pub answered_at : ℕ
  pub upstream_answer : UpstreamPlan → Option Response
  pub storage_faults : Faults
  pub file_faults : FileFaults

pub record Server (Wallet : Type 0) : Type 0 where
  pub storage : Storage
  pub wallet : Option Wallet
  pub failed_upstream_lookups : HashMap Bytes ℕ

pub record Settings : Type 0 where
  pub config : Config
  pub pricing : Pricing
  pub http : Http
  pub get_object : GetObject
  pub max_file_age_secs : ℕ

-- A plan that names servers says nothing about the others, so its failure is not remembered.
unfoldable pub fetch_from_upstream :
    HashMap Bytes ℕ
    → Bytes
    → ℕ
    → UpstreamPlan
    → Option Response
    → HashMap Bytes ℕ × AppResult Response
fetch_from_upstream failed file_hash answered_at plan (some response) = (failed, ok response)
fetch_from_upstream failed file_hash answered_at plan none = (
  if names_specific_servers plan then failed else insert failed file_hash answered_at,
  err not_found,
)

-- The error for a name that begins with no hash.
unfoldable pub name_error : Bytes → AppError
name_error filename =
    if length (before_dot filename (split_once b'.' filename)) == 64 then bad_request else not_found

module _ {Token Wallet : Type 0} (cdk : Cdk Token Wallet) (settings : Settings) where
  abbrev paid :
      Server Wallet
      → Storage
      → AppResult Response × Option Wallet
      → Server Wallet × AppResult Response
  paid server s (response, after) = (record server { storage = s; wallet = after }, response)

  abbrev bucket : Storage → Request → Bucket
  bucket s r = record { disk = s.disk; faults = r.file_faults; get_object = settings.get_object }

  unfoldable pub serve_indexed :
      Server Wallet
      → Storage
      → Request
      → Bytes
      → FileMetadata
      → FileLocation
      → Server Wallet × AppResult Response
  serve_indexed server s r file_hash m (local path) = paid server s (
      serve_blob cdk settings.pricing server.wallet settings.http (bucket s r) r.headers r.method
        file_hash m.size m.mime_type (sunset_expiration m settings.max_file_age_secs)
        (local_file path))
  serve_indexed server s r file_hash m (s3 key) =
      if s.has_s3
      then paid server s (
          serve_blob cdk settings.pricing server.wallet settings.http (bucket s r) r.headers
            r.method file_hash m.size m.mime_type (sunset_expiration m settings.max_file_age_secs)
            (native key))
      else (record server { storage = s }, err service_unavailable)

  abbrev remembered :
      Server Wallet
      → Storage
      → HashMap Bytes ℕ × AppResult Response
      → Server Wallet × AppResult Response
  remembered server s (failed, response) =
      (record server { storage = s; failed_upstream_lookups = failed }, response)

  unfoldable pub serve_source :
      Server Wallet → Request → Bytes → Outcome BlobSource → Server Wallet × AppResult Response
  serve_source server r file_hash (s, err e) = (record server { storage = s }, err e)
  serve_source server r file_hash (s, ok (indexed m)) =
      serve_indexed server s r file_hash m m.location
  serve_source server r file_hash (s, ok (serve_file m)) = paid server s (
      serve_blob cdk settings.pricing server.wallet settings.http (bucket s r) r.headers r.method
        file_hash m.size m.mime_type none (local_file m.path))
  serve_source server r file_hash (s, ok recently_missing) =
      (record server { storage = s }, err not_found)
  serve_source server r file_hash (s, ok (upstream plan)) = remembered server s (
      fetch_from_upstream server.failed_upstream_lookups file_hash r.answered_at plan
        (r.upstream_answer plan))

  abbrev for_hash : Server Wallet → Request → Option Bytes → Server Wallet × AppResult Response
  for_hash server r none = (server, err (name_error r.filename))
  for_hash server r (some file_hash) = serve_source server r file_hash (
      resolve_blob settings.config r.storage_faults server.storage server.failed_upstream_lookups
        r.now file_hash r.query)

  unfoldable pub handle_file_request : Server Wallet → Request → Server Wallet × AppResult Response
  handle_file_request server r = for_hash server r (get_sha256_hash_from_filename r.filename)
