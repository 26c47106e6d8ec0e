-- ===== src/Serving/Blobs.antt =====
-- `serve_blob` of src/handlers/file_serving.rs: revalidation, HEAD, payment, and the bytes.
use almond.Prelude.{
  ℕ, ◌^◌, Option, none, some, ◌∷◌, codes, ltb, if◌then◌else◌, Bytes, HashMap, get, text_eq_instance,
}
use almond.Error.{AppResult, ok, err}
use almond.Payments.{HeaderMap, Pricing, Cdk, charge, download}
use almond.Serving.{
  Http, Method, get_method, head_method, Response, blob_etag, is_not_modified, not_modified,
  build_blob_head_response, FileFaults, serve_file_with_range, GetObject, serve_s3_with_range,
}

-- Who can read the bytes.
pub data BlobBytes : Type 0 where
  local_file : Bytes → BlobBytes
  native : Bytes → BlobBytes

-- Files, objects, and what goes wrong with them.
pub record Bucket : Type 0 where
  pub disk : HashMap Bytes Bytes
  pub faults : FileFaults
  pub get_object : GetObject

abbrev if_value : Http → Option Bytes → Option Bytes
if_value http none = none
if_value http (some text) = if http.is_header_value text then some text else none

-- `i64::try_from` fails from 2^63 on.
unfoldable pub sunset_header : Http → Option ℕ → Option Bytes
sunset_header http none = none
sunset_header http (some at) = if ltb at (2 ^ 63) then if_value http (http.http_date at) else none

abbrev with_sunset : Option Bytes → Response → Response
with_sunset none r = r
with_sunset (some date) r = record r { headers = (codes "sunset", date) ∷ r.headers }

abbrev pub announce : Option Bytes → AppResult Response → AppResult Response
announce sunset (err e) = err e
announce sunset (ok r) = ok (with_sunset sunset r)

unfoldable pub serve_bytes :
    Http → Bucket → HeaderMap → Bytes → ℕ → Option Bytes → BlobBytes → AppResult Response
serve_bytes http store headers etag size mime_type (local_file path) =
    serve_file_with_range http store.faults (get store.disk path) path mime_type headers etag
serve_bytes http store headers etag size mime_type (native key) =
    serve_s3_with_range http store.get_object key mime_type size headers etag

module _ {Wallet : Type 0} where
  abbrev pub after_charge :
      AppResult Response → AppResult (Unit {0}) × Option Wallet → AppResult Response × Option Wallet
  after_charge response (err e, after) = (err e, after)
  after_charge response (ok done, after) = (response, after)

  abbrev pub announced :
      Option Bytes → AppResult Response × Option Wallet → AppResult Response × Option Wallet
  announced sunset (response, after) = (announce sunset response, after)

module _ {Token Wallet : Type 0} (cdk : Cdk Token Wallet) where
  unfoldable pub respond :
      Pricing
      → Option Wallet
      → Http
      → Bucket
      → HeaderMap
      → Method
      → Bytes
      → ℕ
      → Option Bytes
      → BlobBytes
      → AppResult Response × Option Wallet
  respond s wallet http store headers head_method etag size mime_type bytes =
      (build_blob_head_response http mime_type size etag, wallet)
  respond s wallet http store headers get_method etag size mime_type bytes =
      after_charge (serve_bytes http store headers etag size mime_type bytes)
        (charge cdk s wallet headers download size)

  unfoldable pub serve_blob :
      Pricing
      → Option Wallet
      → Http
      → Bucket
      → HeaderMap
      → Method
      → Bytes
      → ℕ
      → Option Bytes
      → Option ℕ
      → BlobBytes
      → AppResult Response × Option Wallet
  unfolding respond
  serve_blob s wallet http store headers method file_hash size mime_type expiration bytes =
      let etag = blob_etag file_hash in
      announced (sunset_header http expiration) (
        if is_not_modified headers etag
        then (not_modified http etag, wallet)
        else respond s wallet http store headers method etag size mime_type bytes)
