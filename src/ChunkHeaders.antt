-- ===== src/ChunkHeaders.antt =====
-- `patch_upload` of src/handlers/upload.rs: what it asks of the headers of a chunk before it
-- authorizes the request. A header is looked up as in Payments.
pub mod Limits
pub mod Tests
use almond.Prelude.{
  ℕ, ◌+◌, Bool, true, false, not, ◌||◌, Option, none, some, codes, leb, ltb, ◌==◌, text_eq,
  if◌then◌else◌, Bytes,
}
use almond.Text.{u64_mod, parse_u64}
use almond.Error.{
  AppResult, ok, err, bad_request, payload_too_large, ensure, ◌>>=◌, ◌>>◌, or_refuse,
}
use almond.BlobName.{is_valid_hash}
use almond.Payments.{HeaderMap, as_text}

-- What the handler goes on with.
pub record ChunkRequest : Type 0 where
  pub sha256 : Bytes
  pub upload_type : Bytes
  pub upload_length : ℕ
  pub content_length : ℕ
  pub upload_offset : ℕ

abbrev parsed : Option Bytes → Option ℕ
parsed none = none
parsed (some value) = parse_u64 value

unfoldable pub parse_header : HeaderMap → Bytes → AppResult ℕ
parse_header headers name = or_refuse (parsed (as_text (headers.header name)))

abbrev pub or_default : Option Bytes → Bytes
or_default none = codes "application/octet-stream"
or_default (some value) = value

unfoldable pub extract_content_type : HeaderMap → Bytes
extract_content_type headers = or_default (as_text (headers.header (codes "content-type")))

unfoldable pub check_sizes :
    (max_blob_size_bytes max_chunk_size_bytes : ℕ) → ChunkRequest → AppResult (Unit {0})
check_sizes max_blob_size_bytes max_chunk_size_bytes r = do
  some_bytes ← ensure (not (r.content_length == 0)) bad_request
  fits_limit ←
      ensure (not (r.upload_length == 0 || ltb max_blob_size_bytes r.upload_length))
        payload_too_large
  fits_chunk ← ensure (not (ltb max_chunk_size_bytes r.content_length)) payload_too_large
  adds ← ensure (ltb (r.upload_offset + r.content_length) u64_mod) bad_request
  ensure (not (ltb r.upload_length (r.upload_offset + r.content_length))) bad_request

unfoldable pub check_headers :
    (max_blob_size_bytes max_chunk_size_bytes : ℕ) → HeaderMap → AppResult ChunkRequest
check_headers max_blob_size_bytes max_chunk_size_bytes headers = do
  sha256 ← or_refuse (as_text (headers.header (codes "X-SHA-256")))
  valid ← ensure (is_valid_hash sha256) bad_request
  upload_type ← or_refuse (as_text (headers.header (codes "Upload-Type")))
  upload_length ← parse_header headers (codes "Upload-Length")
  content_length ← parse_header headers (codes "content-length")
  upload_offset ← parse_header headers (codes "Upload-Offset")
  let r : ChunkRequest = record {
    sha256 = sha256;
    upload_type = upload_type;
    upload_length = upload_length;
    content_length = content_length;
    upload_offset = upload_offset;
  }
  sized ← check_sizes max_blob_size_bytes max_chunk_size_bytes r
  typed ←
      ensure (text_eq (extract_content_type headers) (codes "application/octet-stream")) bad_request
  ok r
