-- ===== src/ChunkHeaders/Limits.antt =====
-- `patch_upload` of src/handlers/upload.rs: the chunks that pass its checks.
use almond.Prelude.{ℕ, ◌+◌, ◌≤◌, ◌<◌, ◌≡◌, true, not, ◌||◌, codes, ltb, ◌==◌, text_eq, arith}
use mathlib.Core.Path.{subst}
use almond.Text.{u64_mod}
use almond.Error.{ok, bad_request, payload_too_large, >>=-eq-ok, ensure->>-eq-ok, or_refuse}
use almond.BlobName.{is_valid_hash}
use almond.Payments.{HeaderMap, as_text}
use almond.ChunkHeaders.{
  ChunkRequest, parse_header, extract_content_type, check_sizes, check_headers,
}

-- A chunk that is not empty, within the limits and within its upload.
pub record IsAdmissible (max_blob max_chunk : ℕ) (r : ChunkRequest) : Type 0 where
  pub hash : is_valid_hash r.sha256 ≡ true
  pub not_empty : 0 < r.content_length
  pub chunk : r.content_length ≤ max_chunk
  pub inside : r.upload_offset + r.content_length ≤ r.upload_length
  pub blob : r.upload_length ≤ max_blob

check_sizes-IsAdmissible :
    (max_blob max_chunk : ℕ) (r : ChunkRequest)
    → is_valid_hash r.sha256 ≡ true
    → check_sizes max_blob max_chunk r ≡ ok tt
    → IsAdmissible max_blob max_chunk r
unfolding check_sizes
check_sizes-IsAdmissible max_blob max_chunk r valid h =
    let (some_bytes, h1) = ensure->>-eq-ok (not (r.content_length == 0)) bad_request _ h in
    let (fits_limit, h2) =
      ensure->>-eq-ok (not (r.upload_length == 0 || ltb max_blob r.upload_length)) payload_too_large
        _ h1 in
    let (fits_chunk, h3) =
      ensure->>-eq-ok (not (ltb max_chunk r.content_length)) payload_too_large _ h2 in
    let (adds, h4) =
      ensure->>-eq-ok (ltb (r.upload_offset + r.content_length) u64_mod) bad_request _ h3 in
    record {
      hash = valid;
      not_empty = ground arith;
      chunk = ground arith;
      inside = ground arith;
      blob = ground arith;
    }

-- A chunk whose headers pass has a valid hash, is not empty, is not larger than the chunk limit, and
-- lies within an upload that is not larger than the blob limit.
pub check_headers-IsAdmissible :
    (max_blob max_chunk : ℕ) (headers : HeaderMap) (r : ChunkRequest)
    → check_headers max_blob max_chunk headers ≡ ok r
    → IsAdmissible max_blob max_chunk r
unfolding check_headers
check_headers-IsAdmissible max_blob max_chunk headers r h =
    let (sha256, h0, h1) =
      >>=-eq-ok (or_refuse (as_text (headers.header (codes "X-SHA-256")))) _ h in
    let (valid, h2) = ensure->>-eq-ok (is_valid_hash sha256) bad_request _ h1 in
    let (upload_type, h3, h4) =
      >>=-eq-ok (or_refuse (as_text (headers.header (codes "Upload-Type")))) _ h2 in
    let (upload_length, h5, h6) = >>=-eq-ok (parse_header headers (codes "Upload-Length")) _ h4 in
    let (content_length, h7, h8) = >>=-eq-ok (parse_header headers (codes "content-length")) _ h6 in
    let (upload_offset, h9, h10) = >>=-eq-ok (parse_header headers (codes "Upload-Offset")) _ h8 in
    let read : ChunkRequest = record {
      sha256 = sha256;
      upload_type = upload_type;
      upload_length = upload_length;
      content_length = content_length;
      upload_offset = upload_offset;
    } in
    let (done, sized, h11) = >>=-eq-ok (check_sizes max_blob max_chunk read) _ h10 in
    let (typed, h12) =
      ensure->>-eq-ok (text_eq (extract_content_type headers) (codes "application/octet-stream"))
        bad_request _ h11 in
    let same : read ≡ r = cc h12 in
    subst (IsAdmissible max_blob max_chunk) same
      (check_sizes-IsAdmissible max_blob max_chunk read valid sized)
