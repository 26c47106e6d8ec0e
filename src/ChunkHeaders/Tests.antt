-- ===== src/ChunkHeaders/Tests.antt =====
-- A chunk of four bytes at the end of an upload of ten.
use almond.Text.{parse_u64}
use almond.BlobName.{is_valid_hash}
use almond.Prelude.{◌≡◌, refl, Option, none, some, codes, text_eq, if◌then◌else◌, Bytes}
use almond.Error.{ok, err, bad_request, payload_too_large}
use almond.Payments.{HeaderMap}
use almond.ChunkHeaders.{
  ChunkRequest, check_headers, check_sizes, extract_content_type, parse_header,
}
use almond.ChunkHeaders.Limits.{IsAdmissible, check_headers-IsAdmissible}

abbrev hash : Bytes
hash = codes "00112233445566778899aabbccddeeff00112233445566778899aabbccddeeff"

abbrev value_of : Bytes → Bytes → Option (Option Bytes)
value_of offset name =
    if text_eq name (codes "X-SHA-256")
    then some (some hash)
    else if text_eq name (codes "Upload-Type")
    then some (some (codes "text/plain"))
    else if text_eq name (codes "Upload-Length")
    then some (some (codes "10"))
    else if text_eq name (codes "content-length")
    then some (some (codes "4"))
    else if text_eq name (codes "Upload-Offset")
    then some (some offset)
    else none

abbrev headers_at : Bytes → HeaderMap
headers_at offset = record { header = value_of offset }

abbrev request : ChunkRequest
request = record {
  sha256 = hash;
  upload_type = codes "text/plain";
  upload_length = 10;
  content_length = 4;
  upload_offset = 6;
}

passes : check_headers 10 4 (headers_at (codes "6")) ≡ ok request
unfolding check_headers text_eq is_valid_hash parse_header parse_u64 check_sizes
    extract_content_type
passes = refl

too_far : check_headers 10 4 (headers_at (codes "7")) ≡ err bad_request
unfolding check_headers text_eq is_valid_hash parse_header parse_u64 check_sizes
too_far = refl

too_large : check_headers 9 4 (headers_at (codes "6")) ≡ err payload_too_large
unfolding check_headers text_eq is_valid_hash parse_header parse_u64 check_sizes
too_large = refl

check_headers-IsAdmissible_example : IsAdmissible 10 4 request
check_headers-IsAdmissible_example =
    check_headers-IsAdmissible 10 4 (headers_at (codes "6")) request passes
