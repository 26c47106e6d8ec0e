-- ===== src/Serving.antt =====
-- src/handlers/file_serving.rs: the response for a blob that this server holds. A body is the bytes
-- that its stream delivers, so the size of the read buffer does not show. `Http` is what other
-- libraries decide: which texts are header values, MIME types by extension, and dates.
pub mod Ranges
pub mod Blobs
pub mod Served
pub mod Sources
pub mod Requests
pub mod Planned
pub mod Misses
pub mod KnownMisses
pub mod Remembered
pub mod Tests
use almond.Prelude.{
  ℕ, ◌+◌, ◌-◌, ◌^◌, Bool, true, false, not, ◌&&◌, ◌||◌, Option, none, some, List, [], ◌∷◌, ◌++◌,
  codes, ltb, ◌==◌, text_eq, if◌then◌else◌, Bytes, HashMap, get, text_eq_instance, take, drop,
  length, all, any, map,
}
use almond.Text.{trim, print_u64}
use almond.Auth.{split, to_lower}
use almond.Error.{
  AppError, AppResult, ok, err, not_found, io_error, internal_error, ensure, ◌>>=◌, ◌>>◌,
}
use almond.RangeHeader.{RangeSpec, satisfiable, unsatisfiable, ignore, parse_range_header}
use almond.Payments.{HeaderMap, as_text, Pricing, Cdk, charge, download}
use almond.Storage.Remove.{file_name_from}

pub record Http : Type 0 where
  pub is_header_value : Bytes → Bool
  pub mime_of_path : Bytes → Option Bytes
  pub http_date : ℕ → Option Bytes
  pub expires : Bytes

pub data Method : Type 0 where
  get_method head_method : Method

pub record Response : Type 0 where
  pub status : ℕ
  pub headers : HashMap Bytes Bytes
  pub body : Bytes

-- `Response::builder()` refuses a text that is no header value.
pub build : Http → ℕ → HashMap Bytes Bytes → Bytes → AppResult Response
build http status headers body = do
  ensure (all (λ h. http.is_header_value h.1) headers) internal_error
  ok (record { status = status; headers = headers; body = body })

pub blob_etag : Bytes → Bytes
blob_etag sha256 = b'"' ∷ (sha256 ++ b'"' ∷ [])

-- `trim_start_matches("W/")`
pub trim_weak : Bytes → Bytes
trim_weak [] = []
trim_weak (b ∷ []) = b ∷ []
trim_weak (b ∷ c ∷ s) = let rest = trim_weak s in if b == b'W' && c == b'/' then rest else b ∷ c ∷ s

pub etag_list_matches : Bytes → Bytes → Bool
etag_list_matches list etag =
    any
      (λ part.
        let candidate = trim part in
        text_eq candidate (codes "*") || text_eq (trim_weak candidate) etag)
      (split b',' list)

abbrev pub matches_or : Bool → Option Bytes → Bytes → Bool
matches_or absent none etag = absent
matches_or absent (some list) etag = etag_list_matches list etag

abbrev cache_control_immutable : Bytes
cache_control_immutable = codes "public, max-age=31536000, immutable"

abbrev default_mime_type : Bytes
default_mime_type = codes "application/octet-stream"

abbrev pub or_else : Option Bytes → Bytes → Bytes
or_else none default = default
or_else (some text) default = text

-- The test that `check_not_modified` makes, and the answer that it then gives.
pub is_not_modified : HeaderMap → Bytes → Bool
is_not_modified headers etag =
    matches_or false (as_text (headers.header (codes "if-none-match"))) etag

pub not_modified : Http → Bytes → AppResult Response
not_modified http etag =
    build http 304 ((codes "etag", etag) ∷ (codes "cache-control", cache_control_immutable) ∷ []) []

pub build_blob_head_response : Http → Option Bytes → ℕ → Bytes → AppResult Response
build_blob_head_response http mime_type size etag =
    build http 200
      ((codes "content-type", or_else mime_type default_mime_type)
        ∷ (codes "content-length", print_u64 size)
        ∷ (codes "accept-ranges", codes "bytes")
        ∷ (codes "etag", etag)
        ∷ (codes "cache-control", cache_control_immutable)
        ∷ [])
      []

-- A stale `If-Range` is not honored.
pub honored_range : Bool → Option Bytes → ℕ → RangeSpec
honored_range true (some value) total_size = parse_range_header value total_size
honored_range true none total_size = ignore
honored_range false range total_size = ignore

-- What the two headers ask for.
pub requested_range : HeaderMap → Bytes → ℕ → RangeSpec
unfolding honored_range
requested_range headers etag total_size =
    honored_range (matches_or true (as_text (headers.header (codes "if-range"))) etag)
      (as_text (headers.header (codes "range"))) total_size

-- `start-end/total_size`
pub range_text : ℕ → ℕ → ℕ → Bytes
range_text start end total_size =
    print_u64 start ++ b'-' ∷ (print_u64 end ++ b'/' ∷ print_u64 total_size)

pub range_not_satisfiable : Http → ℕ → Bytes → AppResult Response
range_not_satisfiable http total_size etag =
    build http 416
      ((codes "content-range", codes "bytes */" ++ print_u64 total_size)
        ∷ (codes "accept-ranges", codes "bytes")
        ∷ (codes "etag", etag)
        ∷ [])
      []

-- What stands behind the last dot of a file name that does not begin there.
extension_from : Option Bytes → Bytes → Option Bytes
extension_from current [] = current
extension_from none (c ∷ name) = extension_from (if c == b'.' then some [] else none) name
extension_from (some e) (c ∷ name) =
    extension_from (some (if c == b'.' then [] else e ++ c ∷ [])) name

abbrev behind_first : Bytes → Option Bytes
behind_first [] = none
behind_first (c ∷ name) = extension_from none name

by_extension : Http → Bytes → Option Bytes → Bytes
by_extension http path none = or_else (http.mime_of_path path) default_mime_type
by_extension http path (some extension) =
    let ext = map to_lower extension in
    if text_eq ext (codes "m3u8")
    then codes "application/vnd.apple.mpegurl"
    else if text_eq ext (codes "ts")
    then codes "video/mp2t"
    else if text_eq ext (codes "mpd")
    then codes "application/dash+xml"
    else or_else (http.mime_of_path path) default_mime_type

pub get_mime_type : Http → Bytes → Bytes
unfolding extension_from by_extension
get_mime_type http path = by_extension http path (behind_first (file_name_from [] path))

-- What may go wrong with a file that is there; `true` stands for a file that is gone by then.
pub record FileFaults : Type 0 where
  pub open_error : Option Bool
  pub metadata_error : Option Bool
  pub seek_error : Bool

abbrev pub no_error : Option Bool → AppResult (Unit {0})
no_error none = ok tt
no_error (some gone) = err (if gone then not_found else io_error)

abbrev pub opened : Option Bytes → AppResult Bytes
opened none = err not_found
opened (some file) = ok file

abbrev or_file : Bytes → Bytes
or_file [] = codes "file"
or_file (c ∷ name) = c ∷ name

abbrev content_disposition : Bytes → Bytes
content_disposition path =
    codes "inline; filename=" ++ b'"' ∷ (or_file (file_name_from [] path) ++ b'"' ∷ [])

-- The answer of `serve_file_with_range` for a range, given the file.
pub file_response :
    Http → FileFaults → Bytes → Bytes → Bytes → Bytes → RangeSpec → AppResult Response
file_response http io path content_type file etag (satisfiable start end) =
    let length_sent = end - start + 1 in
    ensure (not io.seek_error) io_error
    >> build http 206
        ((codes "content-type", content_type)
          ∷ (codes "content-range", codes "bytes " ++ range_text start end (length file))
          ∷ (codes "content-length", print_u64 length_sent)
          ∷ (codes "accept-ranges", codes "bytes")
          ∷ (codes "etag", etag)
          ∷ (codes "cache-control", cache_control_immutable)
          ∷ (codes "expires", http.expires)
          ∷ (codes "content-disposition", content_disposition path)
          ∷ [])
        (take length_sent (drop start file))
file_response http io path content_type file etag unsatisfiable =
    range_not_satisfiable http (length file) etag
file_response http io path content_type file etag ignore =
    build http 200
      ((codes "content-type", content_type)
        ∷ (codes "content-length", print_u64 (length file))
        ∷ (codes "accept-ranges", codes "bytes")
        ∷ (codes "etag", etag)
        ∷ (codes "cache-control", cache_control_immutable)
        ∷ (codes "expires", http.expires)
        ∷ (codes "content-disposition", content_disposition path)
        ∷ [])
      file

pub serve_file_with_range :
    Http → FileFaults → Option Bytes → Bytes → Option Bytes → HeaderMap → Bytes → AppResult Response
serve_file_with_range http io disk_file path mime_type headers etag = do
  file ← opened disk_file
  no_error io.open_error
  no_error io.metadata_error
  file_response http io path (or_else mime_type (get_mime_type http path)) file etag
      (requested_range headers etag (length file))

-- What the object store answers for a key and, perhaps, a `Range` header.
abbrev pub GetObject : Type 0
GetObject = Bytes → Option Bytes → AppResult Bytes

abbrev s3_headers : Option Bytes → ℕ → Bytes → HashMap Bytes Bytes
s3_headers mime_type content_length etag =
    (codes "content-type", or_else mime_type default_mime_type)
    ∷ (codes "content-length", print_u64 content_length)
    ∷ (codes "accept-ranges", codes "bytes")
    ∷ (codes "etag", etag)
    ∷ (codes "cache-control", cache_control_immutable)
    ∷ []

-- `bytes=start-end`
abbrev pub s3_range : ℕ → ℕ → Bytes
s3_range start end = codes "bytes=" ++ (print_u64 start ++ b'-' ∷ print_u64 end)

-- The range comes last, as it is inserted into the headers of the response.
pub object_response :
    Http → GetObject → Bytes → Option Bytes → ℕ → Bytes → RangeSpec → AppResult Response
object_response http get_object key mime_type total_size etag (satisfiable start end) = do
  body ← get_object key (some (s3_range start end))
  build http 206
      (s3_headers mime_type (end - start + 1) etag
        ++ (codes "content-range", codes "bytes " ++ range_text start end total_size) ∷ [])
      body
object_response http get_object key mime_type total_size etag unsatisfiable =
    range_not_satisfiable http total_size etag
object_response http get_object key mime_type total_size etag ignore = do
  body ← get_object key none
  build http 200 (s3_headers mime_type total_size etag) body

pub serve_s3_with_range :
    Http → GetObject → Bytes → Option Bytes → ℕ → HeaderMap → Bytes → AppResult Response
serve_s3_with_range http get_object key mime_type total_size headers etag =
    object_response http get_object key mime_type total_size etag
      (requested_range headers etag total_size)
