-- ===== src/Serving/Ranges.antt =====
-- The answers of src/handlers/file_serving.rs to a range, from a file and from an object.
use almond.Prelude.{
  ℕ, ◌+◌, ◌-◌, ◌≤◌, ◌<◌, ◌≡◌, refl, inl, inr, Bool, true, false, Option, none, some, [], ◌++◌,
  codes, text_eq, Bytes, HashMap, get, text_eq_instance, take, drop, length, all, arith, Bool-cases,
}
use almond.Text.{print_u64}
use almond.Error.{AppResult, ok, err, internal_error}
use almond.RangeHeader.{RangeSpec, satisfiable, unsatisfiable, ignore}
use almond.RangeHeader.Bounds.{IsInside, parse_range_header-IsInside}
use almond.Tail.Slices.{length-take, length-drop}
use almond.Payments.{HeaderMap, as_text}
use almond.Serving.{
  Http, Response, build, honored_range, requested_range, range_text, range_not_satisfiable,
  file_response, serve_file_with_range, GetObject, s3_range, object_response, serve_s3_with_range,
  matches_or, FileFaults,
}

-- What a response says of its length, and of the range that it is.
abbrev pub content_length : Response → Option Bytes
content_length r = get r.headers (codes "content-length")

abbrev pub content_range : Response → Option Bytes
content_range r = get r.headers (codes "content-range")

-- The right answer to a range of a blob: the range itself and where it stands, or the whole blob, or
-- the refusal with the size; the length that is announced is that of the body.
abbrev pub IsAnswer : Bytes → RangeSpec → Response → Type 0
IsAnswer blob (satisfiable start end) r =
    (r.status ≡ 206)
    × (r.body ≡ take (end - start + 1) (drop start blob))
    × (content_length r ≡ some (print_u64 (length r.body)))
    × (content_range r ≡ some (codes "bytes " ++ range_text start end (length blob)))
IsAnswer blob unsatisfiable r =
    (r.status ≡ 416)
    × (r.body ≡ [])
    × (content_range r ≡ some (codes "bytes */" ++ print_u64 (length blob)))
IsAnswer blob ignore r =
    (r.status ≡ 200)
    × (r.body ≡ blob)
    × (content_length r ≡ some (print_u64 (length r.body)))
    × (content_range r ≡ none)

-- The only error that is left is that a text is no header value.
abbrev pub Answers : Bytes → RangeSpec → AppResult Response → Type 0
Answers blob spec (err e) = e ≡ internal_error
Answers blob spec (ok r) = IsAnswer blob spec r

-- A builder ends with the response, or because a text is no header value.
pub build-ends :
    (P : AppResult Response → Type 0) (http : Http) (status : ℕ) (headers : HashMap Bytes Bytes)
    (body : Bytes)
    → P (ok (record { status = status; headers = headers; body = body }))
    → P (err internal_error)
    → P (build http status headers body)
unfolding build
build-ends P http status headers body good bad =
    elim (Bool-cases (all (λ t. http.is_header_value t.1) headers)) [
      | inl values ↦ rw values good
      | inr other ↦ rw other bad
    ]

build-Answers :
    (http : Http) (blob : Bytes) (spec : RangeSpec) (status : ℕ) (headers : HashMap Bytes Bytes)
    (body : Bytes)
    → IsAnswer blob spec (record { status = status; headers = headers; body = body })
    → Answers blob spec (build http status headers body)
build-Answers http blob spec status headers body h =
    build-ends (Answers blob spec) http status headers body h refl

honored_range-IsInside :
    (honor : Bool) (range : Option Bytes) (n : ℕ) → IsInside (honored_range honor range n) n
unfolding honored_range
honored_range-IsInside true (some value) n = parse_range_header-IsInside value n
honored_range-IsInside true none n = tt
honored_range-IsInside false range n = tt

requested_range-IsInside :
    (headers : HeaderMap) (etag : Bytes) (n : ℕ) → IsInside (requested_range headers etag n) n
unfolding requested_range
requested_range-IsInside headers etag n =
    honored_range-IsInside (matches_or true (as_text (headers.header (codes "if-range"))) etag)
      (as_text (headers.header (codes "range"))) n

slice_length :
    (start end : ℕ) (blob : Bytes)
    → start ≤ end
    → end < length blob
    → length (take (end - start + 1) (drop start blob)) ≡ end - start + 1
slice_length start end blob h k =
    length-take (end - start + 1) (drop start blob) (omega (arith, length-drop start blob))

file_response-Answers :
    (http : Http) (io : FileFaults) (path content_type file etag : Bytes) (spec : RangeSpec)
    → io.seek_error ≡ false
    → IsInside spec (length file)
    → Answers file spec (file_response http io path content_type file etag spec)
unfolding file_response range_not_satisfiable get text_eq
file_response-Answers http io path content_type file etag (satisfiable start end) seeks (h, k) =
    let sent : length (take (end - start + 1) (drop start file)) ≡ end - start + 1 =
      slice_length start end file h k in
    rw seeks
      (build-Answers http file (satisfiable start end) 206 _ _ (refl, refl, rw sent refl, refl))
file_response-Answers http io path content_type file etag unsatisfiable seeks h =
    build-Answers http file unsatisfiable 416 _ _ (refl, refl, refl)
file_response-Answers http io path content_type file etag ignore seeks h =
    build-Answers http file ignore 200 _ _ (refl, refl, refl, refl)

-- The object store keeps to its documentation for an object: a `GetObject` returns its bytes, and
-- those of the range where one is asked for that lies in it.
pub record Holds (get_object : GetObject) (key blob : Bytes) : Type 0 where
  pub whole : get_object key none ≡ ok blob
  pub range :
      (start end : ℕ)
      → start ≤ end
      → end < length blob
      → get_object key (some (s3_range start end)) ≡ ok (take (end - start + 1) (drop start blob))

object_response-Answers :
    (http : Http) (get_object : GetObject) (key blob : Bytes) (mime_type : Option Bytes)
    (etag : Bytes) (spec : RangeSpec)
    → Holds get_object key blob
    → IsInside spec (length blob)
    → Answers blob spec (object_response http get_object key mime_type (length blob) etag spec)
unfolding object_response range_not_satisfiable get text_eq
object_response-Answers http get_object key blob mime_type etag (satisfiable start end) holds
      (h, k) =
    let sent : length (take (end - start + 1) (drop start blob)) ≡ end - start + 1 =
      slice_length start end blob h k in
    rw (holds.range start end h k)
      (build-Answers http blob (satisfiable start end) 206 _ _ (refl, refl, rw sent refl, refl))
object_response-Answers http get_object key blob mime_type etag unsatisfiable holds h =
    build-Answers http blob unsatisfiable 416 _ _ (refl, refl, refl)
object_response-Answers http get_object key blob mime_type etag ignore holds h =
    rw holds.whole (build-Answers http blob ignore 200 _ _ (refl, refl, refl, refl))

-- A file that can be read is there.
pub record IsReadable (io : FileFaults) : Type 0 where
  pub opens : io.open_error ≡ none
  pub stats : io.metadata_error ≡ none
  pub seeks : io.seek_error ≡ false

pub serve_file_with_range-Answers :
    (http : Http) (io : FileFaults) (file path : Bytes) (mime_type : Option Bytes)
    (headers : HeaderMap) (etag : Bytes)
    → IsReadable io
    → Answers file
        (requested_range headers etag (length file))
        (serve_file_with_range http io (some file) path mime_type headers etag)
unfolding serve_file_with_range file_response
serve_file_with_range-Answers http io file path mime_type headers etag readable =
    rw (readable.opens, readable.stats)
      (file_response-Answers http io path _ file etag _ readable.seeks
        (requested_range-IsInside headers etag (length file)))

pub serve_s3_with_range-Answers :
    (http : Http) (get_object : GetObject) (key blob : Bytes) (mime_type : Option Bytes)
    (headers : HeaderMap) (etag : Bytes)
    → Holds get_object key blob
    → Answers blob
        (requested_range headers etag (length blob))
        (serve_s3_with_range http get_object key mime_type (length blob) headers etag)
unfolding serve_s3_with_range
serve_s3_with_range-Answers http get_object key blob mime_type headers etag holds =
    object_response-Answers http get_object key blob mime_type etag _ holds
      (requested_range-IsInside headers etag (length blob))
