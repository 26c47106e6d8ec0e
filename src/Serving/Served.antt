-- ===== src/Serving/Served.antt =====
-- `serve_blob` of src/handlers/file_serving.rs: what it answers for a blob that is held.
use mathlib.Core.Logic.{inl, inr}
use almond.Prelude.{
  ℕ, ◌≡◌, refl, true, false, Option, none, some, [], text_eq, Bytes, get, text_eq_instance, length,
  Bool-cases,
}
use almond.Text.{print_u64}
use almond.Error.{AppError, AppResult, ok, err, internal_error}
use almond.RangeHeader.{RangeSpec, satisfiable, unsatisfiable, ignore}
use almond.Payments.{HeaderMap, Pricing, Cdk, charge, download}
use almond.Serving.{
  Http, Method, get_method, head_method, Response, blob_etag, is_not_modified, not_modified,
  build_blob_head_response, requested_range,
}
use almond.Serving.Ranges.{
  Answers, content_length, Holds, IsReadable, serve_file_with_range-Answers,
  serve_s3_with_range-Answers, build-ends,
}
use almond.Serving.Blobs.{
  BlobBytes, local_file, native, Bucket, sunset_header, announce, serve_bytes, after_charge,
  announced, respond, serve_blob,
}

-- The store holds the blob where the bytes are looked for.
abbrev pub IsHeld : Bucket → Bytes → BlobBytes → Type 0
IsHeld store blob (local_file path) = (get store.disk path ≡ some blob) × IsReadable store.faults
IsHeld store blob (native key) = Holds store.get_object key blob

-- A response with no body, or the error that a text is no header value.
abbrev pub IsBare : ℕ → AppResult Response → Type 0
IsBare status (err e) = e ≡ internal_error
IsBare status (ok r) = (r.status ≡ status) × (r.body ≡ [])

abbrev pub IsHead : ℕ → AppResult Response → Type 0
IsHead size (err e) = e ≡ internal_error
IsHead size (ok r) = (r.status ≡ 200) × (r.body ≡ []) × (content_length r ≡ some (print_u64 size))

module _ {Token Wallet : Type 0} (cdk : Cdk Token Wallet) where
  -- How a held blob is served: a client that has it is told so and pays nothing, and so is one that
  -- asks for the headers; any other is charged for the size, and gets the error of the charge or the
  -- right answer to its range.
  pub data Serves (s : Pricing) (wallet : Option Wallet) (headers : HeaderMap) (method : Method)
      (etag blob : Bytes) : AppResult Response × Option Wallet → Type 0 where
    revalidated :
        {r : AppResult Response}
        → is_not_modified headers etag ≡ true
        → IsBare 304 r
        → Serves s wallet headers method etag blob (r, wallet)
    described :
        {r : AppResult Response}
        → is_not_modified headers etag ≡ false
        → method ≡ head_method
        → IsHead (length blob) r
        → Serves s wallet headers method etag blob (r, wallet)
    refused :
        {e : AppError} {after : Option Wallet}
        → is_not_modified headers etag ≡ false
        → method ≡ get_method
        → charge cdk s wallet headers download (length blob) ≡ (err e, after)
        → Serves s wallet headers method etag blob (err e, after)
    served :
        {r : AppResult Response} {after : Option Wallet}
        → is_not_modified headers etag ≡ false
        → method ≡ get_method
        → charge cdk s wallet headers download (length blob) ≡ (ok tt, after)
        → Answers blob (requested_range headers etag (length blob)) r
        → Serves s wallet headers method etag blob (r, after)

serve_bytes-Answers :
    (http : Http) (store : Bucket) (headers : HeaderMap) (etag blob : Bytes)
    (mime_type : Option Bytes) (bytes : BlobBytes)
    → IsHeld store blob bytes
    → Answers blob
        (requested_range headers etag (length blob))
        (serve_bytes http store headers etag (length blob) mime_type bytes)
unfolding serve_bytes
serve_bytes-Answers http store headers etag blob mime_type (local_file path) (there, readable) =
    rw there
      (serve_file_with_range-Answers http store.faults blob path mime_type headers etag readable)
serve_bytes-Answers http store headers etag blob mime_type (native key) holds =
    serve_s3_with_range-Answers http store.get_object key blob mime_type headers etag holds

-- The date of deletion changes none of this.
announce-Answers :
    (blob : Bytes) (spec : RangeSpec) (sunset : Option Bytes) (r : AppResult Response)
    → Answers blob spec r
    → Answers blob spec (announce sunset r)
unfolding get text_eq
announce-Answers blob spec sunset (err e) h = h
announce-Answers blob spec none (ok r) h = h
announce-Answers blob (satisfiable start end) (some date) (ok r) h = h
announce-Answers blob unsatisfiable (some date) (ok r) h = h
announce-Answers blob ignore (some date) (ok r) h = h

announce-IsBare :
    (status : ℕ) (sunset : Option Bytes) (r : AppResult Response)
    → IsBare status r
    → IsBare status (announce sunset r)
announce-IsBare status sunset (err e) h = h
announce-IsBare status none (ok r) h = h
announce-IsBare status (some date) (ok r) h = h

announce-IsHead :
    (size : ℕ) (sunset : Option Bytes) (r : AppResult Response)
    → IsHead size r
    → IsHead size (announce sunset r)
unfolding get text_eq
announce-IsHead size sunset (err e) h = h
announce-IsHead size none (ok r) h = h
announce-IsHead size (some date) (ok r) h = h

not_modified-IsBare : (http : Http) (etag : Bytes) → IsBare 304 (not_modified http etag)
unfolding not_modified
not_modified-IsBare http etag = build-ends (IsBare 304) http 304 _ [] (refl, refl) refl

build_blob_head_response-IsHead :
    (http : Http) (mime_type : Option Bytes) (size : ℕ) (etag : Bytes)
    → IsHead size (build_blob_head_response http mime_type size etag)
unfolding build_blob_head_response get text_eq
build_blob_head_response-IsHead http mime_type size etag =
    build-ends (IsHead size) http 200 _ [] (refl, refl, refl) refl

module _ {Token Wallet : Type 0} (cdk : Cdk Token Wallet) where
  charged-Serves :
      (s : Pricing) (wallet : Option Wallet) (headers : HeaderMap) (etag blob : Bytes)
      (sunset : Option Bytes) (r : AppResult Response)
      → is_not_modified headers etag ≡ false
      → Answers blob (requested_range headers etag (length blob)) r
      → (c : AppResult (Unit {0}) × Option Wallet)
      → charge cdk s wallet headers download (length blob) ≡ c
      → Serves cdk s wallet headers get_method etag blob (announced sunset (after_charge r c))
  charged-Serves s wallet headers etag blob sunset r unknown answers (err e, after) h =
      refused unknown refl h
  charged-Serves s wallet headers etag blob sunset r unknown answers (ok done, after) h =
      served unknown refl h (announce-Answers blob _ sunset r answers)

  respond-Serves :
      (s : Pricing) (wallet : Option Wallet) (http : Http) (store : Bucket) (headers : HeaderMap)
      (method : Method) (etag blob : Bytes) (mime_type sunset : Option Bytes) (bytes : BlobBytes)
      → IsHeld store blob bytes
      → is_not_modified headers etag ≡ false
      → Serves cdk s wallet headers method etag blob (
          announced sunset
            (respond cdk s wallet http store headers method etag (length blob) mime_type bytes))
  unfolding respond
  respond-Serves s wallet http store headers head_method etag blob mime_type sunset bytes held
        unknown =
      let r = build_blob_head_response http mime_type (length blob) etag in
      described unknown refl (
        announce-IsHead (length blob) sunset r
          (build_blob_head_response-IsHead http mime_type (length blob) etag))
  respond-Serves s wallet http store headers get_method etag blob mime_type sunset bytes held
        unknown =
      let r = serve_bytes http store headers etag (length blob) mime_type bytes in
      charged-Serves s wallet headers etag blob sunset r unknown
        (serve_bytes-Answers http store headers etag blob mime_type bytes held)
        (charge cdk s wallet headers download (length blob)) refl

  -- A held blob is served as `Serves` says, whatever the headers, the method, the prices and the
  -- wallet, with the date of its deletion or without.
  pub serve_blob-Serves :
      (s : Pricing) (wallet : Option Wallet) (http : Http) (store : Bucket) (headers : HeaderMap)
      (method : Method) (file_hash blob : Bytes) (mime_type : Option Bytes) (expiration : Option ℕ)
      (bytes : BlobBytes)
      → IsHeld store blob bytes
      → Serves cdk s wallet headers method (blob_etag file_hash) blob (
          serve_blob cdk s wallet http store headers method file_hash
            (length blob)
            mime_type
            expiration
            bytes)
  unfolding serve_blob respond
  serve_blob-Serves s wallet http store headers method file_hash blob mime_type expiration bytes
        held =
      let etag = blob_etag file_hash in
      let sunset = sunset_header http expiration in
      elim (Bool-cases (is_not_modified headers etag)) [
        | inl known ↦ rw known (
            revalidated known
              (announce-IsBare 304 sunset (not_modified http etag) (not_modified-IsBare http etag)))
        | inr unknown ↦ rw unknown (
            respond-Serves s wallet http store headers method etag blob mime_type sunset bytes held
              unknown)
      ]
