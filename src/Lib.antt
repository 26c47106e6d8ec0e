-- ===== src/Lib.antt =====
-- Almond is a Blossom media server: it stores blobs named by their SHA-256 on disk or in an S3
-- bucket, admits writes by signed Nostr events, takes chunked uploads, caches blobs of other servers
-- and deletes blobs by age and capacity. This library models the parts that decide, and proves what
-- makes them correct.
--
-- The files, and the code that they model:
--   Prelude: shared names, Boolean tests, lists, the finite maps that stand for HashMap and HashSet
--     with their laws, and counts of keys.
--   Text: what the code uses of Rust's str and u64 (digits, splitting, trimming), on bytes of ASCII.
--   Error: src/error.rs, the errors and their status codes; message texts are not modelled.
--   BlobName: src/services/blob_name.rs, and the object keys of src/services/native_storage.rs.
--     The storage backends name every file and object by it, and the index is rebuilt from names.
--   RangeHeader: parse_range_header of src/utils.rs, which the file handlers use.
--   ChunkSessions: src/services/chunk_sessions.rs with the session types of src/models.rs. A method
--     holds the write lock for its whole body, so interleavings of requests are sequences of calls.
--   Auth: src/services/auth.rs, the checks on an authorization event.
--   Authorization: src/services/authorization.rs, which composes those checks into the decision
--     that every handler asks for, and makes a destructive event single-use.
--   Ssrf: src/services/upload.rs, the addresses that a fetch may reach and the fetch that follows
--     redirects.
--   Candidates: src/services/upstream_candidates.rs, which upstream server is tried next; it passes
--     each through the address checks of Ssrf.
--   Tail: src/services/tail.rs, the stream that follows a download while it writes its file.
--   Negotiation, Downloads: src/services/download.rs, who leads a download from upstream and who
--     follows it, and the handles of the downloads under way, whose progress Tail reads.
--   Storage: src/services/file_storage.rs and the object operations of src/services/native_storage.rs,
--     how a blob enters and leaves storage: a publication writes a file or an object under its
--     BlobName and enters it in BlobIndex, a removal undoes both. Any file or object operation may
--     fail, as an argument says; a bucket listing that fails does so before the first object.
--   BlobIndex: src/services/blob_index.rs, the operations that change the catalogue of blobs and
--     its pages; the entries are those of Retention, and uploads and upstream copies enter it by publish.
--   Retention: the cleanup deadlines, the announced date and the capacity eviction of src/utils.rs,
--     and the size limits of src/services/intake.rs.
--   ChunkHeaders: the checks of patch_upload of src/handlers/upload.rs on the headers of a chunk,
--     before it reserves a place in ChunkSessions.
--   Reconstruction: reconstruct_blob of src/handlers/upload.rs, which joins the chunks of a completed
--     session of ChunkSessions to one blob for Storage.
--   Serving: src/handlers/file_serving.rs, from the name in a request to the response: where the blob
--     comes from, whether the client has it already, the charge, and the range; with the memory of
--     the hashes that no upstream server had.
--   Uploads: upload_file of src/handlers/upload.rs with stream_to_temp_file of src/services/upload.rs:
--     the composition of Authorization, the stream of the body to a temporary file, Payments and the
--     publication of Storage, with every early return.
--   Mirrors: mirror_blob of src/handlers/upload.rs, the upload of what Ssrf fetches from a URL, with
--     stream_response_to_temp_file of src/services/upload.rs.
--   ChunkUploads: patch_upload of src/handlers/upload.rs, which composes ChunkHeaders, Authorization,
--     ChunkSessions, the stream of Uploads, Payments, Reconstruction and the publication of Storage.
--   Deletion: delete_blob of src/handlers/delete.rs, the composition of Authorization, whose bind uses
--     an event up, and the removal of Storage.
--   Listing: list_blobs of src/handlers/list.rs, a page of BlobIndex for a client that Authorization
--     clears to list.
--   Payments: src/services/cashu.rs, what an operation costs and how a token pays for it; the handlers
--     ask it before they store or serve a blob.
--
-- State is passed explicitly; a method returns the new state beside its result, also where it
-- fails. Numbers are natural numbers, with the bound of u64 written where the code checks, saturates,
-- parses, or may wrap around (the total of BlobIndex). The only bounded recursion is the printing of
-- a number, with 20 rounds, which is enough for every u64 as the round trip shows. Time is an
-- argument.
--
-- What the code takes from other crates is a parameter: signature checks, the decoding of the
-- Authorization header (base64, UTF-8, JSON) and the query for a DVM announcement are the fields of
-- Auth.Backend; URL parsing, DNS and the HTTP client are those of Ssrf.Net; an author's server list
-- is one of Candidates.Context; tokens and the wallet are Payments.Cdk; header values, MIME tables
-- and dates are Serving.Http, key formats Serving.Sources.Lookups, and GetObject of the bucket is an
-- argument of Serving; SHA-256 and the MIME table are those of Uploads.Settings; the JSON of a request
-- to mirror is a field of Mirrors.MirrorRequest, and a hexadecimal key is read by an argument of
-- Listing; whether a deletion succeeds is an argument of Retention.evict. The handlers are modelled
-- one request at a time. Not modelled: HTTP routing, the handlers of upstream downloads, reports and
-- HLS playlists, file system and S3 calls, how the Cashu wallet is opened, relay queries,
-- configuration, metrics, and the snapshot and the key list of the catalogue.
pub mod Prelude
pub mod Text
pub mod Error
pub mod BlobName
pub mod RangeHeader
pub mod ChunkSessions
pub mod Auth
pub mod Authorization
pub mod Ssrf
pub mod Candidates
pub mod Tail
pub mod Negotiation
pub mod Downloads
pub mod Storage
pub mod BlobIndex
pub mod Retention
pub mod Payments
pub mod Reconstruction
pub mod ChunkHeaders
pub mod Serving
pub mod Uploads
pub mod ChunkUploads
pub mod Deletion
pub mod Listing
pub mod Mirrors
