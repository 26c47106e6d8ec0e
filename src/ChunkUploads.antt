-- ===== src/ChunkUploads.antt =====
-- `patch_upload` of src/handlers/upload.rs: a chunk of a resumable upload, from its headers to the
-- answer. It composes ChunkHeaders, Authorization, ChunkSessions, the stream of Uploads, Payments,
-- Reconstruction and the publication of Storage. Where the chunks cannot be joined, the temporary
-- file of the joined blob is taken to be dropped.
pub mod Reservations
pub mod Published
pub mod Completing
pub mod Joined
pub mod Tests
use almond.Prelude.{
  ℕ, ◌+◌, Bool, true, false, not, ◌&&◌, Option, none, some, List, [], ◌∷◌, codes, ◌==◌,
  if◌then◌else◌, Bytes, insert, text_eq_instance, length, ◌%◌,
}
use almond.Text.{u64_mod}
use almond.Error.{
  AppError, AppResult, ok, err, bad_request, conflict, io_error, ensure, ◌>>=◌, ◌>>◌,
}
use almond.Auth.{AppState}
use almond.Authorization.{Authorized, authorize, bind, chunk_upload}
use almond.Payments
use almond.Payments.{as_text, Cdk, charge}
use almond.Retention
use almond.ChunkHeaders.{ChunkRequest, check_headers}
use almond.ChunkSessions.{
  ChunkUploadKey, ChunkInfo, ChunkUpload, SessionParams, SessionLimits, Reservation, granted,
  global_limit, per_pubkey_limit, Commit, incomplete, complete, overlap, param_mismatch,
  SessionState, reserve, release, commit, restore,
}
use almond.Reconstruction.{ChunkFaults, Disk, discard_chunk_files, reconstruct_blob}
use almond.Storage.{
  Storage, StoredBlob, BlobPublication, Outcome, ensure_not_quarantined, ensure_storage_capacity,
}
use almond.Storage.Publish.{publish_blob}
use almond.Uploads.{
  Request, Settings, extract_expiration, get_extension_from_mime, stream_to_temp_file,
}

-- The temporary path of `request` is that of the chunk.
pub record PatchRequest : Type 0 where
  pub request : Request
  pub create_dir_error : Bool
  pub committed_at : ℕ
  pub joined_path : Bytes
  pub chunk_faults : ChunkFaults

pub record PatchSettings : Type 0 where
  pub uploads : Settings
  pub max_chunk_size_bytes : ℕ
  pub limits : SessionLimits

pub record PatchNode (Wallet : Type 0) : Type 0 where
  pub app : AppState
  pub sessions : SessionState
  pub storage : Storage
  pub wallet : Option Wallet

-- The statuses `204` and `200`.
pub data PatchAnswer : Type 0 where
  no_content : PatchAnswer
  reconstructed : StoredBlob → PatchAnswer

-- `Vec::pop`
pub pop {ℓ} : {A : Type ℓ} → List A → List A
pop [] = []
pop (c ∷ []) = []
pop (c ∷ d ∷ cs) = c ∷ pop (d ∷ cs)

abbrev is_short_single : ℕ → List ChunkInfo → Bool
is_short_single upload_length [] = false
is_short_single upload_length (c ∷ []) = not (c.length == upload_length)
is_short_single upload_length (c ∷ d ∷ cs) = false

-- `sum::<u64>`, which wraps.
abbrev sum_lengths : List ChunkInfo → ℕ
sum_lengths [] = 0
sum_lengths (c ∷ cs) = (c.length + sum_lengths cs) % u64_mod

pub reconstruction : Settings → ChunkUpload → Bytes → ℕ → BlobPublication
reconstruction settings u sha256 size = record {
  sha256 = sha256;
  origin = Retention.upload;
  extension = get_extension_from_mime settings.mime_extension u.upload_type;
  mime_type = some u.upload_type;
  size = size;
  expiration = u.expiration;
}

abbrev chunk_info : PatchRequest → ChunkRequest → ChunkInfo
chunk_info r c = record {
  offset = c.upload_offset;
  length = c.content_length;
  chunk_path = r.request.temp_path;
}

abbrev session_params : Authorized → ChunkRequest → Option ℕ → SessionParams
session_params a c expiration = record {
  sha256 = c.sha256;
  owner = a.event.pubkey;
  upload_type = c.upload_type;
  upload_length = c.upload_length;
  expiration = expiration;
}

abbrev session_key : Authorized → ChunkRequest → ChunkUploadKey
session_key a c = record { pubkey = a.event.pubkey; sha256 = c.sha256 }

module _ {Token Wallet : Type 0} (cdk : Cdk Token Wallet) (settings : PatchSettings) where
  abbrev pub PatchReply : Type 0
  PatchReply = PatchNode Wallet × AppResult PatchAnswer

  abbrev pub discard : PatchRequest → PatchNode Wallet → List ChunkInfo → PatchNode Wallet
  discard r node chunks = record node {
    storage = record node.storage {
      disk = discard_chunk_files r.chunk_faults node.storage.disk chunks;
    };
  }

  abbrev pub stored_joined : PatchNode Wallet → Outcome StoredBlob → PatchReply
  stored_joined node (s, err e) = (record node { storage = s }, err e)
  stored_joined node (s, ok blob) = (record node { storage = s }, ok (reconstructed blob))

  abbrev pub joined :
      PatchNode Wallet → PatchRequest → ChunkUpload → Bytes → Disk × AppResult Bytes → PatchReply
  joined node r u sha256 (disk, err e) =
      (record node { storage = record node.storage { disk = disk } }, err e)
  joined node r u sha256 (disk, ok content) = stored_joined node (
      publish_blob (record node.storage { disk = insert disk r.joined_path content })
        r.request.faults r.joined_path (reconstruction settings.uploads u sha256 (length content))
        r.request.bound_at)

  pub completed : PatchNode Wallet → PatchRequest → ChunkRequest → ChunkUpload → PatchReply
  completed node r c u =
      if is_short_single c.upload_length u.chunks
      then (node, ok no_content)
      else if not (sum_lengths u.chunks == c.upload_length)
      then (node, ok no_content)
      else joined node r u c.sha256
          (reconstruct_blob settings.uploads.sha256_hex r.chunk_faults node.storage.disk u c.sha256)

  -- A refused payment puts the earlier chunks back, or gives all of them up.
  abbrev pub restored :
      PatchNode Wallet
      → PatchRequest
      → ChunkRequest
      → ChunkUpload
      → AppError
      → SessionState × Bool
      → PatchReply
  restored node r c u e (sessions, true) =
      (discard r (record node { sessions = sessions }) (chunk_info r c ∷ []), err e)
  restored node r c u e (sessions, false) =
      (discard r (record node { sessions = sessions }) u.chunks, err e)

  abbrev pub charged :
      PatchNode Wallet
      → PatchRequest
      → ChunkUploadKey
      → ChunkRequest
      → ChunkUpload
      → AppResult (Unit {0}) × Option Wallet
      → PatchReply
  charged node r key c u (err e, wallet) =
      restored (record node { wallet = wallet }) r c u e
        (restore node.sessions key (record u { chunks = pop u.chunks }))
  charged node r key c u (ok done, wallet) = completed (record node { wallet = wallet }) r c u

  abbrev pub committed :
      PatchNode Wallet
      → PatchRequest
      → ChunkUploadKey
      → ChunkRequest
      → SessionState × Commit
      → PatchReply
  committed node r key c (sessions, incomplete) =
      (record node { sessions = sessions }, ok no_content)
  committed node r key c (sessions, overlap) =
      (discard r (record node { sessions = sessions }) (chunk_info r c ∷ []), err conflict)
  committed node r key c (sessions, param_mismatch) =
      (discard r (record node { sessions = sessions }) (chunk_info r c ∷ []), err conflict)
  committed node r key c (sessions, complete u) =
      charged (record node { sessions = sessions }) r key c u
        (charge cdk settings.uploads.pricing node.wallet r.request.headers Payments.upload
          c.upload_length)

  -- An early return that gives the ticket back.
  abbrev pub released : PatchNode Wallet → ChunkUploadKey → AppError → PatchReply
  released node ticket e = (record node { sessions = release node.sessions ticket }, err e)

  abbrev pub written_chunk :
      PatchNode Wallet
      → PatchRequest
      → (key ticket : ChunkUploadKey) → ChunkRequest
      → SessionParams
      → Storage × (Bytes × AppResult (Unit {0}))
      → PatchReply
  written_chunk node r key ticket c params (s, (content, err e)) =
      released (discard r (record node { storage = s }) (chunk_info r c ∷ [])) ticket e
  written_chunk node r key ticket c params (s, (content, ok done)) =
      if not (length content == c.content_length)
      then released (discard r (record node { storage = s }) (chunk_info r c ∷ [])) ticket
          bad_request
      else committed (record node { storage = s }) r key c
          (commit node.sessions ticket params (chunk_info r c) r.committed_at)

  abbrev pub prepare : PatchNode Wallet → PatchRequest → ChunkRequest → AppResult (Unit {0})
  prepare node r c = do
    ensure_storage_capacity settings.uploads.quota node.storage.file_index r.request.available
        c.content_length
    ensure (not r.request.temp_dir_error) io_error
    ensure (not r.create_dir_error) io_error

  abbrev pub prepared :
      PatchNode Wallet
      → PatchRequest
      → (key ticket : ChunkUploadKey) → ChunkRequest
      → SessionParams
      → AppResult (Unit {0})
      → PatchReply
  prepared node r key ticket c params (err e) = released node ticket e
  prepared node r key ticket c params (ok done) =
      written_chunk node r key ticket c params
        (stream_to_temp_file node.storage r.request c.content_length)

  abbrev pub with_ticket :
      PatchNode Wallet
      → PatchRequest
      → ChunkUploadKey
      → ChunkRequest
      → SessionParams
      → SessionState × Reservation
      → PatchReply
  with_ticket node r key c params (sessions, global_limit) =
      (record node { sessions = sessions }, err conflict)
  with_ticket node r key c params (sessions, per_pubkey_limit) =
      (record node { sessions = sessions }, err conflict)
  with_ticket node r key c params (sessions, granted ticket) =
      prepared (record node { sessions = sessions }) r key ticket c params (prepare node r c)

  abbrev pub permitted :
      PatchNode Wallet
      → PatchRequest
      → Authorized
      → ChunkRequest
      → AppResult (Option ℕ)
      → PatchReply
  permitted node r a c (err e) = (node, err e)
  permitted node r a c (ok expiration) =
      with_ticket node r (session_key a c) c (session_params a c expiration)
        (reserve settings.limits node.sessions (session_key a c))

  abbrev pub bound_chunk :
      PatchNode Wallet
      → PatchRequest
      → Authorized
      → ChunkRequest
      → AppState × AppResult (Unit {0})
      → PatchReply
  bound_chunk node r a c (app, err e) = (record node { app = app }, err e)
  bound_chunk node r a c (app, ok done) =
      permitted (record node { app = app }) r a c
        (ensure_not_quarantined node.storage r.request.faults c.sha256
          >> extract_expiration r.request.headers r.request.now)

  abbrev pub authorized_chunk :
      PatchNode Wallet → PatchRequest → ChunkRequest → AppState × AppResult Authorized → PatchReply
  authorized_chunk node r c (app, err e) = (record node { app = app }, err e)
  authorized_chunk node r c (app, ok a) =
      bound_chunk (record node { app = app }) r a c (bind a app c.sha256 r.request.bound_at)

  abbrev pub with_headers : PatchNode Wallet → PatchRequest → AppResult ChunkRequest → PatchReply
  with_headers node r (err e) = (node, err e)
  with_headers node r (ok c) = authorized_chunk node r c (
      authorize settings.uploads.backend r.request.now
        (as_text (r.request.headers.header (codes "authorization"))) node.app chunk_upload)

  pub patch_upload : PatchNode Wallet → PatchRequest → PatchReply
  patch_upload node r = with_headers node r (
      check_headers settings.uploads.quota.max_blob_size_bytes settings.max_chunk_size_bytes
        r.request.headers)
