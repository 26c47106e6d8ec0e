-- ===== src/ChunkUploads/Joined.antt =====
-- `patch_upload` of src/handlers/upload.rs: what an upload has shown that its last chunk completes.
use mathlib.Core.Path.{subst}
use almond.Prelude.{ℕ, ◌≡◌, refl, sym, ap, ◌∙◌, Option, Bytes, codes, text_eq_instance}
use almond.Error.{AppResult, ok, err, >>=-eq-ok}
use almond.Auth.{AppState}
use almond.Authorization.{Authorized, authorize, bind, chunk_upload}
use almond.Authorization.Clearance.{IsCleared, authorize_sound}
use almond.Payments.{Cdk, as_text}
use almond.ChunkHeaders.{ChunkRequest, check_headers}
use almond.ChunkHeaders.Limits.{IsAdmissible, check_headers-IsAdmissible}
use almond.ChunkSessions.{
  ChunkUploadKey, SessionState, Reservation, granted, global_limit, per_pubkey_limit, reserve,
}
use almond.ChunkSessions.Held.{IsHeld, held, reserve-IsHeld}
use almond.Storage.{StoredBlob, ensure_not_quarantined}
use almond.Storage.Roots.{IsCachedInPlace}
use almond.ChunkUploads.{
  PatchRequest, PatchSettings, PatchNode, reconstructed, completed, permitted, session_key,
  session_params, bound_chunk, authorized_chunk, with_headers, patch_upload,
}
use almond.ChunkUploads.Published.{answered, no_error, IsAside}
use almond.ChunkUploads.Completing.{IsCompleted, with_ticket-ok}

reserve_ticket :
    (o : SessionState × Reservation) (key ticket : ChunkUploadKey) (before : ChunkUploadKey → ℕ)
    → IsHeld o key before
    → o.1 ≡ granted ticket
    → ticket ≡ key
reserve_ticket (s, granted t) key ticket before (same, holds) h =
    let given : t ≡ ticket = cc h in sym given ∙ same
reserve_ticket (s, global_limit) key ticket before holds h = cc h
reserve_ticket (s, per_pubkey_limit) key ticket before holds h = cc h

granted-eq :
    (settings : PatchSettings) {Wallet : Type 0} (node : PatchNode Wallet) (r : PatchRequest)
    (a : Authorized) (c : ChunkRequest) (ticket : ChunkUploadKey)
    → (reserve settings.limits node.sessions (session_key a c)).1 ≡ granted ticket
    → ticket ≡ session_key a c
granted-eq settings node r a c ticket h =
    reserve_ticket _ (session_key a c) ticket (held node.sessions)
      (reserve-IsHeld settings.limits node.sessions (session_key a c)) h

module _ {Token Wallet : Type 0} (cdk : Cdk Token Wallet) (settings : PatchSettings) where
  -- The state that `authorize` leaves.
  abbrev pub cleared_app : PatchRequest → PatchNode Wallet → AppState
  cleared_app r node =
      (authorize settings.uploads.backend r.request.now
        (as_text (r.request.headers.header (codes "authorization"))) node.app chunk_upload).0

  -- What is known of a request whose answer is a joined blob.
  pub record IsJoined (node after : PatchNode Wallet) (r : PatchRequest) (blob : StoredBlob)
      : Type 0 where
    pub chunk : ChunkRequest
    pub admissible :
        IsAdmissible settings.uploads.quota.max_blob_size_bytes settings.max_chunk_size_bytes chunk
    pub authorized : Authorized
    pub cleared : IsCleared settings.uploads.backend r.request.now node.app chunk_upload authorized
    pub bound : (bind authorized (cleared_app r node) chunk.sha256 r.request.bound_at).1 ≡ ok tt
    pub not_quarantined : ensure_not_quarantined node.storage r.request.faults chunk.sha256 ≡ ok tt
    pub expiration : Option ℕ
    pub reserved :
        (reserve settings.limits node.sessions (session_key authorized chunk)).1
        ≡ granted (session_key authorized chunk)
    pub app : AppState
    pub completed :
        IsCompleted cdk settings
          (record node {
            app = app;
            sessions = (reserve settings.limits node.sessions (session_key authorized chunk)).0;
          })
          after
          r
          (session_key authorized chunk)
          chunk
          (session_params authorized chunk expiration)
          blob

  permitted-ok :
      (node after : PatchNode Wallet) (r : PatchRequest) (a : Authorized) (c : ChunkRequest)
      (blob : StoredBlob) (o : AppResult (Option ℕ))
      → IsAside cdk settings node.storage.root c.sha256 r.joined_path
      → IsCachedInPlace node.storage c.sha256
      → permitted cdk settings node r a c o ≡ answered cdk settings after blob
      → (expiration : Option ℕ) × (o ≡ ok expiration)
        × (ticket : ChunkUploadKey) × ((reserve settings.limits node.sessions (session_key a c)).1
            ≡ granted ticket)
        × IsCompleted cdk settings
            (record node { sessions = (reserve settings.limits node.sessions (session_key a c)).0 })
            after
            r
            ticket
            c
            (session_params a c expiration)
            blob
  permitted-ok node after r a c blob (err e) aside cached h =
      absurd (no_error cdk settings _ after e blob refl h)
  permitted-ok node after r a c blob (ok expiration) aside cached h =
      let o = reserve settings.limits node.sessions (session_key a c) in
      let (ticket, given, completed) =
        with_ticket-ok cdk settings node after r (session_key a c) c (session_params a c expiration)
          blob o aside cached h in
      (expiration, refl, ticket, ap (λ x. x.1) given, completed)

  bound_chunk-IsJoined :
      (node after : PatchNode Wallet) (r : PatchRequest) (a : Authorized) (c : ChunkRequest)
      (blob : StoredBlob) (o : AppState × AppResult (Unit {0}))
      → bind a (cleared_app r node) c.sha256 r.request.bound_at ≡ o
      → IsAside cdk settings node.storage.root c.sha256 r.joined_path
      → IsCachedInPlace node.storage c.sha256
      → IsAdmissible settings.uploads.quota.max_blob_size_bytes settings.max_chunk_size_bytes c
      → IsCleared settings.uploads.backend r.request.now node.app chunk_upload a
      → bound_chunk cdk settings (record node { app = cleared_app r node }) r a c o
        ≡ answered cdk settings after blob
      → IsJoined node after r blob
  bound_chunk-IsJoined node after r a c blob (app, err e) binds aside cached admissible cleared h =
      absurd (no_error cdk settings _ after e blob refl h)
  bound_chunk-IsJoined node after r a c blob (app, ok done) binds aside cached admissible cleared
        h =
      let (expiration, passes, ticket, given, completed) =
        permitted-ok (record node { app = app }) after r a c blob _ aside cached h in
      let (quiet, clear, k) =
        >>=-eq-ok (ensure_not_quarantined node.storage r.request.faults c.sha256) _ passes in
      let same : ticket ≡ session_key a c = granted-eq settings node r a c ticket given in
      record {
        chunk = c;
        admissible = admissible;
        authorized = a;
        cleared = cleared;
        bound = ap (λ x. x.1) binds;
        not_quarantined = clear;
        expiration = expiration;
        reserved = given ∙ ap granted same;
        app = app;
        completed =
            subst
              (λ t.
                IsCompleted cdk settings
                  (record node {
                    app = app;
                    sessions = (reserve settings.limits node.sessions (session_key a c)).0;
                  })
                  after r t c (session_params a c expiration) blob)
              same completed;
      }

  authorized_chunk-IsJoined :
      (node after : PatchNode Wallet) (r : PatchRequest) (c : ChunkRequest) (blob : StoredBlob)
      (o : AppState × AppResult Authorized)
      → authorize settings.uploads.backend r.request.now
          (as_text (r.request.headers.header (codes "authorization")))
          node.app
          chunk_upload
        ≡ o
      → IsAside cdk settings node.storage.root c.sha256 r.joined_path
      → IsCachedInPlace node.storage c.sha256
      → IsAdmissible settings.uploads.quota.max_blob_size_bytes settings.max_chunk_size_bytes c
      → authorized_chunk cdk settings node r c o ≡ answered cdk settings after blob
      → IsJoined node after r blob
  authorized_chunk-IsJoined node after r c blob (app, err e) made aside cached admissible h =
      absurd (no_error cdk settings _ after e blob refl h)
  authorized_chunk-IsJoined node after r c blob (app, ok a) made aside cached admissible h =
      let at_app : cleared_app r node ≡ app = ap (λ x. x.0) made in
      let header = as_text (r.request.headers.header (codes "authorization")) in
      bound_chunk-IsJoined node after r a c blob
        (bind a (cleared_app r node) c.sha256 r.request.bound_at) refl aside cached admissible
        (authorize_sound settings.uploads.backend r.request.now header node.app chunk_upload a
          (ap (λ x. x.1) made))
        (subst
          (λ x.
            bound_chunk cdk settings (record node { app = x }) r a c
              (bind a x c.sha256 r.request.bound_at)
            ≡ answered cdk settings after blob)
          (sym at_app) h)

  with_headers-IsJoined :
      (node after : PatchNode Wallet) (r : PatchRequest) (blob : StoredBlob)
      (o : AppResult ChunkRequest)
      → check_headers settings.uploads.quota.max_blob_size_bytes settings.max_chunk_size_bytes
          r.request.headers
        ≡ o
      → ((sha256 : Bytes) → IsAside cdk settings node.storage.root sha256 r.joined_path)
      → ((sha256 : Bytes) → IsCachedInPlace node.storage sha256)
      → with_headers cdk settings node r o ≡ answered cdk settings after blob
      → IsJoined node after r blob
  with_headers-IsJoined node after r blob (err e) made aside cached h =
      absurd (no_error cdk settings _ after e blob refl h)
  with_headers-IsJoined node after r blob (ok c) made aside cached h =
      authorized_chunk-IsJoined node after r c blob _ refl (aside c.sha256) (cached c.sha256)
        (check_headers-IsAdmissible _ _ r.request.headers c made) h

  -- A chunk request that is answered with a joined blob has passed everything it should: its headers
  -- are admissible, `authorize` cleared its client to upload chunks with an event that is bound to
  -- the hash, the hash is not quarantined, and a place for its session was reserved; its body is as
  -- long as declared and completes the session; the charge for the upload length has passed; and
  -- the joined content has the length and the hash of the upload, with each chunk's file at the
  -- offset of the chunk, and is stored and indexed under the hash, or the hash was indexed already
  -- and the index stays as it is. The temporary file of the joined blob is taken to lie aside, and
  -- cached copies where the cache puts its files.
  pub patch_upload-IsJoined :
      (node after : PatchNode Wallet) (r : PatchRequest) (blob : StoredBlob)
      → ((sha256 : Bytes) → IsAside cdk settings node.storage.root sha256 r.joined_path)
      → ((sha256 : Bytes) → IsCachedInPlace node.storage sha256)
      → patch_upload cdk settings node r ≡ (after, ok (reconstructed blob))
      → IsJoined node after r blob
  unfolding patch_upload
  patch_upload-IsJoined node after r blob aside cached h =
      with_headers-IsJoined node after r blob _ refl aside cached h
