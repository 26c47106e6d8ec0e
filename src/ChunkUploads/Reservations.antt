-- ===== src/ChunkUploads/Reservations.antt =====
-- `patch_upload` of src/handlers/upload.rs: the tickets that it takes and gives back.
use mathlib.Core.Path.{subst}
use almond.Prelude.{
  ℕ, refl, sym, Bool, true, false, Option, Bytes, text_eq_instance, Bool-cases, inl, inr, length,
  ◌==◌,
}
use almond.Error.{AppError, AppResult, ok, err}
use almond.Auth.{AppState}
use almond.Authorization.{Authorized}
use almond.Payments.{Cdk}
use almond.ChunkHeaders.{ChunkRequest}
use almond.ChunkSessions.{
  ChunkUploadKey, ChunkUpload, SessionParams, SessionState, Reservation, granted, global_limit,
  per_pubkey_limit, Commit, incomplete, complete, overlap, param_mismatch, reserve, restore,
}
use almond.ChunkSessions.Held.{
  held, Holds, Returns, IsHeld, release-Returns, commit-Returns, restore-Returns, reserve-IsHeld,
}
use almond.Reconstruction.{Disk}
use almond.Storage.{Storage, StoredBlob, Outcome}
use almond.ChunkUploads.{
  PatchRequest, PatchSettings, PatchNode, PatchReply, stored_joined, joined, completed, charged,
  restored, committed, chunk_info, written_chunk, prepared, with_ticket, permitted, session_key,
  session_params, bound_chunk, authorized_chunk, with_headers, patch_upload, pop, is_short_single,
  sum_lengths,
}

module _ {Token Wallet : Type 0} (cdk : Cdk Token Wallet) (settings : PatchSettings)
    (before : ChunkUploadKey → ℕ) where
  -- A reply after which the tickets are those of before.
  abbrev GivesBack : PatchReply cdk settings → Type 0
  GivesBack reply = Returns reply.0.sessions before

  stored_joined-GivesBack :
      (node : PatchNode Wallet) (o : Outcome StoredBlob)
      → Returns node.sessions before
      → GivesBack (stored_joined cdk settings node o)
  stored_joined-GivesBack node (s, err e) h = h
  stored_joined-GivesBack node (s, ok blob) h = h

  joined-GivesBack :
      (node : PatchNode Wallet) (r : PatchRequest) (u : ChunkUpload) (sha256 : Bytes)
      (o : Disk × AppResult Bytes)
      → Returns node.sessions before
      → GivesBack (joined cdk settings node r u sha256 o)
  joined-GivesBack node r u sha256 (disk, err e) h = h
  joined-GivesBack node r u sha256 (disk, ok content) h = stored_joined-GivesBack node _ h

  completed-GivesBack :
      (node : PatchNode Wallet) (r : PatchRequest) (c : ChunkRequest) (u : ChunkUpload)
      → Returns node.sessions before
      → GivesBack (completed cdk settings node r c u)
  unfolding completed
  completed-GivesBack node r c u h = elim (Bool-cases (is_short_single c.upload_length u.chunks)) [
    | inl short ↦ rw short h
    | inr long ↦ rw long (elim (Bool-cases (sum_lengths u.chunks == c.upload_length)) [
      | inl whole ↦ rw whole (joined-GivesBack node r u c.sha256 _ h)
      | inr partial ↦ rw partial h
    ])
  ]

  restored-GivesBack :
      (node : PatchNode Wallet) (r : PatchRequest) (c : ChunkRequest) (u : ChunkUpload)
      (e : AppError) (o : SessionState × Bool)
      → Returns o.0 before
      → GivesBack (restored cdk settings node r c u e o)
  restored-GivesBack node r c u e (sessions, true) h = h
  restored-GivesBack node r c u e (sessions, false) h = h

  charged-GivesBack :
      (node : PatchNode Wallet) (r : PatchRequest) (key : ChunkUploadKey) (c : ChunkRequest)
      (u : ChunkUpload) (o : AppResult (Unit {0}) × Option Wallet)
      → Returns node.sessions before
      → GivesBack (charged cdk settings node r key c u o)
  charged-GivesBack node r key c u (err e, wallet) h =
      let kept = record u { chunks = pop u.chunks } in
      restored-GivesBack (record node { wallet = wallet }) r c u e (restore node.sessions key kept)
        (restore-Returns node.sessions key kept before h)
  charged-GivesBack node r key c u (ok done, wallet) h =
      completed-GivesBack (record node { wallet = wallet }) r c u h

  committed-GivesBack :
      (node : PatchNode Wallet) (r : PatchRequest) (key : ChunkUploadKey) (c : ChunkRequest)
      (o : SessionState × Commit)
      → Returns o.0 before
      → GivesBack (committed cdk settings node r key c o)
  committed-GivesBack node r key c (sessions, incomplete) h = h
  committed-GivesBack node r key c (sessions, overlap) h = h
  committed-GivesBack node r key c (sessions, param_mismatch) h = h
  committed-GivesBack node r key c (sessions, complete u) h =
      charged-GivesBack (record node { sessions = sessions }) r key c u _ h

  written_chunk-GivesBack :
      (node : PatchNode Wallet) (r : PatchRequest) (key ticket : ChunkUploadKey) (c : ChunkRequest)
      (params : SessionParams) (o : Storage × (Bytes × AppResult (Unit {0})))
      → Holds node.sessions ticket before
      → GivesBack (written_chunk cdk settings node r key ticket c params o)
  written_chunk-GivesBack node r key ticket c params (s, (content, err e)) h =
      release-Returns node.sessions ticket before h
  written_chunk-GivesBack node r key ticket c params (s, (content, ok done)) h =
      elim (Bool-cases (length content == c.content_length)) [
        | inl all_of_it ↦ rw all_of_it (
            committed-GivesBack (record node { storage = s }) r key c _
              (commit-Returns node.sessions ticket params (chunk_info r c) r.committed_at before h))
        | inr other ↦ rw other (release-Returns node.sessions ticket before h)
      ]

  prepared-GivesBack :
      (node : PatchNode Wallet) (r : PatchRequest) (key ticket : ChunkUploadKey) (c : ChunkRequest)
      (params : SessionParams) (o : AppResult (Unit {0}))
      → Holds node.sessions ticket before
      → GivesBack (prepared cdk settings node r key ticket c params o)
  prepared-GivesBack node r key ticket c params (err e) h =
      release-Returns node.sessions ticket before h
  prepared-GivesBack node r key ticket c params (ok done) h =
      written_chunk-GivesBack node r key ticket c params _ h

  with_ticket-GivesBack :
      (node : PatchNode Wallet) (r : PatchRequest) (key : ChunkUploadKey) (c : ChunkRequest)
      (params : SessionParams) (o : SessionState × Reservation)
      → IsHeld o key before
      → GivesBack (with_ticket cdk settings node r key c params o)
  with_ticket-GivesBack node r key c params (sessions, global_limit) h = h
  with_ticket-GivesBack node r key c params (sessions, per_pubkey_limit) h = h
  with_ticket-GivesBack node r key c params (sessions, granted ticket) (same, h) =
      prepared-GivesBack (record node { sessions = sessions }) r key ticket c params _
        (subst (λ t. Holds sessions t before) (sym same) h)

module _ {Token Wallet : Type 0} (cdk : Cdk Token Wallet) (settings : PatchSettings) where
  -- The tickets that are out for a key after a request are those that were out before it.
  abbrev pub Settles : PatchNode Wallet → PatchReply cdk settings → Type 0
  Settles node reply = Returns reply.0.sessions (held node.sessions)

  permitted-Settles :
      (node : PatchNode Wallet) (r : PatchRequest) (a : Authorized) (c : ChunkRequest)
      (o : AppResult (Option ℕ))
      → Settles node (permitted cdk settings node r a c o)
  permitted-Settles node r a c (err e) = λ k. refl
  permitted-Settles node r a c (ok expiration) =
      let key = session_key a c in
      with_ticket-GivesBack cdk settings (held node.sessions) node r key c
        (session_params a c expiration) (reserve settings.limits node.sessions key)
        (reserve-IsHeld settings.limits node.sessions key)

  bound_chunk-Settles :
      (node : PatchNode Wallet) (r : PatchRequest) (a : Authorized) (c : ChunkRequest)
      (o : AppState × AppResult (Unit {0}))
      → Settles node (bound_chunk cdk settings node r a c o)
  bound_chunk-Settles node r a c (app, err e) = λ k. refl
  bound_chunk-Settles node r a c (app, ok done) =
      permitted-Settles (record node { app = app }) r a c _

  authorized_chunk-Settles :
      (node : PatchNode Wallet) (r : PatchRequest) (c : ChunkRequest)
      (o : AppState × AppResult Authorized)
      → Settles node (authorized_chunk cdk settings node r c o)
  authorized_chunk-Settles node r c (app, err e) = λ k. refl
  authorized_chunk-Settles node r c (app, ok a) =
      bound_chunk-Settles (record node { app = app }) r a c _

  with_headers-Settles :
      (node : PatchNode Wallet) (r : PatchRequest) (o : AppResult ChunkRequest)
      → Settles node (with_headers cdk settings node r o)
  with_headers-Settles node r (err e) = λ k. refl
  with_headers-Settles node r (ok c) = authorized_chunk-Settles node r c _

  -- However a chunk request ends, with any error or either answer, it has given back the reservation
  -- that it took: for every key, as many tickets are out after it as were before.
  pub patch_upload-Settles :
      (node : PatchNode Wallet) (r : PatchRequest) → Settles node (patch_upload cdk settings node r)
  unfolding patch_upload
  patch_upload-Settles node r = with_headers-Settles node r _
