-- ===== src/ChunkUploads/Completing.antt =====
-- `patch_upload` of src/handlers/upload.rs: what the chunk that completes an upload has passed.
use mathlib.Core.Path.{subst}
use almond.Prelude.{
  ◌≡◌, refl, sym, ap, ◌∙◌, Bytes, text_eq_instance, Bool-cases, inl, inr, length, ◌==◌, ==_iff,
}
use almond.Error.{conflict, bad_request, AppResult, ok, err}
use almond.Payments
use almond.Payments.{Cdk, charge, as_text}
use almond.ChunkHeaders.{ChunkRequest}
use almond.ChunkSessions.{
  ChunkUploadKey, ChunkUpload, SessionParams, SessionState, Reservation, granted, global_limit,
  per_pubkey_limit, Commit, incomplete, complete, overlap, param_mismatch, commit,
}
use almond.Storage.{Storage, StoredBlob}
use almond.Storage.Roots.{IsCachedInPlace}
use almond.Uploads.{stream_to_temp_file}
use almond.Uploads.Streams.{bytes_of, stream_to_temp_file-ok}
use almond.ChunkUploads.{
  PatchRequest, PatchSettings, PatchNode, committed, chunk_info, written_chunk, prepare, prepared,
  with_ticket,
}
use almond.ChunkUploads.Published.{
  answered, no_error, no_chunk, with_file, IsPublished, IsAside, charged-ok,
}

module _ {Token Wallet : Type 0} (cdk : Cdk Token Wallet) (settings : PatchSettings) where
  -- What a completing request has passed from the writing of its chunk on.
  pub record IsCompleted (node after : PatchNode Wallet) (r : PatchRequest)
      (ticket : ChunkUploadKey) (c : ChunkRequest) (params : SessionParams) (blob : StoredBlob)
      : Type 0 where
    pub sessions : SessionState
    pub upload : ChunkUpload
    pub completes :
        commit node.sessions ticket params (chunk_info r c) r.committed_at
        ≡ (sessions, complete upload)
    pub length_of_body : length (bytes_of r.request.body) ≡ c.content_length
    pub paid :
        charge cdk settings.uploads.pricing node.wallet r.request.headers Payments.upload
          c.upload_length
        ≡ (ok tt, after.wallet)
    pub published :
        IsPublished cdk settings
          (with_file cdk settings node.storage r.request.temp_path (bytes_of r.request.body))
          after
          r
          upload
          c.sha256
          blob

  committed-ok :
      (node after : PatchNode Wallet) (r : PatchRequest) (key : ChunkUploadKey) (c : ChunkRequest)
      (blob : StoredBlob) (o : SessionState × Commit)
      → IsAside cdk settings node.storage.root c.sha256 r.joined_path
      → IsCachedInPlace node.storage c.sha256
      → committed cdk settings node r key c o ≡ answered cdk settings after blob
      → (u : ChunkUpload) × (o ≡ (o.0, complete u))
        × IsPublished cdk settings node.storage after r u c.sha256 blob
        × (charge cdk settings.uploads.pricing node.wallet r.request.headers Payments.upload
              c.upload_length
            ≡ (ok tt, after.wallet))
  committed-ok node after r key c blob (sessions, incomplete) aside cached h =
      absurd (no_chunk cdk settings _ after blob refl h)
  committed-ok node after r key c blob (sessions, overlap) aside cached h =
      absurd (no_error cdk settings _ after conflict blob refl h)
  committed-ok node after r key c blob (sessions, param_mismatch) aside cached h =
      absurd (no_error cdk settings _ after conflict blob refl h)
  committed-ok node after r key c blob (sessions, complete u) aside cached h =
      let (published, paid) =
        charged-ok cdk settings after r c u blob (record node { sessions = sessions }) key
          (charge cdk settings.uploads.pricing node.wallet r.request.headers Payments.upload
            c.upload_length)
          aside cached h in
      (u, refl, published, paid)

  module _ (node after : PatchNode Wallet) (r : PatchRequest) (key ticket : ChunkUploadKey)
      (c : ChunkRequest) (params : SessionParams) (blob : StoredBlob)
      (aside : IsAside cdk settings node.storage.root c.sha256 r.joined_path)
      (cached : IsCachedInPlace node.storage c.sha256) where
    written_chunk-ok :
        (o : Storage × (Bytes × AppResult (Unit {0})))
        → stream_to_temp_file node.storage r.request c.content_length ≡ o
        → written_chunk cdk settings node r key ticket c params o ≡ answered cdk settings after blob
        → IsCompleted node after r ticket c params blob
    written_chunk-ok (s, (content, err e)) streams h =
        absurd (no_error cdk settings _ after e blob refl h)
    written_chunk-ok (s, (content, ok done)) streams h =
        elim (Bool-cases (length content == c.content_length)) [
          | inr other ↦ absurd (no_error cdk settings _ after bad_request blob refl (rw other at h))
          | inl all_of_it ↦
              let (is_body, small, state) =
                stream_to_temp_file-ok node.storage s r.request c.content_length content streams in
              let there : s
                  ≡ with_file cdk settings node.storage r.request.temp_path
                      (bytes_of r.request.body) =
                state ∙ ap (with_file cdk settings node.storage r.request.temp_path) is_body in
              let o = commit node.sessions ticket params (chunk_info r c) r.committed_at in
              let k =
                subst
                  (λ x.
                    committed cdk settings (record node { storage = x }) r key c o
                    ≡ answered cdk settings after blob)
                  there (rw all_of_it at h) in
              let (u, completes, published, paid) =
                committed-ok
                  (record node {
                    storage =
                        with_file cdk settings node.storage r.request.temp_path
                          (bytes_of r.request.body);
                  })
                  after r key c blob o aside cached k in
              record {
                sessions = o.0;
                upload = u;
                completes = completes;
                length_of_body =
                    ap length (sym is_body)
                    ∙ (==_iff (length content) c.content_length).0 all_of_it;
                paid = paid;
                published = published;
              }
        ]

    prepared-ok :
        (o : AppResult (Unit {0}))
        → prepared cdk settings node r key ticket c params o ≡ answered cdk settings after blob
        → IsCompleted node after r ticket c params blob
    prepared-ok (err e) h = absurd (no_error cdk settings _ after e blob refl h)
    prepared-ok (ok done) h = written_chunk-ok _ refl h

  pub with_ticket-ok :
      (node after : PatchNode Wallet) (r : PatchRequest) (key : ChunkUploadKey) (c : ChunkRequest)
      (params : SessionParams) (blob : StoredBlob) (o : SessionState × Reservation)
      → IsAside cdk settings node.storage.root c.sha256 r.joined_path
      → IsCachedInPlace node.storage c.sha256
      → with_ticket cdk settings node r key c params o ≡ answered cdk settings after blob
      → (ticket : ChunkUploadKey) × (o ≡ (o.0, granted ticket))
        × IsCompleted (record node { sessions = o.0 }) after r ticket c params blob
  with_ticket-ok node after r key c params blob (sessions, global_limit) aside cached h =
      absurd (no_error cdk settings _ after conflict blob refl h)
  with_ticket-ok node after r key c params blob (sessions, per_pubkey_limit) aside cached h =
      absurd (no_error cdk settings _ after conflict blob refl h)
  with_ticket-ok node after r key c params blob (sessions, granted ticket) aside cached h = (
    ticket,
    refl,
    prepared-ok (record node { sessions = sessions }) after r key ticket c params blob aside cached
        (prepare cdk settings node r c) h,
  )
