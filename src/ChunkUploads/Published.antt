-- ===== src/ChunkUploads/Published.antt =====
-- `patch_upload` of src/handlers/upload.rs: how the joined content is charged for and published.
use almond.Prelude.{
  ℕ, ◌≡◌, ◌⊎◌, refl, sym, ap, ◌∙◌, Bool, true, false, Option, some, Bytes, get, insert, text_eq,
  text_eq_refl, text_eq_instance, get-insert, Bool-cases, inl, inr, length, ◌==◌,
}
use almond.Error.{AppError, AppResult, ok, err}
use almond.Payments.{Cdk}
use almond.Retention
use almond.ChunkHeaders.{ChunkRequest}
use almond.ChunkSessions.{ChunkUploadKey, ChunkUpload, SessionState, restore}
use almond.Reconstruction.{Disk, reconstruct_blob}
use almond.Reconstruction.Content.{IsWhole, reconstruct_blob-IsWhole}
use almond.Storage.{Storage, StoredBlob, Outcome, completed_path}
use almond.Storage.Publish.{publish_blob}
use almond.Storage.Stored.{IsStored}
use almond.Storage.Roots.{IsCachedInPlace}
use almond.Storage.Kept.{publish_blob-IsStored}
use almond.ChunkUploads.{
  PatchRequest, PatchSettings, PatchNode, no_content, reconstructed, PatchReply, stored_joined,
  joined, completed, reconstruction, charged, restored, is_short_single, sum_lengths,
}

module _ {Token Wallet : Type 0} (cdk : Cdk Token Wallet) (settings : PatchSettings) where
  abbrev pub answered : PatchNode Wallet → StoredBlob → PatchReply cdk settings
  answered node blob = (node, ok (reconstructed blob))

  pub no_error :
      (reply : PatchReply cdk settings) (after : PatchNode Wallet) (e : AppError)
      (blob : StoredBlob)
      → reply.1 ≡ err e
      → reply ≡ answered after blob
      → ⊥
  no_error reply after e blob fails h =
      let bad : err e ≡ ok (reconstructed blob) =
        sym fails ∙ ap (λ (x : PatchReply cdk settings). x.1) h in
      cc bad

  pub no_chunk :
      (reply : PatchReply cdk settings) (after : PatchNode Wallet) (blob : StoredBlob)
      → reply.1 ≡ ok no_content
      → reply ≡ answered after blob
      → ⊥
  no_chunk reply after blob fails h =
      let bad : ok no_content ≡ ok (reconstructed blob) =
        sym fails ∙ ap (λ (x : PatchReply cdk settings). x.1) h in
      cc bad

  abbrev pub with_file : Storage → Bytes → Bytes → Storage
  with_file s path content = record s { disk = insert s.disk path content }

  -- What the publication at the end has made of the joined content.
  pub record IsPublished (s : Storage) (after : PatchNode Wallet) (r : PatchRequest)
      (u : ChunkUpload) (sha256 : Bytes) (blob : StoredBlob) : Type 0 where
    pub content : Bytes
    pub whole : IsWhole settings.uploads.sha256_hex s.disk u sha256 content
    pub stored :
        IsStored after.storage sha256 content (ok blob)
        ⊎ ((blob.created ≡ false)
            × (get s.file_index.map sha256 ≡ some blob.metadata)
            × (after.storage.file_index ≡ s.file_index))

  -- The temporary file of the joined blob is not where a blob of this hash goes.
  abbrev pub IsAside : Bytes → Bytes → Bytes → Type 0
  IsAside root sha256 joined_path =
      (extension : Option Bytes) (expiration : Option ℕ) (path : Bytes)
      → completed_path root Retention.upload sha256 extension expiration ≡ ok path
      → text_eq path joined_path ≡ false

  stored_joined-ok :
      (node after : PatchNode Wallet) (o : Outcome StoredBlob) (blob : StoredBlob)
      → stored_joined cdk settings node o ≡ answered after blob
      → (o ≡ (after.storage, ok blob)) × (node.wallet ≡ after.wallet)
  stored_joined-ok node after (s, err e) blob h = absurd (no_error _ after e blob refl h)
  stored_joined-ok node after (s, ok b) blob h =
      let state : record node { storage = s } ≡ after =
        ap (λ (x : PatchReply cdk settings). x.0) h in
      let result : ok (reconstructed b) ≡ ok (reconstructed blob) =
        ap (λ (x : PatchReply cdk settings). x.1) h in
      let same : b ≡ blob = cc result in
      let disk : s ≡ after.storage = ap (λ (x : PatchNode Wallet). x.storage) state in
      (
        ap (λ x. (x, ok b)) disk ∙ ap (λ x. (after.storage, ok x)) same,
        ap (λ (x : PatchNode Wallet). x.wallet) state,
      )

  module _ (after : PatchNode Wallet) (r : PatchRequest) (c : ChunkRequest) (u : ChunkUpload)
      (blob : StoredBlob) where
    joined-ok :
        (node : PatchNode Wallet) (o : Disk × AppResult Bytes)
        → reconstruct_blob settings.uploads.sha256_hex r.chunk_faults node.storage.disk u c.sha256
          ≡ o
        → IsAside node.storage.root c.sha256 r.joined_path
        → IsCachedInPlace node.storage c.sha256
        → joined cdk settings node r u c.sha256 o ≡ answered after blob
        → IsPublished node.storage after r u c.sha256 blob × (node.wallet ≡ after.wallet)
    unfolding reconstruction
    joined-ok node (disk, err e) made aside cached h = absurd (no_error _ after e blob refl h)
    joined-ok node (disk, ok content) made aside cached h =
        let s : Storage = record node.storage { disk = insert disk r.joined_path content } in
        let p = reconstruction settings.uploads u c.sha256 (length content) in
        let (published, wallet) =
          stored_joined-ok node after
            (publish_blob s r.request.faults r.joined_path p r.request.bound_at) blob h in
        let there : get s.disk r.joined_path ≡ some content =
          get-insert disk r.joined_path r.joined_path content ∙ rw (text_eq_refl r.joined_path) in
        (
          record {
            content = content;
            whole =
                reconstruct_blob-IsWhole settings.uploads.sha256_hex r.chunk_faults
                  node.storage.disk disk u c.sha256 content made;
            stored =
                publish_blob-IsStored r.request.faults r.joined_path content p r.request.bound_at
                  refl s after.storage blob there cached
                  (λ path named. aside p.extension p.expiration path named) published;
          },
          wallet,
        )

    completed-ok :
        (node : PatchNode Wallet)
        → IsAside node.storage.root c.sha256 r.joined_path
        → IsCachedInPlace node.storage c.sha256
        → completed cdk settings node r c u ≡ answered after blob
        → IsPublished node.storage after r u c.sha256 blob × (node.wallet ≡ after.wallet)
    unfolding completed
    completed-ok node aside cached h =
        elim (Bool-cases (is_short_single c.upload_length u.chunks)) [
          | inl short ↦ absurd (no_chunk _ after blob refl (rw short at h))
          | inr long ↦ elim (Bool-cases (sum_lengths u.chunks == c.upload_length)) [
            | inl whole ↦ joined-ok node _ refl aside cached (rw (long, whole) at h)
            | inr partial ↦ absurd (no_chunk _ after blob refl (rw (long, partial) at h))
          ]
        ]

    pub charged-ok :
        (node : PatchNode Wallet) (key : ChunkUploadKey) (o : AppResult (Unit {0}) × Option Wallet)
        → IsAside node.storage.root c.sha256 r.joined_path
        → IsCachedInPlace node.storage c.sha256
        → charged cdk settings node r key c u o ≡ answered after blob
        → IsPublished node.storage after r u c.sha256 blob × (o ≡ (ok tt, after.wallet))
    charged-ok node key (err e, wallet) aside cached h =
        absurd (no_error _ after e blob (restored-err (restore node.sessions key _)) h)
      where
        restored-err :
            (o : SessionState × Bool)
            → (restored cdk settings (record node { wallet = wallet }) r c u e o).1 ≡ err e
        restored-err (sessions, true) = refl
        restored-err (sessions, false) = refl
    charged-ok node key (ok done, wallet) aside cached h =
        let (published, same) = completed-ok (record node { wallet = wallet }) aside cached h in
        (published, ap (λ w. (ok tt, w)) same)
