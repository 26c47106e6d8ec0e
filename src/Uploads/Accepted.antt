-- ===== src/Uploads/Accepted.antt =====
-- `upload_file` of src/handlers/upload.rs: what an accepted upload has shown, paid and stored.
use mathlib.Core.Path.{subst}
use almond.Prelude.{
  ℕ, ◌≤◌, ◌≡◌, ◌⊎◌, refl, ap, ◌∙◌, false, Option, some, codes, Bytes, get, insert, text_eq,
  text_eq_refl, text_eq_instance, get-insert, length,
}
use almond.Error.{ok}
use almond.Auth.{AppState, validate_upload_auth}
use almond.Authorization.{Authorized, authorize, upload}
use almond.Authorization.Clearance.{IsCleared, authorize_sound}
use almond.Payments
use almond.Payments.{Cdk, as_text, charge}
use almond.Retention
use almond.Storage.{Storage, StoredBlob, ensure_not_quarantined, completed_path}
use almond.Storage.Stored.{IsStored}
use almond.Storage.Roots.{IsCachedInPlace}
use almond.Storage.Kept.{publish_blob-IsStored}
use almond.Uploads.{Request, Settings, Node, Declared, publication, status_of, upload_file}
use almond.Uploads.Streams.{bytes_of, stream_to_temp_file-ok}
use almond.Uploads.Steps.{Finished, Taken, admitted-Taken, read_request-permits}

module _ {Token Wallet : Type 0} (cdk : Cdk Token Wallet) (settings : Settings) where
  -- What is known of an upload that was accepted, by the bytes that the client sent.
  pub record IsAccepted (node after : Node Wallet) (r : Request) (status : ℕ) (blob : StoredBlob)
      (bytes : Bytes) : Type 0 where
    pub authorized : Authorized
    pub cleared : IsCleared settings.backend r.now node.app upload authorized
    pub permits : validate_upload_auth authorized.event (settings.sha256_hex bytes) ≡ ok tt
    pub size : length bytes ≤ settings.quota.max_blob_size_bytes
    pub not_quarantined :
        ensure_not_quarantined node.storage r.faults (settings.sha256_hex bytes) ≡ ok tt
    pub paid :
        charge cdk settings.pricing node.wallet r.headers Payments.upload (length bytes)
        ≡ (ok tt, after.wallet)
    pub stored :
        IsStored after.storage (settings.sha256_hex bytes) bytes (ok blob)
        ⊎ ((blob.created ≡ false)
            × (get node.storage.file_index.map (settings.sha256_hex bytes) ≡ some blob.metadata)
            × (after.storage.file_index ≡ node.storage.file_index))
    pub answer : status ≡ status_of blob

  -- The temporary file is not where a blob of this hash goes.
  abbrev pub IsAside : Storage → Bytes → Bytes → Type 0
  IsAside s sha256 temp_path =
      (extension : Option Bytes) (expiration : Option ℕ) (path : Bytes)
      → completed_path s.root Retention.upload sha256 extension expiration ≡ ok path
      → text_eq path temp_path ≡ false

  Taken-IsAccepted :
      (node after : Node Wallet) (app : AppState) (r : Request) (a : Authorized) (d : Declared)
      (status : ℕ) (blob : StoredBlob)
      → IsCleared settings.backend r.now node.app upload a
      → validate_upload_auth a.event d.sha256 ≡ ok tt
      → IsAside node.storage (settings.sha256_hex (bytes_of r.body)) r.temp_path
      → IsCachedInPlace node.storage (settings.sha256_hex (bytes_of r.body))
      → Taken cdk settings (record node { app = app }) after r d status blob
      → IsAccepted node after r status blob (bytes_of r.body)
  unfolding publication ensure_not_quarantined
  Taken-IsAccepted node after app r a d status blob cleared permits aside cached taken =
      let (is_body, small, state) =
        stream_to_temp_file-ok node.storage taken.storage r settings.quota.max_blob_size_bytes
          taken.content taken.streams in
      let bytes : Bytes = bytes_of r.body in
      let sha256 = settings.sha256_hex bytes in
      let s : Storage = record node.storage { disk = insert node.storage.disk r.temp_path bytes } in
      let at_s : taken.storage ≡ s =
        state
        ∙ ap (λ c. record node.storage { disk = insert node.storage.disk r.temp_path c }) is_body in
      let p = publication settings d sha256 (length bytes) in
      let whole : Finished cdk settings (record node { app = taken.app; storage = taken.storage })
          after r p status blob =
        subst
          (λ c.
            Finished cdk settings (record node { app = taken.app; storage = taken.storage }) after r
              (publication settings d (settings.sha256_hex c) (length c)) status blob)
          is_body taken.finished in
      let finished : Finished cdk settings (record node { app = taken.app; storage = s }) after r p
          status blob =
        subst
          (λ x.
            Finished cdk settings (record node { app = taken.app; storage = x }) after r p status
              blob)
          at_s whole in
      let hash : d.sha256 ≡ sha256 = taken.same_hash ∙ ap (settings.sha256_hex) is_body in
      let clear : ensure_not_quarantined s r.faults sha256 ≡ ok tt =
        subst (λ x. ensure_not_quarantined x r.faults sha256 ≡ ok tt) at_s
          (subst
            (λ c. ensure_not_quarantined taken.storage r.faults (settings.sha256_hex c) ≡ ok tt)
            is_body taken.clear) in
      let there : get s.disk r.temp_path ≡ some bytes =
        get-insert node.storage.disk r.temp_path r.temp_path bytes
        ∙ rw (text_eq_refl r.temp_path) in
      record {
        authorized = a;
        cleared = cleared;
        permits = subst (λ h. validate_upload_auth a.event h ≡ ok tt) hash permits;
        size = subst (λ c. length c ≤ settings.quota.max_blob_size_bytes) is_body small;
        not_quarantined = clear;
        paid = finished.paid;
        stored =
            publish_blob-IsStored r.faults r.temp_path bytes p r.bound_at refl s after.storage blob
              there cached (λ path named. aside p.extension p.expiration path named)
              finished.published;
        answer = finished.status_lem;
      }

  -- An upload that is accepted was sent by a client that `authorize` cleared to upload, with an event
  -- that permits the hash of the bytes; the bytes are within the limit for a blob, their hash is not
  -- quarantined, and the charge for their length has passed; and they are stored and indexed under
  -- their hash as a new blob, with status 201, or the hash was indexed already and the index stays as
  -- it is, with status 200. The temporary file is taken to lie aside, and a cached copy of the hash
  -- where the cache puts its files.
  pub upload_file-IsAccepted :
      (node after : Node Wallet) (r : Request) (status : ℕ) (blob : StoredBlob)
      → IsAside node.storage (settings.sha256_hex (bytes_of r.body)) r.temp_path
      → IsCachedInPlace node.storage (settings.sha256_hex (bytes_of r.body))
      → upload_file cdk settings node r ≡ (after, ok (status, blob))
      → IsAccepted node after r status blob (bytes_of r.body)
  unfolding upload_file
  upload_file-IsAccepted node after r status blob aside cached h =
      let header = as_text (r.headers.header (codes "authorization")) in
      let (a, authorized, d, read, taken) =
        admitted-Taken cdk settings node after r
          (authorize settings.backend r.now header node.app upload) status blob h in
      Taken-IsAccepted node after (authorize settings.backend r.now header node.app upload).0 r a d
        status blob (authorize_sound settings.backend r.now header node.app upload a authorized)
        (read_request-permits settings node.storage a.event r d read) aside cached taken
