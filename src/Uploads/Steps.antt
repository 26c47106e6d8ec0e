-- ===== src/Uploads/Steps.antt =====
-- `upload_file` of src/handlers/upload.rs: what each step of an accepted upload has passed.
use almond.Prelude.{
  ℕ, ◌≡◌, refl, sym, ap, ◌∙◌, not, Option, Bytes, eq_of_text_eq, text_eq_instance, length, arith,
}
use almond.Error.{AppResult, ok, err, >>=-eq-ok, ensure->>-eq-ok, io_error}
use almond.Auth.{AppState, Event, validate_upload_auth}
use almond.Authorization.{Authorized, bind}
use almond.Payments
use almond.Payments.{Cdk, as_text, charge}
use almond.Storage.{
  Storage, Outcome, StoredBlob, BlobPublication, ensure_not_quarantined, ensure_storage_capacity,
}
use almond.Storage.Publish.{publish_blob}
use almond.Uploads.{
  Request, Settings, Node, extract_declared_upload_hash, extract_expiration,
  ensure_upload_hash_matches, stream_to_temp_file, Declared, read_request, publication, status_of,
  Reply, responds, finalized, checked_quarantine, bound, matched, streamed, take_body, admitted,
}

ok-eq : {A : Type 0} (a b : A) → ok a ≡ ok b → a ≡ b
ok-eq a b h = cc

module _ {Token Wallet : Type 0} (cdk : Cdk Token Wallet) (settings : Settings) where
  -- The reply that an upload was accepted.
  abbrev pub accepted : Node Wallet → ℕ → StoredBlob → Reply cdk settings
  accepted node status blob = (node, ok (status, blob))

  pub responds-ok :
      (node after : Node Wallet) (o : Outcome StoredBlob) (status : ℕ) (blob : StoredBlob)
      → responds cdk settings node o ≡ accepted after status blob
      → (o ≡ (after.storage, ok blob)) × (node.wallet ≡ after.wallet) × (status ≡ status_of blob)
  responds-ok node after (s, err e) status blob h =
      let bad : err e ≡ ok (status, blob) = ap (λ (x : Reply cdk settings). x.1) h in cc bad
  responds-ok node after (s, ok b) status blob h =
      let state : record node { storage = s } ≡ after = ap (λ (x : Reply cdk settings). x.0) h in
      let result : ok (status_of b, b) ≡ ok (status, blob) =
        ap (λ (x : Reply cdk settings). x.1) h in
      let same : b ≡ blob = cc result in
      let st : status_of b ≡ status = cc result in
      let disk : s ≡ after.storage = ap (λ (x : Node Wallet). x.storage) state in
      (
        ap (λ x. (x, ok b)) disk ∙ ap (λ x. (after.storage, ok x)) same,
        ap (λ (x : Node Wallet). x.wallet) state,
        sym st ∙ ap (λ x. status_of x) same,
      )

  -- What the last steps have done, from the charge on.
  pub record Finished (node after : Node Wallet) (r : Request) (p : BlobPublication) (status : ℕ)
      (blob : StoredBlob) : Type 0 where
    pub paid :
        charge cdk settings.pricing node.wallet r.headers Payments.upload p.size
        ≡ (ok tt, after.wallet)
    pub published :
        publish_blob node.storage r.faults r.temp_path p r.bound_at ≡ (after.storage, ok blob)
    pub status_lem : status ≡ status_of blob

  finalized-ok :
      (node after : Node Wallet) (r : Request) (p : BlobPublication) (status : ℕ)
      (blob : StoredBlob) (c : AppResult (Unit {0}) × Option Wallet)
      → charge cdk settings.pricing node.wallet r.headers Payments.upload p.size ≡ c
      → finalized cdk settings node r p c ≡ accepted after status blob
      → Finished node after r p status blob
  finalized-ok node after r p status blob (err e, wallet) charged h =
      let bad : err e ≡ ok (status, blob) = ap (λ (x : Reply cdk settings). x.1) h in cc bad
  finalized-ok node after r p status blob (ok done, wallet) charged h =
      let (published, kept, st) =
        responds-ok (record node { wallet = wallet }) after
          (publish_blob node.storage r.faults r.temp_path p r.bound_at) status blob h in
      record { paid = charged ∙ ap (λ w. (ok tt, w)) kept; published = published; status_lem = st }

  quarantine-ok :
      (node after : Node Wallet) (r : Request) (p : BlobPublication) (status : ℕ)
      (blob : StoredBlob) (q : AppResult (Unit {0}))
      → checked_quarantine cdk settings node r p q ≡ accepted after status blob
      → Finished node after r p status blob × (q ≡ ok tt)
  quarantine-ok node after r p status blob (err e) h =
      let bad : err e ≡ ok (status, blob) = ap (λ (x : Reply cdk settings). x.1) h in cc bad
  quarantine-ok node after r p status blob (ok done) h =
      (finalized-ok node after r p status blob _ refl h, refl)

  bound-ok :
      (node after : Node Wallet) (r : Request) (p : BlobPublication) (status : ℕ)
      (blob : StoredBlob) (c : AppState × AppResult (Unit {0}))
      → bound cdk settings node r p c ≡ accepted after status blob
      → Finished (record node { app = c.0 }) after r p status blob
        × (ensure_not_quarantined node.storage r.faults p.sha256 ≡ ok tt)
  bound-ok node after r p status blob (app, err e) h =
      let bad : err e ≡ ok (status, blob) = ap (λ (x : Reply cdk settings). x.1) h in cc bad
  bound-ok node after r p status blob (app, ok done) h =
      quarantine-ok (record node { app = app }) after r p status blob _ h

  pub matched-ok :
      (node after : Node Wallet) (r : Request) (a : Authorized) (d : Declared) (p : BlobPublication)
      (status : ℕ) (blob : StoredBlob) (c : AppResult (Unit {0}))
      → matched cdk settings node r a d p c ≡ accepted after status blob
      → (app : AppState) × Finished (record node { app = app }) after r p status blob
        × (ensure_not_quarantined node.storage r.faults p.sha256 ≡ ok tt)
        × (c ≡ ok tt)
  matched-ok node after r a d p status blob (err e) h =
      let bad : err e ≡ ok (status, blob) = ap (λ (x : Reply cdk settings). x.1) h in cc bad
  matched-ok node after r a d p status blob (ok done) h =
      let (finished, clear) =
        bound-ok node after r p status blob (bind a node.app d.sha256 r.bound_at) h in
      ((bind a node.app d.sha256 r.bound_at).0, finished, clear, refl)

  -- What an upload has passed once its body has been taken.
  pub record Taken (node after : Node Wallet) (r : Request) (d : Declared) (status : ℕ)
      (blob : StoredBlob) : Type 0 where
    pub storage : Storage
    pub content : Bytes
    pub streams :
        stream_to_temp_file node.storage r settings.quota.max_blob_size_bytes
        ≡ (storage, (content, ok tt))
    pub app : AppState
    pub finished :
        Finished
          (record node { app = app; storage = storage })
          after
          r
          (publication settings d (settings.sha256_hex content) (length content))
          status
          blob
    pub clear : ensure_not_quarantined storage r.faults (settings.sha256_hex content) ≡ ok tt
    pub same_hash : d.sha256 ≡ settings.sha256_hex content

  streamed-Taken :
      (node after : Node Wallet) (r : Request) (a : Authorized) (d : Declared) (status : ℕ)
      (blob : StoredBlob) (o : Storage × (Bytes × AppResult (Unit {0})))
      → stream_to_temp_file node.storage r settings.quota.max_blob_size_bytes ≡ o
      → streamed cdk settings node r a d o ≡ accepted after status blob
      → Taken node after r d status blob
  unfolding ensure_upload_hash_matches publication
  streamed-Taken node after r a d status blob (s, (content, err e)) streams h =
      let bad : err e ≡ ok (status, blob) = ap (λ (x : Reply cdk settings). x.1) h in cc bad
  streamed-Taken node after r a d status blob (s, (content, ok done)) streams h =
      let sha256 = settings.sha256_hex content in
      let (app, finished, clear, matches) =
        matched-ok (record node { storage = s }) after r a d
          (publication settings d sha256 (length content)) status blob
          (ensure_upload_hash_matches d.sha256 sha256) h in
      record {
        storage = s;
        content = content;
        streams = streams;
        app = app;
        finished = finished;
        clear = clear;
        same_hash = eq_of_text_eq d.sha256 sha256 (ground arith);
      }

  take_body-Taken :
      (node after : Node Wallet) (r : Request) (a : Authorized) (o : AppResult Declared)
      (status : ℕ) (blob : StoredBlob)
      → take_body cdk settings node r a o ≡ accepted after status blob
      → (d : Declared) × (o ≡ ok d) × Taken node after r d status blob
  unfolding take_body
  take_body-Taken node after r a (err e) status blob h =
      let bad : err e ≡ ok (status, blob) = ap (λ (x : Reply cdk settings). x.1) h in cc bad
  take_body-Taken node after r a (ok d) status blob h =
      (d, refl, streamed-Taken node after r a d status blob _ refl h)

  pub admitted-Taken :
      (node after : Node Wallet) (r : Request) (o : AppState × AppResult Authorized) (status : ℕ)
      (blob : StoredBlob)
      → admitted cdk settings node r o ≡ accepted after status blob
      → (a : Authorized) × (o.1 ≡ ok a)
        × (d : Declared) × (read_request settings node.storage a.event r ≡ ok d)
        × Taken (record node { app = o.0 }) after r d status blob
  unfolding admitted
  admitted-Taken node after r (app, err e) status blob h =
      let bad : err e ≡ ok (status, blob) = ap (λ (x : Reply cdk settings). x.1) h in cc bad
  admitted-Taken node after r (app, ok a) status blob h =
      let (d, read, taken) =
        take_body-Taken (record node { app = app }) after r a
          (read_request settings node.storage a.event r) status blob h in
      (a, refl, d, read, taken)

pub read_request-permits :
    (settings : Settings) (s : Storage) (event : Event) (r : Request) (d : Declared)
    → read_request settings s event r ≡ ok d
    → validate_upload_auth event d.sha256 ≡ ok tt
unfolding read_request
read_request-permits settings s event r d h =
    let (sha256, declared, h1) = >>=-eq-ok (extract_declared_upload_hash r.headers) _ h in
    let (done, permits, h2) = >>=-eq-ok (validate_upload_auth event sha256) _ h1 in
    let (expiration, e, h3) = >>=-eq-ok (extract_expiration r.headers r.now) _ h2 in
    let (room, c, h4) = >>=-eq-ok (ensure_storage_capacity _ _ _ _) _ h3 in
    let (made, k) = ensure->>-eq-ok (not r.temp_dir_error) io_error _ h4 in
    let same : sha256 ≡ d.sha256 = ap (λ (x : Declared). x.sha256) (ok-eq _ d k) in
    rw (← same) permits
