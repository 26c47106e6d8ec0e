-- ===== src/Mirrors/Mirrored.antt =====
-- `mirror_blob` of src/handlers/upload.rs: what a mirror that succeeds has shown, paid and stored.
use mathlib.Core.Path.{subst}
use almond.Prelude.{
  ℕ, ◌≤◌, ◌≡◌, ◌⊎◌, refl, ap, ◌∙◌, not, Option, none, some, codes, Bytes, get, insert, text_eq,
  text_eq_refl, eq_of_text_eq, text_eq_instance, get-insert, length, false,
}
use almond.Error.{
  AppError, AppResult, ok, err, conflict, payload_too_large, io_error, or_refuse, >>=-eq-ok,
  ensure->>-eq-ok,
}
use almond.Auth.{AppState, Event, validate_t_tag}
use almond.Authorization.{Authorized, authorize, mirror}
use almond.Authorization.Clearance.{IsCleared, authorize_sound}
use almond.Payments
use almond.Payments.{Cdk, as_text, charge}
use almond.Ssrf.{fetch_from_url, check_size_limit}
use almond.Storage.{Storage, StoredBlob, ensure_not_quarantined}
use almond.Storage.Publish.{publish_blob}
use almond.Storage.Stored.{IsStored}
use almond.Storage.Roots.{IsCachedInPlace}
use almond.Storage.Kept.{publish_blob-IsStored}
use almond.Uploads.{extract_expiration, Settings, Node, Reply, Declared, publication, status_of}
use almond.Uploads.Steps.{accepted, responds-ok}
use almond.Uploads.Accepted.{IsAside}
use almond.Mirrors.{
  MirrorRequest, extract_sha256_from_event, stream_response_to_temp_file, read_mirror, limit_of,
  finalized_mirror, checked_mirror, streamed_mirror, take_response, authorized_mirror, mirror_blob,
  or_unauthorized, returned,
}
use almond.Mirrors.Streams.{sent_by, stream_response_to_temp_file-ok}

or_unauthorized-ok :
    (o : Option Bytes) (sha256 : Bytes) → or_unauthorized o ≡ ok sha256 → o ≡ some sha256
or_unauthorized-ok none sha256 h = cc h
or_unauthorized-ok (some x) sha256 h = cc h

declared-hash : (a b : Declared) → ok a ≡ ok b → a.sha256 ≡ b.sha256
declared-hash a b h = let same : a ≡ b = cc h in ap (λ (x : Declared). x.sha256) same

read_mirror-names :
    (settings : Settings) (max_upstream : ℕ) (event : Event) (r : MirrorRequest) (d : Declared)
    → read_mirror settings max_upstream event r ≡ ok d
    → (validate_t_tag event (codes "upload") ≡ ok tt)
      × (extract_sha256_from_event event ≡ some d.sha256)
unfolding read_mirror
read_mirror-names settings max_upstream event r d h =
    let (done, verb, h1) = >>=-eq-ok (validate_t_tag event (codes "upload")) _ h in
    let (sha256, hash, h2) = >>=-eq-ok (or_unauthorized (extract_sha256_from_event event)) _ h1 in
    let (expiration, e3, h3) =
      >>=-eq-ok (extract_expiration r.request.headers r.request.now) _ h2 in
    let (small, h4) = ensure->>-eq-ok (not r.body_too_large) payload_too_large _ h3 in
    let (body, e5, h5) = >>=-eq-ok r.json_url _ h4 in
    let (url, e6, h6) = >>=-eq-ok (or_refuse body) _ h5 in
    let (response, e7, h7) = >>=-eq-ok (returned (fetch_from_url r.net url).1) _ h6 in
    let (fits, e8, h8) = >>=-eq-ok (check_size_limit r.content_length _) _ h7 in
    let (made, h9) = ensure->>-eq-ok (not r.request.temp_dir_error) io_error _ h8 in
    (verb, or_unauthorized-ok _ sha256 hash ∙ ap some (declared-hash _ d h9))

module _ {Token Wallet : Type 0} (cdk : Cdk Token Wallet) (settings : Settings)
    (max_upstream : ℕ) where
  refused_reply :
      (node after : Node Wallet) (e : AppError) (status : ℕ) (blob : StoredBlob)
      → (node, err e) ≡ accepted cdk settings after status blob
      → ⊥
  refused_reply node after e status blob h =
      let bad : err e ≡ ok (status, blob) = ap (λ (x : Reply cdk settings). x.1) h in cc bad

  -- What is known once the response has been taken.
  pub record IsTaken (node after : Node Wallet) (r : MirrorRequest) (d : Declared) (status : ℕ)
      (blob : StoredBlob) : Type 0 where
    pub hash : settings.sha256_hex (sent_by r.chunks) ≡ d.sha256
    pub size : length (sent_by r.chunks) ≤ limit_of settings max_upstream
    pub not_quarantined : ensure_not_quarantined node.storage r.request.faults d.sha256 ≡ ok tt
    pub paid :
        charge cdk settings.pricing node.wallet r.request.headers Payments.mirror
          (length (sent_by r.chunks))
        ≡ (ok tt, after.wallet)
    pub stored :
        IsStored after.storage d.sha256 (sent_by r.chunks) (ok blob)
        ⊎ ((blob.created ≡ false)
            × (get node.storage.file_index.map d.sha256 ≡ some blob.metadata)
            × (after.storage.file_index ≡ node.storage.file_index))
    pub answer : status ≡ status_of blob

  finalized_mirror-ok :
      (node after : Node Wallet) (r : MirrorRequest) (d : Declared) (size status : ℕ)
      (blob : StoredBlob) (o : AppResult (Unit {0}) × Option Wallet)
      → finalized_mirror cdk settings max_upstream node r d size o
        ≡ accepted cdk settings after status blob
      → (o ≡ (ok tt, after.wallet))
        × (publish_blob node.storage r.request.faults r.request.temp_path
              (publication settings d d.sha256 size)
              r.request.bound_at
            ≡ (after.storage, ok blob))
        × (status ≡ status_of blob)
  finalized_mirror-ok node after r d size status blob (err e, wallet) h =
      absurd (refused_reply _ after e status blob h)
  finalized_mirror-ok node after r d size status blob (ok done, wallet) h =
      let (published, kept, st) =
        responds-ok cdk settings (record node { wallet = wallet }) after
          (publish_blob node.storage r.request.faults r.request.temp_path
            (publication settings d d.sha256 size) r.request.bound_at)
          status blob h in
      (ap (λ w. (ok tt, w)) kept, published, st)

  checked_mirror-ok :
      (node after : Node Wallet) (r : MirrorRequest) (d : Declared) (size status : ℕ)
      (blob : StoredBlob) (o : AppResult (Unit {0}))
      → checked_mirror cdk settings max_upstream node r d size o
        ≡ accepted cdk settings after status blob
      → (o ≡ ok tt)
        × (charge cdk settings.pricing node.wallet r.request.headers Payments.mirror size
            ≡ (ok tt, after.wallet))
        × (publish_blob node.storage r.request.faults r.request.temp_path
              (publication settings d d.sha256 size)
              r.request.bound_at
            ≡ (after.storage, ok blob))
        × (status ≡ status_of blob)
  checked_mirror-ok node after r d size status blob (err e) h =
      absurd (refused_reply _ after e status blob h)
  checked_mirror-ok node after r d size status blob (ok done) h =
      let (paid, published, st) = finalized_mirror-ok node after r d size status blob _ h in
      (refl, paid, published, st)

  streamed_mirror-IsTaken :
      (node after : Node Wallet) (r : MirrorRequest) (d : Declared) (status : ℕ) (blob : StoredBlob)
      (o : Storage × (Bytes × AppResult (Unit {0})))
      → IsAside cdk settings node.storage d.sha256 r.request.temp_path
      → IsCachedInPlace node.storage d.sha256
      → stream_response_to_temp_file node.storage r (limit_of settings max_upstream) ≡ o
      → streamed_mirror cdk settings max_upstream node r d o
        ≡ accepted cdk settings after status blob
      → IsTaken node after r d status blob
  unfolding publication ensure_not_quarantined
  streamed_mirror-IsTaken node after r d status blob (s, (content, err e)) aside cached streams h =
      absurd (refused_reply _ after e status blob h)
  streamed_mirror-IsTaken node after r d status blob (s, (content, ok done)) aside cached streams
        h =
      let (is_body, small, state) =
        stream_response_to_temp_file-ok node.storage s r (limit_of settings max_upstream) content
          streams in
      let bytes : Bytes = sent_by r.chunks in
      let u : Storage = record node.storage {
        disk = insert node.storage.disk r.request.temp_path bytes;
      } in
      let at_u : s ≡ u =
        state
        ∙ ap (λ c. record node.storage { disk = insert node.storage.disk r.request.temp_path c })
            is_body in
      let k : streamed_mirror cdk settings max_upstream node r d (u, (bytes, ok tt))
          ≡ accepted cdk settings after status blob =
        subst
          (λ x.
            streamed_mirror cdk settings max_upstream node r d (x, (bytes, ok tt))
            ≡ accepted cdk settings after status blob)
          at_u
          (subst
            (λ c.
              streamed_mirror cdk settings max_upstream node r d (s, (c, ok tt))
              ≡ accepted cdk settings after status blob)
            is_body h) in
      let (checks, paid, published, st) =
        checked_mirror-ok (record node { storage = u }) after r d (length bytes) status blob _ k in
      let (matches, clear) =
        ensure->>-eq-ok (text_eq (settings.sha256_hex bytes) d.sha256) conflict _ checks in
      let there : get u.disk r.request.temp_path ≡ some bytes =
        get-insert node.storage.disk r.request.temp_path r.request.temp_path bytes
        ∙ rw (text_eq_refl r.request.temp_path) in
      let p = publication settings d d.sha256 (length bytes) in
      record {
        hash = eq_of_text_eq (settings.sha256_hex bytes) d.sha256 matches;
        size = subst (λ c. length c ≤ limit_of settings max_upstream) is_body small;
        not_quarantined = clear;
        paid = paid;
        stored =
            publish_blob-IsStored r.request.faults r.request.temp_path bytes p r.request.bound_at
              refl u after.storage blob there cached
              (λ path named. aside p.extension p.expiration path named) published;
        answer = st;
      }

  -- What is known of a mirrored blob.
  pub record IsMirrored (node after : Node Wallet) (r : MirrorRequest) (status : ℕ)
      (blob : StoredBlob) : Type 0 where
    pub authorized : Authorized
    pub cleared : IsCleared settings.backend r.request.now node.app mirror authorized
    pub verb : validate_t_tag authorized.event (codes "upload") ≡ ok tt
    pub declared : Declared
    pub named : extract_sha256_from_event authorized.event ≡ some declared.sha256
    pub app : AppState
    pub taken : IsTaken (record node { app = app }) after r declared status blob

  take_response-IsTaken :
      (node after : Node Wallet) (r : MirrorRequest) (status : ℕ) (blob : StoredBlob)
      (o : AppResult Declared)
      → ((sha256 : Bytes) → IsAside cdk settings node.storage sha256 r.request.temp_path)
      → ((sha256 : Bytes) → IsCachedInPlace node.storage sha256)
      → take_response cdk settings max_upstream node r o ≡ accepted cdk settings after status blob
      → (d : Declared) × (o ≡ ok d) × IsTaken node after r d status blob
  take_response-IsTaken node after r status blob (err e) aside cached h =
      absurd (refused_reply _ after e status blob h)
  take_response-IsTaken node after r status blob (ok d) aside cached h = (
    d,
    refl,
    streamed_mirror-IsTaken node after r d status blob _ (aside d.sha256) (cached d.sha256) refl h,
  )

  authorized_mirror-IsMirrored :
      (node after : Node Wallet) (r : MirrorRequest) (status : ℕ) (blob : StoredBlob)
      (o : AppState × AppResult Authorized)
      → authorize settings.backend r.request.now
          (as_text (r.request.headers.header (codes "authorization")))
          node.app
          mirror
        ≡ o
      → ((sha256 : Bytes) → IsAside cdk settings node.storage sha256 r.request.temp_path)
      → ((sha256 : Bytes) → IsCachedInPlace node.storage sha256)
      → authorized_mirror cdk settings max_upstream node r o
        ≡ accepted cdk settings after status blob
      → IsMirrored node after r status blob
  authorized_mirror-IsMirrored node after r status blob (app, err e) made aside cached h =
      absurd (refused_reply _ after e status blob h)
  authorized_mirror-IsMirrored node after r status blob (app, ok a) made aside cached h =
      let header = as_text (r.request.headers.header (codes "authorization")) in
      let (d, read, taken) =
        take_response-IsTaken (record node { app = app }) after r status blob
          (read_mirror settings max_upstream a.event r) aside cached h in
      let (verb, named) = read_mirror-names settings max_upstream a.event r d read in
      record {
        authorized = a;
        cleared =
            authorize_sound settings.backend r.request.now header node.app mirror a
              (ap (λ x. x.1) made);
        verb = verb;
        declared = d;
        named = named;
        app = app;
        taken = taken;
      }

  -- A mirror that succeeds was sent by a client that `authorize` cleared to mirror, with an event for
  -- uploading whose first well-formed hash is that of the bytes that the remote server sent; they
  -- are within the limit for a fetch, the hash is not quarantined, and the charge for their length
  -- has passed; and they are stored and indexed under the hash as a new blob, with status 201, or the
  -- hash was indexed already and the index stays as it is, with status 200. The temporary file is
  -- taken to lie aside, and cached copies where the cache puts its files.
  pub mirror_blob-IsMirrored :
      (node after : Node Wallet) (r : MirrorRequest) (status : ℕ) (blob : StoredBlob)
      → ((sha256 : Bytes) → IsAside cdk settings node.storage sha256 r.request.temp_path)
      → ((sha256 : Bytes) → IsCachedInPlace node.storage sha256)
      → mirror_blob cdk settings max_upstream node r ≡ (after, ok (status, blob))
      → IsMirrored node after r status blob
  unfolding mirror_blob
  mirror_blob-IsMirrored node after r status blob aside cached h =
      authorized_mirror-IsMirrored node after r status blob _ refl aside cached h
