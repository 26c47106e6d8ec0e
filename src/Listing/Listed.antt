-- ===== src/Listing/Listed.antt =====
-- `list_blobs` of src/handlers/list.rs: who sees which entries.
use mathlib.Core.Path.{subst}
use native.Mathlib.Nat.{le_trans}
use almond.Prelude.{
  get, text_eq_instance, ◌∷◌, any, any-Exists, Exists, ◌==◌, ==_iff, Bool-cases, inl, inr, ℕ, ◌-◌,
  ◌≤◌, ◌<◌, ◌≡◌, refl, sym, ap, Bool, true, false, Option, none, some, List, [], Bytes, codes, All,
  length, arith,
}
use almond.Text.{u64_mod}
use almond.Error.{AppResult, ok, err, status_code}
use almond.Auth.{Backend, AppState, validate_t_tag}
use almond.Authorization.{Authorized, authorize, bind_without_hash, list}
use almond.Authorization.Clearance.{IsCleared, authorize_sound}
use almond.Authorization.Replay.{bind_without_hash-list}
use almond.Retention.{FileMetadata}
use almond.BlobIndex.{Entries}
use almond.BlobIndex.Pages.{page, page_sound, IsHit, is_listed}
use almond.Listing.{
  ListRequest, listed, refused, or_value, clamped, parse_path_pubkey, read_cursor, serves_catalog,
  page_for, for_key, bound_list, authorized_list, list_blobs,
}

clamped_bounds : (limit : Option ℕ) → (0 < clamped limit) × (clamped limit ≤ 1000)
unfolding clamped
clamped_bounds none = (omega arith, omega arith)
clamped_bounds (some n) = (ground arith, ground arith)

-- The time window of a request.
abbrev pub IsSince : Option ℕ → ℕ → Type 0
IsSince none at = Unit
IsSince (some since) at = since ≤ at

abbrev pub IsUntil : Option ℕ → ℕ → Type 0
IsUntil none at = Unit
IsUntil (some until) at = at ≤ until

-- An entry of the catalogue in the time window.
abbrev pub IsInWindow : Entries → ListRequest → Bytes × FileMetadata → Type 0
IsInWindow entries r (sha256, m) =
    (get entries.map sha256 ≡ some m) × IsSince r.since m.created_at × IsUntil r.until m.created_at

IsSince-of : (since : Option ℕ) (at : ℕ) → or_value 0 since ≤ at → IsSince since at
IsSince-of none at h = tt
IsSince-of (some n) at h = h

IsUntil-of : (until : Option ℕ) (at : ℕ) → at ≤ or_value (u64_mod - 1) until → IsUntil until at
IsUntil-of none at h = tt
IsUntil-of (some n) at h = h

hits-window :
    (entries : Entries) (r : ListRequest) (files : List (Bytes × FileMetadata))
    → All
        (IsHit entries.map (is_listed (or_value 0 r.since) (or_value (u64_mod - 1) r.until) none))
        files
    → All (IsInWindow entries r) files
unfolding is_listed
hits-window entries r [] h = tt
hits-window entries r ((sha256, m) ∷ files) h =
    let (found, kept) = h.0 in
    (
      (
        found,
        IsSince-of r.since m.created_at (ground arith),
        IsUntil-of r.until m.created_at (ground arith),
      ),
      hits-window entries r files h.1,
    )

-- A key that is asked for and is not whitelisted.
abbrev pub IsForeign : AppState → Option ℕ → Type 0
IsForeign app none = ⊥
IsForeign app (some pubkey) = Exists (λ allowed. allowed ≡ pubkey) app.allowed_pubkeys → ⊥

IsForeign-serves :
    (app : AppState) (requested : Option ℕ)
    → IsForeign app requested
    → serves_catalog app requested ≡ false
unfolding serves_catalog
IsForeign-serves app none foreign = elim foreign [ ]
IsForeign-serves app (some pubkey) foreign =
    elim (Bool-cases (any (λ allowed. allowed == pubkey) app.allowed_pubkeys)) [
      | inr other ↦ other
      | inl found ↦ absurd (
          foreign (
            any-Exists (λ allowed. allowed == pubkey) (λ allowed. allowed ≡ pubkey)
              app.allowed_pubkeys (λ allowed same. (==_iff allowed pubkey).0 same) found))
    ]

listed-eq : (xs ys : List (Bytes × FileMetadata)) → listed xs ≡ listed ys → xs ≡ ys
listed-eq xs ys h = cc h

module _ (from_hex : Bytes → Option ℕ) (entries : Entries) where
  -- What is known of a page that is answered.
  pub record IsPermittedPage (b : Backend) (app after : AppState) (r : ListRequest)
      (files : List (Bytes × FileMetadata)) : Type 0 where
    pub authorized : Authorized
    pub cleared : IsCleared b r.now app list authorized
    pub verb : validate_t_tag authorized.event (codes "list") ≡ ok tt
    pub requested : Option ℕ
    pub read : parse_path_pubkey from_hex r.path ≡ some requested
    pub boundary : IsForeign after requested → files ≡ []
    pub size : length files ≤ 1000
    pub hits : All (IsInWindow entries r) files

  page_for-hits :
      (r : ListRequest) (serves : Bool) (cursor : Option (Option Bytes))
      (files : List (Bytes × FileMetadata))
      → page_for from_hex entries r serves cursor ≡ listed files
      → (serves ≡ false → files ≡ []) × (length files ≤ 1000) × All (IsInWindow entries r) files
  page_for-hits r serves none files h = cc h
  page_for-hits r false (some cursor) files h =
      let same : [] ≡ files = listed-eq [] files h in
      (λ never. sym same, rw (← same) (omega arith), rw (← same) tt)
  page_for-hits r true (some cursor) files h =
      let since = or_value 0 r.since in
      let until = or_value (u64_mod - 1) r.until in
      let p = page entries since until none cursor (clamped r.limit) in
      let same : p ≡ files = listed-eq p files h in
      let (positive, most) = clamped_bounds r.limit in
      let (small, hits) = page_sound entries since until none cursor (clamped r.limit) positive in
      (
        λ never. cc never,
        rw (← same) (le_trans small most),
        rw (← same) (hits-window entries r p hits),
      )

  for_key-hits :
      (app : AppState) (r : ListRequest) (o : Option (Option ℕ))
      (files : List (Bytes × FileMetadata))
      → for_key from_hex entries app r o ≡ listed files
      → (requested : Option ℕ) × (o ≡ some requested)
        × (serves_catalog app requested ≡ false → files ≡ [])
        × (length files ≤ 1000)
        × All (IsInWindow entries r) files
  for_key-hits app r none files h = cc h
  for_key-hits app r (some requested) files h =
      let (boundary, size, hits) =
        page_for-hits r (serves_catalog app requested) (read_cursor r.cursor) files h in
      (requested, refl, boundary, size, hits)

  bound_list-hits :
      (app : AppState) (r : ListRequest) (o : AppResult (Unit {0}))
      (files : List (Bytes × FileMetadata))
      → bound_list from_hex entries app r o ≡ listed files
      → (o ≡ ok tt)
        × (requested : Option ℕ) × (parse_path_pubkey from_hex r.path ≡ some requested)
        × (serves_catalog app requested ≡ false → files ≡ [])
        × (length files ≤ 1000)
        × All (IsInWindow entries r) files
  bound_list-hits app r (err e) files h = cc h
  bound_list-hits app r (ok done) files h =
      let (requested, read, boundary, size, hits) =
        for_key-hits app r (parse_path_pubkey from_hex r.path) files h in
      (refl, requested, read, boundary, size, hits)

  authorized_list-IsPermittedPage :
      (b : Backend) (app after : AppState) (r : ListRequest) (files : List (Bytes × FileMetadata))
      (o : AppState × AppResult Authorized)
      → authorize b r.now r.authorization app list ≡ o
      → authorized_list from_hex entries r o ≡ (after, listed files)
      → IsPermittedPage b app after r files
  authorized_list-IsPermittedPage b app after r files (x, err e) made h =
      let bad : refused (status_code e) ≡ listed files = ap (λ y. y.1) h in cc bad
  authorized_list-IsPermittedPage b app after r files (x, ok a) made h =
      let same : x ≡ after = ap (λ y. y.0) h in
      let (bound, requested, read, boundary, size, hits) =
        bound_list-hits x r (bind_without_hash a) files (ap (λ y. y.1) h) in
      let boundary_at : serves_catalog after requested ≡ false → files ≡ [] =
        subst (λ y. serves_catalog y requested ≡ false → files ≡ []) same boundary in
      let cleared = authorize_sound b r.now r.authorization app list a (ap (λ y. y.1) made) in
      record {
        authorized = a;
        cleared = cleared;
        verb = bind_without_hash-list a cleared.operation_kept bound;
        requested = requested;
        read = read;
        boundary = λ foreign. boundary_at (IsForeign-serves after requested foreign);
        size = size;
        hits = hits;
      }

  -- A request that is answered with a page was enabled, its client is cleared to list with an event
  -- for that verb, and its path is readable; the page has at most 1000 entries, each of which stands
  -- in the catalogue under its hash within the time window of the request; and it is empty where the
  -- path asks for a public key that is not whitelisted.
  pub list_blobs-IsPermittedPage :
      (b : Backend) (feature_list_enabled : Bool) (app after : AppState) (r : ListRequest)
      (files : List (Bytes × FileMetadata))
      → list_blobs from_hex entries b feature_list_enabled app r ≡ (after, listed files)
      → (feature_list_enabled ≡ true) × IsPermittedPage b app after r files
  unfolding list_blobs
  list_blobs-IsPermittedPage b false app after r files h =
      let bad : refused 403 ≡ listed files = ap (λ y. y.1) h in cc bad
  list_blobs-IsPermittedPage b true app after r files h =
      (refl, authorized_list-IsPermittedPage b app after r files _ refl h)
