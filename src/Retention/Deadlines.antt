-- ===== src/Retention/Deadlines.antt =====
-- When a blob is deleted, and what is announced.
use almond.Prelude.{ℕ, ◌≤◌, ◌<◌, ◌≡◌, ◌↔◌, ◌⊎◌, Option, none, some, arith, Option-cases, inl, inr}
use almond.Retention.{
  FileMetadata, BlobOrigin, upload, upstream_cache, Reason, age_deadline, earliest, due, deadline,
  deadline_of, expiration_reason_for, sunset_expiration, saturating_add,
}

-- A retention claim has passed.
abbrev pub IsPast : ℕ → Option ℕ → Type 0
IsPast now none = ⊥
IsPast now (some t) = t ≤ now

-- The claims on an upload and on a cached copy.
abbrev pub MustGo : BlobOrigin → FileMetadata → (max_age ttl now : ℕ) → Type 0
MustGo upload m max_age ttl now =
    IsPast now m.expiration ⊎ ((0 < max_age) × (saturating_add m.created_at max_age ≤ now))
MustGo upstream_cache m max_age ttl now = (0 < ttl) × (saturating_add m.created_at ttl ≤ now)

abbrev pub IsSome : Option Reason → Type 0
IsSome none = ⊥
IsSome (some r) = Unit

due-MustGo :
    (origin : BlobOrigin) (m : FileMetadata) (max_age ttl now : ℕ)
    → IsSome (due now (deadline_of origin m max_age ttl)) ↔ MustGo origin m max_age ttl now
unfolding deadline_of age_deadline earliest
due-MustGo upload m max_age ttl now = elim (Option-cases m.expiration) [
  | inl absent ↦ rw absent (ground arith, ground arith)
  | inr (t, found) ↦ rw found (ground arith, ground arith)
]
due-MustGo upstream_cache m max_age ttl now = (ground arith, ground arith)

-- Cleanup deletes a blob exactly when one of its claims has passed: for an upload its own expiration
-- or the age limit, for a cached copy its time to live; a limit of 0 is none.
pub expiration_reason_iff :
    (m : FileMetadata) (max_age ttl now : ℕ)
    → IsSome (expiration_reason_for m max_age ttl now) ↔ MustGo m.origin m max_age ttl now
unfolding expiration_reason_for
expiration_reason_iff m max_age ttl now = due-MustGo m.origin m max_age ttl now

due-deadline : (now : ℕ) (o : Option (ℕ × Reason)) → IsSome (due now o) ↔ IsPast now (deadline o)
due-deadline now none = (λ h. h, λ h. h)
due-deadline now (some (at, r)) = (ground arith, ground arith)

-- The announced date of an upload is the moment from which cleanup deletes it, whatever the limits.
pub sunset_exact :
    (m : FileMetadata) (max_age ttl now : ℕ)
    → m.origin ≡ upload
    → IsSome (expiration_reason_for m max_age ttl now) ↔ IsPast now (sunset_expiration m max_age)
unfolding expiration_reason_for sunset_expiration deadline_of
sunset_exact m max_age ttl now h = rw h (due-deadline now (deadline_of upload m max_age 0))
