-- ===== src/ChunkSessions/Held.antt =====
-- The reservations that requests hold on the registry.
use almond.Prelude.{
  ℕ, ◌+◌, ◌-◌, ◌≡◌, refl, ap, ◌∙◌, Bool, true, false, Option, none, some, if◌then◌else◌, ◌==◌, leb,
  get, insert, contains_key-get, get-insert, get-remove, arith, Bool-cases, Option-cases, inl, inr,
}
use almond.ChunkSessions.{
  ChunkUploadKey, key_eq_instance, key_eq, key_eq_iff, ChunkInfo, ChunkUpload, SessionParams,
  SessionLimits, Reservation, granted, global_limit, per_pubkey_limit, SessionState, is_known,
  one_more, sessions, reserve, consume_reservation, consume, release, commit, commit_consumed,
  append_chunk, push_chunk, restore, or_insert,
}

abbrev or_zero : Option ℕ → ℕ
or_zero none = 0
or_zero (some n) = n

-- The tickets that are out for a key.
pub held : SessionState → ChunkUploadKey → ℕ
held s k = or_zero (get s.pending k)

abbrev pub one_at : ChunkUploadKey → ChunkUploadKey → ℕ
one_at key k = if key_eq key k then 1 else 0

-- One ticket for a key is out, over those that were out before.
abbrev pub Holds : SessionState → ChunkUploadKey → (ChunkUploadKey → ℕ) → Type 0
Holds s key before = (k : ChunkUploadKey) → held s k ≡ before k + one_at key k

abbrev pub Returns : SessionState → (ChunkUploadKey → ℕ) → Type 0
Returns s before = (k : ChunkUploadKey) → held s k ≡ before k

held-consume :
    (s : SessionState) (key k : ChunkUploadKey)
    → held (consume_reservation s key).0 k ≡ (if key_eq key k then held s key - 1 else held s k)
unfolding held consume_reservation consume
held-consume s key k = elim (Option-cases (get s.pending key)) [
  | inl absent ↦ rw absent (ground (arith, key_eq_iff key k, absent))
  | inr (n, found) ↦
      rw found
        (ground (arith, get-remove s.pending key k, get-insert s.pending key k (n - 1), found))
]

pub release-Returns :
    (s : SessionState) (key : ChunkUploadKey) (before : ChunkUploadKey → ℕ)
    → Holds s key before
    → Returns (release s key) before
unfolding release
release-Returns s key before h k =
    ground (arith, held-consume s key k, h k, h key, key_eq_iff key k, key_eq_iff key key)

pending-append_chunk :
    (s : SessionState) (key : ChunkUploadKey) (u : ChunkUpload) (params : SessionParams)
    (chunk : ChunkInfo)
    → (append_chunk s key u params chunk).0.pending ≡ s.pending
unfolding append_chunk push_chunk
pending-append_chunk s key u params chunk = ground arith

pending-commit_consumed :
    (s : SessionState) (key : ChunkUploadKey) (params : SessionParams) (chunk : ChunkInfo) (now : ℕ)
    (consumed : Bool)
    → (commit_consumed s key params chunk now consumed).0.pending ≡ s.pending
unfolding commit_consumed
pending-commit_consumed s key params chunk now false = refl
pending-commit_consumed s key params chunk now true =
    let u = or_insert (get s.uploads key) params now in
    pending-append_chunk (record s { uploads = insert s.uploads key u }) key u params chunk

pub commit-Returns :
    (s : SessionState) (key : ChunkUploadKey) (params : SessionParams) (chunk : ChunkInfo) (now : ℕ)
    (before : ChunkUploadKey → ℕ)
    → Holds s key before
    → Returns (commit s key params chunk now).0 before
unfolding commit held release
commit-Returns s key params chunk now before h k =
    ap (λ p. or_zero (get p k))
      (pending-commit_consumed (consume_reservation s key).0 key params chunk now
        (consume_reservation s key).1)
    ∙ release-Returns s key before h k

pub restore-Returns :
    (s : SessionState) (key : ChunkUploadKey) (u : ChunkUpload) (before : ChunkUploadKey → ℕ)
    → Returns s before
    → Returns (restore s key u).0 before
unfolding restore held
restore-Returns s key u before h k = ap (λ p. or_zero (get p k)) same ∙ h k
  where
    same : (restore s key u).0.pending ≡ s.pending
    same = ground arith

-- What a request holds after `reserve`.
abbrev pub IsHeld : SessionState × Reservation → ChunkUploadKey → (ChunkUploadKey → ℕ) → Type 0
IsHeld (s, granted ticket) key before = (ticket ≡ key) × Holds s key before
IsHeld (s, global_limit) key before = Returns s before
IsHeld (s, per_pubkey_limit) key before = Returns s before

held-insert :
    (s : SessionState) (key k : ChunkUploadKey) (n : ℕ)
    → n ≡ held s key + 1
    → held (record s { pending = insert s.pending key n }) k ≡ held s k + one_at key k
unfolding held
held-insert s key k n h = ground (arith, get-insert s.pending key k n, key_eq_iff key k)

one_more-held :
    (s : SessionState) (key : ChunkUploadKey) → one_more (get s.pending key) ≡ held s key + 1
unfolding held
one_more-held s key = elim (Option-cases (get s.pending key)) [
  | inl absent ↦ rw absent refl
  | inr (n, found) ↦ rw found refl
]

held-unknown :
    (s : SessionState) (key : ChunkUploadKey) → is_known s key ≡ false → 1 ≡ held s key + 1
unfolding held is_known
held-unknown s key h = ground (arith, contains_key-get s.pending key)

pub reserve-IsHeld :
    (limits : SessionLimits) (s : SessionState) (key : ChunkUploadKey)
    → IsHeld (reserve limits s key) key (held s)
unfolding reserve
reserve-IsHeld limits s key = elim (Bool-cases (is_known s key)) [
  | inl known ↦ rw known (refl, λ k. held-insert s key k _ (one_more-held s key))
  | inr unknown ↦ rw unknown (elim (Bool-cases (leb limits.max_sessions (sessions (λ k. true) s))) [
    | inl full ↦ rw full (λ k. refl)
    | inr room ↦
        rw room
          (elim (Bool-cases
            (leb limits.max_sessions_per_pubkey (sessions (λ k. k.pubkey == key.pubkey) s))) [
              | inl full ↦ rw full (λ k. refl)
              | inr fits ↦ rw fits (refl, λ k. held-insert s key k 1 (held-unknown s key unknown))
            ])
  ])
]
