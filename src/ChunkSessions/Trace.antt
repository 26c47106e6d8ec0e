-- ===== src/ChunkSessions/Trace.antt =====
-- Sequences of operations on the registry, in the order in which they take the lock.
use native.Mathlib.Nat.{le_trans}
use almond.Prelude.{
  ℕ, ◌+◌, ◌≤◌, ◌≡◌, ap, ◌∙◌, ◌++◌, Bool, true, false, List, [], ◌∷◌, arith, Bool-cases, inl, inr,
  ◌==◌, insert-IsDistinct, remove-IsDistinct, retain-IsDistinct, retain-AllValues, insert, get,
  count,
}
use almond.ChunkSessions.{
  ChunkUploadKey, key_eq_instance, ChunkInfo, ChunkUpload, SessionParams, SessionLimits,
  SessionState, new, is_known, sessions, reserve, release, commit, commit_consumed, append_chunk,
  push_chunk, consume_reservation, restore, evict_older_than, is_retained, one_more, or_insert,
}
use almond.ChunkSessions.Capacity.{
  IsKeyed, IsWithin, consume_reservation-IsKeyed, sessions-consume, sessions-commit, sessions-evict,
  sessions-restore, reserve-total, reserve-per_pubkey,
}
use almond.ChunkSessions.Chunks.{IsSound, IsDisjoint, commit-IsSound, consume_reservation-IsSound}

-- The operations but `restore`, which puts back an upload whose payment was refused.
pub data Op : Type 0 where
  reserve_op : ChunkUploadKey → Op
  release_op : ChunkUploadKey → Op
  commit_op : ChunkUploadKey → SessionParams → ChunkInfo → ℕ → Op
  evict_op : (now age : ℕ) → Op

pub apply : SessionLimits → SessionState → Op → SessionState
apply limits s (reserve_op key) = (reserve limits s key).0
apply limits s (release_op key) = release s key
apply limits s (commit_op key params chunk now) = (commit s key params chunk now).0
apply limits s (evict_op now age) = (evict_older_than s now age).0

unfoldable pub run : SessionLimits → SessionState → List Op → SessionState
unfolding apply
run limits s [] = s
run limits s (op ∷ ops) = run limits (apply limits s op) ops

-- The registry's invariant.
pub record IsValid (limits : SessionLimits) (s : SessionState) : Type 0 where
  pub keyed : IsKeyed s
  pub within : IsWithin limits s
  pub sound : IsSound s

reserve-IsKeyed :
    (limits : SessionLimits) (s : SessionState) (key : ChunkUploadKey)
    → IsKeyed s
    → IsKeyed (reserve limits s key).0
unfolding reserve
reserve-IsKeyed limits s key v = record {
  uploads = ground (arith, v.uploads);
  pending = ground (
    arith,
    v.pending,
    insert-IsDistinct s.pending key 1 v.pending,
    insert-IsDistinct s.pending key (one_more (get s.pending key)) v.pending,
  );
}

reserve-IsSound :
    (limits : SessionLimits) (s : SessionState) (key : ChunkUploadKey)
    → IsSound s
    → IsSound (reserve limits s key).0
unfolding reserve
reserve-IsSound limits s key v = rw (uploads-reserve limits s key) v
  where
    uploads-reserve :
        (limits : SessionLimits) (s : SessionState) (key : ChunkUploadKey)
        → (reserve limits s key).0.uploads ≡ s.uploads
    uploads-reserve limits s key = ground arith

append_chunk-IsKeyed :
    (s : SessionState) (key : ChunkUploadKey) (u : ChunkUpload) (params : SessionParams)
    (chunk : ChunkInfo)
    → IsKeyed s
    → IsKeyed (append_chunk s key u params chunk).0
unfolding append_chunk push_chunk
append_chunk-IsKeyed s key u params chunk v = record {
  uploads = ground (
    arith,
    v.uploads,
    insert-IsDistinct s.uploads key (record u { chunks = u.chunks ++ chunk ∷ [] }) v.uploads,
    remove-IsDistinct s.uploads key v.uploads,
  );
  pending = ground (arith, v.pending);
}

commit-IsKeyed :
    (s : SessionState) (key : ChunkUploadKey) (params : SessionParams) (chunk : ChunkInfo) (now : ℕ)
    → IsKeyed s
    → IsKeyed (commit s key params chunk now).0
unfolding commit
commit-IsKeyed s key params chunk now v =
    let s' = (consume_reservation s key).0 in
    let v' = consume_reservation-IsKeyed s key v in
    elim (Bool-cases (consume_reservation s key).1) [
      | inl consumed ↦
          let u = or_insert (get s'.uploads key) params now in
          rw (consumed, commit_consumed)
            (append_chunk-IsKeyed (record s' { uploads = insert s'.uploads key u }) key u params
              chunk
              (record {
                uploads = insert-IsDistinct s'.uploads key u v'.uploads;
                pending = v'.pending;
              }))
      | inr absent ↦ rw (absent, commit_consumed) v'
    ]

-- An operation that adds no session keeps the limits.
IsWithin-of_le :
    (limits : SessionLimits) (s t : SessionState)
    → ((q : ChunkUploadKey → Bool) → sessions q t ≤ sessions q s)
    → IsWithin limits s
    → IsWithin limits t
IsWithin-of_le limits s t h v = record {
  total = le_trans (h (λ k. true)) v.total;
  per_pubkey = λ p. le_trans (h (λ k. k.pubkey == p)) (v.per_pubkey p);
}

-- Every operation keeps the invariant.
apply-IsValid :
    (limits : SessionLimits) (s : SessionState) (op : Op)
    → IsValid limits s
    → IsValid limits (apply limits s op)
unfolding apply release evict_older_than
apply-IsValid limits s (reserve_op key) v = record {
  keyed = reserve-IsKeyed limits s key v.keyed;
  within = record {
    total = reserve-total limits s key v.within.total;
    per_pubkey = λ p. reserve-per_pubkey limits s key p (v.within.per_pubkey p);
  };
  sound = reserve-IsSound limits s key v.sound;
}
apply-IsValid limits s (release_op key) v = record {
  keyed = consume_reservation-IsKeyed s key v.keyed;
  within = IsWithin-of_le limits s _ (λ q. sessions-consume q s key) v.within;
  sound = consume_reservation-IsSound s key v.sound;
}
apply-IsValid limits s (commit_op key params chunk now) v = record {
  keyed = commit-IsKeyed s key params chunk now v.keyed;
  within =
      IsWithin-of_le limits s _ (λ q. sessions-commit q s key params chunk now v.keyed) v.within;
  sound = commit-IsSound s key params chunk now v.sound;
}
apply-IsValid limits s (evict_op now age) v = record {
  keyed = record {
    uploads = retain-IsDistinct (is_retained s now age) s.uploads v.keyed.uploads;
    pending = v.keyed.pending;
  };
  within = IsWithin-of_le limits s _ (λ q. sessions-evict q s now age) v.within;
  sound =
      retain-AllValues (λ (u : ChunkUpload). IsDisjoint u.chunks) (is_retained s now age) s.uploads
        v.sound;
}

run-IsValid_from :
    (limits : SessionLimits) (s : SessionState) (ops : List Op)
    → IsValid limits s
    → IsValid limits (run limits s ops)
unfolding run
run-IsValid_from limits s [] v = v
run-IsValid_from limits s (op ∷ ops) v =
    run-IsValid_from limits (apply limits s op) ops (apply-IsValid limits s op v)

new-IsValid : (limits : SessionLimits) → IsValid limits new
unfolding sessions count
new-IsValid limits = record {
  keyed = record { uploads = tt; pending = tt };
  within = record { total = count-nil; per_pubkey = λ p. count-nil };
  sound = tt;
}
  where
    count-nil : {n : ℕ} → 0 ≤ n
    count-nil = omega arith

-- After any sequence of reservations, releases, commits and evictions from an empty registry, the
-- sessions, pending ones included, are within the global limit, those of every public key are within
-- the limit of a public key, no key stands twice, and no two chunks of a stored upload share a byte,
-- a position below 2 ^ 64 - 1, as all are of a chunk that ends within `u64`.
pub run-IsValid : (limits : SessionLimits) (ops : List Op) → IsValid limits (run limits new ops)
run-IsValid limits ops = run-IsValid_from limits new ops (new-IsValid limits)

-- A restored upload is counted whatever the limits: where the registry is full and the key is not
-- known, restoring leaves one session more than the limit.
pub restore_exceeds :
    (limits : SessionLimits) (s : SessionState) (key : ChunkUploadKey) (u : ChunkUpload)
    → is_known s key ≡ false
    → sessions (λ k. true) s ≡ limits.max_sessions
    → ((restore s key u).1 ≡ true)
      × (sessions (λ k. true) (restore s key u).0 ≡ limits.max_sessions + 1)
restore_exceeds limits s key u h full =
    (unfold restore in rw h, sessions-restore (λ k. true) s key u h ∙ ap (λ n. n + 1) full)
