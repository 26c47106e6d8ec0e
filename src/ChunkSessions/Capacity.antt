-- ===== src/ChunkSessions/Capacity.antt =====
-- The capacity limits: how each operation changes the number of sessions.
use mathlib.Core.Path.{subst}
use native.Mathlib.Nat.{le_trans}
use almond.Prelude.{
  ℕ, ◌+◌, ◌-◌, ◌≤◌, ◌≡◌, refl, ap, Bool, true, false, not, ◌&&◌, [], ◌∷◌, ◌++◌, arith,
  count_mono_mem, contains_key-retain_kept, if◌then◌else◌, ◌==◌, ==_iff, Bool-cases, Option-cases,
  inl, inr, HashMap, get, contains_key, insert, remove, retain, IsDistinct, contains_key-get,
  contains_key-insert, contains_key-remove, insert-IsDistinct, remove-IsDistinct, count-insert,
  count-remove, count-retain, count_widen, count_narrow, count_mono,
}
use almond.ChunkSessions.{
  PublicKey, ChunkUploadKey, key_eq_instance, key_eq, key_eq_iff, ChunkInfo, ChunkUpload,
  SessionParams, SessionLimits, SessionState, is_known, is_retained, sessions, reserve,
  consume_reservation, consume, commit, commit_consumed, append_chunk, push_chunk, or_insert,
  restore, evict_older_than, one_more,
}

pub key_eq_refl : (k : ChunkUploadKey) → key_eq k k ≡ true
key_eq_refl k = (key_eq_iff k k).1 refl

-- Each key has one upload and one counter of reservations at most.
pub record IsKeyed (s : SessionState) : Type 0 where
  pub uploads : IsDistinct s.uploads
  pub pending : IsDistinct s.pending

contains_key-insert_self :
    (uploads : HashMap ChunkUploadKey ChunkUpload) (key : ChunkUploadKey) (u : ChunkUpload)
    → contains_key (insert uploads key u) key ≡ true
contains_key-insert_self uploads key u =
    ground (arith, contains_key-insert uploads key key u, key_eq_refl key)

pub uploads-consume_reservation :
    (s : SessionState) (key : ChunkUploadKey) → (consume_reservation s key).0.uploads ≡ s.uploads
unfolding consume_reservation consume
uploads-consume_reservation s key = ground arith

pub consume_reservation-IsKeyed :
    (s : SessionState) (key : ChunkUploadKey) → IsKeyed s → IsKeyed (consume_reservation s key).0
unfolding consume_reservation consume
consume_reservation-IsKeyed s key v = elim (Option-cases (get s.pending key)) [
  | inl absent ↦ rw absent v
  | inr (n, found) ↦ rw found (elim (Bool-cases (n == 1)) [
    | inl last ↦
        rw last
          (record { uploads = v.uploads; pending = remove-IsDistinct s.pending key v.pending })
    | inr more ↦ rw more (record {
      uploads = v.uploads;
      pending = insert-IsDistinct s.pending key (n - 1) v.pending;
    })
  ])
]

module _ (q : ChunkUploadKey → Bool) where
  abbrev waiting : HashMap ChunkUploadKey ChunkUpload → ChunkUploadKey → Bool
  waiting uploads k = q k && not (contains_key uploads k)

  -- A reservation is counted for a key that is not known yet.
  sessions-reserve_new :
      (s : SessionState) (key : ChunkUploadKey) (n : ℕ)
      → is_known s key ≡ false
      → sessions q (record s { pending = insert s.pending key n })
        ≡ sessions q s + (if q key then 1 else 0)
  unfolding sessions is_known
  sessions-reserve_new s key n h = ground (arith, count-insert (waiting s.uploads) s.pending key n)

  sessions-reserve_known :
      (s : SessionState) (key : ChunkUploadKey) (n : ℕ)
      → is_known s key ≡ true
      → sessions q (record s { pending = insert s.pending key n }) ≡ sessions q s
  unfolding sessions is_known
  sessions-reserve_known s key n h =
      ground (arith, count-insert (waiting s.uploads) s.pending key n)

  waiting-insert_le :
      (uploads : HashMap ChunkUploadKey ChunkUpload) (key : ChunkUploadKey) (u : ChunkUpload)
      (j : ChunkUploadKey)
      → waiting (insert uploads key u) j ≡ true
      → waiting uploads j ≡ true
  waiting-insert_le uploads key u j h = ground (arith, contains_key-insert uploads key j u)

  waiting-insert_self :
      (uploads : HashMap ChunkUploadKey ChunkUpload) (key : ChunkUploadKey) (u : ChunkUpload)
      → waiting (insert uploads key u) key ≡ false
  waiting-insert_self uploads key u =
      ground (arith, contains_key-insert uploads key key u, key_eq_refl key)

  -- Writing an upload under a key that has one changes no count.
  sessions-rewrite_upload :
      (s : SessionState) (key : ChunkUploadKey) (u : ChunkUpload)
      → contains_key s.uploads key ≡ true
      → sessions q (record s { uploads = insert s.uploads key u }) ≤ sessions q s
  unfolding sessions
  sessions-rewrite_upload s key u h = ground (
    arith,
    count-insert q s.uploads key u,
    count_mono (waiting (insert s.uploads key u)) (waiting s.uploads) s.pending
        (waiting-insert_le s.uploads key u),
  )

  waiting-remove_le :
      (uploads : HashMap ChunkUploadKey ChunkUpload) (key j : ChunkUploadKey)
      → waiting (remove uploads key) j ≡ true
      → key_eq key j ≡ false
      → waiting uploads j ≡ true
  waiting-remove_le uploads key j h n = ground (arith, contains_key-remove uploads key j)

  waiting-remove_other :
      (uploads : HashMap ChunkUploadKey ChunkUpload) (key j : ChunkUploadKey)
      → q key ≡ false
      → waiting (remove uploads key) j ≡ true
      → waiting uploads j ≡ true
  waiting-remove_other uploads key j n h =
      ground (arith, contains_key-remove uploads key j, key_eq_iff key j, ap q)

  -- A completed upload leaves, and at most its own key stays waiting.
  sessions-remove_upload :
      (s : SessionState) (key : ChunkUploadKey)
      → IsDistinct s.pending
      → contains_key s.uploads key ≡ true
      → sessions q (record s { uploads = remove s.uploads key }) ≤ sessions q s
  unfolding sessions
  sessions-remove_upload s key d h = elim (Bool-cases (q key)) [
    | inl counted ↦ ground (
      arith,
      count-remove q s.uploads key,
      count_widen (waiting s.uploads) (waiting (remove s.uploads key)) s.pending key d
          (waiting-remove_le s.uploads key),
    )
    | inr other ↦ ground (
      arith,
      count-remove q s.uploads key,
      count_mono (waiting (remove s.uploads key)) (waiting s.uploads) s.pending
          (λ j. waiting-remove_other s.uploads key j other),
    )
  ]

  -- A consumed reservation never adds a session.
  pub sessions-consume :
      (s : SessionState) (key : ChunkUploadKey)
      → sessions q (consume_reservation s key).0 ≤ sessions q s
  unfolding sessions consume_reservation consume
  sessions-consume s key = elim (Option-cases (get s.pending key)) [
    | inl absent ↦ rw absent (omega arith)
    | inr (n, found) ↦ rw found (
        ground (
          arith,
          count-remove (waiting s.uploads) s.pending key,
          count-insert (waiting s.uploads) s.pending key (n - 1),
          contains_key-get s.pending key,
        ))
  ]

  -- A consumed reservation turns into an upload: the key counted before.
  sessions-open_upload :
      (s : SessionState) (key : ChunkUploadKey) (u : ChunkUpload)
      → (consume_reservation s key).1 ≡ true
      → sessions q (record (consume_reservation s key).0 { uploads = insert s.uploads key u })
        ≤ sessions q s
  unfolding sessions consume_reservation consume
  sessions-open_upload s key u h = elim (Option-cases (get s.pending key)) [
    | inl absent ↦ cc (rw absent at h)
    | inr (n, found) ↦ rw found (elim (Bool-cases (n == 1)) [
      | inl last ↦ rw last (
          ground (
            arith,
            count-insert q s.uploads key u,
            count-remove (waiting s.uploads) s.pending key,
            count_mono (waiting (insert s.uploads key u)) (waiting s.uploads) (remove s.pending key)
                (waiting-insert_le s.uploads key u),
            contains_key-get s.pending key,
          ))
      | inr more ↦ rw more (
          ground (
            arith,
            count-insert q s.uploads key u,
            count-insert (waiting s.uploads) s.pending key (n - 1),
            count_narrow (waiting s.uploads) (waiting (insert s.uploads key u))
                (insert s.pending key (n - 1)) key (waiting-insert_le s.uploads key u)
                (waiting-insert_self s.uploads key u),
            contains_key-insert s.pending key key (n - 1),
            key_eq_refl key,
            contains_key-get s.pending key,
          ))
    ])
  ]

  sessions-append_chunk :
      (s : SessionState) (key : ChunkUploadKey) (u : ChunkUpload) (params : SessionParams)
      (chunk : ChunkInfo)
      → IsDistinct s.pending
      → contains_key s.uploads key ≡ true
      → sessions q (append_chunk s key u params chunk).0 ≤ sessions q s
  unfolding append_chunk push_chunk
  sessions-append_chunk s key u params chunk d h =
      let pushed : ChunkUpload = record u { chunks = u.chunks ++ chunk ∷ [] } in
      ground (arith, sessions-remove_upload s key d h, sessions-rewrite_upload s key pushed h)

  -- A commit never adds a session.
  pub sessions-commit :
      (s : SessionState) (key : ChunkUploadKey) (params : SessionParams) (chunk : ChunkInfo)
      (now : ℕ)
      → IsKeyed s
      → sessions q (commit s key params chunk now).0 ≤ sessions q s
  unfolding commit commit_consumed
  sessions-commit s key params chunk now v = elim (Bool-cases (consume_reservation s key).1) [
    | inl consumed ↦
        let s' = (consume_reservation s key).0 in
        let u = or_insert (get s'.uploads key) params now in
        rw (consumed, commit_consumed)
          (le_trans
            (sessions-append_chunk (record s' { uploads = insert s'.uploads key u }) key u params
              chunk (consume_reservation-IsKeyed s key v).pending
              (contains_key-insert_self s'.uploads key u))
            (rw (uploads-consume_reservation s key)
              (sessions-open_upload s key (or_insert (get s.uploads key) params now) consumed)))
    | inr absent ↦ rw (absent, commit_consumed) (sessions-consume s key)
  ]

  waiting-evict_le :
      (s : SessionState) (now age : ℕ) (j : ChunkUploadKey)
      → contains_key s.pending j ≡ true
      → waiting (retain (is_retained s now age) s.uploads) j ≡ true
      → waiting s.uploads j ≡ true
  unfolding is_retained
  waiting-evict_le s now age j there h = elim (Bool-cases (contains_key s.uploads j)) [
    | inl stored ↦
        ground (
          arith,
          contains_key-retain_kept (is_retained s now age) s.uploads j (λ v. rw there) stored,
        )
    | inr absent ↦ ground arith
  ]

  -- An eviction never adds a session: what has a request in flight stays.
  pub sessions-evict :
      (s : SessionState) (now age : ℕ) → sessions q (evict_older_than s now age).0 ≤ sessions q s
  unfolding evict_older_than sessions
  sessions-evict s now age =
      let keep = is_retained s now age in
      ground (
        arith,
        count-retain q keep s.uploads,
        count_mono_mem (waiting (retain keep s.uploads)) (waiting s.uploads) s.pending
            (waiting-evict_le s now age),
      )

  waiting-insert_ge :
      (s : SessionState) (key : ChunkUploadKey) (u : ChunkUpload)
      → is_known s key ≡ false
      → (j : ChunkUploadKey) → contains_key s.pending j ≡ true
      → waiting s.uploads j ≡ true
      → waiting (insert s.uploads key u) j ≡ true
  unfolding is_known
  waiting-insert_ge s key u h j there w = elim (Bool-cases (key_eq key j)) [
    | inl same ↦ ground (arith, ap (contains_key s.pending) ((key_eq_iff key j).0 same))
    | inr other ↦ ground (arith, contains_key-insert s.uploads key j u)
  ]

  -- A restored upload is counted anew, whatever the limits.
  pub sessions-restore :
      (s : SessionState) (key : ChunkUploadKey) (u : ChunkUpload)
      → is_known s key ≡ false
      → sessions q (restore s key u).0 ≡ sessions q s + (if q key then 1 else 0)
  unfolding restore sessions is_known
  sessions-restore s key u h = ground (
    arith,
    count-insert q s.uploads key u,
    count_mono_mem (waiting (insert s.uploads key u)) (waiting s.uploads) s.pending
        (λ j there. waiting-insert_le s.uploads key u j),
    count_mono_mem (waiting s.uploads) (waiting (insert s.uploads key u)) s.pending
        (waiting-insert_ge s key u h),
  )

  -- A granted reservation adds a session only for a key that was not known, and below both limits.
  sessions-reserve :
      (limits : SessionLimits) (s : SessionState) (key : ChunkUploadKey)
      → sessions q (reserve limits s key).0 ≤ sessions q s + (if q key then 1 else 0)
  unfolding reserve
  sessions-reserve limits s key = ground (
    arith,
    sessions-reserve_new s key 1,
    sessions-reserve_known s key (one_more (get s.pending key)),
  )

-- The limits: on all sessions, and on those of each public key.
pub record IsWithin (limits : SessionLimits) (s : SessionState) : Type 0 where
  pub total : sessions (λ k. true) s ≤ limits.max_sessions
  pub per_pubkey :
      (p : PublicKey) → sessions (λ k. k.pubkey == p) s ≤ limits.max_sessions_per_pubkey

pub reserve-total :
    (limits : SessionLimits) (s : SessionState) (key : ChunkUploadKey)
    → sessions (λ k. true) s ≤ limits.max_sessions
    → sessions (λ k. true) (reserve limits s key).0 ≤ limits.max_sessions
unfolding reserve
reserve-total limits s key h = ground (
  arith,
  sessions-reserve_new (λ k. true) s key 1,
  sessions-reserve_known (λ k. true) s key (one_more (get s.pending key)),
)

reserve-own :
    (limits : SessionLimits) (s : SessionState) (key : ChunkUploadKey)
    → sessions (λ k. k.pubkey == key.pubkey) s ≤ limits.max_sessions_per_pubkey
    → sessions (λ k. k.pubkey == key.pubkey) (reserve limits s key).0
      ≤ limits.max_sessions_per_pubkey
unfolding reserve
reserve-own limits s key h = ground (
  arith,
  sessions-reserve_new (λ k. k.pubkey == key.pubkey) s key 1,
  sessions-reserve_known (λ k. k.pubkey == key.pubkey) s key (one_more (get s.pending key)),
)

pub reserve-per_pubkey :
    (limits : SessionLimits) (s : SessionState) (key : ChunkUploadKey) (p : PublicKey)
    → sessions (λ k. k.pubkey == p) s ≤ limits.max_sessions_per_pubkey
    → sessions (λ k. k.pubkey == p) (reserve limits s key).0 ≤ limits.max_sessions_per_pubkey
unfolding reserve
reserve-per_pubkey limits s key p h = elim (Bool-cases (key.pubkey == p)) [
  | inl own ↦
      subst
        (λ o.
          sessions (λ k. k.pubkey == o) (reserve limits s key).0 ≤ limits.max_sessions_per_pubkey)
        ((==_iff key.pubkey p).0 own)
        (reserve-own limits s key (rw ((==_iff key.pubkey p).0 own) h))
  | inr other ↦ ground (arith, sessions-reserve (λ k. k.pubkey == p) limits s key)
]
