-- ===== src/ChunkSessions/Chunks.antt =====
-- The chunks of an upload: no two share a byte, and a completed upload has all its bytes.
use mathlib.Core.Path.{subst}
use almond.Prelude.{
  ℕ, ◌+◌, ◌-◌, ◌≤◌, ◌<◌, ◌^◌, ◌≡◌, refl, sym, ◌∙◌, false, not, ◌||◌, Option, none, some, List, [],
  ◌∷◌, ◌++◌, arith, ◌==◌, ==_iff, text_eq, any, All, Bool-cases, Option-cases, inl, inr, get,
  insert, get-remove, AllValues, insert-AllValues, remove-AllValues, get-AllValues,
}
use almond.ChunkSessions.{
  ChunkUploadKey, key_eq_instance, ChunkInfo, ChunkUpload, SessionParams, SessionState, complete,
  consume_reservation, commit, commit_consumed, append_chunk, push_chunk, or_insert, new_upload,
  overlaps, checked_total,
}
use almond.ChunkSessions.Capacity.{uploads-consume_reservation, key_eq_refl}

-- A byte position of a chunk. No chunk that ends within `u64` has the position 2 ^ 64 - 1.
abbrev pub Holds : ChunkInfo → ℕ → Type 0
Holds c x = (c.offset ≤ x) × (x < c.offset + c.length) × (x < 2 ^ 64 - 1)

-- Two chunks share no byte.
abbrev pub IsApart : ChunkInfo → ChunkInfo → Type 0
IsApart c d = (x : ℕ) → Holds c x → Holds d x → ⊥

abbrev pub IsDisjoint : List ChunkInfo → Type 0
IsDisjoint [] = Unit
IsDisjoint (c ∷ cs) = All (λ d. IsApart d c) cs × IsDisjoint cs

pub total : List ChunkInfo → ℕ
total [] = 0
total (c ∷ cs) = c.length + total cs

-- The chunks of every stored upload are disjoint.
abbrev pub IsSound : SessionState → Type 0
IsSound s = AllValues (λ (u : ChunkUpload). IsDisjoint u.chunks) s.uploads

-- Chunks that pass the registry's test share no byte.
overlaps_sound : (c d : ChunkInfo) → overlaps c d ≡ false → IsApart c d
unfolding overlaps
overlaps_sound c d h x hc hd = ground arith

All-snoc :
    (c d : ChunkInfo) (cs : List ChunkInfo)
    → All (λ e. IsApart e c) cs
    → IsApart d c
    → All (λ e. IsApart e c) (cs ++ d ∷ [])
All-snoc c d [] a h = (h, tt)
All-snoc c d (e ∷ cs) a h = (a.0, All-snoc c d cs a.1 h)

IsDisjoint-snoc :
    (cs : List ChunkInfo) (chunk : ChunkInfo)
    → IsDisjoint cs
    → any (overlaps chunk) cs ≡ false
    → IsDisjoint (cs ++ chunk ∷ [])
IsDisjoint-snoc [] chunk d h = (tt, tt)
IsDisjoint-snoc (c ∷ cs) chunk (a, d) h = (
  All-snoc c chunk cs a (overlaps_sound chunk c (ground arith)),
  IsDisjoint-snoc cs chunk d (ground arith),
)

checked_total-eq-some :
    (t : ℕ) (cs : List ChunkInfo) (n : ℕ) → checked_total t cs ≡ some n → n ≡ t + total cs
unfolding checked_total total
checked_total-eq-some t [] n h = ground arith
checked_total-eq-some t (c ∷ cs) n h = ground (arith, checked_total-eq-some (t + c.length) cs n)

-- What a completed upload is.
pub record IsComplete (u : ChunkUpload) : Type 0 where
  pub disjoint : IsDisjoint u.chunks
  pub covers : total u.chunks ≡ u.upload_length

push_chunk-IsSound :
    (s : SessionState) (key : ChunkUploadKey) (u : ChunkUpload) (chunk : ChunkInfo) (o : Option ℕ)
    → IsSound s
    → IsDisjoint (u.chunks ++ chunk ∷ [])
    → IsSound (push_chunk s key u chunk o).0
unfolding push_chunk
push_chunk-IsSound s key u chunk none v d = v
push_chunk-IsSound s key u chunk (some n) v d = elim (Bool-cases (n == u.upload_length)) [
  | inl done ↦ rw done (remove-AllValues (λ w. IsDisjoint w.chunks) s.uploads key v)
  | inr more ↦ rw more (insert-AllValues (λ w. IsDisjoint w.chunks) s.uploads key _ d v)
]

push_chunk-complete :
    (s : SessionState) (key : ChunkUploadKey) (u : ChunkUpload) (chunk : ChunkInfo) (o : Option ℕ)
    (w : ChunkUpload)
    → IsDisjoint (u.chunks ++ chunk ∷ [])
    → o ≡ checked_total 0 (u.chunks ++ chunk ∷ [])
    → (push_chunk s key u chunk o).1 ≡ complete w
    → IsComplete w × (get (push_chunk s key u chunk o).0.uploads key ≡ none)
unfolding push_chunk
push_chunk-complete s key u chunk none w d c h = cc
push_chunk-complete s key u chunk (some n) w d c h = elim (Bool-cases (n == u.upload_length)) [
  | inl done ↦
      let pushed : ChunkUpload = record u { chunks = u.chunks ++ chunk ∷ [] } in
      let e : pushed ≡ w = cc (rw done at h) in
      let t : n ≡ total pushed.chunks =
        omega (arith, checked_total-eq-some 0 pushed.chunks n (sym c)) in
      let full : IsComplete pushed = record {
        disjoint = d;
        covers = sym t ∙ (==_iff n u.upload_length).0 done;
      } in
      rw done (subst IsComplete e full, rw (get-remove s.uploads key key) (rw (key_eq_refl key)))
  | inr more ↦ cc (rw more at h)
]

-- The upload that a commit works on.
or_insert-IsDisjoint :
    (s : SessionState) (key : ChunkUploadKey) (params : SessionParams) (now : ℕ)
    → IsSound s
    → IsDisjoint (or_insert (get s.uploads key) params now).chunks
unfolding new_upload or_insert
or_insert-IsDisjoint s key params now v = elim (Option-cases (get s.uploads key)) [
  | inl absent ↦ rw absent tt
  | inr (u, found) ↦ rw found (get-AllValues (λ w. IsDisjoint w.chunks) s.uploads key v found)
]

append_chunk-IsSound :
    (s : SessionState) (key : ChunkUploadKey) (u : ChunkUpload) (params : SessionParams)
    (chunk : ChunkInfo)
    → IsSound s
    → IsDisjoint u.chunks
    → IsSound (append_chunk s key u params chunk).0
unfolding append_chunk
append_chunk-IsSound s key u params chunk v d =
    elim (Bool-cases (
      not (text_eq u.upload_type params.upload_type)
      || not (u.upload_length == params.upload_length))) [
        | inl mismatch ↦ rw mismatch v
        | inr agrees ↦ rw agrees (elim (Bool-cases (any (overlaps chunk) u.chunks)) [
          | inl clash ↦ rw clash v
          | inr free ↦
              rw free (push_chunk-IsSound s key u chunk _ v (IsDisjoint-snoc u.chunks chunk d free))
        ])
      ]

append_chunk-complete :
    (s : SessionState) (key : ChunkUploadKey) (u : ChunkUpload) (params : SessionParams)
    (chunk : ChunkInfo) (w : ChunkUpload)
    → IsDisjoint u.chunks
    → (append_chunk s key u params chunk).1 ≡ complete w
    → IsComplete w × (get (append_chunk s key u params chunk).0.uploads key ≡ none)
unfolding append_chunk
append_chunk-complete s key u params chunk w d h =
    elim (Bool-cases (
      not (text_eq u.upload_type params.upload_type)
      || not (u.upload_length == params.upload_length))) [
        | inl mismatch ↦ cc (rw (mismatch, append_chunk) at h)
        | inr agrees ↦ elim (Bool-cases (any (overlaps chunk) u.chunks)) [
          | inl clash ↦ cc (rw (agrees, clash, append_chunk) at h)
          | inr free ↦
              rw (agrees, free, append_chunk)
                (push_chunk-complete s key u chunk (checked_total 0 (u.chunks ++ chunk ∷ [])) w
                  (IsDisjoint-snoc u.chunks chunk d free) refl
                  (rw (agrees, free, append_chunk) at h))
        ]
      ]

pub consume_reservation-IsSound :
    (s : SessionState) (key : ChunkUploadKey) → IsSound s → IsSound (consume_reservation s key).0
consume_reservation-IsSound s key v = rw (uploads-consume_reservation s key) v

pub commit-IsSound :
    (s : SessionState) (key : ChunkUploadKey) (params : SessionParams) (chunk : ChunkInfo) (now : ℕ)
    → IsSound s
    → IsSound (commit s key params chunk now).0
unfolding commit
commit-IsSound s key params chunk now v =
    let s' = (consume_reservation s key).0 in
    let v' = consume_reservation-IsSound s key v in
    elim (Bool-cases (consume_reservation s key).1) [
      | inl consumed ↦
          let u = or_insert (get s'.uploads key) params now in
          let d = or_insert-IsDisjoint s' key params now v' in
          rw (consumed, commit_consumed)
            (append_chunk-IsSound (record s' { uploads = insert s'.uploads key u }) key u params
              chunk (insert-AllValues (λ w. IsDisjoint w.chunks) s'.uploads key u d v') d)
      | inr absent ↦ rw (absent, commit_consumed) v'
    ]

-- When a commit reports an upload as complete, from a registry in which no two chunks of a stored
-- upload share a byte: no two of its chunks share one, their lengths sum to the upload length, and
-- the registry has no upload under that key any more. A byte is a position below 2 ^ 64 - 1, as all
-- are of a chunk that ends within `u64`.
pub commit-complete :
    (s : SessionState) (key : ChunkUploadKey) (params : SessionParams) (chunk : ChunkInfo) (now : ℕ)
    (w : ChunkUpload)
    → IsSound s
    → (commit s key params chunk now).1 ≡ complete w
    → IsComplete w × (get (commit s key params chunk now).0.uploads key ≡ none)
unfolding commit
commit-complete s key params chunk now w v h =
    let s' = (consume_reservation s key).0 in
    let v' = consume_reservation-IsSound s key v in
    elim (Bool-cases (consume_reservation s key).1) [
      | inl consumed ↦
          let u = or_insert (get s'.uploads key) params now in
          rw (consumed, commit_consumed)
            (append_chunk-complete (record s' { uploads = insert s'.uploads key u }) key u params
              chunk w (or_insert-IsDisjoint s' key params now v')
              (rw (consumed, commit_consumed) at h))
      | inr absent ↦ cc (rw (absent, commit_consumed) at h)
    ]
