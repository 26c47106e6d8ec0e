-- ===== src/ChunkSessions/Tests.antt =====
-- Runs of the registry.
use almond.Prelude.{
  ℕ, ◌≡◌, refl, true, none, List, [], ◌∷◌, codes, get, contains_key, insert, remove, count, text_eq,
}
use almond.ChunkSessions.{
  ChunkUploadKey, ChunkInfo, ChunkUpload, SessionParams, SessionLimits, SessionState, complete,
  overlap, new, sessions, reserve, global_limit, commit, restore, overlaps, checked_total, is_known,
  key_eq_instance, consume_reservation, or_insert,
}
use almond.ChunkSessions.Chunks.{IsComplete, commit-complete}
use almond.ChunkSessions.Trace.{
  Op, reserve_op, commit_op, run, IsValid, run-IsValid, restore_exceeds,
}

registry : Unit {0}
unfolding run commit reserve checked_total overlaps sessions count get contains_key insert remove
    text_eq consume_reservation or_insert
registry = tt

abbrev key : ChunkUploadKey
key = record { pubkey = 7; sha256 = codes "ab" }

abbrev other_key : ChunkUploadKey
other_key = record { pubkey = 7; sha256 = codes "cd" }

abbrev limits : SessionLimits
limits = record { max_sessions = 1; max_sessions_per_pubkey = 1 }

abbrev params : SessionParams
params = record {
  sha256 = codes "ab";
  owner = 7;
  upload_type = codes "video/mp4";
  upload_length = 10;
  expiration = none;
}

abbrev chunk : ℕ → ℕ → ChunkInfo
chunk offset length = record { offset = offset; length = length; chunk_path = codes "chunk" }

abbrev script : List Op
script =
    reserve_op key ∷ commit_op key params (chunk 0 4) 1 ∷ reserve_op other_key ∷ reserve_op key ∷ []

abbrev half : SessionState
half = run limits new script

half_refuses : (reserve limits half other_key).1 ≡ global_limit
unfolding registry
half_refuses = refl

half_overlaps : (commit half key params (chunk 3 7) 2).1 ≡ overlap
unfolding registry
half_overlaps = refl

abbrev whole : ChunkUpload
whole = record {
  sha256 = codes "ab";
  owner = 7;
  upload_type = codes "video/mp4";
  upload_length = 10;
  chunks = chunk 0 4 ∷ chunk 4 6 ∷ [];
  created_at = 1;
  expiration = none;
}

half_completes : (commit half key params (chunk 4 6) 2).1 ≡ complete whole
unfolding registry
half_completes = refl

run-IsValid_example : IsValid limits (run limits new script)
run-IsValid_example = run-IsValid limits script

commit-complete_example :
    IsComplete whole × (get (commit half key params (chunk 4 6) 2).0.uploads key ≡ none)
commit-complete_example =
    commit-complete half key params (chunk 4 6) 2 whole (run-IsValid limits script).sound
      half_completes

abbrev full : SessionState
full = record { uploads = (other_key, whole) ∷ []; pending = [] }

restore_exceeds_example :
    ((restore full key whole).1 ≡ true) × (sessions (λ k. true) (restore full key whole).0 ≡ 2)
unfolding is_known sessions count contains_key text_eq
restore_exceeds_example = restore_exceeds limits full key whole refl refl
