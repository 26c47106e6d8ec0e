-- ===== src/Reconstruction/Content.antt =====
-- `reconstruct_blob` of src/handlers/upload.rs: the content that it hands on.
use almond.Prelude.{
  ℕ, ◌+◌, ◌≡◌, refl, ◌∙◌, ap, true, not, ◌&&◌, ◌||◌, Option, none, some, List, [], ◌∷◌, ◌++◌, leb,
  ◌==◌, text_eq, eq_of_text_eq, Bytes, get, text_eq_instance, length, length-append, All, arith,
  Bool-cases,
}
use mathlib.Core.List.{append_assoc}
use mathlib.Core.Logic.{inl, inr}
use mathlib.Core.Path.{subst}
use almond.Error.{ok, bad_request, io_error, unauthorized, >>=-eq-ok, ensure->>-eq-ok}
use almond.ChunkSessions.{ChunkInfo, ChunkUpload}
use almond.Reconstruction.{
  ChunkFaults, Disk, insert_by_offset, sort_by_offset, Coverage, gap, overflow, covered, coverage,
  opened, copy_chunk, copy_chunks, assemble, after_coverage, reconstruct_blob,
}

-- The file of a chunk is as long as the chunk and stands in the content, which begins at `start`,
-- at the offset of the chunk.
pub record StandsAt (disk : Disk) (start : ℕ) (content : Bytes) (c : ChunkInfo) : Type 0 where
  pub bytes : Bytes
  pub file : get disk c.chunk_path ≡ some bytes
  pub size : length bytes ≡ c.length
  pub before : Bytes
  pub after : Bytes
  pub splits : before ++ (bytes ++ after) ≡ content
  pub place : start + length before ≡ c.offset

opened-ok : (o : Option Bytes) (b : Bytes) → opened o ≡ ok b → o ≡ some b
opened-ok none b h = cc
opened-ok (some a) b h = cc

copy_chunk-ok :
    (io : ChunkFaults) (disk : Disk) (c : ChunkInfo) (b : Bytes)
    → copy_chunk io disk c ≡ ok b
    → (get disk c.chunk_path ≡ some b) × (length b ≡ c.length)
unfolding copy_chunk
copy_chunk-ok io disk c b h =
    let (source, found, h1) = >>=-eq-ok (opened (get disk c.chunk_path)) _ h in
    let (opens, h2) = ensure->>-eq-ok (not (io.open_file c.chunk_path)) io_error _ h1 in
    let (reads, h3) = ensure->>-eq-ok (not (io.read c.chunk_path)) io_error _ h2 in
    let (writes, h4) =
      ensure->>-eq-ok (c.length == 0 || length source == 0 || not (io.write c.chunk_path)) io_error
        _ h3 in
    let (long, h5) = ensure->>-eq-ok (leb c.length (length source)) bad_request _ h4 in
    let (short, h6) = ensure->>-eq-ok (leb (length source) c.length) bad_request _ h5 in
    let same : source ≡ b = cc h6 in
    (rw (← same) (opened-ok (get disk c.chunk_path) source found), rw (← same) (ground arith))

coverage-covered :
    (n : ℕ) (c : ChunkInfo) (cs : List ChunkInfo) (end : ℕ)
    → coverage n (c ∷ cs) ≡ covered end
    → (c.offset ≡ n) × (coverage (n + c.length) cs ≡ covered end)
unfolding coverage
coverage-covered n c cs end h = ground arith

-- What begins later stands in the longer content too.
StandsAt-later :
    (disk : Disk) (n : ℕ) (head rest : Bytes) (c : ChunkInfo)
    → StandsAt disk (n + length head) rest c
    → StandsAt disk n (head ++ rest) c
StandsAt-later disk n head rest c s = record {
  bytes = s.bytes;
  file = s.file;
  size = s.size;
  before = head ++ s.before;
  after = s.after;
  splits = append_assoc head s.before (s.bytes ++ s.after) ∙ ap (λ tail. head ++ tail) s.splits;
  place = omega (arith, s.place, length-append head s.before);
}

All-later :
    (disk : Disk) (n : ℕ) (head rest : Bytes) (cs : List ChunkInfo)
    → All (StandsAt disk (n + length head) rest) cs
    → All (StandsAt disk n (head ++ rest)) cs
All-later disk n head rest [] h = tt
All-later disk n head rest (c ∷ cs) (h, hs) =
    (StandsAt-later disk n head rest c h, All-later disk n head rest cs hs)

-- The chunks of a covered stretch stand in what is copied, which is as long as the stretch.
copy_chunks-StandsAt :
    (io : ChunkFaults) (disk : Disk) (n end : ℕ) (cs : List ChunkInfo) (content : Bytes)
    → coverage n cs ≡ covered end
    → copy_chunks io disk cs ≡ ok content
    → (n + length content ≡ end) × All (StandsAt disk n content) cs
unfolding coverage copy_chunks
copy_chunks-StandsAt io disk n end [] content covers h =
    let empty : [] ≡ content = cc h in
    let same : n ≡ end = cc covers in (rw (← empty) (omega arith), tt)
copy_chunks-StandsAt io disk n end (c ∷ cs) content covers h =
    let (first, rests) = coverage-covered n c cs end covers in
    let (head, copied, h1) = >>=-eq-ok (copy_chunk io disk c) _ h in
    let (rest, others, h2) = >>=-eq-ok (copy_chunks io disk cs) _ h1 in
    let whole : head ++ rest ≡ content = cc h2 in
    let (file, size) = copy_chunk-ok io disk c head copied in
    let from : coverage (n + length head) cs ≡ covered end = rw size rests in
    let (total, places) = copy_chunks-StandsAt io disk (n + length head) end cs rest from others in
    let here : StandsAt disk n (head ++ rest) c = record {
      bytes = head;
      file = file;
      size = size;
      before = [];
      after = rest;
      splits = refl;
      place = omega (arith, first);
    } in
    subst (λ t. (n + length t ≡ end) × All (StandsAt disk n t) (c ∷ cs)) whole
      (omega (arith, total, length-append head rest), (here, All-later disk n head rest cs places))

after_coverage-ok :
    (sha256_hex : Bytes → Bytes) (io : ChunkFaults) (disk after : Disk) (chunks : List ChunkInfo)
    (upload_length : ℕ) (sha256 content : Bytes) (c : Coverage)
    → after_coverage sha256_hex io disk chunks upload_length sha256 c ≡ (after, ok content)
    → (end : ℕ) × (c ≡ covered end)
      × (copy_chunks io disk chunks ≡ ok content)
      × (text_eq (sha256_hex content) sha256 ≡ true)
      × (length content ≡ upload_length)
unfolding after_coverage assemble
after_coverage-ok sha256_hex io disk after chunks upload_length sha256 content gap h = cc h
after_coverage-ok sha256_hex io disk after chunks upload_length sha256 content overflow h = cc h
after_coverage-ok sha256_hex io disk after chunks upload_length sha256 content (covered end) h =
    let k : assemble sha256_hex io disk chunks upload_length sha256 ≡ ok content = ground arith in
    let (created, h1) = ensure->>-eq-ok (not io.create) io_error _ k in
    let (copied, copies, h2) = >>=-eq-ok (copy_chunks io disk chunks) _ h1 in
    let (good, h3) =
      ensure->>-eq-ok (length copied == upload_length && text_eq (sha256_hex copied) sha256)
        unauthorized _ h2 in
    let (synced, h4) = ensure->>-eq-ok (not io.sync_all) io_error _ h3 in
    let same : copied ≡ content = cc h4 in
    (end, refl, rw (← same) copies, rw (← same) (ground arith), rw (← same) (ground arith))

module _ (P : ChunkInfo → Type 0) where
  All-insert_by_offset :
      (c : ChunkInfo) (cs : List ChunkInfo) → All P (insert_by_offset c cs) → All P (c ∷ cs)
  unfolding insert_by_offset
  All-insert_by_offset c [] h = h
  All-insert_by_offset c (d ∷ ds) h = elim (Bool-cases (leb c.offset d.offset)) [
    | inl first ↦ rw first at h
    | inr later ↦
        let (hd, hs) : All P (d ∷ insert_by_offset c ds) = rw later at h in
        let (hc, rest) = All-insert_by_offset c ds hs in (hc, (hd, rest))
  ]

  All-sort_by_offset : (cs : List ChunkInfo) → All P (sort_by_offset cs) → All P cs
  unfolding sort_by_offset
  All-sort_by_offset [] h = tt
  All-sort_by_offset (c ∷ cs) h =
      let (hc, hs) = All-insert_by_offset c (sort_by_offset cs) h in (hc, All-sort_by_offset cs hs)

-- What is known of a content that is handed on.
pub record IsWhole (sha256_hex : Bytes → Bytes) (disk : Disk) (u : ChunkUpload)
    (sha256 content : Bytes) : Type 0 where
  pub hash : sha256_hex content ≡ sha256
  pub total : length content ≡ u.upload_length
  pub places : All (StandsAt disk 0 content) u.chunks

-- A reconstruction that succeeds hands on a content of the declared length and hash, in which the
-- file of every chunk of the upload stands at the offset of the chunk.
pub reconstruct_blob-IsWhole :
    (sha256_hex : Bytes → Bytes) (io : ChunkFaults) (disk after : Disk) (u : ChunkUpload)
    (sha256 content : Bytes)
    → reconstruct_blob sha256_hex io disk u sha256 ≡ (after, ok content)
    → IsWhole sha256_hex disk u sha256 content
unfolding reconstruct_blob
reconstruct_blob-IsWhole sha256_hex io disk after u sha256 content h =
    let chunks = sort_by_offset u.chunks in
    let (end, covers, copied, hashed, total) =
      after_coverage-ok sha256_hex io disk after chunks u.upload_length sha256 content
        (coverage 0 chunks) h in
    let (length_end, places) = copy_chunks-StandsAt io disk 0 end chunks content covers copied in
    record {
      hash = eq_of_text_eq (sha256_hex content) sha256 hashed;
      total = total;
      places = All-sort_by_offset (StandsAt disk 0 content) u.chunks places;
    }
