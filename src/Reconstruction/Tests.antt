-- ===== src/Reconstruction/Tests.antt =====
-- Two chunks that came in the other order, and one that leaves a gap.
use almond.Prelude.{
  if◌then◌else◌, ◌&&◌, ◌≡◌, refl, Bool, true, false, none, List, [], ◌∷◌, codes, text_eq, Bytes,
  arith, get, remove, text_eq_instance,
}
use almond.Error.{ok, err, bad_request, io_error, unauthorized}
use almond.ChunkSessions.{ChunkInfo, ChunkUpload}
use almond.Reconstruction.{
  ChunkFaults, Disk, reconstruct_blob, sort_by_offset, insert_by_offset, discard_chunk_files,
  coverage, copy_chunk, copy_chunks, assemble, after_coverage,
}
use almond.Reconstruction.Content.{IsWhole, reconstruct_blob-IsWhole}
use almond.Reconstruction.Sorted.{IsOrdering}
use almond.Reconstruction.Discards.{tiles, is_chunk_file, reconstruct_blob-discards}

abbrev upload_of : List ChunkInfo → ChunkUpload
upload_of chunks = record {
  sha256 = codes "olleh";
  owner = 7;
  upload_type = codes "text/plain";
  upload_length = 5;
  chunks = chunks;
  created_at = 0;
  expiration = none;
}

abbrev first : ChunkInfo
first = record { offset = 0; length = 3; chunk_path = codes "a" }

abbrev last : ChunkInfo
last = record { offset = 3; length = 2; chunk_path = codes "b" }

abbrev both : ChunkUpload
both = upload_of (last ∷ first ∷ [])

abbrev disk : Disk
disk = (codes "a", codes "hel") ∷ (codes "b", codes "lo") ∷ (codes "c", codes "x") ∷ []

abbrev left_over : Disk
left_over = (codes "c", codes "x") ∷ []

abbrev io_of : Bool → ChunkFaults
io_of no_directory = record {
  ensure_temp_dir = no_directory;
  create = false;
  open_file = λ p. false;
  read = λ p. false;
  write = λ p. false;
  sync_all = false;
  remove_file = λ p. false;
}

-- A hash that is the text itself.
abbrev same_text : Bytes → Bytes
same_text t = t

joins :
    reconstruct_blob same_text (io_of false) disk both (codes "hello")
    ≡ (left_over, ok (codes "hello"))
unfolding reconstruct_blob after_coverage coverage sort_by_offset insert_by_offset
    discard_chunk_files assemble remove copy_chunks text_eq copy_chunk get
joins = refl

other_hash :
    reconstruct_blob same_text (io_of false) disk both (codes "help!")
    ≡ (left_over, err unauthorized)
unfolding reconstruct_blob after_coverage coverage sort_by_offset insert_by_offset
    discard_chunk_files assemble remove copy_chunks text_eq copy_chunk get
other_hash = refl

leaves_a_gap :
    reconstruct_blob same_text (io_of true) disk (upload_of (last ∷ [])) (codes "lo")
    ≡ ((codes "a", codes "hel") ∷ (codes "c", codes "x") ∷ [], err bad_request)
unfolding reconstruct_blob after_coverage coverage sort_by_offset insert_by_offset
    discard_chunk_files remove text_eq
leaves_a_gap = refl

no_directory :
    reconstruct_blob same_text (io_of true) disk both (codes "hello") ≡ (disk, err io_error)
unfolding reconstruct_blob after_coverage coverage sort_by_offset insert_by_offset
no_directory = refl

reconstruct_blob-IsWhole_example : IsWhole same_text disk both (codes "hello") (codes "hello")
reconstruct_blob-IsWhole_example =
    reconstruct_blob-IsWhole same_text (io_of false) disk left_over both (codes "hello")
      (codes "hello") joins

reconstruct_blob-discards_example :
    (order : List ChunkInfo) × IsOrdering both.chunks order
    × ((path : Bytes)
        → get (reconstruct_blob same_text (io_of true) disk both (codes "hello")).0 path ≡ (
            if tiles 0 5 order && true
            then get disk path
            else if is_chunk_file path both.chunks && true
            then none
            else get disk path))
reconstruct_blob-discards_example =
    reconstruct_blob-discards same_text (io_of true) disk both (codes "hello") (omega arith)
