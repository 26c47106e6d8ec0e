-- ===== src/Reconstruction.antt =====
-- `reconstruct_blob` of src/handlers/upload.rs: how the chunks of a completed upload become one blob.
-- Files are a map from their path to their bytes, and every operation on them may fail as `ChunkFaults`
-- says. The hash is the parameter `sha256_hex`. What is returned is the content that the handler
-- passes on to `finalize_upload`, whose outcome changes no chunk file; Storage models the
-- publication that follows. A read that returns less than it may only splits the copying.
pub mod Content
pub mod Sorted
pub mod Discards
pub mod Tests
use almond.Prelude.{
  ℕ, ◌+◌, Bool, true, false, not, ◌&&◌, ◌||◌, Option, none, some, List, [], ◌∷◌, ◌++◌, leb, ltb,
  ◌==◌, text_eq, if◌then◌else◌, Bytes, HashMap, get, remove, text_eq_instance, length,
}
use almond.Text.{u64_mod}
use almond.Error.{AppResult, ok, err, bad_request, io_error, unauthorized, ensure, ◌>>=◌, ◌>>◌}
use almond.ChunkSessions.{ChunkInfo, ChunkUpload}

-- What may go wrong, for a path where it is about a chunk.
pub record ChunkFaults : Type 0 where
  pub ensure_temp_dir : Bool
  pub create : Bool
  pub open_file : Bytes → Bool
  pub read : Bytes → Bool
  pub write : Bytes → Bool
  pub sync_all : Bool
  pub remove_file : Bytes → Bool

abbrev pub Disk : Type 0
Disk = HashMap Bytes Bytes

-- `sort_by_key(offset)`, a stable sort, as insertion in front of later chunks.
unfoldable pub insert_by_offset : ChunkInfo → List ChunkInfo → List ChunkInfo
insert_by_offset c [] = c ∷ []
insert_by_offset c (d ∷ ds) =
    if leb c.offset d.offset then c ∷ d ∷ ds else d ∷ insert_by_offset c ds

unfoldable pub sort_by_offset : List ChunkInfo → List ChunkInfo
sort_by_offset [] = []
sort_by_offset (c ∷ cs) = insert_by_offset c (sort_by_offset cs)

-- How the loop over the offsets ends.
pub data Coverage : Type 0 where
  gap overflow : Coverage
  covered : ℕ → Coverage

unfoldable pub coverage : ℕ → List ChunkInfo → Coverage
coverage expected_offset [] = covered expected_offset
coverage expected_offset (c ∷ cs) =
    let next = expected_offset + c.length in
    let rest = coverage next cs in
    if c.offset == expected_offset then if ltb next u64_mod then rest else overflow else gap

-- A removal that fails leaves the file.
unfoldable pub discard_chunk_files : ChunkFaults → Disk → List ChunkInfo → Disk
discard_chunk_files io disk [] = disk
discard_chunk_files io disk (c ∷ cs) =
    discard_chunk_files io (if io.remove_file c.chunk_path then disk else remove disk c.chunk_path)
      cs

abbrev pub opened : Option Bytes → AppResult Bytes
opened none = err io_error
opened (some bytes) = ok bytes

-- An empty chunk writes nothing, and neither does an empty file.
unfoldable pub copy_chunk : ChunkFaults → Disk → ChunkInfo → AppResult Bytes
copy_chunk io disk c = do
  source ← opened (get disk c.chunk_path)
  opens ← ensure (not (io.open_file c.chunk_path)) io_error
  reads ← ensure (not (io.read c.chunk_path)) io_error
  writes ← ensure (c.length == 0 || length source == 0 || not (io.write c.chunk_path)) io_error
  long ← ensure (leb c.length (length source)) bad_request
  short ← ensure (leb (length source) c.length) bad_request
  ok source

-- The total of the bytes is that of the lengths, which `coverage` has found to fit.
unfoldable pub copy_chunks : ChunkFaults → Disk → List ChunkInfo → AppResult Bytes
copy_chunks io disk [] = ok []
copy_chunks io disk (c ∷ cs) =
    copy_chunk io disk c >>= (λ bytes. copy_chunks io disk cs >>= (λ rest. ok (bytes ++ rest)))

module _ (sha256_hex : Bytes → Bytes) where
  unfoldable pub assemble : ChunkFaults → Disk → List ChunkInfo → ℕ → Bytes → AppResult Bytes
  assemble io disk chunks upload_length expected_sha256 = do
    created ← ensure (not io.create) io_error
    content ← copy_chunks io disk chunks
    matches ←
        ensure (length content == upload_length && text_eq (sha256_hex content) expected_sha256)
          unauthorized
    synced ← ensure (not io.sync_all) io_error
    ok content

  unfoldable pub after_coverage :
      ChunkFaults → Disk → List ChunkInfo → ℕ → Bytes → Coverage → Disk × AppResult Bytes
  after_coverage io disk chunks upload_length expected_sha256 gap =
      (discard_chunk_files io disk chunks, err bad_request)
  after_coverage io disk chunks upload_length expected_sha256 overflow = (disk, err bad_request)
  after_coverage io disk chunks upload_length expected_sha256 (covered end) =
      if end == upload_length
      then if io.ensure_temp_dir then (disk, err io_error) else (
        discard_chunk_files io disk chunks,
        assemble io disk chunks upload_length expected_sha256,
      )
      else (discard_chunk_files io disk chunks, err bad_request)

  unfoldable pub reconstruct_blob :
      ChunkFaults → Disk → ChunkUpload → Bytes → Disk × AppResult Bytes
  reconstruct_blob io disk chunk_upload expected_sha256 =
      let chunks = sort_by_offset chunk_upload.chunks in
      after_coverage io disk chunks chunk_upload.upload_length expected_sha256 (coverage 0 chunks)
