-- ===== src/Reconstruction/Discards.antt =====
-- `reconstruct_blob` of src/handlers/upload.rs: which chunk files it leaves.
use mathlib.Core.Logic.{inl, inr}
use almond.Prelude.{
  sym, ap, ◌∙◌, not, ◌||◌, none, any, text_eq, eq_of_text_eq, get, remove, get-remove,
  text_eq_instance, ℕ, ◌+◌, ◌^◌, ◌<◌, ◌≡◌, refl, Bool, true, false, ◌&&◌, List, [], ◌∷◌, ltb, ◌==◌,
  if◌then◌else◌, Bytes, arith, Bool-cases,
}
use almond.Text.{u64_mod}
use almond.Reconstruction.Sorted.{IsOrdering, sort_by_offset-IsOrdering}
use almond.ChunkSessions.{ChunkInfo, ChunkUpload}
use almond.Reconstruction.{
  ChunkFaults, Disk, insert_by_offset, sort_by_offset, Coverage, gap, overflow, covered, coverage,
  after_coverage, reconstruct_blob, discard_chunk_files,
}

abbrev pub total_length : List ChunkInfo → ℕ
total_length [] = 0
total_length (c ∷ cs) = c.length + total_length cs

-- The chunks follow each other without a gap or an overlap, from one number to another.
unfoldable pub tiles : ℕ → ℕ → List ChunkInfo → Bool
tiles start end [] = start == end
tiles start end (c ∷ cs) = c.offset == start && tiles (start + c.length) end cs

total_length-insert_by_offset :
    (c : ChunkInfo) (cs : List ChunkInfo)
    → total_length (insert_by_offset c cs) ≡ c.length + total_length cs
unfolding insert_by_offset
total_length-insert_by_offset c [] = refl
total_length-insert_by_offset c (d ∷ ds) = ground (arith, total_length-insert_by_offset c ds)

total_length-sort_by_offset :
    (cs : List ChunkInfo) → total_length (sort_by_offset cs) ≡ total_length cs
unfolding sort_by_offset
total_length-sort_by_offset [] = refl
total_length-sort_by_offset (c ∷ cs) =
    omega
      (arith, total_length-insert_by_offset c (sort_by_offset cs), total_length-sort_by_offset cs)

-- What the loop finds, where the lengths fit a `u64`.
abbrev Finds : Bool → ℕ → Coverage → Type 0
Finds tiled end gap = tiled ≡ false
Finds tiled end overflow = ⊥
Finds tiled end (covered reached) = tiled ≡ (reached == end)

coverage-Finds :
    (n end : ℕ) (cs : List ChunkInfo)
    → n + total_length cs < 2 ^ 64
    → Finds (tiles n end cs) end (coverage n cs)
unfolding tiles coverage
coverage-Finds n end [] fits = refl
coverage-Finds n end (c ∷ cs) fits = elim (Bool-cases (c.offset == n)) [
  | inr apart ↦ rw apart refl
  | inl next ↦
      let in_range : ltb (n + c.length) u64_mod ≡ true = ground arith in
      rw (next, in_range) (coverage-Finds (n + c.length) end cs (omega arith))
]

-- The path is the file of a chunk.
abbrev pub is_chunk_file : Bytes → List ChunkInfo → Bool
is_chunk_file path cs = any (λ c. text_eq c.chunk_path path) cs

is_chunk_file-insert :
    (path : Bytes) (c : ChunkInfo) (cs : List ChunkInfo)
    → is_chunk_file path (insert_by_offset c cs)
      ≡ (text_eq c.chunk_path path || is_chunk_file path cs)
unfolding insert_by_offset
is_chunk_file-insert path c [] = refl
is_chunk_file-insert path c (d ∷ ds) = ground (arith, is_chunk_file-insert path c ds)

is_chunk_file-sort :
    (path : Bytes) (cs : List ChunkInfo)
    → is_chunk_file path (sort_by_offset cs) ≡ is_chunk_file path cs
unfolding sort_by_offset
is_chunk_file-sort path [] = refl
is_chunk_file-sort path (c ∷ cs) =
    ground (arith, is_chunk_file-insert path c (sort_by_offset cs), is_chunk_file-sort path cs)

-- What is at a path after the files of some chunks have been discarded.
get-discard_chunk_files :
    (io : ChunkFaults) (disk : Disk) (cs : List ChunkInfo) (path : Bytes)
    → get (discard_chunk_files io disk cs) path
      ≡ (if is_chunk_file path cs && not (io.remove_file path) then none else get disk path)
unfolding discard_chunk_files
get-discard_chunk_files io disk [] path = refl
get-discard_chunk_files io disk (c ∷ cs) path = elim (Bool-cases (io.remove_file c.chunk_path)) [
  | inl stays ↦ rw stays (
      get-discard_chunk_files io disk cs path ∙ elim (Bool-cases (text_eq c.chunk_path path)) [
        | inl same ↦
            let here : c.chunk_path ≡ path = eq_of_text_eq c.chunk_path path same in
            let stuck : io.remove_file path ≡ true = sym (ap io.remove_file here) ∙ stays in
            rw stuck (ground arith)
        | inr other ↦ rw other refl
      ])
  | inr goes ↦ rw goes (
      get-discard_chunk_files io (remove disk c.chunk_path) cs path
      ∙ rw (get-remove disk c.chunk_path path) (elim (Bool-cases (text_eq c.chunk_path path)) [
        | inl same ↦
            let here : c.chunk_path ≡ path = eq_of_text_eq c.chunk_path path same in
            let gone : io.remove_file path ≡ false = sym (ap io.remove_file here) ∙ goes in
            rw (gone, same) (ground arith)
        | inr other ↦ rw other refl
      ]))
]

module _ (sha256_hex : Bytes → Bytes) (io : ChunkFaults) (disk : Disk) where
  after_coverage-discards :
      (chunks : List ChunkInfo) (upload_length : ℕ) (sha256 : Bytes) (tiled : Bool) (c : Coverage)
      → Finds tiled upload_length c
      → (after_coverage sha256_hex io disk chunks upload_length sha256 c).0
        ≡ (if tiled && io.ensure_temp_dir then disk else discard_chunk_files io disk chunks)
  unfolding after_coverage
  after_coverage-discards chunks upload_length sha256 tiled gap h = rw h refl
  after_coverage-discards chunks upload_length sha256 tiled overflow h = elim h [ ]
  after_coverage-discards chunks upload_length sha256 tiled (covered end) h = ground arith

  reconstruct_blob-disk :
      (u : ChunkUpload) (sha256 : Bytes)
      → total_length u.chunks < 2 ^ 64
      → (reconstruct_blob sha256_hex io disk u sha256).0 ≡ (
          if tiles 0 u.upload_length (sort_by_offset u.chunks) && io.ensure_temp_dir
          then disk
          else discard_chunk_files io disk (sort_by_offset u.chunks))
  unfolding reconstruct_blob
  reconstruct_blob-disk u sha256 fits =
      let chunks = sort_by_offset u.chunks in
      after_coverage-discards chunks u.upload_length sha256 (tiles 0 u.upload_length chunks)
        (coverage 0 chunks)
        (coverage-Finds 0 u.upload_length chunks
          (omega (arith, fits, total_length-sort_by_offset u.chunks)))

  get-reconstruct_blob :
      (u : ChunkUpload) (sha256 path : Bytes)
      → total_length u.chunks < 2 ^ 64
      → get (reconstruct_blob sha256_hex io disk u sha256).0 path ≡ (
          if tiles 0 u.upload_length (sort_by_offset u.chunks) && io.ensure_temp_dir
          then get disk path
          else if is_chunk_file path u.chunks && not (io.remove_file path)
          then none
          else get disk path)
  get-reconstruct_blob u sha256 path fits =
      rw
        (
          reconstruct_blob-disk u sha256 fits,
          get-if (tiles 0 u.upload_length (sort_by_offset u.chunks) && io.ensure_temp_dir),
          get-discard_chunk_files io disk (sort_by_offset u.chunks) path,
          is_chunk_file-sort path u.chunks,
        )
        refl
    where
      get-if :
          (t : Bool) (d e : Disk)
          → get (if t then d else e) path ≡ (if t then get d path else get e path)
      get-if true d e = refl
      get-if false d e = refl

  -- Where the lengths of the chunks add up to a `u64`, after a reconstruction, successful or failed,
  -- every path holds nothing when it is the file of a chunk and its removal does not fail, and what
  -- it held before otherwise. The exception: if the chunks, in an order by their offsets, follow each
  -- other from 0 to the length of the upload and the temporary directory cannot be made, every path
  -- holds what it held before.
  pub reconstruct_blob-discards :
      (u : ChunkUpload) (sha256 : Bytes)
      → total_length u.chunks < 2 ^ 64
      → (order : List ChunkInfo) × IsOrdering u.chunks order
        × ((path : Bytes)
            → get (reconstruct_blob sha256_hex io disk u sha256).0 path ≡ (
                if tiles 0 u.upload_length order && io.ensure_temp_dir
                then get disk path
                else if is_chunk_file path u.chunks && not (io.remove_file path)
                then none
                else get disk path))
  reconstruct_blob-discards u sha256 fits = (
    sort_by_offset u.chunks,
    sort_by_offset-IsOrdering u.chunks,
    λ path. get-reconstruct_blob u sha256 path fits,
  )
