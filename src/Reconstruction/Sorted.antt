-- ===== src/Reconstruction/Sorted.antt =====
-- `reconstruct_blob` of src/handlers/upload.rs: the chunks in the order in which it joins them.
use almond.Prelude.{
  ℕ, ◌+◌, ◌≤◌, ◌≡◌, refl, Bool, List, [], ◌∷◌, leb, if◌then◌else◌, arith, All, Bool-cases, inl, inr,
}
use native.Mathlib.Nat.{le_trans}
use almond.ChunkSessions.{ChunkInfo}
use almond.Reconstruction.{insert_by_offset, sort_by_offset}

-- How many chunks pass a test.
abbrev pub count_if : (ChunkInfo → Bool) → List ChunkInfo → ℕ
count_if p [] = 0
count_if p (c ∷ cs) = (if p c then 1 else 0) + count_if p cs

-- No chunk starts behind one that follows it.
abbrev pub IsByOffset : List ChunkInfo → Type 0
IsByOffset [] = Unit
IsByOffset (c ∷ cs) = All (λ d. c.offset ≤ d.offset) cs × IsByOffset cs

-- The same chunks, each as often, by offset.
abbrev pub IsOrdering : (chunks order : List ChunkInfo) → Type 0
IsOrdering chunks order =
    IsByOffset order × ((p : ChunkInfo → Bool) → count_if p order ≡ count_if p chunks)

count_if-insert :
    (p : ChunkInfo → Bool) (c : ChunkInfo) (cs : List ChunkInfo)
    → count_if p (insert_by_offset c cs) ≡ (if p c then 1 else 0) + count_if p cs
unfolding insert_by_offset
count_if-insert p c [] = refl
count_if-insert p c (d ∷ ds) = ground (arith, count_if-insert p c ds)

count_if-sort :
    (p : ChunkInfo → Bool) (cs : List ChunkInfo) → count_if p (sort_by_offset cs) ≡ count_if p cs
unfolding sort_by_offset
count_if-sort p [] = refl
count_if-sort p (c ∷ cs) =
    omega (arith, count_if-insert p c (sort_by_offset cs), count_if-sort p cs)

All-insert :
    (n : ℕ) (c : ChunkInfo) (cs : List ChunkInfo)
    → n ≤ c.offset
    → All (λ d. n ≤ d.offset) cs
    → All (λ d. n ≤ d.offset) (insert_by_offset c cs)
unfolding insert_by_offset
All-insert n c [] h a = (h, tt)
All-insert n c (d ∷ ds) h a = ground (arith, All-insert n c ds h a.1)

All-le :
    (n k : ℕ) (cs : List ChunkInfo)
    → n ≤ k
    → All (λ d. k ≤ d.offset) cs
    → All (λ d. n ≤ d.offset) cs
All-le n k [] h a = tt
All-le n k (d ∷ ds) h a = (le_trans h a.0, All-le n k ds h a.1)

insert-IsByOffset :
    (c : ChunkInfo) (cs : List ChunkInfo) → IsByOffset cs → IsByOffset (insert_by_offset c cs)
unfolding insert_by_offset
insert-IsByOffset c [] h = (tt, tt)
insert-IsByOffset c (d ∷ ds) h = elim (Bool-cases (leb c.offset d.offset)) [
  | inl before ↦
      rw before
        ((ground (arith, before), All-le c.offset d.offset ds (ground (arith, before)) h.0), h)
  | inr behind ↦
      rw behind (All-insert d.offset c ds (ground (arith, behind)) h.0, insert-IsByOffset c ds h.1)
]

sort-IsByOffset : (cs : List ChunkInfo) → IsByOffset (sort_by_offset cs)
unfolding sort_by_offset
sort-IsByOffset [] = tt
sort-IsByOffset (c ∷ cs) = insert-IsByOffset c (sort_by_offset cs) (sort-IsByOffset cs)

pub sort_by_offset-IsOrdering : (cs : List ChunkInfo) → IsOrdering cs (sort_by_offset cs)
sort_by_offset-IsOrdering cs = (sort-IsByOffset cs, λ p. count_if-sort p cs)
