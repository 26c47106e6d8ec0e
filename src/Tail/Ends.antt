-- ===== src/Tail/Ends.antt =====
-- The stream of src/services/tail.rs comes to its end once the download is complete.
use almond.Prelude.{
  ℕ, suc, ◌+◌, ◌-◌, ◌*◌, ◌≤◌, ◌<◌, ◌≡◌, refl, min, true, false, Option, none, some, List, [], ◌∷◌,
  arith, ltb, leb, Bytes, take, drop, length, All, Bool-cases, inl, inr,
}
use almond.Text.{u64_mod}
use almond.Tail.{
  complete, Turn, Action, yields, waits, breaks, fails, Ending, finished, read_exact, on_phase,
  turn, after_turn, tail,
}
use almond.Tail.Slices.{length-take, length-drop}
use almond.Tail.Exact.{stop, available}

-- A turn that sees the download complete and the file whole.
abbrev pub IsComplete : Bytes → Turn → Type 0
IsComplete file t = (t.snapshot.phase ≡ complete) × (t.snapshot.written ≡ length file)

-- Such a turn yields bytes or ends the stream.
abbrev Advances : Bytes → Option ℕ → ℕ → Action → Type 0
Advances file end position (yields chunk) =
    (0 < length chunk) × (position + length chunk ≤ stop file end)
Advances file end position breaks = Unit
Advances file end position waits = ⊥
Advances file end position (fails e) = ⊥

read_exact-Advances :
    (file : Bytes) (end : Option ℕ) (position n : ℕ)
    → 0 < n
    → position + n ≤ length file
    → position + n ≤ stop file end
    → Advances file end position (read_exact file position n)
unfolding read_exact
read_exact-Advances file end position n h k l =
    let size : length (take n (drop position file)) ≡ n =
      length-take n (drop position file) (omega (arith, length-drop position file)) in
    let fits : leb (position + n) (length file) ≡ true = ground arith in rw (fits, size) (h, l)

available_bounds :
    (file : Bytes) (end : Option ℕ) (t : Turn)
    → IsComplete file t
    → (available end t ≤ length file) × (available end t ≤ stop file end)
available_bounds file none t whole = (omega (arith, whole.1), omega (arith, whole.1))
available_bounds file (some limit) t whole = (omega (arith, whole.1), omega arith)

turn_exhausted :
    (file : Bytes) (end : Option ℕ) (position : ℕ) (t : Turn)
    → stop file end ≤ length file
    → length file < u64_mod
    → IsComplete file t
    → ltb position (available end t) ≡ false
    → turn file end position t ≡ breaks
unfolding turn on_phase
turn_exhausted file none position t within small whole nothing = rw (nothing, whole.0)
turn_exhausted file (some limit) position t within small whole nothing =
    let at_end : leb limit position ≡ true = ground arith in rw (nothing, at_end)

turn-Advances :
    (file : Bytes) (end : Option ℕ) (position : ℕ) (t : Turn)
    → stop file end ≤ length file
    → length file < u64_mod
    → IsComplete file t
    → Advances file end position (turn file end position t)
turn-Advances file end position t within small whole =
    elim (Bool-cases (ltb position (available end t))) [
      | inr nothing ↦ rw (turn_exhausted file end position t within small whole nothing) tt
      | inl more ↦
          let lt : position < available end t = ground arith in
          let bounds = available_bounds file end t whole in
          let n = min (64 * 1024) (available end t - position) in
          let reads : turn file end position t ≡ read_exact file position n =
            unfold turn in rw more in
          rw reads (
            read_exact-Advances file end position n (ground arith) (ground (arith, bounds))
              (ground (arith, bounds)))
    ]

after_turn-finishes :
    (file : Bytes) (end : Option ℕ) (position n : ℕ) (a : Action) (more : ℕ → List Bytes × Ending)
    → Advances file end position a
    → stop file end < position + suc n
    → ((p : ℕ) → p ≤ stop file end → stop file end < p + n → (more p).1 ≡ finished)
    → (after_turn a position more).1 ≡ finished
after_turn-finishes file end position n (yields chunk) more it h rest =
    rest (position + length chunk) it.1 (omega (arith, it.0))
after_turn-finishes file end position n waits more it h rest = absurd it
after_turn-finishes file end position n breaks more it h rest = refl
after_turn-finishes file end position n (fails e) more it h rest = absurd it

-- Once every turn sees the download complete, a stream that was asked for bytes the file has ends
-- without an error, in any run of turns longer than the number of bytes that are left.
pub tail-finishes :
    (file : Bytes) (end : Option ℕ) (position : ℕ) (turns : List Turn)
    → stop file end ≤ length file
    → length file < u64_mod
    → All (IsComplete file) turns
    → position ≤ stop file end
    → stop file end < position + length turns
    → (tail file end position turns).1 ≡ finished
unfolding tail
tail-finishes file end position [] within small whole k h = absurd (omega arith)
tail-finishes file end position (t ∷ turns) within small whole k h =
    after_turn-finishes file end position (length turns) (turn file end position t)
      (λ p. tail file end p turns) (turn-Advances file end position t within small whole.0) h
      (λ p. tail-finishes file end p turns within small whole.1)
