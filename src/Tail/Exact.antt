-- ===== src/Tail/Exact.antt =====
-- What the stream of src/services/tail.rs hands on: exactly the bytes that were asked for.
use almond.Prelude.{
  ℕ, ◌+◌, ◌-◌, ◌*◌, ◌≤◌, ◌<◌, ◌≡◌, ◌⊎◌, inl, inr, refl, sym, ◌∙◌, ap, min, true, false, Option,
  none, some, List, [], ◌∷◌, ◌++◌, arith, ltb, leb, Bytes, take, drop, length, All, Bool-cases,
}
use almond.Text.{u64_mod}
use almond.Tail.{
  DownloadPhase, running, complete, failed, Turn, Action, yields, waits, breaks, fails, Ending,
  pending, finished, broken, or_max, is_at_end, is_before_end, read_exact, on_phase, turn,
  after_turn, tail, create_tailing_stream,
}
use almond.Tail.Slices.{concat, length-take, length-drop, slice-append}

abbrev pub available : Option ℕ → Turn → ℕ
available end t = min (or_max end) t.snapshot.written

-- A turn that yields hands on the next bytes, one at least, and none beyond what it may.
abbrev IsTurn : Bytes → Option ℕ → ℕ → Turn → Action → Type 0
IsTurn file end position t (yields chunk) =
    (chunk ≡ take (length chunk) (drop position file))
    × (0 < length chunk)
    × (length chunk ≤ 64 * 1024)
    × (position + length chunk ≤ available end t)
    × (position + length chunk ≤ length file)
IsTurn file end position t breaks =
    (is_at_end end position ≡ true)
    ⊎ ((t.snapshot.phase ≡ complete)
        × (is_before_end end position ≡ false)
        × (available end t ≤ position))
IsTurn file end position t waits = Unit
IsTurn file end position t (fails e) = Unit

read_exact-IsTurn :
    (file : Bytes) (end : Option ℕ) (position n : ℕ) (t : Turn)
    → 0 < n
    → n ≤ 64 * 1024
    → position + n ≤ available end t
    → IsTurn file end position t (read_exact file position n)
unfolding read_exact
read_exact-IsTurn file end position n t h k l =
    elim (Bool-cases (leb (position + n) (length file))) [
      | inr short ↦ rw short tt
      | inl full ↦
          let size : length (take n (drop position file)) ≡ n =
            length-take n (drop position file) (ground (arith, length-drop position file)) in
          rw (full, size) (refl, h, k, l, ground arith)
    ]

on_phase-IsTurn :
    (file : Bytes) (end : Option ℕ) (position : ℕ) (t : Turn) (phase : DownloadPhase)
    → t.snapshot.phase ≡ phase
    → available end t ≤ position
    → IsTurn file end position t (on_phase phase end position t.alive)
unfolding on_phase
on_phase-IsTurn file end position t running e h = elim (Bool-cases t.alive) [
  | inl b ↦ rw b tt
  | inr b ↦ rw b tt
]
on_phase-IsTurn file end position t failed e h = tt
on_phase-IsTurn file end position t complete e h = elim (Bool-cases (is_before_end end position)) [
  | inl b ↦ rw b tt
  | inr b ↦ rw b (inr (e, b, h))
]

turn-IsTurn :
    (file : Bytes) (end : Option ℕ) (position : ℕ) (t : Turn)
    → IsTurn file end position t (turn file end position t)
unfolding turn
turn-IsTurn file end position t = elim (Bool-cases (ltb position (available end t))) [
  | inl more ↦
      let lt : position < available end t = ground arith in
      rw more (
        read_exact-IsTurn file end position (min (64 * 1024) (available end t - position)) t
          (ground arith) (ground arith) (ground arith))
  | inr nothing ↦ elim (Bool-cases (is_at_end end position)) [
    | inl at_end ↦ rw (nothing, at_end) (inl at_end)
    | inr before ↦
        rw (nothing, before)
          (on_phase-IsTurn file end position t t.snapshot.phase refl (ground arith))
  ]
]

-- Where the stream has to stop.
abbrev pub stop : Bytes → Option ℕ → ℕ
stop file none = length file
stop file (some limit) = limit

-- A download that is reported as complete has written all of the file.
abbrev pub IsHonest : Bytes → Turn → Type 0
IsHonest file t = t.snapshot.phase ≡ complete → t.snapshot.written ≡ length file

-- The stream from `position` has come to `reached`.
pub record IsSlice (file : Bytes) (end : Option ℕ) (position reached : ℕ) (r : List Bytes × Ending)
    : Type 0 where
  pub forward : position ≤ reached
  pub within_file : reached ≤ length file
  pub within_end : reached ≤ stop file end
  pub bytes : concat r.0 ≡ take (reached - position) (drop position file)
  pub sizes : All (λ chunk. (0 < length chunk) × (length chunk ≤ 64 * 1024)) r.0
  pub ended : r.1 ≡ finished → reached ≡ stop file end

breaks-stop :
    (file : Bytes) (end : Option ℕ) (position : ℕ) (t : Turn)
    → length file < u64_mod
    → IsHonest file t
    → IsTurn file end position t breaks
    → stop file end ≤ position
breaks-stop file none position t small honest (inl at_end) = cc
breaks-stop file none position t small honest (inr (e, before, reached)) = ground (arith, honest e)
breaks-stop file (some limit) position t small honest (inl at_end) = ground arith
breaks-stop file (some limit) position t small honest (inr (e, before, reached)) = ground arith

here-IsSlice :
    (file : Bytes) (end : Option ℕ) (position : ℕ) (outcome : Ending)
    → position ≤ length file
    → position ≤ stop file end
    → (outcome ≡ finished → stop file end ≤ position)
    → IsSlice file end position position ([], outcome)
here-IsSlice file end position outcome h k done =
    let none_left : position - position ≡ 0 = omega arith in
    record {
      forward = omega arith;
      within_file = h;
      within_end = k;
      bytes = rw none_left;
      sizes = tt;
      ended = λ e. omega (arith, done e);
    }

below_stop :
    (file : Bytes) (end : Option ℕ) (t : Turn) (n : ℕ)
    → n ≤ available end t
    → n ≤ length file
    → n ≤ stop file end
below_stop file none t n h k = k
below_stop file (some limit) t n h k = omega arith

after_turn-IsSlice :
    (file : Bytes) (end : Option ℕ) (position : ℕ) (t : Turn) (a : Action)
    (more : ℕ → List Bytes × Ending)
    → length file < u64_mod
    → position ≤ length file
    → position ≤ stop file end
    → IsHonest file t
    → IsTurn file end position t a
    → ((p : ℕ)
        → p ≤ length file
        → p ≤ stop file end
        → (reached : ℕ) × IsSlice file end p reached (more p))
    → (reached : ℕ) × IsSlice file end position reached (after_turn a position more)
after_turn-IsSlice file end position t (yields chunk) more small h k honest it rest =
    let p = position + length chunk in
    let (reached, s) = rest p (omega (arith, it.4)) (below_stop file end t p it.3 it.4) in
    let size : p - position ≡ length chunk = omega arith in
    (
      reached,
      record {
        forward = omega (arith, s.forward);
        within_file = s.within_file;
        within_end = s.within_end;
        bytes =
            ap (λ l. chunk ++ l) s.bytes
            ∙ ap (λ c. c ++ take (reached - p) (drop p file))
                (it.0 ∙ ap (λ n. take n (drop position file)) (sym size))
            ∙ sym (slice-append position p reached file (omega arith) s.forward);
        sizes = ((it.1, it.2), s.sizes);
        ended = s.ended;
      },
    )
after_turn-IsSlice file end position t waits more small h k honest it rest = rest position h k
after_turn-IsSlice file end position t breaks more small h k honest it rest = (
  position,
  here-IsSlice file end position finished h k
      (λ e. breaks-stop file end position t small honest it),
)
after_turn-IsSlice file end position t (fails e) more small h k honest it rest =
    (position, here-IsSlice file end position (broken e) h k (λ e. cc))

tail-IsSlice :
    (file : Bytes) (end : Option ℕ) (position : ℕ) (turns : List Turn)
    → length file < u64_mod
    → position ≤ length file
    → position ≤ stop file end
    → All (IsHonest file) turns
    → (reached : ℕ) × IsSlice file end position reached (tail file end position turns)
unfolding tail
tail-IsSlice file end position [] small h k honest =
    (position, here-IsSlice file end position pending h k (λ e. cc))
tail-IsSlice file end position (t ∷ turns) small h k honest =
    after_turn-IsSlice file end position t (turn file end position t) (λ p. tail file end p turns)
      small h k honest.0 (turn-IsTurn file end position t)
      (λ p h' k'. tail-IsSlice file end p turns small h' k' honest.1)

-- Under every sequence of snapshots, of which those that report completion have seen the whole file
-- written, the stream hands on chunks of 1 to 65536 bytes that together are the bytes of the file
-- from `start` to some position, never beyond the file or the end asked for; and a stream that ends
-- without an error has reached that end, or the end of the file where none was asked for.
pub create_tailing_stream_exact :
    (file : Bytes) (start : ℕ) (end : Option ℕ) (turns : List Turn)
    → length file < u64_mod
    → start ≤ length file
    → start ≤ stop file end
    → All (IsHonest file) turns
    → (reached : ℕ) × IsSlice file end start reached (create_tailing_stream file start end turns)
unfolding create_tailing_stream
create_tailing_stream_exact file start end turns small h k honest =
    tail-IsSlice file end start turns small h k honest
