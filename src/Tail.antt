-- ===== src/Tail.antt =====
-- src/services/tail.rs: the stream that follows a file while a download writes it. `file` is what
-- the download writes; it only appends, so the bytes below `written` do not change any more. One turn
-- of the loop is what the environment shows it: the snapshot that it reads, and whether a later wait
-- for a change finds the sender alive. `running` stands for a loop whose turns are used up.
pub mod Slices
pub mod Exact
pub mod Ends
pub mod Tests
use almond.Prelude.{
  ℕ, ◌+◌, ◌-◌, ◌*◌, min, Bool, true, false, ◌&&◌, Option, none, some, List, [], ◌∷◌, ltb, leb,
  if◌then◌else◌, Bytes, take, drop, length,
}
use almond.Text.{u64_mod}

pub data DownloadPhase : Type 0 where
  running complete failed : DownloadPhase

pub record DownloadProgress : Type 0 where
  pub written : ℕ
  pub phase : DownloadPhase

pub record Turn : Type 0 where
  pub snapshot : DownloadProgress
  pub alive : Bool

pub data ErrorKind : Type 0 where
  broken_pipe unexpected_eof : ErrorKind

-- What one turn does: bytes are yielded, the wait is over, or the stream ends.
pub data Action : Type 0 where
  yields : Bytes → Action
  waits : Action
  breaks : Action
  fails : ErrorKind → Action

pub data Ending : Type 0 where
  pending finished : Ending
  broken : ErrorKind → Ending

abbrev pub or_max : Option ℕ → ℕ
or_max none = u64_mod - 1
or_max (some n) = n

-- `end.is_some_and(|limit| position >= limit)`
abbrev pub is_at_end : Option ℕ → ℕ → Bool
is_at_end none position = false
is_at_end (some limit) position = leb limit position

abbrev pub is_before_end : Option ℕ → ℕ → Bool
is_before_end none position = false
is_before_end (some limit) position = ltb position limit

-- `read_exact`
pub read_exact : Bytes → ℕ → ℕ → Action
read_exact file position to_read =
    if leb (position + to_read) (length file)
    then yields (take to_read (drop position file))
    else fails unexpected_eof

on_phase : DownloadPhase → Option ℕ → ℕ → Bool → Action
on_phase running end position alive = if alive then waits else fails broken_pipe
on_phase complete end position alive =
    if is_before_end end position then fails unexpected_eof else breaks
on_phase failed end position alive = fails broken_pipe

pub turn : Bytes → Option ℕ → ℕ → Turn → Action
unfolding read_exact on_phase
turn file end position t =
    let available = min (or_max end) t.snapshot.written in
    if ltb position available
    then read_exact file position (min (64 * 1024) (available - position))
    else if is_at_end end position
    then breaks
    else on_phase t.snapshot.phase end position t.alive

abbrev pub after_turn : Action → ℕ → (ℕ → List Bytes × Ending) → List Bytes × Ending
after_turn (yields chunk) position more =
    let (chunks, ending) = more (position + length chunk) in (chunk ∷ chunks, ending)
after_turn waits position more = more position
after_turn breaks position more = ([], finished)
after_turn (fails e) position more = ([], broken e)

pub tail : Bytes → Option ℕ → ℕ → List Turn → List Bytes × Ending
tail file end position [] = ([], pending)
tail file end position (t ∷ turns) =
    after_turn (turn file end position t) position (λ p. tail file end p turns)

-- `create_tailing_stream`
pub create_tailing_stream : Bytes → ℕ → Option ℕ → List Turn → List Bytes × Ending
unfolding tail
create_tailing_stream file start end turns = tail file end start turns
