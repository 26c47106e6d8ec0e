-- ===== src/Tail/Tests.antt =====
-- A file of eleven bytes that is written in two steps.
use almond.Prelude.{ℕ, ◌≡◌, refl, true, none, some, List, [], ◌∷◌, codes, Bytes, arith, All}
use almond.Tail.{
  running, complete, DownloadPhase, Turn, unexpected_eof, broken, finished, tail, turn,
  create_tailing_stream,
}
use almond.Tail.Exact.{IsSlice, IsHonest, create_tailing_stream_exact}
use almond.Tail.Ends.{tail-finishes}

abbrev file : Bytes
file = codes "hello world"

abbrev sees : ℕ → DownloadPhase → Turn
sees n phase = record { snapshot = record { written = n; phase = phase }; alive = true }

abbrev turns : List Turn
turns = sees 5 running ∷ sees 5 running ∷ sees 11 running ∷ sees 11 complete ∷ []

joins : create_tailing_stream file 2 none turns ≡ (codes "llo" ∷ codes " world" ∷ [], finished)
unfolding create_tailing_stream turn
joins = refl

stops : create_tailing_stream file 2 (some 4) turns ≡ (codes "ll" ∷ [], finished)
unfolding create_tailing_stream turn
stops = refl

truncated :
    create_tailing_stream file 0 (some 14) turns
    ≡ (codes "hello" ∷ codes " world" ∷ [], broken unexpected_eof)
unfolding create_tailing_stream turn
truncated = refl

honest : All (IsHonest file) turns
honest = ((λ e. cc), ((λ e. cc), ((λ e. cc), ((λ e. refl), tt))))

create_tailing_stream_exact_example :
    (reached : ℕ) × IsSlice file none 2 reached (create_tailing_stream file 2 none turns)
create_tailing_stream_exact_example =
    create_tailing_stream_exact file 2 none turns (omega arith) (omega arith) (omega arith) honest

abbrev done : List Turn
done = sees 11 complete ∷ sees 11 complete ∷ sees 11 complete ∷ []

tail-finishes_example : (tail file (some 6) 4 done).1 ≡ finished
tail-finishes_example =
    tail-finishes file (some 6) 4 done (omega arith) (omega arith)
      ((refl, refl), ((refl, refl), ((refl, refl), tt))) (omega arith) (omega arith)
