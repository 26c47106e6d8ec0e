-- ===== src/RangeHeader/Bounds.antt =====
-- A range that is served lies inside the blob.
use almond.Prelude.{ℕ, ◌≤◌, ◌<◌, Option, none, some, [], ◌∷◌, arith, Bytes}
use almond.Text.{split_once, trim}
use almond.RangeHeader.{
  RangeSpec, satisfiable, unsatisfiable, ignore, range_of, split_range, range_spec,
  parse_range_header,
}

-- A range that is served is not empty and ends inside the blob.
abbrev pub IsInside : RangeSpec → ℕ → Type 0
IsInside (satisfiable start end) total_size = (start ≤ end) × (end < total_size)
IsInside unsatisfiable total_size = Unit
IsInside ignore total_size = Unit

range_of-IsInside : (first last : Bytes) (n : ℕ) → IsInside (range_of first last n) n
unfolding range_of
range_of-IsInside [] last n = ground arith
range_of-IsInside (c ∷ cs) [] n = ground arith
range_of-IsInside (c ∷ cs) (d ∷ ds) n = ground arith

split_range-IsInside : (o : Option (Bytes × Bytes)) (n : ℕ) → IsInside (split_range o n) n
unfolding split_range
split_range-IsInside none n = tt
split_range-IsInside (some (first, last)) n = range_of-IsInside (trim first) (trim last) n

range_spec-IsInside : (o : Option Bytes) (n : ℕ) → IsInside (range_spec o n) n
unfolding range_spec
range_spec-IsInside none n = tt
range_spec-IsInside (some spec) n =
    ground (arith, split_range-IsInside (split_once b'-' (trim spec)) n)

-- Whatever the header and the size of the blob, a range that is found satisfiable has its start at
-- or before its end, and its end inside the blob.
pub parse_range_header-IsInside :
    (header_value : Bytes) (total_size : ℕ)
    → IsInside (parse_range_header header_value total_size) total_size
unfolding parse_range_header
parse_range_header-IsInside h n = range_spec-IsInside _ n
