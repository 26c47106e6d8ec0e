-- ===== src/RangeHeader.antt =====
-- `parse_range_header` of src/utils.rs, over the bytes of a header value, which is ASCII.
pub mod Bounds
pub mod Forms
pub mod Tests
use almond.Prelude.{
  ℕ, ◌-◌, Bool, true, false, Option, none, some, [], ◌∷◌, codes, leb, ltb, ◌==◌, if◌then◌else◌,
  Bytes, min,
}
use almond.Text.{parse_u64, split_once, strip_prefix, contains, trim}

pub data RangeSpec : Type 0 where
  satisfiable : (start end : ℕ) → RangeSpec
  unsatisfiable ignore : RangeSpec

-- `bytes=-N`: the final N bytes. `saturating_sub` is the subtraction of ℕ.
pub suffix_range : Option ℕ → ℕ → RangeSpec
suffix_range none total_size = ignore
suffix_range (some suffix) total_size =
    if suffix == 0 then unsatisfiable else satisfiable (total_size - suffix) (total_size - 1)

-- The last line of the function's second branch: an empty range is refused.
pub checked_range : ℕ → ℕ → RangeSpec
checked_range start end = if ltb end start then unsatisfiable else satisfiable start end

pub closed_range : ℕ → Option ℕ → ℕ → RangeSpec
unfolding checked_range
closed_range start none total_size = ignore
closed_range start (some end) total_size = checked_range start (min end (total_size - 1))

pub range_end : ℕ → Bytes → ℕ → RangeSpec
unfolding closed_range
range_end start [] total_size = checked_range start (total_size - 1)
range_end start (c ∷ cs) total_size = closed_range start (parse_u64 (c ∷ cs)) total_size

pub range_start : Option ℕ → Bytes → ℕ → RangeSpec
unfolding range_end
range_start none last total_size = ignore
range_start (some start) last total_size =
    if leb total_size start then unsatisfiable else range_end start last total_size

pub range_of : Bytes → Bytes → ℕ → RangeSpec
unfolding range_start suffix_range
range_of [] last total_size =
    if total_size == 0 then unsatisfiable else suffix_range (parse_u64 last) total_size
range_of (c ∷ cs) last total_size =
    if total_size == 0 then unsatisfiable else range_start (parse_u64 (c ∷ cs)) last total_size

pub split_range : Option (Bytes × Bytes) → ℕ → RangeSpec
unfolding range_of
split_range none total_size = ignore
split_range (some (first, last)) total_size = range_of (trim first) (trim last) total_size

pub range_spec : Option Bytes → ℕ → RangeSpec
unfolding split_range
range_spec none total_size = ignore
range_spec (some spec) total_size =
    let trimmed = trim spec in
    if contains b',' trimmed then ignore else split_range (split_once b'-' trimmed) total_size

unfoldable pub parse_range_header : Bytes → ℕ → RangeSpec
unfolding range_spec
parse_range_header header_value total_size =
    range_spec (strip_prefix (codes "bytes=") (trim header_value)) total_size
