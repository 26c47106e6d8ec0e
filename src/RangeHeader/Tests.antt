-- ===== src/RangeHeader/Tests.antt =====
-- Headers as clients send them.
use almond.Prelude.{◌≤◌, ◌<◌, ◌≡◌, refl, arith, codes}
use almond.Text.{
  digits, print_u64, parse_digits, parse_u64, split_once, strip_prefix, contains, trim,
}
use almond.RangeHeader.{satisfiable, unsatisfiable, ignore, parse_range_header}
use almond.RangeHeader.Bounds.{parse_range_header-IsInside}
use almond.RangeHeader.Forms.{closed, Answers, print_range, parse_range_header-print_range}

headers : Unit {0}
unfolding parse_range_header digits print_u64 parse_digits parse_u64 split_once strip_prefix
    contains trim
headers = tt

header_tests :
    (parse_range_header (codes " bytes= 5 - 99") 10 ≡ satisfiable 5 9)
    × (parse_range_header (codes "bytes=-4") 10 ≡ satisfiable 6 9)
    × (parse_range_header (codes "bytes=10-") 10 ≡ unsatisfiable)
    × (parse_range_header (codes "bytes=0-1,3-4") 10 ≡ ignore)
    × (parse_range_header (codes "items=0-1") 10 ≡ ignore)
unfolding headers
header_tests = (refl, refl, refl, refl, refl)

parse_range_header-IsInside_example : (5 ≤ 9) × (9 < 10)
unfolding headers
parse_range_header-IsInside_example = parse_range_header-IsInside (codes " bytes= 5 - 99") 10

parse_range_header-print_range_example :
    Answers (closed 5 99) 10 (parse_range_header (print_range (closed 5 99)) 10)
parse_range_header-print_range_example =
    parse_range_header-print_range (closed 5 99) 10 (omega arith, omega arith)
