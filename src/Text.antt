-- ===== src/Text.antt =====
-- What the program uses of Rust's `str` and `u64`: digits, decimal printing and parsing, splitting
-- at a byte, stripping a prefix and trimming, on ASCII text as bytes.
pub mod Decimal
pub mod Split
use almond.Prelude.{
  ℕ, zero, suc, ◌+◌, ◌-◌, ◌*◌, ◌/◌, ◌%◌, ◌^◌, Bool, true, false, ◌&&◌, ◌||◌, Option, none, some,
  List, [], ◌∷◌, ◌++◌, ltb, leb, ◌==◌, if◌then◌else◌, Bytes, text_eq,
}

abbrev pub u64_mod : ℕ
u64_mod = 2 ^ 64

unfoldable pub is_digit : ℕ → Bool
is_digit c = leb b'0' c && leb c b'9'

-- `is_ascii_hexdigit`
unfoldable pub is_hexdigit : ℕ → Bool
unfolding is_digit
is_hexdigit c = is_digit c || (leb b'a' c && leb c b'f') || (leb b'A' c && leb c b'F')

-- `format!("{n}")` of an unsigned number: the digits in front of what is already written. Twenty
-- rounds write every `u64`.
unfoldable pub digits : ℕ → ℕ → Bytes → Bytes
digits zero n acc = acc
digits (suc f) n acc =
    let more = digits f (n / 10) ((48 + n % 10) ∷ acc) in if ltb n 10 then (48 + n) ∷ acc else more

unfoldable pub print_u64 : ℕ → Bytes
unfolding digits
print_u64 n = digits 20 n []

-- The digits of `str::parse::<u64>`: any other byte and any overflow is an error.
unfoldable pub parse_digits : ℕ → Bytes → Option ℕ
unfolding is_digit
parse_digits v [] = some v
parse_digits v (c ∷ cs) =
    let next = v * 10 + (c - 48) in
    let rest = parse_digits next cs in if is_digit c && ltb next u64_mod then rest else none

-- `str::parse::<u64>`: an optional `+`, then one digit at least.
unfoldable pub parse_u64 : Bytes → Option ℕ
unfolding parse_digits
parse_u64 [] = none
parse_u64 (c ∷ []) = if c == b'+' then none else parse_digits 0 (c ∷ [])
parse_u64 (c ∷ d ∷ cs) = if c == b'+' then parse_digits 0 (d ∷ cs) else parse_digits 0 (c ∷ d ∷ cs)

abbrev pub prepend : ℕ → Option (Bytes × Bytes) → Option (Bytes × Bytes)
prepend b none = none
prepend b (some (l, r)) = some (b ∷ l, r)

-- `split_once(c)`
unfoldable pub split_once : ℕ → Bytes → Option (Bytes × Bytes)
split_once c [] = none
split_once c (b ∷ s) = let rest = split_once c s in if b == c then some ([], s) else prepend b rest

-- `strip_prefix`
unfoldable pub strip_prefix : Bytes → Bytes → Option Bytes
strip_prefix [] s = some s
strip_prefix (p ∷ ps) [] = none
strip_prefix (p ∷ ps) (b ∷ s) = if b == p then strip_prefix ps s else none

unfoldable pub contains : ℕ → Bytes → Bool
contains c [] = false
contains c (b ∷ s) = b == c || contains c s

-- The ASCII characters of `char::is_whitespace`.
unfoldable pub is_whitespace : ℕ → Bool
is_whitespace c = c == 32 || (leb 9 c && leb c 13)

unfoldable pub trim_start : Bytes → Bytes
unfolding is_whitespace
trim_start [] = []
trim_start (b ∷ s) = if is_whitespace b then trim_start s else b ∷ s

-- One byte in front of a text whose end is trimmed already.
unfoldable pub keep_end : ℕ → Bytes → Bytes
unfolding is_whitespace
keep_end b [] = if is_whitespace b then [] else b ∷ []
keep_end b (c ∷ t) = b ∷ c ∷ t

unfoldable pub trim_end : Bytes → Bytes
unfolding keep_end
trim_end [] = []
trim_end (b ∷ s) = keep_end b (trim_end s)

unfoldable pub trim : Bytes → Bytes
unfolding trim_start trim_end
trim s = trim_end (trim_start s)

-- `starts_with`
unfoldable pub starts_with : Bytes → Bytes → Bool
starts_with [] s = true
starts_with (p ∷ ps) [] = false
starts_with (p ∷ ps) (b ∷ s) = b == p && starts_with ps s

-- `ends_with`, for a suffix that is not empty.
unfoldable pub ends_with : Bytes → Bytes → Bool
ends_with suffix [] = false
ends_with suffix (b ∷ s) = text_eq (b ∷ s) suffix || ends_with suffix s

abbrev pub keep_before : ℕ → ℕ → Bytes → Bytes
keep_before c b [] = if b == c then [] else b ∷ []
keep_before c b (d ∷ t) = b ∷ d ∷ t

-- `trim_end_matches(c)`
unfoldable pub trim_end_matches : ℕ → Bytes → Bytes
trim_end_matches c [] = []
trim_end_matches c (b ∷ s) = keep_before c b (trim_end_matches c s)
