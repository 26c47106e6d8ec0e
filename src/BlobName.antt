-- ===== src/BlobName.antt =====
-- src/services/blob_name.rs: the grammar `<hash>[_<expiration>][.<extension>]` and the fan-out prefix,
-- and the object keys that src/services/native_storage.rs builds from them.
-- A name is the list of its bytes. `name.get(..64)` also fails inside a multi-byte character; then
-- byte 63 is no hexadecimal digit, so `parse` fails here on the hash instead.
pub mod RoundTrip
pub mod Soundness
pub mod ObjectKeys
pub mod Tests
use almond.Prelude.{
  ℕ, ◌≡◌, Bool, true, false, ◌&&◌, ◌||◌, Option, none, some, List, [], ◌∷◌, ◌++◌, leb, ◌==◌,
  if◌then◌else◌, Bytes, text_eq, length, take, drop, all,
}
use almond.Text.{is_digit, print_u64, parse_digits, parse_u64, split_once, contains}
use almond.Error.{AppResult, ok, err, bad_request, ◌>>=◌, ◌>>◌, ensure}

abbrev pub hash_len : ℕ
hash_len = 64

pub record ParsedName : Type 0 where
  pub hash : Bytes
  pub expiration : Option ℕ
  pub extension : Option Bytes

pub is_lower_hex : ℕ → Bool
unfolding is_digit
is_lower_hex b = is_digit b || (leb b'a' b && leb b b'f')

unfoldable pub is_valid_hash : Bytes → Bool
unfolding is_lower_hex
is_valid_hash hash = length hash == hash_len && all is_lower_hex hash

unfoldable pub require_hash : Bytes → AppResult (Unit {0})
require_hash hash = ensure (is_valid_hash hash) bad_request

-- The text behind the hash.
unfoldable pub suffix : Option ℕ → Option Bytes → Bytes
suffix (some e) (some x) = b'_' ∷ (print_u64 e ++ b'.' ∷ x)
suffix (some e) none = b'_' ∷ print_u64 e
suffix none (some x) = b'.' ∷ x
suffix none none = []

unfoldable pub name : Bytes → Option ℕ → Option Bytes → AppResult Bytes
unfolding require_hash suffix
name hash expiration extension = do require_hash hash; ok (hash ++ suffix expiration extension)

-- `digits.is_empty() || !digits.bytes().all(..)` fails, then `digits.parse().ok()?`.
pub parse_expiration : Bytes → Option ℕ
parse_expiration [] = none
parse_expiration (c ∷ cs) = if all is_digit (c ∷ cs) then parse_u64 (c ∷ cs) else none

abbrev with_extension : Option Bytes → Option ℕ → Option (Option ℕ × Option Bytes)
with_extension x none = none
with_extension x (some e) = some (some e, x)

-- `rest` of `parse`: the expiration and the extension.
pub parse_suffix : Bytes → Option (Option ℕ × Option Bytes)
unfolding parse_expiration
parse_suffix [] = some (none, none)
parse_suffix (c ∷ rest) =
    if c == b'_'
    then (elim (split_once b'.' rest) [
      | some (digits, x) ↦ with_extension (some x) (parse_expiration digits)
      | none ↦ with_extension none (parse_expiration rest)
    ])
    else if c == b'.'
    then some (none, some rest)
    else none

abbrev pub parsed : Bytes → Option (Option ℕ × Option Bytes) → Option ParsedName
parsed hash none = none
parsed hash (some (e, x)) = some (record { hash = hash; expiration = e; extension = x })

-- A text shorter than a hash has no hash in front, as `get(..64)` has it.
pub parse : Bytes → Option ParsedName
unfolding parse_suffix
parse text =
    let hash = take hash_len text in
    if is_valid_hash hash then parsed hash (parse_suffix (drop hash_len text)) else none

-- `(&hash[..1], &hash[1..2])`
pub fan_out : Bytes → AppResult (Bytes × Bytes)
unfolding require_hash
fan_out hash = do require_hash hash; ok (take 1 hash, take 1 (drop 1 hash))

-- `format!("{h0}/{h1}/{filename}")`
unfoldable pub object_key : Bytes → Option Bytes → Option ℕ → AppResult Bytes
unfolding fan_out name
object_key sha256 extension expiration = do
  hs ← fan_out sha256
  filename ← name sha256 expiration extension
  ok (hs.0 ++ b'/' ∷ (hs.1 ++ b'/' ∷ filename))

unfoldable pub hash_prefix : Bytes → AppResult Bytes
unfolding fan_out
hash_prefix sha256 = do hs ← fan_out sha256; ok (hs.0 ++ b'/' ∷ (hs.1 ++ b'/' ∷ sha256))

-- The directories must be those that the hash in the file name implies.
pub check_dirs : Bytes → Bytes → Option ParsedName → Option ParsedName
check_dirs first second none = none
check_dirs first second (some p) =
    if text_eq first (take 1 p.hash) && text_eq second (take 1 (drop 1 p.hash))
    then some p
    else none

-- `key.split('/')` has three parts exactly.
pub parse_object_key : Bytes → Option ParsedName
unfolding parse check_dirs
parse_object_key key = elim (split_once b'/' key) [
  | none ↦ none
  | some (first, rest) ↦ elim (split_once b'/' rest) [
    | none ↦ none
    | some (second, filename) ↦
        if contains b'/' filename then none else check_dirs first second (parse filename)
  ]
]
