-- ===== src/BlobName/Tests.antt =====
-- Names and keys of one blob.
use almond.Prelude.{◌≡◌, refl, true, none, some, ◌++◌, arith, Bytes, codes, text_eq}
use almond.Text.{digits, print_u64, parse_digits, parse_u64, split_once, contains}
use almond.Error.{ok}
use almond.BlobName.{
  ParsedName, is_valid_hash, name, parse, object_key, parse_object_key, hash_prefix,
}
use almond.BlobName.RoundTrip.{parse-name}
use almond.BlobName.ObjectKeys.{parse_object_key-object_key, hash_prefix-covers}

abbrev hash : Bytes
hash = codes "12bbaabbaabbaabbaabbaabbaabbaabbaabbaabbaabbaabbaabbaabbaabbaabb"

abbrev text : Bytes
text = codes "12bbaabbaabbaabbaabbaabbaabbaabbaabbaabbaabbaabbaabbaabbaabbaabb_007.tar.gz"

abbrev parts : ParsedName
parts = record { hash = hash; expiration = some 7; extension = some (codes "tar.gz") }

grammar : Unit {0}
unfolding is_valid_hash name parse object_key parse_object_key hash_prefix digits print_u64
    parse_digits parse_u64 split_once contains text_eq
grammar = tt

valid : is_valid_hash hash ≡ true
unfolding grammar
valid = refl

-- Leading zeros are read, and not written.
text_parses : parse text ≡ some parts
unfolding grammar
text_parses = refl

key_parses : parse_object_key (codes "1/2/" ++ text) ≡ some parts
unfolding grammar
key_parses = refl

wrong_directory : parse_object_key (codes "2/2/" ++ text) ≡ none
unfolding grammar
wrong_directory = refl

parse-name_example :
    (t : Bytes) × (name hash (some 42) (some (codes "jpg")) ≡ ok t)
    × (parse t
        ≡ some (record { hash = hash; expiration = some 42; extension = some (codes "jpg") }))
parse-name_example = parse-name hash (some 42) (some (codes "jpg")) valid (omega arith)

parse_object_key-object_key_example :
    (key : Bytes) × (object_key hash (some (codes "jpg")) (some 42) ≡ ok key)
    × (parse_object_key key
        ≡ some (record { hash = hash; expiration = some 42; extension = some (codes "jpg") }))
unfolding contains
parse_object_key-object_key_example =
    parse_object_key-object_key hash (some (codes "jpg")) (some 42) valid (omega arith) refl

hash_prefix-covers_example :
    (pre : Bytes) × (rest : Bytes) × (hash_prefix hash ≡ ok pre)
    × (codes "1/2/" ++ text ≡ pre ++ rest)
hash_prefix-covers_example = hash_prefix-covers (codes "1/2/" ++ text) parts key_parses
