-- ===== src/BlobName/Soundness.antt =====
-- What `parse` accepts.
use almond.Prelude.{
  ℕ, zero, suc, ◌≡◌, refl, true, Option, none, some, [], ◌∷◌, ◌++◌, arith, Bytes, take, drop,
  Option-cases, inl, inr, if-eq-some,
}
use almond.Text.{split_once}
use almond.Text.Decimal.{parse_u64-lt}
use almond.Error.{ok}
use almond.BlobName.{
  ParsedName, hash_len, is_valid_hash, name, parse_expiration, parse_suffix, parse, parsed,
}
use almond.BlobName.RoundTrip.{Fits, parse-name}

pub take-append-drop : (n : ℕ) (s : Bytes) → take n s ++ drop n s ≡ s
take-append-drop zero s = refl
take-append-drop (suc n) [] = refl
take-append-drop (suc n) (b ∷ s) = rw (take-append-drop n s)

parse_expiration-Fits : (s : Bytes) (e : ℕ) → parse_expiration s ≡ some e → Fits (some e)
unfolding parse_expiration
parse_expiration-Fits [] e h = cc
parse_expiration-Fits (c ∷ cs) e h = ground (arith, parse_u64-lt (c ∷ cs) e)

parse_suffix-Fits :
    (s : Bytes) (e : Option ℕ) (x : Option Bytes) → parse_suffix s ≡ some (e, x) → Fits e
unfolding parse_suffix
parse_suffix-Fits s none x h = tt
parse_suffix-Fits [] (some e) x h = ground arith
parse_suffix-Fits (c ∷ s) (some e) x h = elim (Option-cases (split_once b'.' s)) [
  | inl whole ↦ elim (Option-cases (parse_expiration s)) [
    | inl bad ↦ ground arith
    | inr (n, e') ↦ ground (arith, parse_expiration-Fits s n e')
  ]
  | inr ((d, y), split) ↦ elim (Option-cases (parse_expiration d)) [
    | inl bad ↦ ground arith
    | inr (n, e') ↦ ground (arith, parse_expiration-Fits d n e')
  ]
]

parsed-eq-some :
    (hash : Bytes) (o : Option (Option ℕ × Option Bytes)) {p : ParsedName}
    → parsed hash o ≡ some p
    → (hash ≡ p.hash) × (o ≡ some (p.expiration, p.extension))
parsed-eq-some hash none h = cc
parsed-eq-some hash (some (e, x)) h = (ground arith, ground arith)

-- Whatever `parse` accepts starts with a valid hash, which is the hash that it returns, and the
-- expiration that it returns is a `u64`.
pub parse_sound :
    (text : Bytes) (p : ParsedName)
    → parse text ≡ some p
    → (is_valid_hash p.hash ≡ true) × (p.hash ++ drop hash_len text ≡ text) × Fits p.expiration
unfolding parse
parse_sound text p h =
    let (valid, body) = if-eq-some (is_valid_hash (take hash_len text)) _ h in
    let (same, rest) =
      parsed-eq-some (take hash_len text) (parse_suffix (drop hash_len text)) body in
    (
      rw (← same) valid,
      rw (← same) (take-append-drop hash_len text),
      parse_suffix-Fits (drop hash_len text) p.expiration p.extension rest,
    )

-- The parts that `parse` reads can be written as a name again, and that canonical name parses to
-- the same parts.
pub parse-canonical :
    (text : Bytes) (p : ParsedName)
    → parse text ≡ some p
    → (canonical : Bytes) × (name p.hash p.expiration p.extension ≡ ok canonical)
      × (parse canonical ≡ some p)
parse-canonical text p h =
    let (valid, _, fits) = parse_sound text p h in
    parse-name p.hash p.expiration p.extension valid fits
