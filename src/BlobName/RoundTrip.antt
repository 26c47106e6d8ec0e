-- ===== src/BlobName/RoundTrip.antt =====
-- A blob name that was built is parsed back to its parts.
use almond.Prelude.{
  ℕ, ◌≡◌, refl, ◌<◌, true, false, Option, none, some, [], ◌∷◌, ◌++◌, arith, Bytes, length, take,
  drop, suc, zero,
}
use almond.Text.{u64_mod, is_digit, print_u64, contains}
use almond.Text.Decimal.{print_u64-all_digits, print_u64-cons, parse_u64-print_u64, contains-digits}
use almond.Text.Split.{split_once-append, split_once-none}
use almond.Error.{ok}
use almond.BlobName.{hash_len, is_valid_hash, suffix, name, parse_expiration, parse_suffix, parse}

-- An expiration, where there is one, is a `u64`.
abbrev pub Fits : Option ℕ → Type 0
Fits none = Unit
Fits (some e) = e < u64_mod

parse_expiration-print_u64 : (e : ℕ) → e < u64_mod → parse_expiration (print_u64 e) ≡ some e
unfolding parse_expiration
parse_expiration-print_u64 e h =
    let (c, cs, p) = print_u64-cons e in
    rw p (rw (rw p at (print_u64-all_digits e)) (rw p at (parse_u64-print_u64 e h)))

no_dot : (e : ℕ) → contains b'.' (print_u64 e) ≡ false
no_dot e = contains-digits b'.' (print_u64 e) (unfold is_digit in refl) (print_u64-all_digits e)

pub parse_suffix-suffix :
    (e : Option ℕ) (x : Option Bytes) → Fits e → parse_suffix (suffix e x) ≡ some (e, x)
unfolding parse_suffix suffix
parse_suffix-suffix (some e) (some x) h =
    rw (split_once-append b'.' (print_u64 e) x (no_dot e)) (rw (parse_expiration-print_u64 e h))
parse_suffix-suffix (some e) none h =
    rw (split_once-none b'.' (print_u64 e) (no_dot e)) (rw (parse_expiration-print_u64 e h))
parse_suffix-suffix none (some x) h = refl
parse_suffix-suffix none none h = refl

pub take-append : (n : ℕ) (s t : Bytes) → length s ≡ n → take n (s ++ t) ≡ s
take-append zero [] t h = refl
take-append zero (b ∷ s) t h = absurd (omega arith)
take-append (suc n) [] t h = absurd (omega arith)
take-append (suc n) (b ∷ s) t h = rw (take-append n s t (omega arith))

pub drop-append : (n : ℕ) (s t : Bytes) → length s ≡ n → drop n (s ++ t) ≡ t
drop-append zero [] t h = refl
drop-append zero (b ∷ s) t h = absurd (omega arith)
drop-append (suc n) [] t h = absurd (omega arith)
drop-append (suc n) (b ∷ s) t h = drop-append n s t (omega arith)

pub length_of_IsValid : (hash : Bytes) → is_valid_hash hash ≡ true → length hash ≡ hash_len
unfolding is_valid_hash
length_of_IsValid hash h = ground arith

pub name_of_valid :
    (hash : Bytes) (e : Option ℕ) (x : Option Bytes)
    → is_valid_hash hash ≡ true
    → name hash e x ≡ ok (hash ++ suffix e x)
unfolding name
name_of_valid hash e x h = rw h

pub parse-append-suffix :
    (hash : Bytes) (e : Option ℕ) (x : Option Bytes)
    → is_valid_hash hash ≡ true
    → Fits e
    → parse (hash ++ suffix e x) ≡ some (record { hash = hash; expiration = e; extension = x })
unfolding parse
parse-append-suffix hash e x h k =
    let l = length_of_IsValid hash h in
    rw (take-append hash_len hash (suffix e x) l)
      (rw (drop-append hash_len hash (suffix e x) l) (rw h (rw (parse_suffix-suffix e x k))))

-- For a valid hash and an expiration that is a `u64`, whatever the extension, `name` succeeds and
-- `parse` reads the same three parts back from what it built.
pub parse-name :
    (hash : Bytes) (e : Option ℕ) (x : Option Bytes)
    → is_valid_hash hash ≡ true
    → Fits e
    → (text : Bytes) × (name hash e x ≡ ok text)
      × (parse text ≡ some (record { hash = hash; expiration = e; extension = x }))
parse-name hash e x h k =
    (hash ++ suffix e x, name_of_valid hash e x h, parse-append-suffix hash e x h k)
