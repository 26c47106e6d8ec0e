-- ===== src/RangeHeader/Forms.antt =====
-- The three forms of a byte range (RFC 9110 §14.1.1), and what the parser makes of each.
use almond.Prelude.{
  ℕ, ◌+◌, ◌≤◌, ◌-◌, ◌<◌, ◌≡◌, ◌↔◌, Bool-cases, inl, inr, refl, ◌∙◌, Bool, not, true, false, [], ◌∷◌,
  ◌++◌, arith, Bytes, ltb, leb, min, codes, all, if◌then◌else◌, ◌&&◌,
}
use almond.Text.{u64_mod, is_digit, is_whitespace, print_u64, contains}
use almond.Text.Decimal.{print_u64-all_digits, print_u64-cons, parse_u64-print_u64, contains-digits}
use almond.Text.Split.{split_once-append, strip_prefix-append, trim_of_solid, contains-append}
use almond.RangeHeader.{
  RangeSpec, satisfiable, unsatisfiable, ignore, closed_range, range_end, range_start, range_of,
  split_range, range_spec, parse_range_header,
}

pub data RangeForm : Type 0 where
  closed : (first last : ℕ) → RangeForm
  open_ended : (first : ℕ) → RangeForm
  suffix : (length : ℕ) → RangeForm

-- The text of a range, and its two sides.
abbrev pub left : RangeForm → Bytes
left (closed a b) = print_u64 a
left (open_ended a) = print_u64 a
left (suffix n) = []

abbrev pub right : RangeForm → Bytes
right (closed a b) = print_u64 b
right (open_ended a) = []
right (suffix n) = print_u64 n

abbrev pub print_range : RangeForm → Bytes
print_range r = codes "bytes=" ++ (left r ++ b'-' ∷ right r)

abbrev pub Fits : RangeForm → Type 0
Fits (closed a b) = (a < u64_mod) × (b < u64_mod)
Fits (open_ended a) = a < u64_mod
Fits (suffix n) = n < u64_mod

-- The parser's answer, as one formula for each form.
abbrev meaning : RangeForm → ℕ → RangeSpec
meaning (closed a b) size =
    if ltb a size && leb a b then satisfiable a (min b (size - 1)) else unsatisfiable
meaning (open_ended a) size = if ltb a size then satisfiable a (size - 1) else unsatisfiable
meaning (suffix n) size =
    if ltb 0 size && ltb 0 n then satisfiable (size - min n size) (size - 1) else unsatisfiable

abbrev solid : Bytes → Bool
solid s = all (λ b. not (is_whitespace b)) s

solid_of_digits : (s : Bytes) → all is_digit s ≡ true → solid s ≡ true
unfolding is_digit is_whitespace
solid_of_digits [] h = refl
solid_of_digits (c ∷ s) h = ground (arith, solid_of_digits s)

solid-append : (s t : Bytes) → solid s ≡ true → solid t ≡ true → solid (s ++ t) ≡ true
solid-append [] t h k = k
solid-append (c ∷ s) t h k = ground (arith, solid-append s t)

abbrev IsNumber : Bytes → Type 0
IsNumber s = all is_digit s ≡ true

left-IsNumber : (r : RangeForm) → IsNumber (left r)
left-IsNumber (closed a b) = print_u64-all_digits a
left-IsNumber (open_ended a) = print_u64-all_digits a
left-IsNumber (suffix n) = refl

right-IsNumber : (r : RangeForm) → IsNumber (right r)
right-IsNumber (closed a b) = print_u64-all_digits b
right-IsNumber (open_ended a) = refl
right-IsNumber (suffix n) = print_u64-all_digits n

no_comma : (l r : Bytes) → IsNumber l → IsNumber r → contains b',' (l ++ b'-' ∷ r) ≡ false
unfolding contains is_digit
no_comma l r h k =
    rw (contains-append b',' l (b'-' ∷ r))
      (rw (contains-digits b',' l refl h) (contains-digits b',' r refl k))

-- Two numbers with a dash between them go through to `range_of`.
parse_range_header-split :
    (l r : Bytes) (size : ℕ)
    → IsNumber l
    → IsNumber r
    → parse_range_header (codes "bytes=" ++ (l ++ b'-' ∷ r)) size ≡ range_of l r size
unfolding parse_range_header is_whitespace is_digit
parse_range_header-split l r size h k =
    let spec = l ++ b'-' ∷ r in
    let q = solid-append l (b'-' ∷ r) (solid_of_digits l h) (solid_of_digits r k) in
    rw (
      trim_of_solid (codes "bytes=" ++ spec) q,
      strip_prefix-append (codes "bytes=") spec,
      trim_of_solid spec q,
      no_comma l r h k,
      split_once-append b'-' l r (contains-digits b'-' l refl h),
      trim_of_solid l (solid_of_digits l h),
      trim_of_solid r (solid_of_digits r k),
      parse_range_header,
      range_spec,
      split_range,
    )

range_of-meaning :
    (f : RangeForm) (size : ℕ) → Fits f → range_of (left f) (right f) size ≡ meaning f size
unfolding range_of
range_of-meaning (closed a b) size (ha, hb) =
    let (c, cs, e) = print_u64-cons a in
    let (d, ds, e') = print_u64-cons b in
    rw e (
      rw e' (
        rw (rw e at (parse_u64-print_u64 a ha), range_start)
          (rw (rw e' at (parse_u64-print_u64 b hb), range_end, closed_range) (ground arith))))
range_of-meaning (open_ended a) size h =
    let (c, cs, e) = print_u64-cons a in
    rw e (rw (rw e at (parse_u64-print_u64 a h), range_start) (ground arith))
range_of-meaning (suffix n) size h = rw (parse_u64-print_u64 n h) (ground arith)

-- The bytes of a blob of `size` bytes that a range asks for, by their positions.
abbrev pub Requested : RangeForm → ℕ → ℕ → Type 0
Requested (closed first last) size x = (x < size) × (first ≤ x) × (x ≤ last)
Requested (open_ended first) size x = (x < size) × (first ≤ x)
Requested (suffix n) size x = (x < size) × (size ≤ x + n)

-- An answer gives the bytes asked for: a range that starts and ends with one of them and holds
-- these and no others, or the refusal of a range that asks for none.
abbrev pub Answers : RangeForm → ℕ → RangeSpec → Type 0
Answers f size (satisfiable start end) =
    (start ≤ end) × ((x : ℕ) → Requested f size x ↔ ((start ≤ x) × (x ≤ end)))
Answers f size unsatisfiable = (x : ℕ) → ¬ (Requested f size x)
Answers f size ignore = ⊥

meaning-Answers : (f : RangeForm) (size : ℕ) → Answers f size (meaning f size)
meaning-Answers (closed a b) size = elim (Bool-cases (ltb a size && leb a b)) [
  | inl some_byte ↦ rw some_byte (
    ground (arith, some_byte),
    λ x. (λ h. ground (arith, some_byte), λ h. ground (arith, some_byte)),
  )
  | inr no_byte ↦ rw no_byte (λ x h. ground (arith, no_byte))
]
meaning-Answers (open_ended a) size = elim (Bool-cases (ltb a size)) [
  | inl some_byte ↦ rw some_byte (
    ground (arith, some_byte),
    λ x. (λ h. ground (arith, some_byte), λ h. ground (arith, some_byte)),
  )
  | inr no_byte ↦ rw no_byte (λ x h. ground (arith, no_byte))
]
meaning-Answers (suffix n) size = elim (Bool-cases (ltb 0 size && ltb 0 n)) [
  | inl some_byte ↦ rw some_byte (
    ground (arith, some_byte),
    λ x. (λ h. ground (arith, some_byte), λ h. ground (arith, some_byte)),
  )
  | inr no_byte ↦ rw no_byte (λ x h. ground (arith, no_byte))
]

-- For each form of byte range with `u64` numbers and any size, the parser never ignores the range:
-- it answers the nonempty range of exactly those bytes of the blob that the form asks for, or
-- unsatisfiable where it asks for none.
pub parse_range_header-print_range :
    (f : RangeForm) (size : ℕ) → Fits f → Answers f size (parse_range_header (print_range f) size)
parse_range_header-print_range f size h =
    let parsed =
      parse_range_header-split (left f) (right f) size (left-IsNumber f) (right-IsNumber f)
      ∙ range_of-meaning f size h in
    rw parsed (meaning-Answers f size)
