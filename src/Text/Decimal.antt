-- ===== src/Text/Decimal.antt =====
-- Decimal text of `u64` values.
use native.Mathlib.Nat.{pow-suc}
use almond.Prelude.{
  ℕ, zero, suc, ◌+◌, ◌*◌, ◌/◌, ◌%◌, ◌^◌, ◌<◌, ◌≡◌, refl, ◌∙◌, ap, true, some, [], ◌∷◌, arith, Bytes,
  all, ltb, ==_iff, ◌-◌, false, Bool-cases, inl, inr, ◌==◌,
}
use almond.Text.{u64_mod, is_digit, digits, print_u64, parse_digits, parse_u64, contains}

parse_digits-cons :
    (v d : ℕ) (cs : Bytes)
    → d < 10
    → v * 10 + d < u64_mod
    → parse_digits v ((48 + d) ∷ cs) ≡ parse_digits (v * 10 + d) cs
unfolding parse_digits
parse_digits-cons v d cs h k = ground arith

-- What is written in front is read first, and gives the number that was written.
parse_digits-digits :
    (f n : ℕ) (acc : Bytes)
    → n < 10 ^ f
    → n < u64_mod
    → parse_digits 0 (digits f n acc) ≡ parse_digits n acc
unfolding digits
parse_digits-digits zero n acc h k = let z : 0 ≡ n = omega arith in ap (λ t. parse_digits t acc) z
parse_digits-digits (suc f) n acc h k = elim (Bool-cases (ltb n 10)) [
  | inl small ↦ rw small (
      parse_digits-cons 0 n acc (ground arith) (omega arith)
      ∙ ap (λ t. parse_digits t acc) (omega arith))
  | inr large ↦ rw large (
      parse_digits-digits f (n / 10) ((48 + n % 10) ∷ acc) (shorter f n h) (omega arith)
      ∙ parse_digits-cons (n / 10) (n % 10) acc (omega arith) (omega arith)
      ∙ ap (λ t. parse_digits t acc) (omega arith))
]
  where
    shorter : (f n : ℕ) → n < 10 ^ suc f → n / 10 < 10 ^ f
    shorter f n h = let e : 10 ^ suc f ≡ 10 ^ f * 10 = pow-suc 10 f in omega arith

digits-all :
    (f n : ℕ) (acc : Bytes) → all is_digit acc ≡ true → all is_digit (digits f n acc) ≡ true
unfolding digits is_digit
digits-all zero n acc h = h
digits-all (suc f) n acc h = ground (arith, digits-all f (n / 10) ((48 + n % 10) ∷ acc))

-- A printed number has nothing but digits.
pub print_u64-all_digits : (n : ℕ) → all is_digit (print_u64 n) ≡ true
unfolding print_u64
print_u64-all_digits n = digits-all 20 n [] refl

-- The digits keep what stands behind them.
digits-cons : (f n b : ℕ) (acc : Bytes) → (c : ℕ) × (cs : Bytes) × (digits f n (b ∷ acc) ≡ c ∷ cs)
unfolding digits
digits-cons zero n b acc = (b, acc, refl)
digits-cons (suc f) n b acc = elim (Bool-cases (ltb n 10)) [
  | inl small ↦ (48 + n, b ∷ acc, rw small)
  | inr large ↦ rw large (digits-cons f (n / 10) (48 + n % 10) (b ∷ acc))
]

-- A printed number is not empty.
pub print_u64-cons : (n : ℕ) → (c : ℕ) × (cs : Bytes) × (print_u64 n ≡ c ∷ cs)
unfolding print_u64
print_u64-cons n = elim (Bool-cases (ltb n 10)) [
  | inl small ↦ (48 + n, [], rw small)
  | inr large ↦ rw large (digits-cons 19 (n / 10) (48 + n % 10) [])
]

pub parse_digits-print_u64 : (n : ℕ) → n < u64_mod → parse_digits 0 (print_u64 n) ≡ some n
unfolding print_u64 parse_digits
parse_digits-print_u64 n h = parse_digits-digits 20 n [] (omega arith) h

parse_u64_of_digits :
    (c : ℕ) (cs : Bytes)
    → all is_digit (c ∷ cs) ≡ true
    → parse_u64 (c ∷ cs) ≡ parse_digits 0 (c ∷ cs)
unfolding parse_u64 is_digit
parse_u64_of_digits c [] h = ground arith
parse_u64_of_digits c (d ∷ cs) h = ground arith

-- Reading a printed number gives the number.
pub parse_u64-print_u64 : (n : ℕ) → n < u64_mod → parse_u64 (print_u64 n) ≡ some n
parse_u64-print_u64 n h =
    let (c, cs, e) = print_u64-cons n in
    rw e (
      parse_u64_of_digits c cs (rw e at (print_u64-all_digits n))
      ∙ rw e at (parse_digits-print_u64 n h))

-- A number that was read fits its type.
parse_digits-lt :
    (v : ℕ) (s : Bytes) (n : ℕ) → v < u64_mod → parse_digits v s ≡ some n → n < u64_mod
unfolding parse_digits
parse_digits-lt v [] n h e = ground arith
parse_digits-lt v (c ∷ s) n h e = ground (arith, parse_digits-lt (v * 10 + (c - 48)) s n)

pub parse_u64-lt : (s : Bytes) (n : ℕ) → parse_u64 s ≡ some n → n < u64_mod
unfolding parse_u64
parse_u64-lt [] n e = cc
parse_u64-lt (c ∷ []) n e = ground (arith, parse_digits-lt 0 (c ∷ []) n)
parse_u64-lt (c ∷ d ∷ cs) n e =
    ground (arith, parse_digits-lt 0 (d ∷ cs) n, parse_digits-lt 0 (c ∷ d ∷ cs) n)

-- Digits hold no byte that is no digit.
pub contains-digits :
    (b : ℕ) (s : Bytes) → is_digit b ≡ false → all is_digit s ≡ true → contains b s ≡ false
unfolding contains
contains-digits b [] k h = refl
contains-digits b (c ∷ s) k h = elim (Bool-cases (c == b)) [
  | inl same ↦ ground (arith, ap is_digit ((==_iff c b).0 same))
  | inr other ↦ ground (arith, contains-digits b s k)
]
