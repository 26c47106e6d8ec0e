-- ===== src/Text/Split.antt =====
-- Splitting a text at a byte, stripping a prefix, trimming.
use almond.Prelude.{
  ℕ, ◌≡◌, refl, not, ◌||◌, false, true, none, some, [], ◌∷◌, ◌++◌, arith, Bytes, all, ==_iff,
  Option-cases, inl, inr,
}
use almond.Text.{split_once, contains, strip_prefix, is_whitespace, trim, trim_end}

-- The first occurrence splits.
pub split_once-append :
    (c : ℕ) (l r : Bytes) → contains c l ≡ false → split_once c (l ++ c ∷ r) ≡ some (l, r)
unfolding split_once contains
split_once-append c [] r h = ground arith
split_once-append c (b ∷ l) r h = ground (arith, split_once-append c l r)

pub split_once-none : (c : ℕ) (s : Bytes) → contains c s ≡ false → split_once c s ≡ none
unfolding split_once contains
split_once-none c [] h = refl
split_once-none c (b ∷ s) h = ground (arith, split_once-none c s)

pub strip_prefix-append : (p s : Bytes) → strip_prefix p (p ++ s) ≡ some s
unfolding strip_prefix
strip_prefix-append [] s = refl
strip_prefix-append (b ∷ p) s = ground (arith, strip_prefix-append p s)

-- A text without white space is its own trimming.
trim_end_of_solid : (s : Bytes) → all (λ b. not (is_whitespace b)) s ≡ true → trim_end s ≡ s
unfolding trim_end
trim_end_of_solid [] h = refl
trim_end_of_solid (b ∷ []) h = ground arith
trim_end_of_solid (b ∷ c ∷ s) h = rw (trim_end_of_solid (c ∷ s) (ground arith))

pub trim_of_solid : (s : Bytes) → all (λ b. not (is_whitespace b)) s ≡ true → trim s ≡ s
unfolding trim
trim_of_solid [] h = refl
trim_of_solid (b ∷ s) h = ground (arith, trim_end_of_solid (b ∷ s))

-- A split text is put together again by the byte at which it was split.
pub split_once_sound : (c : ℕ) (s l r : Bytes) → split_once c s ≡ some (l, r) → s ≡ l ++ c ∷ r
unfolding split_once
split_once_sound c [] l r h = cc
split_once_sound c (b ∷ s) l r h = elim (Option-cases (split_once c s)) [
  | inl absent ↦ ground (arith, ==_iff b c)
  | inr ((l', r'), found) ↦ ground (arith, ==_iff b c, split_once_sound c s l' r' found)
]

pub contains-append : (c : ℕ) (s t : Bytes) → contains c (s ++ t) ≡ (contains c s || contains c t)
unfolding contains
contains-append c [] t = refl
contains-append c (b ∷ s) t = ground (arith, contains-append c s t)
