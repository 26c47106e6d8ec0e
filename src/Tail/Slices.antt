-- ===== src/Tail/Slices.antt =====
-- Slices of a list that stand side by side.
use almond.Prelude.{
  ℕ, zero, suc, ◌+◌, ◌-◌, ◌≤◌, ◌≡◌, refl, ap, List, [], ◌∷◌, ◌++◌, arith, take, drop, length,
}

module _ {ℓ} {A : Type ℓ} where
  abbrev pub concat : List (List A) → List A
  concat [] = []
  concat (x ∷ xs) = x ++ concat xs

  pub length-take : (n : ℕ) (xs : List A) → n ≤ length xs → length (take n xs) ≡ n
  length-take zero xs h = refl
  length-take (suc n) [] h = absurd (omega arith)
  length-take (suc n) (x ∷ xs) h = omega (arith, length-take n xs (omega arith))

  pub length-drop : (n : ℕ) (xs : List A) → length (drop n xs) ≡ length xs - n
  length-drop zero xs = omega arith
  length-drop (suc n) [] = omega arith
  length-drop (suc n) (x ∷ xs) = omega (arith, length-drop n xs)

  take-split : (a b c : ℕ) (xs : List A) → c ≡ a + b → take c xs ≡ take a xs ++ take b (drop a xs)
  take-split zero b c xs e = let e' : c ≡ b = omega arith in rw e'
  take-split (suc a) b zero xs e = absurd (omega arith)
  take-split (suc a) zero (suc c) [] e = refl
  take-split (suc a) (suc b) (suc c) [] e = refl
  take-split (suc a) b (suc c) (x ∷ xs) e = ap (λ l. x ∷ l) (take-split a b c xs (omega arith))

  drop-drop : (a b c : ℕ) (xs : List A) → c ≡ a + b → drop b (drop a xs) ≡ drop c xs
  drop-drop zero b c xs e = let e' : c ≡ b = omega arith in rw e'
  drop-drop (suc a) b zero xs e = absurd (omega arith)
  drop-drop (suc a) zero (suc c) [] e = refl
  drop-drop (suc a) (suc b) (suc c) [] e = refl
  drop-drop (suc a) b (suc c) (x ∷ xs) e = drop-drop a b c xs (omega arith)

  -- The bytes from `p` to `r` are those to `q` and those from `q`.
  pub slice-append :
      (p q r : ℕ) (xs : List A)
      → p ≤ q
      → q ≤ r
      → take (r - p) (drop p xs) ≡ take (q - p) (drop p xs) ++ take (r - q) (drop q xs)
  slice-append p q r xs h k =
      let d : drop (q - p) (drop p xs) ≡ drop q xs = drop-drop p (q - p) q xs (omega arith) in
      rw (← d) (take-split (q - p) (r - q) (r - p) (drop p xs) (omega arith))
