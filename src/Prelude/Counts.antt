-- ===== src/Prelude/Counts.antt =====
-- Counting the entries of a map whose keys pass a test, distinct keys, and what holds of all values.
use Prim.Native.Nat.{ℕ, suc, ◌+◌, ◌≤◌}
use mathlib.Core.Path.{◌≡◌, refl, subst, sym}
use mathlib.Core.Logic.{inl, inr}
use mathlib.Core.Bool.{Bool, true, false, not, ◌&&◌, ◌||◌}
use mathlib.Core.Option.{some}
use mathlib.Core.List.{[], ◌∷◌}
use native.Mathlib.Omega.{arith}
use almond.Prelude.Tests.{if◌then◌else◌, Bool-cases}
use almond.Prelude.Maps.{
  Eq, HashMap, get, contains_key, insert, remove, retain, get-insert, get-remove, contains_key-get,
}

module _ {ℓ κ} {K : Type ℓ} {V : Type κ} where
  -- `keys().filter(p).count()`
  unfoldable pub count : (K → Bool) → HashMap K V → ℕ
  count p [] = 0
  count p ((j, v) ∷ m) = if p j then suc (count p m) else count p m

  -- A value of a map satisfies `P`.
  abbrev pub AllValues {μ} : (V → Type μ) → HashMap K V → Type μ
  AllValues P [] = Unit
  AllValues P ((j, v) ∷ m) = P v × AllValues P m

  pub count_mono :
      (p q : K → Bool) (m : HashMap K V)
      → ((j : K) → p j ≡ true → q j ≡ true)
      → count p m ≤ count q m
  unfolding count
  count_mono p q [] h = omega arith
  count_mono p q ((j, v) ∷ m) h = ground (arith, h j, count_mono p q m h)

module _ {ℓ κ} {K : Type ℓ} {V : Type κ} ⦃e : Eq K⦄ where
  -- No key stands twice.
  abbrev pub IsDistinct : HashMap K V → Type 0
  IsDistinct [] = Unit
  IsDistinct ((j, v) ∷ m) = (contains_key m j ≡ false) × IsDistinct m

  pub contains_key-insert :
      (m : HashMap K V) (k j : K) (v : V)
      → contains_key (insert m k v) j ≡ (e.same k j || contains_key m j)
  contains_key-insert m k j v =
      ground (arith, contains_key-get (insert m k v) j, contains_key-get m j, get-insert m k j v)

  pub contains_key-remove :
      (m : HashMap K V) (k j : K)
      → contains_key (remove m k) j ≡ (not (e.same k j) && contains_key m j)
  contains_key-remove m k j =
      ground (arith, contains_key-get (remove m k) j, contains_key-get m j, get-remove m k j)

  pub contains_key-retain_le :
      (p : K → V → Bool) (m : HashMap K V) (j : K)
      → contains_key m j ≡ false
      → contains_key (retain p m) j ≡ false
  unfolding contains_key retain
  contains_key-retain_le p [] j h = refl
  contains_key-retain_le p ((i, w) ∷ m) j h = ground (arith, contains_key-retain_le p m j)

  pub insert-IsDistinct :
      (m : HashMap K V) (k : K) (v : V) → IsDistinct m → IsDistinct (insert m k v)
  unfolding insert contains_key
  insert-IsDistinct [] k v h = (refl, tt)
  insert-IsDistinct ((i, w) ∷ m) k v h =
      ground (
        arith,
        e.same_iff i k,
        e.same_iff k i,
        insert-IsDistinct m k v,
        contains_key-insert m k i v,
      )

  pub remove-IsDistinct : (m : HashMap K V) (k : K) → IsDistinct m → IsDistinct (remove m k)
  unfolding remove
  remove-IsDistinct [] k h = tt
  remove-IsDistinct ((i, w) ∷ m) k h =
      ground (arith, remove-IsDistinct m k, contains_key-remove m k i)

  pub retain-IsDistinct :
      (p : K → V → Bool) (m : HashMap K V) → IsDistinct m → IsDistinct (retain p m)
  unfolding retain
  retain-IsDistinct p [] h = tt
  retain-IsDistinct p ((i, w) ∷ m) h =
      ground (arith, retain-IsDistinct p m, contains_key-retain_le p m i)

  -- An insertion adds one where the key is new and passes the test.
  pub count-insert :
      (p : K → Bool) (m : HashMap K V) (k : K) (v : V)
      → count p (insert m k v) ≡ count p m + (if contains_key m k then 0 else if p k then 1 else 0)
  unfolding count insert contains_key
  count-insert p [] k v = ground arith
  count-insert p ((i, w) ∷ m) k v = ground (arith, count-insert p m k v)

  -- A removal, or a test that a key no longer passes, takes at least one off where it counted.
  pub count-remove :
      (p : K → Bool) (m : HashMap K V) (k : K)
      → count p (remove m k) + (if contains_key m k && p k then 1 else 0) ≤ count p m
  unfolding count remove contains_key
  count-remove p [] k = ground arith
  count-remove p ((i, w) ∷ m) k = ground (arith, e.same_iff i k, count-remove p m k)

  pub count-retain :
      (p : K → Bool) (f : K → V → Bool) (m : HashMap K V) → count p (retain f m) ≤ count p m
  unfolding count retain
  count-retain p f [] = omega arith
  count-retain p f ((i, w) ∷ m) = ground (arith, count-retain p f m)

  -- A key that passes now and did not before adds at most one.
  pub count_widen :
      (p q : K → Bool) (m : HashMap K V) (k : K)
      → IsDistinct m
      → ((j : K) → q j ≡ true → e.same k j ≡ false → p j ≡ true)
      → count q m ≤ count p m + (if contains_key m k then 1 else 0)
  unfolding count contains_key
  count_widen p q [] k d h = omega arith
  count_widen p q ((i, w) ∷ m) k d h =
      ground (arith, e.same_iff i k, e.same_iff k i, h i, count_widen p q m k d.1 h)

  -- A key that passed before and does not now takes at least one off, if it is there.
  pub count_narrow :
      (p q : K → Bool) (m : HashMap K V) (k : K)
      → ((j : K) → q j ≡ true → p j ≡ true)
      → q k ≡ false
      → count q m + (if contains_key m k && p k then 1 else 0) ≤ count p m
  unfolding count contains_key
  count_narrow p q [] k h n = ground arith
  count_narrow p q ((i, w) ∷ m) k h n =
      ground (arith, e.same_iff i k, h i, count_narrow p q m k h n, count_mono p q m)

  -- A test that holds wherever another does, among the keys that are there.
  pub count_mono_mem :
      (p q : K → Bool) (m : HashMap K V)
      → ((j : K) → contains_key m j ≡ true → p j ≡ true → q j ≡ true)
      → count p m ≤ count q m
  unfolding count contains_key
  count_mono_mem p q [] h = omega arith
  count_mono_mem p q ((i, w) ∷ m) h =
      ground (arith, e.same_iff i i, h i, count_mono_mem p q m (λ j there. h j (ground arith)))

  -- A key whose entries are all kept stays.
  pub contains_key-retain_kept :
      (p : K → V → Bool) (m : HashMap K V) (j : K)
      → ((v : V) → p j v ≡ true)
      → contains_key m j ≡ true
      → contains_key (retain p m) j ≡ true
  unfolding contains_key retain
  contains_key-retain_kept p [] j h c = c
  contains_key-retain_kept p ((i, w) ∷ m) j h c = elim (Bool-cases (e.same i j)) [
    | inl same ↦
        let kept : p i w ≡ true = subst (λ k. p k w ≡ true) (sym ((e.same_iff i j).0 same)) (h w) in
        rw kept (rw same)
    | inr other ↦ ground (arith, contains_key-retain_kept p m j h)
  ]

module _ {ℓ κ μ} {K : Type ℓ} {V : Type κ} ⦃e : Eq K⦄ (P : V → Type μ) where
  pub insert-AllValues :
      (m : HashMap K V) (k : K) (v : V) → P v → AllValues P m → AllValues P (insert m k v)
  unfolding insert
  insert-AllValues [] k v h a = (h, tt)
  insert-AllValues ((i, w) ∷ m) k v h (p, a) = elim (Bool-cases (e.same i k)) [
    | inl same ↦ rw same (h, a)
    | inr other ↦ rw other (p, insert-AllValues m k v h a)
  ]

  pub remove-AllValues : (m : HashMap K V) (k : K) → AllValues P m → AllValues P (remove m k)
  unfolding remove
  remove-AllValues [] k a = tt
  remove-AllValues ((i, w) ∷ m) k (p, a) = elim (Bool-cases (e.same i k)) [
    | inl same ↦ rw same (remove-AllValues m k a)
    | inr other ↦ rw other (p, remove-AllValues m k a)
  ]

  pub retain-AllValues :
      (f : K → V → Bool) (m : HashMap K V) → AllValues P m → AllValues P (retain f m)
  unfolding retain
  retain-AllValues f [] a = tt
  retain-AllValues f ((i, w) ∷ m) (p, a) = elim (Bool-cases (f i w)) [
    | inl kept ↦ rw kept (p, retain-AllValues f m a)
    | inr dropped ↦ rw dropped (retain-AllValues f m a)
  ]

  pub get-AllValues : (m : HashMap K V) (k : K) {v : V} → AllValues P m → get m k ≡ some v → P v
  unfolding get
  get-AllValues [] k a h = cc
  get-AllValues ((i, w) ∷ m) k (p, a) h = elim (Bool-cases (e.same i k)) [
    | inl same ↦ subst P (cc (rw same at h)) p
    | inr other ↦ get-AllValues m k a (rw other at h)
  ]
