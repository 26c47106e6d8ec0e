-- ===== src/Prelude/Maps.antt =====
-- Finite maps over keys with a decided equality: the model of `HashMap` and, with unit values, of
-- `HashSet`. Iteration order is the order of the list; what depends on it is said where it does.
use Prim.Native.Nat.{ℕ}
use mathlib.Core.Path.{◌≡◌, refl}
use mathlib.Core.Logic.{◌↔◌}
use mathlib.Core.Bool.{Bool, true, false}
use mathlib.Core.Option.{Option, none, some}
use mathlib.Core.List.{List, [], ◌∷◌}
use native.Mathlib.Omega.{arith}
use almond.Prelude.Tests.{if◌then◌else◌, ◌==◌, ==_iff, Bytes, text_eq, text_eq_iff}

-- `Eq` of Rust, with its law.
pub record Eq {ℓ} (Key : Type ℓ) : Type ℓ where
  pub same : (key other : Key) → Bool
  pub same_iff : (key other : Key) → (same key other ≡ true) ↔ (key ≡ other)

instance abbrev pub text_eq_instance : Eq Bytes
text_eq_instance = record { same = text_eq; same_iff = text_eq_iff }

instance abbrev pub nat_eq_instance : Eq ℕ
nat_eq_instance = record { same_iff = ==_iff; same = ◌==◌ }

abbrev pub HashMap {ℓ κ} : Type ℓ → Type κ → Type (ℓ ⊔ κ)
HashMap K V = List (K × V)

module _ {ℓ κ} {K : Type ℓ} {V : Type κ} ⦃e : Eq K⦄ where
  unfoldable pub get : HashMap K V → K → Option V
  get [] k = none
  get ((j, v) ∷ m) k = if e.same j k then some v else get m k

  unfoldable pub contains_key : HashMap K V → K → Bool
  contains_key [] k = false
  contains_key ((j, v) ∷ m) k = if e.same j k then true else contains_key m k

  -- A key that is there keeps its place and takes the new value.
  unfoldable pub insert : HashMap K V → K → V → HashMap K V
  insert [] k v = (k, v) ∷ []
  insert ((j, w) ∷ m) k v = if e.same j k then (j, v) ∷ m else (j, w) ∷ insert m k v

  unfoldable pub remove : HashMap K V → K → HashMap K V
  remove [] k = []
  remove ((j, w) ∷ m) k = let rest = remove m k in if e.same j k then rest else (j, w) ∷ rest

  unfoldable pub retain : (K → V → Bool) → HashMap K V → HashMap K V
  retain p [] = []
  retain p ((j, w) ∷ m) = let rest = retain p m in if p j w then (j, w) ∷ rest else rest

  pub get-insert :
      (m : HashMap K V) (k j : K) (v : V)
      → get (insert m k v) j ≡ (if e.same k j then some v else get m j)
  unfolding get insert
  get-insert [] k j v = refl
  get-insert ((i, w) ∷ m) k j v =
      ground (arith, e.same_iff k j, e.same_iff i k, e.same_iff i j, get-insert m k j v)

  pub get-remove :
      (m : HashMap K V) (k j : K) → get (remove m k) j ≡ (if e.same k j then none else get m j)
  unfolding get remove
  get-remove [] k j = ground arith
  get-remove ((i, w) ∷ m) k j =
      ground (arith, e.same_iff k j, e.same_iff i k, e.same_iff i j, get-remove m k j)

  -- Whether a key is there, read from the value.
  pub contains_key-get :
      (m : HashMap K V) (k : K)
      → contains_key m k ≡ (elim (get m k) [ none ↦ false | some _ ↦ true ])
  unfolding get contains_key
  contains_key-get [] k = refl
  contains_key-get ((i, w) ∷ m) k = ground (arith, contains_key-get m k)

-- A store by number, with one place written.
abbrev pub update {ℓ} : {A : Type ℓ} → (ℕ → A) → ℕ → A → ℕ → A
update f i a j = if i == j then a else f j

-- `is_some_and(|current| Arc::ptr_eq(current, ..))`
abbrev pub is_current : ℕ → Option ℕ → Bool
is_current i none = false
is_current i (some current) = current == i
