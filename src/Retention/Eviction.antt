-- ===== src/Retention/Eviction.antt =====
-- The order of capacity eviction, and what the loop leaves.
use native.Mathlib.Nat.{le_trans}
use almond.Prelude.{
  ℕ, suc, ◌+◌, ◌≤◌, ◌≡◌, ◌⊎◌, refl, ◌∙◌, ap, true, List, [], ◌∷◌, ◌++◌, arith, leb, length,
  length-append, All, Bool-cases, inl, inr,
}
use almond.Retention.{
  BlobOrigin, upload, upstream_cache, is_origin, Entry, by_origin, insert_by_age, sort_by_age,
  capacity_eviction_order,
}

unfoldable pub sum : List Entry → ℕ
sum [] = 0
sum (e ∷ es) = e.1.size + sum es

sum-append : (es ds : List Entry) → sum (es ++ ds) ≡ sum es + sum ds
unfolding sum
sum-append [] ds = omega arith
sum-append (e ∷ es) ds = omega (arith, sum-append es ds)

sum-insert_by_age : (e : Entry) (es : List Entry) → sum (insert_by_age e es) ≡ e.1.size + sum es
unfolding insert_by_age sum
sum-insert_by_age e [] = refl
sum-insert_by_age e (d ∷ ds) = ground (arith, sum-insert_by_age e ds)

sum-sort_by_age : (es : List Entry) → sum (sort_by_age es) ≡ sum es
unfolding sort_by_age sum
sum-sort_by_age [] = refl
sum-sort_by_age (e ∷ es) = omega (arith, sum-insert_by_age e (sort_by_age es), sum-sort_by_age es)

sum-by_origin :
    (es : List Entry) → sum (by_origin upstream_cache es) + sum (by_origin upload es) ≡ sum es
unfolding by_origin is_origin sum
sum-by_origin [] = refl
sum-by_origin ((k, m) ∷ es) = ground (arith, sum-by_origin es)

-- The order leaves out nothing: the sizes add up to those of the entries.
sum-capacity_eviction_order : (es : List Entry) → sum (capacity_eviction_order es) ≡ sum es
unfolding capacity_eviction_order
sum-capacity_eviction_order es = omega (
  arith,
  sum-append (sort_by_age (by_origin upstream_cache es)) (sort_by_age (by_origin upload es)),
  sum-sort_by_age (by_origin upstream_cache es),
  sum-sort_by_age (by_origin upload es),
  sum-by_origin es,
)

length-insert_by_age : (e : Entry) (es : List Entry) → length (insert_by_age e es) ≡ suc (length es)
unfolding insert_by_age
length-insert_by_age e [] = refl
length-insert_by_age e (d ∷ ds) = ground (arith, length-insert_by_age e ds)

length-sort_by_age : (es : List Entry) → length (sort_by_age es) ≡ length es
unfolding sort_by_age
length-sort_by_age [] = refl
length-sort_by_age (e ∷ es) =
    length-insert_by_age e (sort_by_age es) ∙ ap (λ n. suc n) (length-sort_by_age es)

length-by_origin :
    (es : List Entry)
    → length (by_origin upstream_cache es) + length (by_origin upload es) ≡ length es
unfolding by_origin is_origin
length-by_origin [] = refl
length-by_origin ((k, m) ∷ es) = ground (arith, length-by_origin es)

length-capacity_eviction_order : (es : List Entry) → length (capacity_eviction_order es) ≡ length es
unfolding capacity_eviction_order
length-capacity_eviction_order es = omega (
  arith,
  length-append {0} (sort_by_age (by_origin upstream_cache es)) (sort_by_age (by_origin upload es)),
  length-sort_by_age (by_origin upstream_cache es),
  length-sort_by_age (by_origin upload es),
  length-by_origin es,
)

-- Each candidate is as old as those behind it.
abbrev pub IsByAge : List Entry → Type 0
IsByAge [] = Unit
IsByAge (e ∷ es) = All (λ d. e.1.created_at ≤ d.1.created_at) es × IsByAge es

All-insert_by_age :
    (n : ℕ) (e : Entry) (es : List Entry)
    → n ≤ e.1.created_at
    → All (λ d. n ≤ d.1.created_at) es
    → All (λ d. n ≤ d.1.created_at) (insert_by_age e es)
unfolding insert_by_age
All-insert_by_age n e [] h a = (h, tt)
All-insert_by_age n e (d ∷ ds) h a = ground (arith, All-insert_by_age n e ds h a.1)

All-le :
    (n k : ℕ) (es : List Entry)
    → n ≤ k
    → All (λ d. k ≤ d.1.created_at) es
    → All (λ d. n ≤ d.1.created_at) es
All-le n k [] h a = tt
All-le n k (d ∷ ds) h a = (le_trans h a.0, All-le n k ds h a.1)

insert_by_age-IsByAge : (e : Entry) (es : List Entry) → IsByAge es → IsByAge (insert_by_age e es)
unfolding insert_by_age
insert_by_age-IsByAge e [] h = (tt, tt)
insert_by_age-IsByAge e (d ∷ ds) h = elim (Bool-cases (leb e.1.created_at d.1.created_at)) [
  | inl older ↦ rw older (
    (ground (arith, older), All-le e.1.created_at d.1.created_at ds (ground (arith, older)) h.0),
    h,
  )
  | inr younger ↦ rw younger (
    All-insert_by_age d.1.created_at e ds (ground (arith, younger)) h.0,
    insert_by_age-IsByAge e ds h.1,
  )
]

sort_by_age-IsByAge : (es : List Entry) → IsByAge (sort_by_age es)
unfolding sort_by_age
sort_by_age-IsByAge [] = tt
sort_by_age-IsByAge (e ∷ es) = insert_by_age-IsByAge e (sort_by_age es) (sort_by_age-IsByAge es)

-- The candidates that the loop has not reached, and both limits met by them, 0 being no limit.
abbrev pub IsLeftWithin : (max_size max_files : ℕ) → (candidates evicted : List Entry) → Type 0
IsLeftWithin max_size max_files candidates evicted =
    (left : List Entry) × (candidates ≡ evicted ++ left)
    × ((max_size ≡ 0) ⊎ (sum left ≤ max_size))
    × ((max_files ≡ 0) ⊎ (length left ≤ max_files))

All-sort_by_age_origin :
    (o : BlobOrigin) (es : List Entry)
    → All (λ e. e.1.origin ≡ o) es
    → All (λ e. e.1.origin ≡ o) (sort_by_age es)
unfolding sort_by_age
All-sort_by_age_origin o [] a = tt
All-sort_by_age_origin o (e ∷ es) a =
    All-insert_origin o e (sort_by_age es) a.0 (All-sort_by_age_origin o es a.1)
  where
    All-insert_origin :
        (o : BlobOrigin) (e : Entry) (es : List Entry)
        → e.1.origin ≡ o
        → All (λ e. e.1.origin ≡ o) es
        → All (λ e. e.1.origin ≡ o) (insert_by_age e es)
    All-insert_origin o e [] h a = (h, tt)
    All-insert_origin o e (d ∷ ds) h a = elim (Bool-cases (leb e.1.created_at d.1.created_at)) [
      | inl older ↦ rw (older, insert_by_age) (h, a)
      | inr younger ↦ rw (younger, insert_by_age) (a.0, All-insert_origin o e ds h a.1)
    ]

is_origin_sound : (a b : BlobOrigin) → is_origin a b ≡ true → a ≡ b
unfolding is_origin
is_origin_sound upload upload h = refl
is_origin_sound upload upstream_cache h = cc
is_origin_sound upstream_cache upload h = cc
is_origin_sound upstream_cache upstream_cache h = refl

All-by_origin : (o : BlobOrigin) (es : List Entry) → All (λ e. e.1.origin ≡ o) (by_origin o es)
unfolding by_origin
All-by_origin o [] = tt
All-by_origin o (e ∷ es) = elim (Bool-cases (is_origin e.1.origin o)) [
  | inl same ↦ rw same (is_origin_sound e.1.origin o same, All-by_origin o es)
  | inr other ↦ rw other (All-by_origin o es)
]

-- The order of eviction: cached copies, oldest first, and then uploads, oldest first; as many as
-- there are entries, and with the same sum of sizes.
pub capacity_eviction_order_lem :
    (es : List Entry)
    → (cached uploads : List Entry) × (capacity_eviction_order es ≡ cached ++ uploads)
      × All (λ e. e.1.origin ≡ upstream_cache) cached
      × IsByAge cached
      × All (λ e. e.1.origin ≡ upload) uploads
      × IsByAge uploads
      × (length (capacity_eviction_order es) ≡ length es)
      × (sum (capacity_eviction_order es) ≡ sum es)
capacity_eviction_order_lem es = (
  sort_by_age (by_origin upstream_cache es),
  sort_by_age (by_origin upload es),
  unfold capacity_eviction_order in refl,
  All-sort_by_age_origin upstream_cache (by_origin upstream_cache es)
      (All-by_origin upstream_cache es),
  sort_by_age-IsByAge (by_origin upstream_cache es),
  All-sort_by_age_origin upload (by_origin upload es) (All-by_origin upload es),
  sort_by_age-IsByAge (by_origin upload es),
  length-capacity_eviction_order es,
  sum-capacity_eviction_order es,
)
