-- ===== src/BlobIndex/Totals.antt =====
-- What the catalogue of src/services/blob_index.rs reports of its sizes, over every sequence of its
-- operations.
use almond.Prelude.{
  ℕ, ◌+◌, ◌%◌, ◌<◌, ◌≡◌, refl, Option, none, some, List, [], ◌∷◌, Bytes, arith, HashMap, get,
  insert, remove, contains_key, IsDistinct, insert-IsDistinct, remove-IsDistinct, text_eq_iff,
  text_eq_instance, Bool-cases, inl, inr, false,
}
use almond.Text.{u64_mod}
use almond.Retention.{FileMetadata, FileLocation, upload, upstream_cache, BlobOrigin}
use almond.BlobIndex.{
  Entries, insert_entry, remove_entry, removed_entry, publish, publish_over,
  remove_if_location_matches, replace, total_size, size_of, location_matches,
}

total_size-insert :
    (m : HashMap Bytes FileMetadata) (k : Bytes) (v : FileMetadata)
    → total_size (insert m k v) + size_of (get m k) ≡ total_size m + v.size
unfolding total_size insert get
total_size-insert [] k v = omega arith
total_size-insert ((j, w) ∷ m) k v = ground (arith, total_size-insert m k v)

-- A key that is not there removes nothing.
total_size-remove_absent :
    (m : HashMap Bytes FileMetadata) (k : Bytes)
    → contains_key m k ≡ false
    → total_size (remove m k) ≡ total_size m
unfolding total_size remove contains_key
total_size-remove_absent [] k h = refl
total_size-remove_absent ((j, w) ∷ m) k h = ground (arith, total_size-remove_absent m k)

total_size-remove :
    (m : HashMap Bytes FileMetadata) (k : Bytes)
    → IsDistinct m
    → total_size (remove m k) + size_of (get m k) ≡ total_size m
unfolding total_size remove get
total_size-remove [] k d = refl
total_size-remove ((j, w) ∷ m) k d =
    ground (arith, text_eq_iff j k, total_size-remove m k, total_size-remove_absent m k)

pub record IsTotalled (e : Entries) : Type 0 where
  pub distinct : IsDistinct e.map
  pub totalled : e.total_bytes ≡ total_size e.map

insert_entry-IsTotalled :
    (e : Entries) (k : Bytes) (m : FileMetadata)
    → total_size e.map + m.size < u64_mod
    → IsTotalled e
    → IsTotalled (insert_entry e k m).0
unfolding insert_entry
insert_entry-IsTotalled e k m fits v =
    let same = v.totalled in
    let whole : (e.total_bytes + m.size) % u64_mod ≡ total_size e.map + m.size = omega arith in
    record {
      distinct = insert-IsDistinct e.map k m v.distinct;
      totalled = omega (arith, whole, total_size-insert e.map k m);
    }

removed_entry-IsTotalled :
    (e : Entries) (k : Bytes) (o : Option FileMetadata)
    → get e.map k ≡ o
    → IsTotalled e
    → IsTotalled (removed_entry e k o)
unfolding removed_entry
removed_entry-IsTotalled e k none h v = v
removed_entry-IsTotalled e k (some m) h v = record {
  distinct = remove-IsDistinct e.map k v.distinct;
  totalled = ground (arith, total_size-remove e.map k v.distinct);
}

remove_entry-IsTotalled : (e : Entries) (k : Bytes) → IsTotalled e → IsTotalled (remove_entry e k).0
unfolding remove_entry
remove_entry-IsTotalled e k v = removed_entry-IsTotalled e k (get e.map k) refl v

publish-IsTotalled :
    (e : Entries) (k : Bytes) (m : FileMetadata) (o : BlobOrigin) (existing : Option FileMetadata)
    → total_size e.map + m.size < u64_mod
    → IsTotalled e
    → IsTotalled (publish_over e k m o existing).0
unfolding publish_over
publish-IsTotalled e k m upload existing fits v = insert_entry-IsTotalled e k m fits v
publish-IsTotalled e k m upstream_cache none fits v = insert_entry-IsTotalled e k m fits v
publish-IsTotalled e k m upstream_cache (some _) fits v = v

remove_if-IsTotalled :
    (e : Entries) (k : Bytes) (l : FileLocation)
    → IsTotalled e
    → IsTotalled (remove_if_location_matches e k l).0
unfolding remove_if_location_matches
remove_if-IsTotalled e k l v = elim (Bool-cases (location_matches l (get e.map k))) [
  | inl same ↦ rw same (remove_entry-IsTotalled e k v)
  | inr other ↦ rw other v
]

-- The operations of a client, and what a sequence of them leaves.
pub data Op : Type 0 where
  insert_op publish_op : Bytes → FileMetadata → Op
  remove_op : Bytes → Op
  remove_if_op : Bytes → FileLocation → Op

pub step : Entries → Op → Entries
step e (insert_op k m) = (insert_entry e k m).0
step e (publish_op k m) = (publish e k m).0
step e (remove_op k) = (remove_entry e k).0
step e (remove_if_op k l) = (remove_if_location_matches e k l).0

unfoldable pub run : Entries → List Op → Entries
unfolding step
run e [] = e
run e (o ∷ os) = run (step e o) os

-- The size that an operation adds.
abbrev pub added : Op → ℕ
added (insert_op k m) = m.size
added (publish_op k m) = m.size
added (remove_op k) = 0
added (remove_if_op k l) = 0

-- Throughout a sequence, the sizes of the entries with that of the next addition fit a `u64`.
unfoldable pub Fits : Entries → List Op → Type 0
unfolding step
Fits e [] = total_size e.map < u64_mod
Fits e (o ∷ os) = (total_size e.map + added o < u64_mod) × Fits (step e o) os

Fits-now : (e : Entries) (os : List Op) → Fits e os → total_size e.map < u64_mod
unfolding Fits
Fits-now e [] fits = fits
Fits-now e (o ∷ os) fits = omega (arith, fits.0)

step-IsTotalled :
    (e : Entries) (o : Op)
    → total_size e.map + added o < u64_mod
    → IsTotalled e
    → IsTotalled (step e o)
unfolding step publish
step-IsTotalled e (insert_op k m) fits v = insert_entry-IsTotalled e k m fits v
step-IsTotalled e (publish_op k m) fits v = publish-IsTotalled e k m m.origin (get e.map k) fits v
step-IsTotalled e (remove_op k) fits v = remove_entry-IsTotalled e k v
step-IsTotalled e (remove_if_op k l) fits v = remove_if-IsTotalled e k l v

run-IsTotalled : (e : Entries) (os : List Op) → Fits e os → IsTotalled e → IsTotalled (run e os)
unfolding run Fits
run-IsTotalled e [] fits v = v
run-IsTotalled e (o ∷ os) fits v =
    run-IsTotalled (step e o) os fits.1 (step-IsTotalled e o fits.0 v)

-- After a map with distinct keys has replaced the entries, every sequence of insertions,
-- publications, removals and conditional removals keeps `total_bytes` equal to the sum of the sizes
-- of the entries in the map, provided that this sum, with the size of the next entry that comes in,
-- stays below 2 ^ 64 throughout.
pub run-total_bytes :
    (old : Entries) (m : HashMap Bytes FileMetadata) (os : List Op)
    → IsDistinct m
    → Fits (replace old m) os
    → (run (replace old m) os).total_bytes ≡ total_size (run (replace old m) os).map
unfolding replace
run-total_bytes old m os d fits =
    let now = Fits-now (replace old m) os fits in
    (run-IsTotalled (replace old m) os fits
      (record { distinct = d; totalled = omega (arith, now) })).totalled
