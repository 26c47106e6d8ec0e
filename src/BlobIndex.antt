-- ===== src/BlobIndex.antt =====
-- src/services/blob_index.rs: the catalogue of stored blobs. Each method takes the lock for its whole
-- body, so it is one function on the entries behind it. `BTreeSet` is the list of its elements in
-- order, newest first; sums of sizes wrap around at 2 ^ 64, as in a release build.
pub mod Precedence
pub mod Pages
pub mod Totals
pub mod Removals
pub mod Tests
use almond.Prelude.{
  ℕ, ◌+◌, ◌-◌, ◌%◌, Bool, true, false, ◌&&◌, ◌||◌, Option, none, some, List, [], ◌∷◌, Bytes, ltb,
  ◌==◌, text_eq, if◌then◌else◌, HashMap, get, insert, remove, text_eq_instance,
}
use almond.Text.{u64_mod}
use almond.Retention.{FileMetadata, FileLocation, BlobOrigin, local, s3, upload, upstream_cache}

-- An element of the order: the creation time and the hash.
abbrev pub Stamp : Type 0
Stamp = ℕ × Bytes

pub record Entries : Type 0 where
  pub map : HashMap Bytes FileMetadata
  pub total_bytes : ℕ
  pub order : List Stamp
  pub generation : ℕ

pub data PublishResult : Type 0 where
  published : (displaced : Option FileMetadata) → PublishResult
  retained : (existing : FileMetadata) → PublishResult

-- `<` on `str`.
pub text_ltb : Bytes → Bytes → Bool
text_ltb _ [] = false
text_ltb [] (b ∷ t) = true
text_ltb (a ∷ s) (b ∷ t) = ltb a b || (a == b && text_ltb s t)

-- `(Reverse(created_at), Reverse(sha256))`: later first, and the greater hash first.
pub precedes : Stamp → Stamp → Bool
unfolding text_ltb
precedes (c, k) (d, j) = ltb d c || (c == d && text_ltb j k)

same_stamp : Stamp → Stamp → Bool
same_stamp (c, k) (d, j) = c == d && text_eq k j

unfoldable pub insert_stamp : Stamp → List Stamp → List Stamp
unfolding precedes same_stamp
insert_stamp e [] = e ∷ []
insert_stamp e (x ∷ xs) =
    let rest = insert_stamp e xs in
    if same_stamp e x then x ∷ xs else if precedes e x then e ∷ x ∷ xs else x ∷ rest

unfoldable pub remove_stamp : Stamp → List Stamp → List Stamp
unfolding same_stamp
remove_stamp e [] = []
remove_stamp e (x ∷ xs) = let rest = remove_stamp e xs in if same_stamp e x then rest else x ∷ rest

abbrev pub size_of : Option FileMetadata → ℕ
size_of none = 0
size_of (some m) = m.size

abbrev without_previous : Bytes → Option FileMetadata → List Stamp → List Stamp
without_previous key none order = order
without_previous key (some m) order = remove_stamp (m.created_at, key) order

-- `Entries::insert`, with the entry that it replaced.
unfoldable pub insert_entry : Entries → Bytes → FileMetadata → Entries × Option FileMetadata
insert_entry e key m =
    let previous = get e.map key in
    (
      record {
        map = insert e.map key m;
        total_bytes = (e.total_bytes + m.size) % u64_mod - size_of previous;
        order = insert_stamp (m.created_at, key) (without_previous key previous e.order);
        generation = e.generation + 1;
      },
      previous,
    )

-- `Entries::remove`
removed_entry : Entries → Bytes → Option FileMetadata → Entries
removed_entry e key none = e
removed_entry e key (some m) = record {
  map = remove e.map key;
  total_bytes = e.total_bytes - m.size;
  order = remove_stamp (m.created_at, key) e.order;
  generation = e.generation + 1;
}

pub remove_entry : Entries → Bytes → Entries × Option FileMetadata
unfolding removed_entry
remove_entry e key = let removed = get e.map key in (removed_entry e key removed, removed)

-- The sum of the sizes, as a number without bound; the sum of the code is its remainder.
pub total_size : HashMap Bytes FileMetadata → ℕ
total_size [] = 0
total_size ((k, m) ∷ rest) = m.size + total_size rest

pub ordered : HashMap Bytes FileMetadata → List Stamp
unfolding insert_stamp
ordered [] = []
ordered ((k, m) ∷ rest) = insert_stamp (m.created_at, k) (ordered rest)

pub replace : Entries → HashMap Bytes FileMetadata → Entries
unfolding total_size ordered
replace e map = record {
  map = map;
  total_bytes = total_size map % u64_mod;
  order = ordered map;
  generation = e.generation + 1;
}

publish_over :
    Entries → Bytes → FileMetadata → BlobOrigin → Option FileMetadata → Entries × PublishResult
unfolding insert_entry
publish_over e key m upstream_cache (some existing) = (e, retained existing)
publish_over e key m upstream_cache none =
    let (e', displaced) = insert_entry e key m in (e', published displaced)
publish_over e key m upload existing =
    let (e', displaced) = insert_entry e key m in (e', published displaced)

unfoldable pub publish : Entries → Bytes → FileMetadata → Entries × PublishResult
unfolding publish_over
publish e key m = publish_over e key m m.origin (get e.map key)

pub same_location : FileLocation → FileLocation → Bool
same_location (local a) (local b) = text_eq a b
same_location (s3 a) (s3 b) = text_eq a b
same_location (local a) (s3 b) = false
same_location (s3 a) (local b) = false

location_matches : FileLocation → Option FileMetadata → Bool
unfolding same_location
location_matches location none = false
location_matches location (some m) = same_location m.location location

unfoldable pub remove_if_location_matches : Entries → Bytes → FileLocation → Entries × Bool
unfolding location_matches remove_entry
remove_if_location_matches e key location =
    if location_matches location (get e.map key) then ((remove_entry e key).0, true) else (e, false)
