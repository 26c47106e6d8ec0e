-- ===== src/BlobIndex/Pages.antt =====
-- `BlobIndex::page` of src/services/blob_index.rs: a newest-first page behind a cursor. The walk
-- stops when the page has `limit` entries, which it tests after it has added one.
use almond.Prelude.{
  ℕ, ◌+◌, ◌≤◌, ◌<◌, ◌≡◌, Bool, true, false, ◌&&◌, Option, none, some, List, [], ◌∷◌, Bytes, leb,
  ◌==◌, if◌then◌else◌, HashMap, get, text_eq, text_eq_instance, arith, All, length, if-eq-some,
  Option-cases, inl, inr,
}
use almond.Retention.{FileMetadata}
use almond.BlobIndex.{Entries, Stamp}

-- `author.is_none_or(..)`
is_author : Option ℕ → Option ℕ → Bool
is_author none pubkey = true
is_author (some author) none = false
is_author (some author) (some pubkey) = pubkey == author

unfoldable pub is_listed : ℕ → ℕ → Option ℕ → FileMetadata → Bool
unfolding is_author
is_listed since until author m =
    leb since m.created_at && leb m.created_at until && is_author author m.pubkey

is_cursor : Option Bytes → Bytes → Bool
is_cursor none key = false
is_cursor (some cursor) key = text_eq cursor key

-- The entry of one stamp, where the filter lets it through.
unfoldable pub listed : (FileMetadata → Bool) → Option FileMetadata → Option FileMetadata
listed keep none = none
listed keep (some m) = if keep m then some m else none

-- An entry is added; the walk goes on unless the page is full.
abbrev pub added :
    Bytes
    → Bool
    → List (Bytes × FileMetadata)
    → List (Bytes × FileMetadata)
    → Option FileMetadata
    → List (Bytes × FileMetadata)
added key full more skipped none = skipped
added key full more skipped (some m) = (key, m) ∷ (if full then [] else more)

unfoldable pub collect :
    HashMap Bytes FileMetadata
    → (FileMetadata → Bool)
    → ℕ
    → ℕ
    → List Stamp
    → List (Bytes × FileMetadata)
unfolding listed
collect map keep limit taken [] = []
collect map keep limit taken ((c, key) ∷ order) =
    added key (taken + 1 == limit) (collect map keep limit (taken + 1) order)
      (collect map keep limit taken order) (listed keep (get map key))

-- What stands behind the cursor.
unfoldable pub after_cursor : Option Bytes → List Stamp → List Stamp
unfolding is_cursor
after_cursor cursor [] = []
after_cursor cursor ((c, key) ∷ order) =
    let rest = after_cursor cursor order in if is_cursor cursor key then order else rest

cursor_is_in_result : (FileMetadata → Bool) → Entries → Option Bytes → Bool
cursor_is_in_result keep e none = false
cursor_is_in_result keep e (some cursor) = elim (get e.map cursor) [
  | none ↦ false
  | some m ↦ keep m
]

unfoldable pub page : Entries → ℕ → ℕ → Option ℕ → Option Bytes → ℕ → List (Bytes × FileMetadata)
unfolding cursor_is_in_result collect after_cursor
page e since until author cursor limit =
    let keep = is_listed since until author in
    collect e.map keep limit 0
      (if cursor_is_in_result keep e cursor then after_cursor cursor e.order else e.order)

-- An entry of the catalogue that the request asks for.
abbrev pub IsHit :
    HashMap Bytes FileMetadata → (FileMetadata → Bool) → Bytes × FileMetadata → Type 0
IsHit map keep (key, m) = (get map key ≡ some m) × (keep m ≡ true)

listed-eq-some :
    (keep : FileMetadata → Bool) (o : Option FileMetadata) (m : FileMetadata)
    → listed keep o ≡ some m
    → (o ≡ some m) × (keep m ≡ true)
unfolding listed
listed-eq-some keep none m h = cc
listed-eq-some keep (some x) m h =
    let (kept, same) = if-eq-some (keep x) (some x) h in
    let equal : x ≡ m = cc same in (same, rw (← equal) kept)

All-cut :
    (P : Bytes × FileMetadata → Type 0) (full : Bool) (xs : List (Bytes × FileMetadata))
    → All P xs
    → All P (if full then [] else xs)
All-cut P true xs h = tt
All-cut P false xs h = h

collect-IsHit :
    (map : HashMap Bytes FileMetadata) (keep : FileMetadata → Bool) (limit taken : ℕ)
    (order : List Stamp)
    → All (IsHit map keep) (collect map keep limit taken order)
unfolding collect
collect-IsHit map keep limit taken [] = tt
collect-IsHit map keep limit taken ((c, key) ∷ order) =
    elim (Option-cases (listed keep (get map key))) [
      | inl skipped ↦ rw skipped (collect-IsHit map keep limit taken order)
      | inr (m, hit) ↦ rw hit (
        listed-eq-some keep (get map key) m hit,
        All-cut (IsHit map keep) (taken + 1 == limit) (collect map keep limit (taken + 1) order)
            (collect-IsHit map keep limit (taken + 1) order),
      )
    ]

length-collect_le :
    (map : HashMap Bytes FileMetadata) (keep : FileMetadata → Bool) (limit taken : ℕ)
    (order : List Stamp)
    → taken < limit
    → length (collect map keep limit taken order) + taken ≤ limit
unfolding collect
length-collect_le map keep limit taken [] h = omega arith
length-collect_le map keep limit taken ((c, key) ∷ order) h =
    elim (Option-cases (listed keep (get map key))) [
      | inl skipped ↦ rw skipped (length-collect_le map keep limit taken order h)
      | inr (m, hit) ↦ rw hit (ground (arith, length-collect_le map keep limit (taken + 1) order))
    ]

-- With a positive limit, a page has at most that many entries, and each of them stands in the
-- catalogue under its hash and passes the time and author filter of the request.
pub page_sound :
    (e : Entries) (since until : ℕ) (author : Option ℕ) (cursor : Option Bytes) (limit : ℕ)
    → 0 < limit
    → (length (page e since until author cursor limit) ≤ limit)
      × All (IsHit e.map (is_listed since until author)) (page e since until author cursor limit)
unfolding page
page_sound e since until author cursor limit h =
    let keep = is_listed since until author in
    let order =
      if cursor_is_in_result keep e cursor then after_cursor cursor e.order else e.order in
    (
      ground (arith, length-collect_le e.map keep limit 0 order h),
      collect-IsHit e.map keep limit 0 order,
    )
