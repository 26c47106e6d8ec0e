-- ===== src/Retention.antt =====
-- Retention in src/utils.rs: the deadline at which cleanup deletes a blob, the announced `Sunset`, and
-- the order and the loop of capacity eviction; and the size limits of src/services/intake.rs.
-- Deletion itself goes through storage, so the loop takes whether each candidate was deleted.
pub mod Deadlines
pub mod Eviction
pub mod Tests
use almond.Prelude.{
  ℕ, suc, ◌+◌, ◌-◌, ◌≡◌, min, Bool, true, false, ◌&&◌, ◌||◌, Option, none, some, List, [], ◌∷◌,
  ◌++◌, ltb, leb, ◌==◌, if◌then◌else◌, Bytes, length,
}
use almond.Text.{u64_mod}

pub data BlobOrigin : Type 0 where
  upload upstream_cache : BlobOrigin

pub data FileLocation : Type 0 where
  local : Bytes → FileLocation
  s3 : Bytes → FileLocation

pub record FileMetadata : Type 0 where
  pub location : FileLocation
  pub extension : Option Bytes
  pub mime_type : Option Bytes
  pub size : ℕ
  pub created_at : ℕ
  pub pubkey : Option ℕ
  pub expiration : Option ℕ
  pub origin : BlobOrigin

pub data Reason : Type 0 where
  expiration upload_age upstream_cache_ttl : Reason

abbrev pub saturating_add : ℕ → ℕ → ℕ
saturating_add a b = min (a + b) (u64_mod - 1)

-- A limit of 0 seconds is no limit.
pub age_deadline : ℕ → ℕ → Option ℕ
age_deadline created_at secs = if ltb 0 secs then some (saturating_add created_at secs) else none

abbrev pub labelled : Reason → Option ℕ → Option (ℕ × Reason)
labelled r none = none
labelled r (some t) = some (t, r)

-- `min_by_key` keeps the first of equal deadlines.
pub earliest : Option (ℕ × Reason) → Option (ℕ × Reason) → Option (ℕ × Reason)
earliest none d = d
earliest (some c) none = some c
earliest (some c) (some d) = if leb c.0 d.0 then some c else some d

deadline_of : BlobOrigin → FileMetadata → ℕ → ℕ → Option (ℕ × Reason)
deadline_of upload m max_file_age_secs ttl_secs =
    earliest (labelled expiration m.expiration)
      (labelled upload_age (age_deadline m.created_at max_file_age_secs))
deadline_of upstream_cache m max_file_age_secs ttl_secs =
    labelled upstream_cache_ttl (age_deadline m.created_at ttl_secs)

pub cleanup_deadline : FileMetadata → ℕ → ℕ → Option (ℕ × Reason)
unfolding deadline_of age_deadline earliest
cleanup_deadline m max_file_age_secs max_upstream_cache_ttl_secs =
    deadline_of m.origin m max_file_age_secs max_upstream_cache_ttl_secs

-- `filter(now >= deadline)`
abbrev pub due : ℕ → Option (ℕ × Reason) → Option Reason
due now none = none
due now (some (deadline, reason)) = if leb deadline now then some reason else none

pub expiration_reason_for : FileMetadata → ℕ → ℕ → ℕ → Option Reason
unfolding cleanup_deadline
expiration_reason_for m max_file_age_secs max_upstream_cache_ttl_secs now =
    due now (cleanup_deadline m max_file_age_secs max_upstream_cache_ttl_secs)

abbrev pub deadline : Option (ℕ × Reason) → Option ℕ
deadline none = none
deadline (some (at, _)) = some at

sunset_of : BlobOrigin → FileMetadata → ℕ → Option ℕ
sunset_of upload m max_file_age_secs = deadline (cleanup_deadline m max_file_age_secs 0)
sunset_of upstream_cache m max_file_age_secs = none

pub sunset_expiration : FileMetadata → ℕ → Option ℕ
unfolding sunset_of cleanup_deadline
sunset_expiration m max_file_age_secs = sunset_of m.origin m max_file_age_secs

pub is_origin : BlobOrigin → BlobOrigin → Bool
is_origin upload upload = true
is_origin upstream_cache upstream_cache = true
is_origin upload upstream_cache = false
is_origin upstream_cache upload = false

abbrev pub Entry : Type 0
Entry = Bytes × FileMetadata

pub by_origin : BlobOrigin → List Entry → List Entry
unfolding is_origin
by_origin origin [] = []
by_origin origin (e ∷ es) =
    if is_origin e.1.origin origin then e ∷ by_origin origin es else by_origin origin es

-- `sort_by_key(created_at)`, a stable sort, as insertion in front of later entries.
pub insert_by_age : Entry → List Entry → List Entry
insert_by_age e [] = e ∷ []
insert_by_age e (d ∷ ds) =
    if leb e.1.created_at d.1.created_at then e ∷ d ∷ ds else d ∷ insert_by_age e ds

pub sort_by_age : List Entry → List Entry
unfolding insert_by_age
sort_by_age [] = []
sort_by_age (e ∷ es) = insert_by_age e (sort_by_age es)

pub capacity_eviction_order : List Entry → List Entry
unfolding by_origin sort_by_age
capacity_eviction_order entries =
    sort_by_age (by_origin upstream_cache entries) ++ sort_by_age (by_origin upload entries)

-- `fold(0, saturating_add)`
pub total_from : ℕ → List Entry → ℕ
total_from sum [] = sum
total_from sum (e ∷ es) = total_from (saturating_add sum e.1.size) es

pub record Totals : Type 0 where
  pub size : ℕ
  pub files : ℕ

pub is_within : (max_total_size max_total_files : ℕ) → Totals → Bool
is_within max_total_size max_total_files t =
    (max_total_size == 0 || leb t.size max_total_size)
    && (max_total_files == 0 || leb t.files max_total_files)

abbrev pub without : Entry → Totals → Totals
without e t = record { size = t.size - e.1.size; files = t.files - 1 }

-- The loop over the candidates: what was deleted, in order, and the totals that are left.
pub evict :
    (Entry → Bool)
    → (max_total_size max_total_files : ℕ) → List Entry
    → Totals
    → List Entry × Totals
evict deleted max_size max_files [] t = ([], t)
evict deleted max_size max_files (e ∷ es) t =
    let rest = evict deleted max_size max_files es (without e t) in
    let skipped = evict deleted max_size max_files es t in
    if is_within max_size max_files t
    then ([], t)
    else if deleted e
    then (e ∷ rest.0, rest.1)
    else skipped

-- The capacity phase of `enforce_storage_limits_at`, on the entries that expiry left.
pub enforce_capacity :
    (Entry → Bool) → (max_total_size max_total_files : ℕ) → List Entry → List Entry × Totals
unfolding capacity_eviction_order total_from evict is_within
enforce_capacity deleted max_size max_files remaining =
    evict deleted max_size max_files (capacity_eviction_order remaining)
      (record { size = total_from 0 remaining; files = length remaining })

pub data Intake : Type 0 where
  client_upload upstream_fetch : Intake

unfoldable pub resolve_limit : (max_blob_bytes max_upstream_bytes : ℕ) → Intake → ℕ
resolve_limit max_blob_bytes max_upstream_bytes client_upload = max_blob_bytes
resolve_limit max_blob_bytes max_upstream_bytes upstream_fetch =
    if ltb max_upstream_bytes max_blob_bytes then max_upstream_bytes else max_blob_bytes
