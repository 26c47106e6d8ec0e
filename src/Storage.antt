-- ===== src/Storage.antt =====
-- src/services/file_storage.rs: how a blob enters and leaves storage, with the objects of
-- src/services/native_storage.rs. Files and objects are maps from their path or key to their bytes;
-- every operation on them may fail as `Faults` says. The lock on the hash is held for a whole
-- operation, so an operation is one function on the state; operations on other hashes touch other
-- files and entries.
pub mod Publish
pub mod Remove
pub mod Listed
pub mod Operations
pub mod Quarantine
pub mod Republished
pub mod Temporary
pub mod Stored
pub mod Steps
pub mod Roots
pub mod Kept
pub mod Tests
use almond.Prelude.{
  ℕ, ◌+◌, Bool, true, false, not, ◌&&◌, ◌||◌, Option, none, some, List, [], ◌∷◌, ◌++◌, codes, leb,
  ltb, ◌==◌, text_eq, if◌then◌else◌, Bytes, HashMap, get, contains_key, insert, remove,
  text_eq_instance, any, length,
}
use almond.Text.{strip_prefix, starts_with}
use almond.Error.{
  AppError, AppResult, ok, err, bad_request, io_error, forbidden, service_unavailable,
  payload_too_large, insufficient_storage, ◌>>=◌, ◌>>◌, ensure,
}
use almond.BlobName.{
  fan_out, name, object_key, hash_prefix, parse_object_key, require_hash, ParsedName,
}
use almond.Retention.{
  FileMetadata, FileLocation, local, s3, BlobOrigin, upload, upstream_cache, saturating_add,
}
use almond.BlobIndex.{
  Entries, PublishResult, published, retained, publish, remove_if_location_matches, same_location,
}

-- What may go wrong in one operation.
pub record Faults : Type 0 where
  pub read_dir : Bool
  pub mkdir : Bool
  pub exists : Bool
  pub rename : Bool
  pub remove_file : Bytes → Bool
  pub s3_put : Bool
  pub s3_list : Bool
  pub s3_delete : Bytes → Bool

pub record Storage : Type 0 where
  pub disk : HashMap Bytes Bytes
  pub root : Bytes
  pub quarantine : Option (List Bytes)
  pub has_s3 : Bool
  pub s3_available : Bool
  pub objects : HashMap Bytes Bytes
  pub file_index : Entries
  pub superseded_blob_deletions : List (Bytes × FileMetadata)
  pub changes_pending : Bool

pub record BlobPublication : Type 0 where
  pub sha256 : Bytes
  pub origin : BlobOrigin
  pub extension : Option Bytes
  pub mime_type : Option Bytes
  pub size : ℕ
  pub expiration : Option ℕ

pub record StoredBlob : Type 0 where
  pub metadata : FileMetadata
  pub created : Bool

-- The outcome of an operation, with the state that it leaves on either path.
abbrev pub Outcome : Type 0 → Type 0
Outcome A = Storage × AppResult A

-- The `?` operator.
abbrev pub and_do : {A B : Type 0} → Outcome A → (Storage → A → Outcome B) → Outcome B
and_do (s, err e) next = (s, err e)
and_do (s, ok a) next = next s a

unfoldable pub metadata : BlobPublication → FileLocation → ℕ → FileMetadata
metadata p location now = record {
  location = location;
  extension = p.extension;
  mime_type = p.mime_type;
  size = p.size;
  created_at = now;
  pubkey = none;
  expiration = p.expiration;
  origin = p.origin;
}

-- The names of the two roots below the storage root.
abbrev pub root_of : Bytes → BlobOrigin → Bytes
root_of root upload = root ++ codes "/uploads"
root_of root upstream_cache = root ++ codes "/upstream-cache"

-- `root.join(h0).join(h1).join(filename)`, where the hash is valid; the source expects that it is.
unfoldable pub completed_path :
    Bytes → BlobOrigin → Bytes → Option Bytes → Option ℕ → AppResult Bytes
completed_path root origin hash extension expiration = do
  key ← object_key hash extension expiration
  ok (root_of root origin ++ b'/' ∷ key)

-- A file that is not there counts as removed.
pub remove_local_file : Storage → Faults → Bytes → Outcome (Unit {0})
remove_local_file s io path =
    if contains_key s.disk path && io.remove_file path
    then (s, err io_error)
    else (record s { disk = remove s.disk path }, ok tt)

-- The rest behind the hash is empty or starts with `_` or `.`.
abbrev pub is_separated : Option Bytes → Bool
is_separated none = false
is_separated (some []) = true
is_separated (some (c ∷ rest)) = c == b'_' || c == b'.'

pub quarantine_name_matches : Bytes → Bytes → Bool
quarantine_name_matches sha256 name = is_separated (strip_prefix sha256 name)

abbrev pub refuse_listed : Bytes → Option (List Bytes) → AppResult (Unit {0})
refuse_listed sha256 none = ok tt
refuse_listed sha256 (some names) =
    ensure (not (any (quarantine_name_matches sha256) names)) forbidden

unfoldable pub ensure_not_quarantined : Storage → Faults → Bytes → AppResult (Unit {0})
ensure_not_quarantined s io sha256 = do
  require_hash sha256
  ensure (not io.read_dir) io_error
  refuse_listed sha256 s.quarantine

-- `NativeStorage::delete`
pub delete_object : Storage → Faults → Bytes → Outcome (Unit {0})
delete_object s io key =
    if io.s3_delete key
    then (s, err service_unavailable)
    else (record s { objects = remove s.objects key }, ok tt)

unfoldable pub remove_physical_file : Storage → Faults → FileLocation → Outcome (Unit {0})
unfolding remove_local_file delete_object
remove_physical_file s io (local path) = remove_local_file s io path
remove_physical_file s io (s3 key) =
    if s.has_s3 then delete_object s io key else (s, err service_unavailable)

pub queue_superseded_deletion : Storage → Bytes → FileMetadata → Storage
queue_superseded_deletion s sha256 m =
    if any (λ p. text_eq p.0 sha256 && same_location p.1.location m.location)
      s.superseded_blob_deletions
    then s
    else record s { superseded_blob_deletions = s.superseded_blob_deletions ++ (sha256, m) ∷ [] }

pub mark_changes_pending : Storage → Storage
mark_changes_pending s = record s { changes_pending = true }

-- The limits of the configuration, where 0 is no limit on the totals.
pub record Quota : Type 0 where
  pub max_blob_size_bytes : ℕ
  pub max_total_size : ℕ
  pub max_total_files : ℕ
  pub min_free_disk_bytes : ℕ

-- `available` is the free space of the disk, `none` where it cannot be read.
abbrev reserve_kept : Quota → ℕ → Option ℕ → AppResult (Unit {0})
reserve_kept q bytes none = err io_error
reserve_kept q bytes (some available) =
    ensure (not (ltb available (saturating_add q.min_free_disk_bytes bytes))) insufficient_storage

unfoldable pub ensure_storage_capacity : Quota → Entries → Option ℕ → ℕ → AppResult (Unit {0})
ensure_storage_capacity q index available bytes = do
  ensure (not (ltb q.max_blob_size_bytes bytes)) payload_too_large
  ensure
      (not (
        (not (q.max_total_size == 0)
          && ltb q.max_total_size (saturating_add index.total_bytes bytes))
        || (not (q.max_total_files == 0) && leb q.max_total_files (length index.map))))
      insufficient_storage
  reserve_kept q bytes available
