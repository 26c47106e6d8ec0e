-- ===== src/Storage/Remove.antt =====
-- `remove_indexed_blob` of src/services/file_storage.rs: how a blob leaves the index.
pub mod Listed
pub mod Unindexed
use almond.Prelude.{
  Bool, true, false, not, ◌&&◌, ◌||◌, Option, none, some, List, [], ◌∷◌, ◌++◌, ◌==◌, text_eq,
  if◌then◌else◌, Bytes, HashMap, get, contains_key, remove, text_eq_instance,
}
use almond.Text.{starts_with}
use almond.Error.{AppResult, ok, err, io_error, service_unavailable}
use almond.BlobName.{name, hash_prefix, parse_object_key, ParsedName}
use almond.Retention.{FileMetadata, FileLocation, local, s3, BlobOrigin, upload, upstream_cache}
use almond.BlobIndex.{remove_if_location_matches, same_location}
use almond.Storage.{Faults, Outcome, Storage, and_do, mark_changes_pending, remove_physical_file}

pub data Removal : Type 0 where
  requested reported quarantined evicted : Removal

pub sweeps_backend : Removal → Bool
sweeps_backend requested = true
sweeps_backend reported = true
sweeps_backend quarantined = false
sweeps_backend evicted = false

-- Whether a key is an object of the hash.
abbrev is_object_of : Bytes → Option ParsedName → Bool
is_object_of sha256 none = false
is_object_of sha256 (some p) = text_eq p.hash sha256

abbrev kept {ℓ} : {A : Type ℓ} → A → List A × AppResult (Unit {0}) → List A × AppResult (Unit {0})
kept a (rest, r) = (a ∷ rest, r)

-- The objects that are left, in the order of the listing; the first failure ends the sweep.
pub delete_matching :
    Faults → Bytes → Bytes → HashMap Bytes Bytes → HashMap Bytes Bytes × AppResult (Unit {0})
delete_matching io prefix sha256 [] = ([], ok tt)
delete_matching io prefix sha256 ((key, bytes) ∷ objects) =
    let rest = delete_matching io prefix sha256 objects in
    if starts_with prefix key && is_object_of sha256 (parse_object_key key)
    then (if io.s3_delete key then ((key, bytes) ∷ objects, err service_unavailable) else rest)
    else kept (key, bytes) rest

pub sweep_objects : Storage → Faults → Bytes → AppResult Bytes → Outcome (Unit {0})
unfolding delete_matching
sweep_objects s io sha256 (err e) = (s, err e)
sweep_objects s io sha256 (ok prefix) =
    if io.s3_list
    then (s, err service_unavailable)
    else let (objects, r) = delete_matching io prefix sha256 s.objects in
      (record s { objects = objects }, r)

pub sweep_backend_copies : Storage → Faults → Bytes → Outcome (Unit {0})
unfolding sweep_objects
sweep_backend_copies s io sha256 =
    if s.has_s3 then sweep_objects s io sha256 (hash_prefix sha256) else (s, ok tt)

-- `Path::file_name`: what stands behind the last `/`.
unfoldable pub file_name_from : Bytes → Bytes → Bytes
file_name_from current [] = current
file_name_from current (c ∷ path) =
    file_name_from (if c == b'/' then [] else current ++ c ∷ []) path

abbrev pub or_hash : Bytes → Bytes → Bytes
or_hash sha256 [] = sha256
or_hash sha256 (c ∷ name) = c ∷ name

abbrev pub or_no_names : Option (List Bytes) → List Bytes
or_no_names none = []
or_no_names (some names) = names

unfoldable pub quarantine_current : Storage → Faults → Bytes → FileLocation → Outcome (Unit {0})
unfolding sweep_backend_copies file_name_from
quarantine_current s io sha256 (s3 key) = sweep_backend_copies s io sha256
quarantine_current s io sha256 (local path) =
    if io.mkdir
    then (s, err io_error)
    else if io.rename || not (contains_key s.disk path)
    then (record s { quarantine = some (or_no_names s.quarantine) }, err io_error)
    else (
      record s {
        disk = remove s.disk path;
        quarantine = some (or_hash sha256 (file_name_from [] path) ∷ or_no_names s.quarantine);
      },
      ok tt,
    )

abbrev is_quarantined : Removal → Bool
is_quarantined quarantined = true
is_quarantined requested = false
is_quarantined reported = false
is_quarantined evicted = false

abbrev same_origin : BlobOrigin → BlobOrigin → Bool
same_origin upload upload = true
same_origin upstream_cache upstream_cache = true
same_origin upload upstream_cache = false
same_origin upstream_cache upload = false

-- The entry is the one that the caller selected, or the caller selected none.
abbrev pub is_expected : FileMetadata → Option FileMetadata → Bool
is_expected current none = true
is_expected current (some expected) =
    same_location current.location expected.location
    && current.created_at == expected.created_at
    && same_origin current.origin expected.origin

dispose : Storage → Faults → Bytes → Removal → FileLocation → Outcome (Unit {0})
unfolding quarantine_current
dispose s io sha256 removal location =
    if is_quarantined removal
    then quarantine_current s io sha256 location
    else remove_physical_file s io location

sweep_if : Bool → Storage → Faults → Bytes → Outcome (Unit {0})
unfolding sweep_backend_copies
sweep_if false s io sha256 = (s, ok tt)
sweep_if true s io sha256 = sweep_backend_copies s io sha256

-- The entry goes last.
unfoldable pub unindex : Storage → Bytes → FileLocation → Outcome Bool
unfolding mark_changes_pending
unindex s sha256 location =
    let (index, removed) = remove_if_location_matches s.file_index sha256 location in
    let s' = record s { file_index = index } in
    (if removed then mark_changes_pending s' else s', ok removed)

remove_current :
    Storage → Faults → Bytes → Removal → Option FileMetadata → Option FileMetadata → Outcome Bool
unfolding dispose sweep_if sweeps_backend unindex
remove_current s io sha256 removal expected none =
    and_do (sweep_if (sweeps_backend removal) s io sha256) (λ s' swept. (s', ok false))
remove_current s io sha256 removal expected (some current) =
    if is_expected current expected
    then and_do (dispose s io sha256 removal current.location) (λ s1 gone.
      and_do (sweep_if (sweeps_backend removal) s1 io sha256)
        (λ s2 swept. unindex s2 sha256 current.location))
    else (s, ok false)

unfoldable pub remove_indexed_blob :
    Storage → Faults → Bytes → Removal → Option FileMetadata → Outcome Bool
unfolding remove_current
remove_indexed_blob s io sha256 removal expected =
    remove_current s io sha256 removal expected (get s.file_index.map sha256)

abbrev pub kept_on_failure :
    Bytes × FileMetadata
    → AppResult (Unit {0})
    → List (Bytes × FileMetadata)
    → List (Bytes × FileMetadata)
kept_on_failure p (ok done) retry = retry
kept_on_failure p (err e) retry = p ∷ retry

-- The loop of the reconciliation, with the list `retry` that it leaves.
pub retry_removals :
    Storage → Faults → List (Bytes × FileMetadata) → Storage × List (Bytes × FileMetadata)
retry_removals s io [] = (s, [])
retry_removals s io ((sha256, m) ∷ pending) =
    let (s1, r) = remove_physical_file s io m.location in
    let (s2, retry) = retry_removals s1 io pending in (s2, kept_on_failure (sha256, m) r retry)

unfoldable pub reconcile_superseded_blobs : Storage → Faults → Storage
unfolding retry_removals
reconcile_superseded_blobs s io =
    let (s', retry) =
      retry_removals (record s { superseded_blob_deletions = [] }) io s.superseded_blob_deletions in
    record s' { superseded_blob_deletions = s'.superseded_blob_deletions ++ retry }
