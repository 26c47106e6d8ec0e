-- ===== src/Storage/Publish.antt =====
-- `publish_blob` and `publish_metadata` of src/services/file_storage.rs: how a blob enters storage.
use almond.Prelude.{
  ℕ, Bool, true, false, not, ◌&&◌, ◌||◌, Option, none, some, [], if◌then◌else◌, Bytes, get,
  contains_key, insert, remove, text_eq_instance,
}
use almond.Error.{AppResult, ok, err, io_error, service_unavailable, ensure}
use almond.BlobName.{object_key}
use almond.Retention.{FileMetadata, local, s3, BlobOrigin, upload, upstream_cache}
use almond.BlobIndex.{Entries, PublishResult, published, retained, publish}
use almond.Storage.{
  BlobPublication, Faults, Outcome, Storage, StoredBlob, and_do, completed_path,
  ensure_not_quarantined, mark_changes_pending, metadata, queue_superseded_deletion,
  remove_local_file, remove_physical_file,
}

-- A superseded copy that cannot be removed is queued.
abbrev pub removed_or_queued : Bytes → FileMetadata → Outcome (Unit {0}) → Storage
removed_or_queued sha256 m (s, ok done) = s
removed_or_queued sha256 m (s, err e) = queue_superseded_deletion s sha256 m

unfoldable pub clean_displaced : Storage → Faults → Bytes → Option FileMetadata → Storage
unfolding remove_physical_file queue_superseded_deletion
clean_displaced s io sha256 none = s
clean_displaced s io sha256 (some m) =
    removed_or_queued sha256 m (remove_physical_file s io m.location)

-- The entry that was published; the source expects it in the index.
abbrev pub stored : Storage → FileMetadata → Option FileMetadata → Outcome StoredBlob
stored s m none = (s, ok (record { metadata = m; created = true }))
stored s m (some now_indexed) = (s, ok (record { metadata = now_indexed; created = true }))

unfoldable pub after_publish :
    Storage → Faults → Bytes → FileMetadata → Entries × PublishResult → Outcome StoredBlob
unfolding clean_displaced mark_changes_pending
after_publish s io sha256 m (index, published displaced) =
    stored
      (mark_changes_pending (clean_displaced (record s { file_index = index }) io sha256 displaced))
      m (get index.map sha256)
after_publish s io sha256 m (index, retained existing) =
    (record s { file_index = index }, ok (record { metadata = existing; created = false }))

unfoldable pub publish_metadata : Storage → Faults → Bytes → FileMetadata → Outcome StoredBlob
unfolding after_publish
publish_metadata s io sha256 m = after_publish s io sha256 m (publish s.file_index sha256 m)

unfoldable pub publish_existing_metadata :
    Storage → Faults → Bytes → FileMetadata → Outcome FileMetadata
publish_existing_metadata s io sha256 m =
    and_do (publish_metadata s io sha256 m) (λ s' blob. (s', ok blob.metadata))

-- `TempBlob::drop`: an unlink that fails is only logged.
abbrev pub state_of {ℓ} : {A : Type ℓ} → Storage × A → Storage
state_of r = r.0

unfoldable pub drop_temp : Storage → Faults → Bytes → Storage
unfolding remove_local_file
drop_temp s io temp_path = state_of (remove_local_file s io temp_path)

-- An early return, on which the temporary file is dropped.
abbrev pub give_up : Faults → Bytes → Storage → AppResult StoredBlob → Outcome StoredBlob
unfolding drop_temp
give_up io temp_path s r = (drop_temp s io temp_path, r)

abbrev pub or_give_up :
    {A : Type 0}
    → Faults
    → Bytes
    → Outcome A
    → (Storage → A → Outcome StoredBlob)
    → Outcome StoredBlob
unfolding drop_temp
or_give_up io temp_path (s, err e) next = (drop_temp s io temp_path, err e)
or_give_up io temp_path (s, ok a) next = next s a

abbrev pub or_nothing : Option Bytes → Bytes
or_nothing none = []
or_nothing (some bytes) = bytes

-- `NativeStorage::put`: the temporary file is removed once its object is there.
unfoldable pub put_key : Storage → Faults → Bytes → AppResult Bytes → Outcome Bytes
unfolding remove_local_file
put_key s io temp_path (err e) = (s, err e)
put_key s io temp_path (ok key) =
    if not (contains_key s.disk temp_path)
    then (s, err io_error)
    else if io.s3_put
    then (s, err service_unavailable)
    else and_do
        (remove_local_file
          (record s { objects = insert s.objects key (or_nothing (get s.disk temp_path)) }) io
          temp_path)
        (λ s' done. (s', ok key))

unfoldable pub put : Storage → Faults → Bytes → Bytes → Option Bytes → Option ℕ → Outcome Bytes
unfolding put_key
put s io temp_path sha256 extension expiration =
    put_key s io temp_path (object_key sha256 extension expiration)

-- Into the bucket.
unfoldable pub publish_object : Storage → Faults → Bytes → BlobPublication → ℕ → Outcome StoredBlob
unfolding drop_temp
publish_object s io temp_path p now =
    or_give_up io temp_path (s, ensure s.s3_available service_unavailable)
      (λ s1 available.
        or_give_up io temp_path (put s1 io temp_path p.sha256 p.extension p.expiration)
          (λ s2 key. publish_metadata s2 io p.sha256 (metadata p (s3 key) now)))

-- `fs::rename`, which fails where there is no file to move.
unfoldable pub rename : Storage → Faults → Bytes → Bytes → Outcome (Unit {0})
rename s io from to =
    if io.rename || not (contains_key s.disk from)
    then (s, err io_error)
    else (record s { disk = insert (remove s.disk from) to (or_nothing (get s.disk from)) }, ok tt)

-- An unindexed file in the way is removed.
unfoldable pub clear_target : Storage → Faults → Bytes → Outcome (Unit {0})
clear_target s io final_path =
    if io.mkdir || io.exists
    then (s, err io_error)
    else if contains_key s.disk final_path
    then remove_local_file s io final_path
    else (s, ok tt)

unfoldable pub publish_file : Storage → Faults → Bytes → BlobPublication → ℕ → Outcome StoredBlob
unfolding drop_temp clear_target rename
publish_file s io temp_path p now =
    or_give_up io temp_path (s, completed_path s.root p.origin p.sha256 p.extension p.expiration)
      (λ s1 final_path.
        or_give_up io temp_path
          (and_do (clear_target s1 io final_path) (λ s2 clear. rename s2 io temp_path final_path))
          (λ s3 moved. publish_metadata s3 io p.sha256 (metadata p (local final_path) now)))

abbrev pub is_upload : BlobOrigin → Bool
is_upload upload = true
is_upload upstream_cache = false

-- The entry that stays: the existing one, for a cache fill or against an existing upload.
abbrev pub retained_entry : BlobPublication → Option FileMetadata → Option FileMetadata
retained_entry p none = none
retained_entry p (some existing) =
    if not (is_upload p.origin) || is_upload existing.origin then some existing else none

unfoldable pub publish_new :
    Storage → Faults → Bytes → BlobPublication → ℕ → Option FileMetadata → Outcome StoredBlob
unfolding drop_temp publish_object publish_file
publish_new s io temp_path p now (some existing) =
    give_up io temp_path s (ok (record { metadata = existing; created = false }))
publish_new s io temp_path p now none =
    if is_upload p.origin && s.has_s3
    then publish_object s io temp_path p now
    else publish_file s io temp_path p now

-- `ensure_not_quarantined` begins with the test of the hash that `publish_blob` makes too.
unfoldable pub publish_blob : Storage → Faults → Bytes → BlobPublication → ℕ → Outcome StoredBlob
unfolding drop_temp publish_new
publish_blob s io temp_path p now =
    or_give_up io temp_path (s, ensure_not_quarantined s io p.sha256)
      (λ s1 clear.
        publish_new s1 io temp_path p now (retained_entry p (get s1.file_index.map p.sha256)))
