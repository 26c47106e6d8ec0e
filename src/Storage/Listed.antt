-- ===== src/Storage/Listed.antt =====
-- src/services/file_storage.rs: a name in quarantine stays there through every publication.
use almond.Prelude.{
  ℕ, ◌≡◌, true, ◌&&◌, Bool-cases, inl, inr, Option, none, some, Bytes, any, get, text_eq_instance,
  arith, contains_key,
}
use almond.Error.{AppResult, ok, err, service_unavailable, ensure}
use almond.BlobName.{object_key}
use almond.BlobIndex.{Entries, PublishResult, published, retained, publish}
use almond.Retention.{FileMetadata, FileLocation, local, s3}
use almond.Storage.{
  Storage, Faults, Outcome, and_do, BlobPublication, StoredBlob, completed_path,
  ensure_not_quarantined, mark_changes_pending, remove_local_file, remove_physical_file,
  delete_object, queue_superseded_deletion, metadata, quarantine_name_matches,
}
use almond.Storage.Publish.{
  publish_blob, drop_temp, or_give_up, publish_metadata, after_publish, clean_displaced,
  removed_or_queued, stored, put, put_key, publish_object, rename, clear_target, publish_file,
  is_upload, retained_entry, publish_new, publish_existing_metadata,
}
use almond.Storage.Remove.{or_no_names}

module _ (hash : Bytes) where
  -- A name of the hash is in quarantine.
  abbrev pub IsListed : Storage → Type 0
  IsListed s = any (quarantine_name_matches hash) (or_no_names s.quarantine) ≡ true

  pub IsListed-and_do :
      {A B : Type 0} (r : Outcome A) (next : Storage → A → Outcome B)
      → IsListed r.0
      → ((s : Storage) (a : A) → IsListed s → IsListed (next s a).0)
      → IsListed (and_do r next).0
  IsListed-and_do (s, ok a) next h k = k s a h
  IsListed-and_do (s, err e) next h k = h

  pub IsListed-mark : (s : Storage) → IsListed s → IsListed (mark_changes_pending s)
  unfolding mark_changes_pending
  IsListed-mark s h = h

  module _ (io : Faults) where
    IsListed-remove_local_file :
        (s : Storage) (path : Bytes) → IsListed s → IsListed (remove_local_file s io path).0
    unfolding remove_local_file
    IsListed-remove_local_file s path h =
        elim (Bool-cases (contains_key s.disk path && io.remove_file path)) [
          | inl fails ↦ rw fails h
          | inr goes ↦ rw goes h
        ]

    pub IsListed-remove_physical_file :
        (s : Storage) (l : FileLocation) → IsListed s → IsListed (remove_physical_file s io l).0
    unfolding remove_physical_file delete_object
    IsListed-remove_physical_file s (local path) h = IsListed-remove_local_file s path h
    IsListed-remove_physical_file s (s3 key) h = elim (Bool-cases s.has_s3) [
      | inl bucket ↦ elim (Bool-cases (io.s3_delete key)) [
        | inl fails ↦ rw (bucket, fails) h
        | inr goes ↦ rw (bucket, goes) h
      ]
      | inr none_set ↦ rw none_set h
    ]

    IsListed-removed_or_queued :
        (sha256 : Bytes) (m : FileMetadata) (r : Outcome (Unit {0}))
        → IsListed r.0
        → IsListed (removed_or_queued sha256 m r)
    unfolding queue_superseded_deletion
    IsListed-removed_or_queued sha256 m (s, ok done) h = h
    IsListed-removed_or_queued sha256 m (s, err e) h = ground arith

    IsListed-clean_displaced :
        (s : Storage) (sha256 : Bytes) (o : Option FileMetadata)
        → IsListed s
        → IsListed (clean_displaced s io sha256 o)
    unfolding clean_displaced
    IsListed-clean_displaced s sha256 none h = h
    IsListed-clean_displaced s sha256 (some m) h =
        IsListed-removed_or_queued sha256 m (remove_physical_file s io m.location)
          (IsListed-remove_physical_file s m.location h)

    IsListed-stored :
        (s : Storage) (m : FileMetadata) (o : Option FileMetadata)
        → IsListed s
        → IsListed (stored s m o).0
    IsListed-stored s m none h = h
    IsListed-stored s m (some now_indexed) h = h

    IsListed-after_publish :
        (s : Storage) (sha256 : Bytes) (m : FileMetadata) (r : Entries × PublishResult)
        → IsListed s
        → IsListed (after_publish s io sha256 m r).0
    unfolding after_publish
    IsListed-after_publish s sha256 m (index, published displaced) h =
        IsListed-stored _ m (get index.map sha256) (
          IsListed-mark (clean_displaced (record s { file_index = index }) io sha256 displaced)
            (IsListed-clean_displaced (record s { file_index = index }) sha256 displaced h))
    IsListed-after_publish s sha256 m (index, retained existing) h = h

    IsListed-publish_metadata :
        (s : Storage) (sha256 : Bytes) (m : FileMetadata)
        → IsListed s
        → IsListed (publish_metadata s io sha256 m).0
    unfolding publish_metadata
    IsListed-publish_metadata s sha256 m h =
        IsListed-after_publish s sha256 m (publish s.file_index sha256 m) h

    pub publish_existing_metadata-IsListed :
        (s : Storage) (sha256 : Bytes) (m : FileMetadata)
        → IsListed s
        → IsListed (publish_existing_metadata s io sha256 m).0
    unfolding publish_existing_metadata
    publish_existing_metadata-IsListed s sha256 m h =
        IsListed-and_do (publish_metadata s io sha256 m) _ (IsListed-publish_metadata s sha256 m h)
          (λ t blob k. k)

    module _ (temp : Bytes) where
      IsListed-drop_temp : (s : Storage) → IsListed s → IsListed (drop_temp s io temp)
      unfolding drop_temp
      IsListed-drop_temp s h = IsListed-remove_local_file s temp h

      IsListed-or_give_up :
          {A : Type 0} (r : Outcome A) (next : Storage → A → Outcome StoredBlob)
          → IsListed r.0
          → ((s : Storage) (a : A) → IsListed s → IsListed (next s a).0)
          → IsListed (or_give_up io temp r next).0
      unfolding drop_temp
      IsListed-or_give_up (s, err e) next h k = IsListed-drop_temp s h
      IsListed-or_give_up (s, ok a) next h k = k s a h

      put_key-IsListed :
          (s : Storage) (r : AppResult Bytes) → IsListed s → IsListed (put_key s io temp r).0
      unfolding put_key remove_local_file
      put_key-IsListed s (err e) h = h
      put_key-IsListed s (ok k) h = ground arith

      rename-IsListed : (s : Storage) (to : Bytes) → IsListed s → IsListed (rename s io temp to).0
      unfolding rename
      rename-IsListed s to h = ground arith

      clear_target-IsListed :
          (s : Storage) (path : Bytes) → IsListed s → IsListed (clear_target s io path).0
      unfolding clear_target remove_local_file
      clear_target-IsListed s path h = ground arith

      publish_object-IsListed :
          (s : Storage) (p : BlobPublication) (now : ℕ)
          → IsListed s
          → IsListed (publish_object s io temp p now).0
      unfolding publish_object put
      publish_object-IsListed s p now h =
          IsListed-or_give_up (s, ensure s.s3_available service_unavailable) _ h
            (λ s1 a h1.
              IsListed-or_give_up (put s1 io temp p.sha256 p.extension p.expiration) _
                (put_key-IsListed s1 (object_key p.sha256 p.extension p.expiration) h1)
                (λ s2 key h2. IsListed-publish_metadata s2 p.sha256 (metadata p (s3 key) now) h2))

      publish_file-IsListed :
          (s : Storage) (p : BlobPublication) (now : ℕ)
          → IsListed s
          → IsListed (publish_file s io temp p now).0
      unfolding publish_file
      publish_file-IsListed s p now h =
          IsListed-or_give_up (s, completed_path s.root p.origin p.sha256 p.extension p.expiration)
            _ h
            (λ s1 path h1.
              IsListed-or_give_up
                (and_do (clear_target s1 io path) (λ s2 clear. rename s2 io temp path)) _
                (IsListed-and_do (clear_target s1 io path) _ (clear_target-IsListed s1 path h1)
                  (λ s2 clear h2. rename-IsListed s2 path h2))
                (λ s3 moved h3.
                  IsListed-publish_metadata s3 p.sha256 (metadata p (local path) now) h3))

      publish_new-IsListed :
          (s : Storage) (p : BlobPublication) (now : ℕ) (o : Option FileMetadata)
          → IsListed s
          → IsListed (publish_new s io temp p now o).0
      unfolding publish_new
      publish_new-IsListed s p now (some existing) h = IsListed-drop_temp s h
      publish_new-IsListed s p now none h = elim (Bool-cases (is_upload p.origin && s.has_s3)) [
        | inl bucket ↦ rw bucket (publish_object-IsListed s p now h)
        | inr disk ↦ rw disk (publish_file-IsListed s p now h)
      ]

      pub publish_blob-IsListed :
          (s : Storage) (p : BlobPublication) (now : ℕ)
          → IsListed s
          → IsListed (publish_blob s io temp p now).0
      unfolding publish_blob
      publish_blob-IsListed s p now h =
          IsListed-or_give_up (s, ensure_not_quarantined s io p.sha256) _ h
            (λ s1 clear h1.
              publish_new-IsListed s1 p now (retained_entry p (get s1.file_index.map p.sha256)) h1)
