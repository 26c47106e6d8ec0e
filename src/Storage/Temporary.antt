-- ===== src/Storage/Temporary.antt =====
-- A temporary file does not outlive the publication that it was handed to.
use almond.Prelude.{
  ℕ, ◌≡◌, inl, inr, refl, ap, ◌∙◌, false, ◌&&◌, Option, none, some, Bytes, get, remove,
  contains_key, contains_key-insert, contains_key-remove, text_eq, text_eq_refl, text_eq_instance,
  arith, Bool-cases,
}
use almond.Error.{AppResult, ok, err, service_unavailable, ensure}
use almond.BlobName.{object_key}
use almond.BlobIndex.{Entries, PublishResult, published, retained, publish}
use almond.Retention.{FileMetadata, FileLocation, local, s3}
use almond.Storage.{
  Storage, Faults, Outcome, and_do, BlobPublication, StoredBlob, completed_path,
  ensure_not_quarantined, mark_changes_pending, remove_local_file, remove_physical_file,
  delete_object, queue_superseded_deletion, metadata,
}
use almond.Storage.Publish.{
  publish_blob, drop_temp, or_give_up, publish_metadata, after_publish, clean_displaced,
  removed_or_queued, stored, put, put_key, publish_object, rename, clear_target, publish_file,
  is_upload, retained_entry, publish_new, or_nothing,
}

-- The inversion of a `?` that goes on.
pub and_do-eq-ok :
    {A B : Type 0} (r : Outcome A) (next : Storage → A → Outcome B) {t : Storage} {b : B}
    → and_do r next ≡ (t, ok b)
    → (s : Storage) × ((a : A) × ((r ≡ (s, ok a)) × (next s a ≡ (t, ok b))))
and_do-eq-ok (s, ok a) next h = (s, (a, (refl, h)))
and_do-eq-ok {B = B} (s, err e) next {b = b} h =
    let bad : err e ≡ ok b = ap (λ (o : Outcome B). o.1) h in cc

module _ (io : Faults) (temp : Bytes) where
  -- The temporary file is not on disk.
  abbrev IsGone : Storage → Type 0
  IsGone s = contains_key s.disk temp ≡ false

  IsGone-remove_local_file :
      (s : Storage) (path : Bytes) → IsGone s → IsGone (remove_local_file s io path).0
  unfolding remove_local_file
  IsGone-remove_local_file s path h = ground (arith, contains_key-remove s.disk path temp)

  IsGone-remove_physical_file :
      (s : Storage) (l : FileLocation) → IsGone s → IsGone (remove_physical_file s io l).0
  unfolding remove_physical_file delete_object
  IsGone-remove_physical_file s (local path) h = IsGone-remove_local_file s path h
  IsGone-remove_physical_file s (s3 key) h = ground arith

  IsGone-queue :
      (s : Storage) (sha256 : Bytes) (m : FileMetadata)
      → IsGone s
      → IsGone (queue_superseded_deletion s sha256 m)
  unfolding queue_superseded_deletion
  IsGone-queue s sha256 m h = ground arith

  IsGone-removed_or_queued :
      (sha256 : Bytes) (m : FileMetadata) (r : Outcome (Unit {0}))
      → IsGone r.0
      → IsGone (removed_or_queued sha256 m r)
  IsGone-removed_or_queued sha256 m (s, ok done) h = h
  IsGone-removed_or_queued sha256 m (s, err e) h = IsGone-queue s sha256 m h

  IsGone-clean_displaced :
      (s : Storage) (sha256 : Bytes) (o : Option FileMetadata)
      → IsGone s
      → IsGone (clean_displaced s io sha256 o)
  unfolding clean_displaced
  IsGone-clean_displaced s sha256 none h = h
  IsGone-clean_displaced s sha256 (some m) h =
      IsGone-removed_or_queued sha256 m (remove_physical_file s io m.location)
        (IsGone-remove_physical_file s m.location h)

  IsGone-stored :
      (s : Storage) (m : FileMetadata) (o : Option FileMetadata)
      → IsGone s
      → IsGone (stored s m o).0
  IsGone-stored s m none h = h
  IsGone-stored s m (some x) h = h

  IsGone-after_publish :
      (s : Storage) (sha256 : Bytes) (m : FileMetadata) (r : Entries × PublishResult)
      → IsGone s
      → IsGone (after_publish s io sha256 m r).0
  unfolding after_publish mark_changes_pending
  IsGone-after_publish s sha256 m (index, published o) h =
      IsGone-stored _ m (get index.map sha256)
        (IsGone-clean_displaced (record s { file_index = index }) sha256 o h)
  IsGone-after_publish s sha256 m (index, retained x) h = h

  IsGone-publish_metadata :
      (s : Storage) (sha256 : Bytes) (m : FileMetadata)
      → IsGone s
      → IsGone (publish_metadata s io sha256 m).0
  unfolding publish_metadata
  IsGone-publish_metadata s sha256 m h =
      IsGone-after_publish s sha256 m (publish s.file_index sha256 m) h

module _ (io : Faults) (temp : Bytes) (unlinks : io.remove_file temp ≡ false) where
  IsGone-drop_temp : (s : Storage) → IsGone io temp (drop_temp s io temp)
  unfolding drop_temp remove_local_file
  IsGone-drop_temp s = ground (arith, contains_key-remove s.disk temp temp, text_eq_refl temp)

  IsGone-or_give_up :
      {A : Type 0} (r : Outcome A) (next : Storage → A → Outcome StoredBlob)
      → ((s : Storage) (a : A) → r ≡ (s, ok a) → IsGone io temp (next s a).0)
      → IsGone io temp (or_give_up io temp r next).0
  unfolding drop_temp
  IsGone-or_give_up (s, err e) next h = IsGone-drop_temp s
  IsGone-or_give_up (s, ok a) next h = h s a refl

  put_key-IsGone :
      (s t : Storage) (r : AppResult Bytes) (key : Bytes)
      → put_key s io temp r ≡ (t, ok key)
      → IsGone io temp t
  unfolding put_key remove_local_file
  put_key-IsGone s t (err e) key h = cc (ap (λ (o : Outcome Bytes). o.1) h)
  put_key-IsGone s t (ok k) key h =
      ground (arith, contains_key-remove s.disk temp temp, text_eq_refl temp)

  rename-IsGone :
      (s t : Storage) (to : Bytes)
      → text_eq to temp ≡ false
      → rename s io temp to ≡ (t, ok tt)
      → IsGone io temp t
  unfolding rename
  rename-IsGone s t to other h = ground (
    arith,
    contains_key-insert (remove s.disk temp) to temp (or_nothing (get s.disk temp)),
    contains_key-remove s.disk temp temp,
    text_eq_refl temp,
  )

  publish_object-IsGone :
      (s : Storage) (p : BlobPublication) (now : ℕ)
      → IsGone io temp (publish_object s io temp p now).0
  unfolding publish_object
  publish_object-IsGone s p now =
      IsGone-or_give_up (s, ensure s.s3_available service_unavailable) _
        (λ s1 a e.
          IsGone-or_give_up (put s1 io temp p.sha256 p.extension p.expiration) _ (λ s2 key e2.
            IsGone-publish_metadata io temp s2 p.sha256 (metadata p (s3 key) now) (
              unfold put in
              put_key-IsGone s1 s2 (object_key p.sha256 p.extension p.expiration) key e2)))

  publish_file-IsGone :
      (s : Storage) (p : BlobPublication) (now : ℕ)
      → ((path : Bytes)
          → completed_path s.root p.origin p.sha256 p.extension p.expiration ≡ ok path
          → text_eq path temp ≡ false)
      → IsGone io temp (publish_file s io temp p now).0
  unfolding publish_file
  publish_file-IsGone s p now apart =
      IsGone-or_give_up (s, completed_path s.root p.origin p.sha256 p.extension p.expiration) _
        (λ s1 path e.
          IsGone-or_give_up (and_do (clear_target s1 io path) (λ s2 clear. rename s2 io temp path))
            _
            (λ s3 moved e3.
              IsGone-publish_metadata io temp s3 p.sha256 (metadata p (local path) now) (
                let (s2, (clear, (cleared, renamed))) =
                  and_do-eq-ok (clear_target s1 io path) _ e3 in
                rename-IsGone s2 s3 path (apart path (ap (λ (o : Outcome Bytes). o.1) e)) renamed)))

  publish_new-IsGone :
      (s : Storage) (p : BlobPublication) (now : ℕ) (o : Option FileMetadata)
      → ((path : Bytes)
          → completed_path s.root p.origin p.sha256 p.extension p.expiration ≡ ok path
          → text_eq path temp ≡ false)
      → IsGone io temp (publish_new s io temp p now o).0
  unfolding publish_new
  publish_new-IsGone s p now (some existing) apart = IsGone-drop_temp s
  publish_new-IsGone s p now none apart = elim (Bool-cases (is_upload p.origin && s.has_s3)) [
    | inl bucket ↦ rw bucket (publish_object-IsGone s p now)
    | inr file ↦ rw file (publish_file-IsGone s p now apart)
  ]

  -- Whatever fails in a publication and however it ends, with a new blob, with the one that was there
  -- or with an error, the temporary file that it was given is not on disk afterwards, provided that it
  -- can be unlinked and is not itself the path of the completed blob.
  pub publish_blob-IsGone :
      (s : Storage) (p : BlobPublication) (now : ℕ)
      → ((path : Bytes)
          → completed_path s.root p.origin p.sha256 p.extension p.expiration ≡ ok path
          → text_eq path temp ≡ false)
      → contains_key (publish_blob s io temp p now).0.disk temp ≡ false
  unfolding publish_blob
  publish_blob-IsGone s p now apart =
      IsGone-or_give_up (s, ensure_not_quarantined s io p.sha256) _
        (λ s1 clear e.
          publish_new-IsGone s1 p now (retained_entry p (get s1.file_index.map p.sha256))
            (λ path made. apart path (
              ap
                (λ (o : Outcome (Unit {0})).
                  completed_path o.0.root p.origin p.sha256 p.extension p.expiration)
                e
              ∙ made)))
