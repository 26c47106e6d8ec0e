-- ===== src/Storage/Republished.antt =====
-- An object found in the bucket, published for a hash that is already indexed at that object.
use almond.Prelude.{
  ◌≡◌, refl, sym, ap, ◌∙◌, true, false, none, some, Bytes, get, remove, get-insert, get-remove,
  text_eq_refl, text_eq_instance,
}
use mathlib.Core.Path.{subst}
use almond.Error.{ok}
use almond.Retention.{FileMetadata, FileLocation, s3, upload}
use almond.BlobIndex.{Entries, published, publish, insert_entry}
use almond.BlobIndex.Precedence.{publish_upload}
use almond.Storage.{Storage, Faults, Outcome, and_do, remove_physical_file, mark_changes_pending}
use almond.Storage.Publish.{
  publish_existing_metadata, publish_metadata, after_publish, clean_displaced, removed_or_queued,
  stored,
}

-- The object goes.
remove_object :
    (s : Storage) (io : Faults) (key : Bytes)
    → s.has_s3 ≡ true
    → io.s3_delete key ≡ false
    → remove_physical_file s io (s3 key) ≡ (record s { objects = remove s.objects key }, ok tt)
unfolding remove_physical_file
remove_object s io key bucket deletes = rw (bucket, deletes)

clean_object :
    (s : Storage) (io : Faults) (sha256 key : Bytes) (old : FileMetadata)
    → s.has_s3 ≡ true
    → io.s3_delete key ≡ false
    → old.location ≡ s3 key
    → clean_displaced s io sha256 (some old) ≡ record s { objects = remove s.objects key }
unfolding clean_displaced
clean_object s io sha256 key old bucket deletes same =
    ap (λ (l : FileLocation). removed_or_queued sha256 old (remove_physical_file s io l)) same
    ∙ ap (removed_or_queued sha256 old) (remove_object s io key bucket deletes)

-- Publishing an object that was found in the bucket, for a hash that is indexed at that object already,
-- as a second request for the same blob does, deletes the object: with the bucket working, the index
-- then has the hash at a key that the bucket does not hold, and the operation reports success.
pub publish_existing_metadata_loses :
    (s : Storage) (io : Faults) (sha256 key : Bytes) (m old : FileMetadata)
    → s.has_s3 ≡ true
    → io.s3_delete key ≡ false
    → m.origin ≡ upload
    → m.location ≡ s3 key
    → get s.file_index.map sha256 ≡ some old
    → old.location ≡ s3 key
    → let (t, r) = publish_existing_metadata s io sha256 m in
      (r ≡ ok m) × (get t.file_index.map sha256 ≡ some m) × (get t.objects key ≡ none)
unfolding publish_existing_metadata
publish_existing_metadata_loses s io sha256 key m old bucket deletes uploaded there indexed same =
    let index : Entries = (insert_entry s.file_index sha256 m).0 in
    let s1 : Storage = record s { file_index = index } in
    let s2 : Storage = mark_changes_pending (record s1 { objects = remove s1.objects key }) in
    let now_indexed : get index.map sha256 ≡ some m =
      unfold insert_entry in
      get-insert s.file_index.map sha256 sha256 m ∙ rw (text_eq_refl sha256) in
    let published_lem : publish s.file_index sha256 m ≡ (index, published (some old)) =
      publish_upload s.file_index sha256 m uploaded ∙ rw indexed in
    let result : publish_metadata s io sha256 m
        ≡ (s2, ok (record { metadata = m; created = true })) =
      unfold publish_metadata after_publish in
      ap (after_publish s io sha256 m) published_lem
      ∙ ap (λ t. stored (mark_changes_pending t) m (get index.map sha256))
          (clean_object s1 io sha256 key old bucket deletes same)
      ∙ ap (stored s2 m) now_indexed in
    let whole : (s2, ok m) ≡ publish_existing_metadata s io sha256 m =
      sym (ap (λ o. and_do o (λ s' blob. (s', ok blob.metadata))) result) in
    subst
      (λ (o : Outcome FileMetadata).
        (o.1 ≡ ok m) × (get o.0.file_index.map sha256 ≡ some m) × (get o.0.objects key ≡ none))
      whole
      (unfold mark_changes_pending in
        (refl, now_indexed, get-remove s.objects key key ∙ rw (text_eq_refl key)))
