-- ===== src/Storage/Stored.antt =====
-- A publication keeps the bytes that it was given.
use mathlib.Core.Logic.{inl, inr}
use mathlib.Core.Path.{subst}
use almond.Prelude.{
  ◌≡◌, ◌≢◌, refl, sym, ap, ◌∙◌, true, Option, none, some, Bytes, get, get-insert, get-remove,
  text_eq, text_eq_refl, eq_of_text_eq, text_eq_instance, arith, Bool-cases,
}
use almond.Error.{AppResult, ok, err}
use almond.BlobIndex.{Entries, insert_entry}
use almond.BlobIndex.Precedence.{publish_upload}
use almond.Retention.{FileMetadata, FileLocation, local, s3, upload}
use almond.Storage.{
  Storage, Faults, Outcome, StoredBlob, mark_changes_pending, remove_local_file,
  remove_physical_file, delete_object, queue_superseded_deletion,
}
use almond.Storage.Publish.{
  publish_metadata, after_publish, clean_displaced, removed_or_queued, stored,
}

-- The bytes at a location.
abbrev pub content_at : Storage → FileLocation → Option Bytes
content_at s (local path) = get s.disk path
content_at s (s3 key) = get s.objects key

-- Removing what is elsewhere changes nothing here.
remove_physical_file-content_at :
    (s : Storage) (io : Faults) (old here : FileLocation)
    → old ≢ here
    → content_at (remove_physical_file s io old).0 here ≡ content_at s here
unfolding remove_physical_file remove_local_file delete_object
remove_physical_file-content_at s io (local path) (local there) apart =
    elim (Bool-cases (text_eq path there)) [
      | inl same ↦ absurd (apart (ap local (eq_of_text_eq path there same)))
      | inr other ↦ ground (arith, get-remove s.disk path there)
    ]
remove_physical_file-content_at s io (local path) (s3 key) apart = ground arith
remove_physical_file-content_at s io (s3 key) (local path) apart = ground arith
remove_physical_file-content_at s io (s3 key) (s3 there) apart =
    elim (Bool-cases (text_eq key there)) [
      | inl same ↦ absurd (apart (ap s3 (eq_of_text_eq key there same)))
      | inr other ↦ ground (arith, get-remove s.objects key there)
    ]

removed_or_queued-content_at :
    (sha256 : Bytes) (m : FileMetadata) (here : FileLocation) (r : Outcome (Unit {0}))
    → content_at (removed_or_queued sha256 m r) here ≡ content_at r.0 here
unfolding queue_superseded_deletion
removed_or_queued-content_at sha256 m (local path) (s, ok done) = refl
removed_or_queued-content_at sha256 m (s3 key) (s, ok done) = refl
removed_or_queued-content_at sha256 m (local path) (s, err e) = ground arith
removed_or_queued-content_at sha256 m (s3 key) (s, err e) = ground arith

-- The entry that a publication displaces, if any, lies elsewhere.
abbrev pub LiesElsewhere : Option FileMetadata → FileLocation → Type 0
LiesElsewhere none here = Unit
LiesElsewhere (some old) here = old.location ≢ here

clean_displaced-content_at :
    (s : Storage) (io : Faults) (sha256 : Bytes) (displaced : Option FileMetadata)
    (here : FileLocation)
    → LiesElsewhere displaced here
    → content_at (clean_displaced s io sha256 displaced) here ≡ content_at s here
unfolding clean_displaced
clean_displaced-content_at s io sha256 none here apart = refl
clean_displaced-content_at s io sha256 (some old) here apart =
    removed_or_queued-content_at sha256 old here (remove_physical_file s io old.location)
    ∙ remove_physical_file-content_at s io old.location here apart

pub remove_physical_file-index :
    (s : Storage) (io : Faults) (l : FileLocation)
    → (remove_physical_file s io l).0.file_index ≡ s.file_index
unfolding remove_physical_file remove_local_file delete_object
remove_physical_file-index s io (local path) = ground arith
remove_physical_file-index s io (s3 key) = ground arith

removed_or_queued-index :
    (sha256 : Bytes) (m : FileMetadata) (r : Outcome (Unit {0}))
    → (removed_or_queued sha256 m r).file_index ≡ r.0.file_index
unfolding queue_superseded_deletion
removed_or_queued-index sha256 m (s, ok done) = refl
removed_or_queued-index sha256 m (s, err e) = ground arith

clean_displaced-index :
    (s : Storage) (io : Faults) (sha256 : Bytes) (displaced : Option FileMetadata)
    → (clean_displaced s io sha256 displaced).file_index ≡ s.file_index
unfolding clean_displaced
clean_displaced-index s io sha256 none = refl
clean_displaced-index s io sha256 (some old) =
    removed_or_queued-index sha256 old (remove_physical_file s io old.location)
    ∙ remove_physical_file-index s io old.location

content_at-marked :
    (s : Storage) (l : FileLocation) → content_at (mark_changes_pending s) l ≡ content_at s l
unfolding mark_changes_pending
content_at-marked s (local path) = refl
content_at-marked s (s3 key) = refl

content_at-indexed :
    (s : Storage) (index : Entries) (l : FileLocation)
    → content_at (record s { file_index = index }) l ≡ content_at s l
content_at-indexed s index (local path) = refl
content_at-indexed s index (s3 key) = refl

-- What is known of a blob that has entered storage.
pub record IsStored (t : Storage) (sha256 bytes : Bytes) (r : AppResult StoredBlob) : Type 0 where
  pub blob : StoredBlob
  pub result : r ≡ ok blob
  pub created : blob.created ≡ true
  pub indexed : get t.file_index.map sha256 ≡ some blob.metadata
  pub content : content_at t blob.metadata.location ≡ some bytes

pub publish_metadata-IsStored :
    (s : Storage) (io : Faults) (sha256 bytes : Bytes) (m : FileMetadata)
    → m.origin ≡ upload
    → LiesElsewhere (get s.file_index.map sha256) m.location
    → content_at s m.location ≡ some bytes
    → IsStored (publish_metadata s io sha256 m).0 sha256 bytes (publish_metadata s io sha256 m).1
publish_metadata-IsStored s io sha256 bytes m uploaded apart there =
    let index : Entries = (insert_entry s.file_index sha256 m).0 in
    let displaced : Option FileMetadata = get s.file_index.map sha256 in
    let s1 : Storage = record s { file_index = index } in
    let cleaned : Storage = clean_displaced s1 io sha256 displaced in
    let s2 : Storage = mark_changes_pending cleaned in
    let now_indexed : get index.map sha256 ≡ some m =
      unfold insert_entry in
      get-insert s.file_index.map sha256 sha256 m ∙ rw (text_eq_refl sha256) in
    let result : publish_metadata s io sha256 m
        ≡ (s2, ok (record { metadata = m; created = true })) =
      unfold publish_metadata after_publish in
      ap (after_publish s io sha256 m) (publish_upload s.file_index sha256 m uploaded)
      ∙ ap (stored s2 m) now_indexed in
    let kept : s2.file_index ≡ index =
      unfold mark_changes_pending in clean_displaced-index s1 io sha256 displaced in
    let known : IsStored s2 sha256 bytes (ok (record { metadata = m; created = true })) = record {
      blob = record { metadata = m; created = true };
      result = refl;
      created = refl;
      indexed = ap (λ (e : Entries). get e.map sha256) kept ∙ now_indexed;
      content =
          content_at-marked cleaned m.location
          ∙ clean_displaced-content_at s1 io sha256 displaced m.location apart
          ∙ content_at-indexed s index m.location
          ∙ there;
    } in
    subst (λ (o : Outcome StoredBlob). IsStored o.0 sha256 bytes o.1) (sym result) known
