-- ===== src/Storage/Kept.antt =====
-- `publish_blob` of src/services/file_storage.rs keeps the bytes of an upload.
use mathlib.Core.Logic.{inl, inr}
use mathlib.Core.Path.{subst}
use almond.Prelude.{
  ℕ, ◌≡◌, ◌⊎◌, refl, sym, ap, ◌∙◌, false, not, ◌&&◌, ◌||◌, Option, none, some, Bytes, get, text_eq,
  text_eq_instance, arith, Bool-cases, if◌then◌else◌,
}
use almond.BlobIndex.{Entries}
use almond.Error.{ok, service_unavailable, ensure}
use almond.Retention.{FileMetadata, local, s3, upload, upstream_cache, BlobOrigin}
use almond.Storage.{
  Storage, Faults, Outcome, and_do, BlobPublication, StoredBlob, completed_path,
  ensure_not_quarantined, remove_local_file, metadata,
}
use almond.Storage.Publish.{
  publish_blob, drop_temp, publish_metadata, put, publish_object, rename, clear_target,
  publish_file, is_upload, retained_entry, publish_new,
}
use almond.Storage.Temporary.{and_do-eq-ok}
use almond.Storage.Stored.{content_at, LiesElsewhere, IsStored, publish_metadata-IsStored}
use almond.Storage.Steps.{
  or_give_up-eq-ok, SameIndex, put_key-keeps, rename-keeps, clear_target-keeps,
}
use almond.Storage.Roots.{
  roots_apart, completed_path-root, IsCachedInPlace, IsReplaceable, cached-LiesElsewhere,
}

publish_metadata-Kept :
    (s s1 t : Storage) (io : Faults) (sha256 bytes : Bytes) (m : FileMetadata) (b : StoredBlob)
    → m.origin ≡ upload
    → SameIndex s s1
    → LiesElsewhere (get s.file_index.map sha256) m.location
    → content_at s1 m.location ≡ some bytes
    → publish_metadata s1 io sha256 m ≡ (t, ok b)
    → IsStored t sha256 bytes (ok b)
publish_metadata-Kept s s1 t io sha256 bytes m b uploaded kept apart there h =
    let elsewhere : LiesElsewhere (get s1.file_index.map sha256) m.location =
      subst (λ (e : Entries). LiesElsewhere (get e.map sha256) m.location) (sym kept) apart in
    subst (λ (o : Outcome StoredBlob). IsStored o.0 sha256 bytes o.1) h
      (publish_metadata-IsStored s1 io sha256 bytes m uploaded elsewhere there)

module _ (io : Faults) (temp bytes : Bytes) (p : BlobPublication) (now : ℕ)
    (uploaded : p.origin ≡ upload) (s t : Storage) (b : StoredBlob)
    (there : get s.disk temp ≡ some bytes) (cached : IsCachedInPlace s p.sha256) where
  publish_object-IsStored :
      IsReplaceable (get s.file_index.map p.sha256)
      → publish_object s io temp p now ≡ (t, ok b)
      → IsStored t p.sha256 bytes (ok b)
  unfolding publish_object put metadata
  publish_object-IsStored replaceable h =
      let (s1, (available, (same, h1))) =
        or_give_up-eq-ok io temp (s, ensure s.s3_available service_unavailable) _ h in
      let (s2, (key, (placed, h2))) =
        or_give_up-eq-ok io temp (put s1 io temp p.sha256 p.extension p.expiration) _ h1 in
      let start : s ≡ s1 = ap (λ (o : Outcome (Unit {0})). o.0) same in
      let (content, kept) =
        put_key-keeps s1 s2 io temp bytes key _
          (subst (λ (x : Storage). get x.disk temp ≡ some bytes) start there) placed in
      publish_metadata-Kept s s2 t io p.sha256 bytes (metadata p (s3 key) now) b uploaded
        (kept ∙ ap (λ (x : Storage). x.file_index) (sym start))
        (cached-LiesElsewhere s p.sha256 (s3 key) _ cached refl replaceable (λ path x e. cc e))
        content h2

  publish_file-IsStored :
      ((path : Bytes)
        → completed_path s.root p.origin p.sha256 p.extension p.expiration ≡ ok path
        → text_eq path temp ≡ false)
      → IsReplaceable (get s.file_index.map p.sha256)
      → publish_file s io temp p now ≡ (t, ok b)
      → IsStored t p.sha256 bytes (ok b)
  unfolding publish_file metadata
  publish_file-IsStored apart replaceable h =
      let (s1, (path, (named, h1))) =
        or_give_up-eq-ok io temp
          (s, completed_path s.root p.origin p.sha256 p.extension p.expiration) _ h in
      let (s3', (moved, (renamed, h2))) =
        or_give_up-eq-ok io temp
          (and_do (clear_target s1 io path) (λ s2 clear. rename s2 io temp path)) _ h1 in
      let start : s ≡ s1 = ap (λ (o : Outcome Bytes). o.0) named in
      let name : completed_path s.root p.origin p.sha256 p.extension p.expiration ≡ ok path =
        ap (λ (o : Outcome Bytes). o.1) named in
      let (s2, (clear, (cleared, rename2))) = and_do-eq-ok (clear_target s1 io path) _ renamed in
      let (there2, kept2) =
        clear_target-keeps s1 s2 io temp path bytes (apart path name)
          (subst (λ (x : Storage). get x.disk temp ≡ some bytes) start there) cleared in
      let (content, kept3) = rename-keeps s2 s3' io temp path bytes there2 rename2 in
      let upload_name : completed_path s.root upload p.sha256 p.extension p.expiration ≡ ok path =
        subst (λ o. completed_path s.root o p.sha256 p.extension p.expiration ≡ ok path) uploaded
          name in
      let (y, below) =
        completed_path-root s.root upload p.sha256 p.extension p.expiration path upload_name in
      publish_metadata-Kept s s3' t io p.sha256 bytes (metadata p (local path) now) b uploaded
        (kept3 ∙ kept2 ∙ ap (λ (x : Storage). x.file_index) (sym start))
        (cached-LiesElsewhere s p.sha256 (local path) _ cached refl replaceable (λ other x e cache.
          let same : path ≡ other = cc e in roots_apart s.root x y (cache ∙ sym same ∙ sym below)))
        content h2

  -- What a publication that succeeds has done: it has stored the bytes, or has found the blob.
  abbrev Ends : Type 0
  Ends =
      IsStored t p.sha256 bytes (ok b)
      ⊎ ((b.created ≡ false)
          × (get s.file_index.map p.sha256 ≡ some b.metadata)
          × (t.file_index ≡ s.file_index))

  drop_temp-index : (drop_temp s io temp).file_index ≡ s.file_index
  unfolding drop_temp remove_local_file
  drop_temp-index = ground arith

  publish_new-Ends :
      ((path : Bytes)
        → completed_path s.root p.origin p.sha256 p.extension p.expiration ≡ ok path
        → text_eq path temp ≡ false)
      → IsReplaceable (get s.file_index.map p.sha256)
      → publish_new s io temp p now none ≡ (t, ok b)
      → Ends
  unfolding publish_new
  publish_new-Ends apart replaceable h = elim (Bool-cases (is_upload p.origin && s.has_s3)) [
    | inl bucket ↦ inl (publish_object-IsStored replaceable (rw bucket at h))
    | inr file ↦ inl (publish_file-IsStored apart replaceable (rw file at h))
  ]

  found-Ends :
      (existing : FileMetadata)
      → get s.file_index.map p.sha256 ≡ some existing
      → publish_new s io temp p now (some existing) ≡ (t, ok b)
      → Ends
  unfolding publish_new
  found-Ends existing found h =
      let state : drop_temp s io temp ≡ t = ap (λ (o : Outcome StoredBlob). o.0) h in
      let result : ok (record { metadata = existing; created = false }) ≡ ok b =
        ap (λ (o : Outcome StoredBlob). o.1) h in
      let same : record { metadata = existing; created = false } ≡ b = cc result in
      inr (
        sym (ap (λ (x : StoredBlob). x.created) same),
        found ∙ ap (λ (x : StoredBlob). some x.metadata) same,
        ap (λ (x : Storage). x.file_index) (sym state) ∙ drop_temp-index,
      )

  origin_cases : (origin : BlobOrigin) → (origin ≡ upload) ⊎ (origin ≡ upstream_cache)
  origin_cases upload = inl refl
  origin_cases upstream_cache = inr refl

  -- An existing upload stays, and a cached copy gives way.
  retained_cases :
      (existing : FileMetadata)
      → ((existing.origin ≡ upstream_cache) × (retained_entry p (some existing) ≡ none))
        ⊎ (retained_entry p (some existing) ≡ some existing)
  retained_cases existing =
      let step : retained_entry p (some existing)
          ≡ (if is_upload existing.origin then some existing else none) =
        ap (λ o. if not (is_upload o) || is_upload existing.origin then some existing else none)
          uploaded in
      elim (origin_cases existing.origin) [
        | inl e ↦ inr (step ∙ ap (λ o. if is_upload o then some existing else none) e)
        | inr e ↦ inl (e, step ∙ ap (λ o. if is_upload o then some existing else none) e)
      ]

  retained-Ends :
      (o : Option FileMetadata)
      → get s.file_index.map p.sha256 ≡ o
      → ((path : Bytes)
          → completed_path s.root p.origin p.sha256 p.extension p.expiration ≡ ok path
          → text_eq path temp ≡ false)
      → publish_new s io temp p now (retained_entry p o) ≡ (t, ok b)
      → Ends
  retained-Ends none found apart h = publish_new-Ends apart (subst IsReplaceable (sym found) tt) h
  retained-Ends (some existing) found apart h =
      let split = retained_cases existing in
      elim split [
        | inl (newer, gone) ↦
            publish_new-Ends apart (subst IsReplaceable (sym found) newer)
              (subst (λ x. publish_new s io temp p now x ≡ (t, ok b)) gone h)
        | inr stays ↦
            found-Ends existing found
              (subst (λ x. publish_new s io temp p now x ≡ (t, ok b)) stays h)
      ]

  -- An upload whose temporary file holds some bytes, away from its final path, and whose publication
  -- succeeds is indexed under its hash: with its bytes at the place that the index names, if it counts
  -- as new, and as it was before otherwise. A cached copy that it replaces is taken to lie where the
  -- cache puts its files.
  pub publish_blob-IsStored :
      ((path : Bytes)
        → completed_path s.root p.origin p.sha256 p.extension p.expiration ≡ ok path
        → text_eq path temp ≡ false)
      → publish_blob s io temp p now ≡ (t, ok b)
      → IsStored t p.sha256 bytes (ok b)
        ⊎ ((b.created ≡ false)
            × (get s.file_index.map p.sha256 ≡ some b.metadata)
            × (t.file_index ≡ s.file_index))
  unfolding publish_blob
  publish_blob-IsStored apart h =
      let (s1, (clear, (same, h1))) =
        or_give_up-eq-ok io temp (s, ensure_not_quarantined s io p.sha256) _ h in
      let start : s ≡ s1 = ap (λ (o : Outcome (Unit {0})). o.0) same in
      retained-Ends (get s.file_index.map p.sha256) refl apart (
        subst
          (λ (x : Storage).
            publish_new x io temp p now (retained_entry p (get x.file_index.map p.sha256))
            ≡ (t, ok b))
          (sym start) h1)
