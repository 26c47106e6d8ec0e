-- ===== src/BlobIndex/Precedence.antt =====
-- Which of two blobs with one hash the catalogue of src/services/blob_index.rs serves.
use almond.Prelude.{
  ◌≡◌, refl, sym, ◌∙◌, ap, Option, none, some, Bytes, get, get-insert, if◌then◌else◌, text_eq,
  text_eq_iff, text_eq_instance, Bool-cases, inl, inr,
}
use almond.Retention.{FileMetadata, BlobOrigin, upload, upstream_cache}
use almond.BlobIndex.{Entries, published, insert_entry, publish, publish_over}

-- An upload wins over everything, a copy from upstream over nothing that is there.
abbrev pub preferred : BlobOrigin → FileMetadata → Option FileMetadata → FileMetadata
preferred upload m existing = m
preferred upstream_cache m none = m
preferred upstream_cache m (some existing) = existing

get_kept :
    (e : Entries) (k j : Bytes) (m : FileMetadata)
    → get e.map k ≡ some m
    → get e.map j ≡ (if text_eq k j then some m else get e.map j)
get_kept e k j m h = elim (Bool-cases (text_eq k j)) [
  | inl same ↦ rw same (ap (get e.map) (sym ((text_eq_iff k j).0 same)) ∙ h)
  | inr other ↦ rw other refl
]

publish_over-get :
    (e : Entries) (k j : Bytes) (m : FileMetadata) (o : BlobOrigin) (existing : Option FileMetadata)
    → get e.map k ≡ existing
    → get (publish_over e k m o existing).0.map j
      ≡ (if text_eq k j then some (preferred o m existing) else get e.map j)
unfolding publish_over insert_entry
publish_over-get e k j m upload existing h = get-insert e.map k j m
publish_over-get e k j m upstream_cache none h = get-insert e.map k j m
publish_over-get e k j m upstream_cache (some x) h = get_kept e k j x h

-- After a publication, a lookup of the published hash finds the new blob where it is an upload or
-- where the hash was absent, and otherwise, for a copy from upstream, the blob that was there; a
-- lookup of any other hash finds what it found before.
pub get-publish :
    (e : Entries) (k j : Bytes) (m : FileMetadata)
    → get (publish e k m).0.map j
      ≡ (if text_eq k j then some (preferred m.origin m (get e.map k)) else get e.map j)
unfolding publish
get-publish e k j m = publish_over-get e k j m m.origin (get e.map k) refl

pub publish_upload :
    (e : Entries) (k : Bytes) (m : FileMetadata)
    → m.origin ≡ upload
    → publish e k m ≡ ((insert_entry e k m).0, published (get e.map k))
unfolding publish insert_entry
publish_upload e k m h = ap (λ o. publish_over e k m o (get e.map k)) h
