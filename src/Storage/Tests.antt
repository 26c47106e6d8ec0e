-- ===== src/Storage/Tests.antt =====
-- A store with one upload on disk, and one with an object in the bucket.
use almond.BlobName.{hash_prefix, is_valid_hash, object_key, require_hash}
use almond.Prelude.{
  List, ℕ, ◌≡◌, refl, sym, ◌∙◌, true, false, none, some, [], ◌∷◌, ◌++◌, codes, Bytes, get,
  contains_key, text_eq, text_eq_instance, insert, remove,
}
use mathlib.Core.Path.{subst}
use almond.BlobName.ObjectKeys.{NoSlash}
use almond.Text.{contains}
use almond.Error.{ok, err, forbidden, insufficient_storage}
use almond.Retention.{FileMetadata, FileLocation, local, s3, upload}
use almond.BlobIndex.{Entries, publish, remove_if_location_matches}
use almond.Storage.{
  Storage, Faults, BlobPublication, completed_path, ensure_storage_capacity, ensure_not_quarantined,
  metadata, remove_physical_file,
}
use almond.Storage.Publish.{publish_blob, publish_existing_metadata, drop_temp, publish_metadata}
use almond.Storage.Remove.{quarantined, requested, remove_indexed_blob}
use almond.Storage.Operations.{Operation, publishes, reconciles, after_all}
use almond.Storage.Quarantine.{quarantined-publish_blob}
use almond.Storage.Republished.{publish_existing_metadata_loses}
use almond.Storage.Temporary.{publish_blob-IsGone}

abbrev hash : Bytes
hash = codes "0123456789abcdef0123456789abcdef0123456789abcdef0123456789abcdef"

abbrev path : Bytes
path = codes "/s/uploads/0/1/" ++ (hash ++ codes ".png")

abbrev key : Bytes
key = codes "0/1/" ++ (hash ++ codes ".png")

abbrev fine : Faults
fine = record {
  read_dir = false;
  mkdir = false;
  exists = false;
  rename = false;
  remove_file = λ path. false;
  s3_put = false;
  s3_list = false;
  s3_delete = λ key. false;
}

abbrev at : FileLocation → ℕ → FileMetadata
at location created_at = record {
  location = location;
  extension = some (codes "png");
  mime_type = none;
  size = 3;
  created_at = created_at;
  pubkey = none;
  expiration = none;
  origin = upload;
}

abbrev entry : FileMetadata → Entries
entry m = record { map = (hash, m) ∷ []; total_bytes = 3; order = (5, hash) ∷ []; generation = 1 }

abbrev on_disk : Storage
on_disk = record {
  disk = (path, codes "abc") ∷ (codes "/t", codes "abc") ∷ [];
  root = codes "/s";
  quarantine = none;
  has_s3 = false;
  s3_available = false;
  objects = [];
  file_index = entry (at (local path) 5);
  superseded_blob_deletions = [];
  changes_pending = false;
}

abbrev in_bucket : Storage
in_bucket = record on_disk {
  disk = [];
  has_s3 = true;
  s3_available = true;
  objects = (key, codes "abc") ∷ [];
  file_index = entry (at (s3 key) 5);
}

abbrev publication : BlobPublication
publication = record {
  sha256 = hash;
  origin = upload;
  extension = some (codes "png");
  mime_type = none;
  size = 3;
  expiration = none;
}

abbrev vacant : Storage
vacant = record on_disk {
  disk = (codes "/t", codes "abc") ∷ [];
  file_index = record { map = []; total_bytes = 0; order = []; generation = 0 };
}

stores : get (publish_blob vacant fine (codes "/t") publication 9).0.disk path ≡ some (codes "abc")
unfolding publish_blob get ensure_not_quarantined require_hash is_valid_hash completed_path
    object_key contains_key text_eq publish_metadata publish metadata insert remove
stores = refl

sweeps : (remove_indexed_blob in_bucket fine hash requested none).0.objects ≡ []
unfolding remove_indexed_blob get text_eq remove_physical_file hash_prefix is_valid_hash remove
    remove_if_location_matches
sweeps = refl

no_room :
    ensure_storage_capacity
      (record {
        max_blob_size_bytes = 10;
        max_total_size = 5;
        max_total_files = 0;
        min_free_disk_bytes = 0;
      })
      (entry (at (local path) 5))
      (some 100)
      3
    ≡ err insufficient_storage
unfolding ensure_storage_capacity
no_room = refl

path_made : completed_path (codes "/s") upload hash (some (codes "png")) none ≡ ok path
unfolding completed_path object_key is_valid_hash
path_made = refl

moved : (remove_indexed_blob on_disk fine hash quarantined none).1 ≡ ok true
unfolding remove_indexed_blob get text_eq contains_key remove_if_location_matches
moved = refl

found : get on_disk.file_index.map hash ≡ some (at (local path) 5)
unfolding get text_eq
found = refl

found_object : get in_bucket.file_index.map hash ≡ some (at (s3 key) 5)
unfolding get text_eq
found_object = refl

no_slash : NoSlash (some (codes "png"))
unfolding contains
no_slash = refl

differs : text_eq path (codes "/t") ≡ false
unfolding text_eq
differs = refl

apart :
    (p : Bytes)
    → completed_path (codes "/s") upload hash (some (codes "png")) none ≡ ok p
    → text_eq p (codes "/t") ≡ false
apart p h =
    let same : path ≡ p = cc (sym path_made ∙ h) in
    subst (λ q. text_eq q (codes "/t") ≡ false) same differs

-- What comes in between: a reconciliation, and a publication of the same blob.
abbrev between : List (Faults × Operation)
between = (fine, reconciles) ∷ (fine, publishes (codes "/u") publication 8) ∷ []

quarantined-publish_blob_example :
    let t = after_all (remove_indexed_blob on_disk fine hash quarantined none).0 between in
    publish_blob t fine (codes "/t") publication 9 ≡ (drop_temp t fine (codes "/t"), err forbidden)
quarantined-publish_blob_example =
    quarantined-publish_blob on_disk fine fine upload hash path (codes "/t") (some (codes "png"))
      none (at (local path) 5) between publication 9 path_made no_slash found refl moved refl refl

publish_existing_metadata_loses_example :
    let (t, r) = publish_existing_metadata in_bucket fine hash (at (s3 key) 7) in
    (r ≡ ok (at (s3 key) 7))
    × (get t.file_index.map hash ≡ some (at (s3 key) 7))
    × (get t.objects key ≡ none)
publish_existing_metadata_loses_example =
    publish_existing_metadata_loses in_bucket fine hash key (at (s3 key) 7) (at (s3 key) 5) refl
      refl refl refl found_object refl

publish_blob-IsGone_example :
    contains_key (publish_blob vacant fine (codes "/t") publication 9).0.disk (codes "/t") ≡ false
publish_blob-IsGone_example = publish_blob-IsGone fine (codes "/t") refl vacant publication 9 apart
