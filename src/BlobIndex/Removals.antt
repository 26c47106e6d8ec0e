-- ===== src/BlobIndex/Removals.antt =====
-- src/services/blob_index.rs: a removal by location.
use almond.Prelude.{
  ◌≡◌, refl, ◌∙◌, true, none, some, Bytes, get, get-remove, text_eq_refl, text_eq_instance,
}
use almond.Retention.{FileMetadata, FileLocation, local, s3}
use almond.BlobIndex.{
  Entries, same_location, location_matches, remove_if_location_matches, remove_entry, removed_entry,
}

same_location_refl : (l : FileLocation) → same_location l l ≡ true
unfolding same_location
same_location_refl (local path) = text_eq_refl path
same_location_refl (s3 key) = text_eq_refl key

-- A removal at the location of the entry leaves no entry.
pub remove_if_location_matches-gone :
    (e : Entries) (key : Bytes) (m : FileMetadata)
    → get e.map key ≡ some m
    → get (remove_if_location_matches e key m.location).0.map key ≡ none
unfolding remove_if_location_matches location_matches remove_entry removed_entry
remove_if_location_matches-gone e key m h =
    rw (h, same_location_refl m.location) (get-remove e.map key key ∙ rw (text_eq_refl key) refl)
