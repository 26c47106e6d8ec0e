-- ===== src/BlobIndex/Tests.antt =====
-- An upload and a copy from upstream in the catalogue of src/services/blob_index.rs.
use almond.Prelude.{
  arith, ℕ, ◌≡◌, refl, none, some, List, [], ◌∷◌, codes, Bytes, HashMap, get, insert, remove,
  contains_key, IsDistinct, if◌then◌else◌, text_eq, text_eq_instance,
}
use almond.Retention.{FileMetadata, local, BlobOrigin, upload, upstream_cache}
use almond.BlobIndex.{
  Entries, publish, replace, total_size, remove_entry, remove_if_location_matches, insert_entry,
  remove_stamp, ordered, insert_stamp,
}
use almond.BlobIndex.Totals.{
  Op, insert_op, publish_op, remove_op, remove_if_op, run, Fits, run-total_bytes,
}
use almond.BlobIndex.Pages.{is_listed, page, collect, listed, after_cursor}
use almond.BlobIndex.Precedence.{preferred, get-publish}

abbrev blob : BlobOrigin → ℕ → ℕ → FileMetadata
blob origin size created_at = record {
  location = local (codes "p");
  extension = none;
  mime_type = none;
  size = size;
  created_at = created_at;
  pubkey = none;
  expiration = none;
  origin = origin;
}

abbrev empty : Entries
empty = record { map = []; total_bytes = 0; order = []; generation = 0 }

abbrev scanned : HashMap Bytes FileMetadata
scanned = (codes "a", blob upstream_cache 5 30) ∷ (codes "b", blob upload 7 40) ∷ []

abbrev ops : List Op
ops =
    publish_op (codes "b") (blob upstream_cache 100 50)
    ∷ publish_op (codes "a") (blob upload 11 20)
    ∷ insert_op (codes "c") (blob upload 2 60)
    ∷ remove_if_op (codes "b") (local (codes "q"))
    ∷ remove_op (codes "b")
    ∷ []

total_after : (run (replace empty scanned) ops).total_bytes ≡ 13
unfolding run replace remove_entry get remove_if_location_matches insert_entry insert publish
    text_eq remove_stamp
total_after = refl

order_after : (run (replace empty scanned) ops).order ≡ (60, codes "c") ∷ (20, codes "a") ∷ []
unfolding run replace remove_entry get remove_if_location_matches insert_entry insert publish
    text_eq remove_stamp
order_after = refl

scanned-IsDistinct : IsDistinct scanned
unfolding contains_key text_eq
scanned-IsDistinct = (refl, (refl, tt))

ops_fit : Fits (replace empty scanned) ops
unfolding Fits replace insert_entry publish remove_entry remove_if_location_matches total_size
    remove_stamp insert remove get text_eq
ops_fit = (omega arith, (omega arith, (omega arith, (omega arith, (omega arith, omega arith)))))

run-total_bytes_example :
    (run (replace empty scanned) ops).total_bytes ≡ total_size (run (replace empty scanned) ops).map
run-total_bytes_example = run-total_bytes empty scanned ops scanned-IsDistinct ops_fit

get-publish_example :
    get (publish (replace empty scanned) (codes "a") (blob upload 11 20)).0.map (codes "a") ≡ (
      if text_eq (codes "a") (codes "a")
      then some (preferred upload (blob upload 11 20) (get (replace empty scanned).map (codes "a")))
      else get (replace empty scanned).map (codes "a"))
get-publish_example =
    get-publish (replace empty scanned) (codes "a") (codes "a") (blob upload 11 20)

-- The newest blob is behind no cursor; the other one is behind it.
second_page :
    page (replace empty scanned) 0 100 none (some (codes "b")) 1
    ≡ (codes "a", blob upstream_cache 5 30) ∷ []
unfolding page replace collect listed after_cursor is_listed get text_eq ordered insert_stamp
second_page = refl
