-- ===== src/Storage/Operations.antt =====
-- The operations of src/services/file_storage.rs that change what is stored, in any sequence. Each
-- comes with the faults that it meets.
use almond.Prelude.{ℕ, Option, List, [], ◌∷◌, Bytes}
use almond.Retention.{FileMetadata}
use almond.Storage.{Storage, Faults, BlobPublication}
use almond.Storage.Publish.{publish_blob, publish_existing_metadata}
use almond.Storage.Remove.{Removal, remove_indexed_blob, reconcile_superseded_blobs}
use almond.Storage.Listed.{IsListed, publish_blob-IsListed, publish_existing_metadata-IsListed}
use almond.Storage.Remove.Listed.{remove_indexed_blob-IsListed, reconcile_superseded_blobs-IsListed}

pub data Operation : Type 0 where
  publishes : (temp_path : Bytes) (p : BlobPublication) (now : ℕ) → Operation
  publishes_existing : (sha256 : Bytes) (m : FileMetadata) → Operation
  removes : (sha256 : Bytes) (removal : Removal) (expected : Option FileMetadata) → Operation
  reconciles : Operation

unfoldable pub after : Storage → Faults → Operation → Storage
after s io (publishes temp_path p now) = (publish_blob s io temp_path p now).0
after s io (publishes_existing sha256 m) = (publish_existing_metadata s io sha256 m).0
after s io (removes sha256 removal expected) = (remove_indexed_blob s io sha256 removal expected).0
after s io reconciles = reconcile_superseded_blobs s io

unfoldable pub after_all : Storage → List (Faults × Operation) → Storage
unfolding after
after_all s [] = s
after_all s ((io, o) ∷ os) = after_all (after s io o) os

after-IsListed :
    (hash : Bytes) (s : Storage) (io : Faults) (o : Operation)
    → IsListed hash s
    → IsListed hash (after s io o)
unfolding after
after-IsListed hash s io (publishes temp_path p now) h =
    publish_blob-IsListed hash io temp_path s p now h
after-IsListed hash s io (publishes_existing sha256 m) h =
    publish_existing_metadata-IsListed hash io s sha256 m h
after-IsListed hash s io (removes sha256 removal expected) h =
    remove_indexed_blob-IsListed hash io s sha256 removal expected h
after-IsListed hash s io reconciles h = reconcile_superseded_blobs-IsListed hash io s h

-- A name in quarantine stays there through every sequence of operations.
pub after_all-IsListed :
    (hash : Bytes) (s : Storage) (os : List (Faults × Operation))
    → IsListed hash s
    → IsListed hash (after_all s os)
unfolding after_all
after_all-IsListed hash s [] h = h
after_all-IsListed hash s ((io, o) ∷ os) h =
    after_all-IsListed hash (after s io o) os (after-IsListed hash s io o h)
