-- ===== src/Storage/Remove/Listed.antt =====
-- src/services/file_storage.rs: a name in quarantine stays there through every removal and every
-- reconciliation.
use almond.Prelude.{
  if◌then◌else◌, true, false, Bool, Bool-cases, inl, inr, Option, none, some, List, [], ◌∷◌, Bytes,
  get, text_eq_instance, arith,
}
use almond.Error.{AppResult, ok, err}
use almond.BlobName.{hash_prefix}
use almond.BlobIndex.{remove_if_location_matches}
use almond.Retention.{FileMetadata, FileLocation, local, s3}
use almond.Storage.{Storage, Faults, Outcome, remove_physical_file}
use almond.Storage.Listed.{IsListed, IsListed-and_do, IsListed-mark, IsListed-remove_physical_file}
use almond.Storage.Remove.{
  Removal, sweeps_backend, sweep_objects, sweep_backend_copies, quarantine_current, is_quarantined,
  is_expected, dispose, sweep_if, unindex, remove_current, remove_indexed_blob, retry_removals,
  reconcile_superseded_blobs,
}

module _ (hash : Bytes) (io : Faults) where
  IsListed-if :
      {A : Type 0} (b : Bool) (o p : Outcome A)
      → IsListed hash o.0
      → IsListed hash p.0
      → IsListed hash (if b then o else p).0
  IsListed-if true o p h k = h
  IsListed-if false o p h k = k

  IsListed-sweep_objects :
      (s : Storage) (sha256 : Bytes) (r : AppResult Bytes)
      → IsListed hash s
      → IsListed hash (sweep_objects s io sha256 r).0
  unfolding sweep_objects
  IsListed-sweep_objects s sha256 (err e) h = h
  IsListed-sweep_objects s sha256 (ok prefix) h = elim (Bool-cases io.s3_list) [
    | inl fails ↦ rw fails h
    | inr lists ↦ rw lists h
  ]

  IsListed-sweep :
      (s : Storage) (sha256 : Bytes)
      → IsListed hash s
      → IsListed hash (sweep_backend_copies s io sha256).0
  unfolding sweep_backend_copies
  IsListed-sweep s sha256 h =
      IsListed-if s.has_s3 (sweep_objects s io sha256 (hash_prefix sha256)) (s, ok tt)
        (IsListed-sweep_objects s sha256 (hash_prefix sha256) h) h

  -- A new name comes in front of those that are there.
  IsListed-quarantine_current :
      (s : Storage) (sha256 : Bytes) (l : FileLocation)
      → IsListed hash s
      → IsListed hash (quarantine_current s io sha256 l).0
  unfolding quarantine_current
  IsListed-quarantine_current s sha256 (s3 key) h = IsListed-sweep s sha256 h
  IsListed-quarantine_current s sha256 (local path) h = ground arith

  IsListed-dispose :
      (s : Storage) (sha256 : Bytes) (removal : Removal) (l : FileLocation)
      → IsListed hash s
      → IsListed hash (dispose s io sha256 removal l).0
  unfolding dispose
  IsListed-dispose s sha256 removal l h = elim (Bool-cases (is_quarantined removal)) [
    | inl moved ↦ rw moved (IsListed-quarantine_current s sha256 l h)
    | inr removed ↦ rw removed (IsListed-remove_physical_file hash io s l h)
  ]

  IsListed-sweep_if :
      (b : Bool) (s : Storage) (sha256 : Bytes)
      → IsListed hash s
      → IsListed hash (sweep_if b s io sha256).0
  unfolding sweep_if
  IsListed-sweep_if true s sha256 h = IsListed-sweep s sha256 h
  IsListed-sweep_if false s sha256 h = h

  IsListed-unindex :
      (s : Storage) (sha256 : Bytes) (l : FileLocation)
      → IsListed hash s
      → IsListed hash (unindex s sha256 l).0
  unfolding unindex
  IsListed-unindex s sha256 l h =
      elim (Bool-cases (remove_if_location_matches s.file_index sha256 l).1) [
        | inl removed ↦ rw removed (
            IsListed-mark hash
              (record s { file_index = (remove_if_location_matches s.file_index sha256 l).0 }) h)
        | inr other ↦ rw other h
      ]

  IsListed-remove_current :
      (s : Storage) (sha256 : Bytes) (removal : Removal) (expected current : Option FileMetadata)
      → IsListed hash s
      → IsListed hash (remove_current s io sha256 removal expected current).0
  unfolding remove_current
  IsListed-remove_current s sha256 removal expected none h =
      IsListed-and_do hash (sweep_if (sweeps_backend removal) s io sha256) _
        (IsListed-sweep_if (sweeps_backend removal) s sha256 h) (λ t swept k. k)
  IsListed-remove_current s sha256 removal expected (some current) h =
      elim (Bool-cases (is_expected current expected)) [
        | inr other ↦ rw other h
        | inl same ↦ rw same (
            IsListed-and_do hash (dispose s io sha256 removal current.location) _
              (IsListed-dispose s sha256 removal current.location h)
              (λ s1 gone h1.
                IsListed-and_do hash (sweep_if (sweeps_backend removal) s1 io sha256) _
                  (IsListed-sweep_if (sweeps_backend removal) s1 sha256 h1)
                  (λ s2 swept h2. IsListed-unindex s2 sha256 current.location h2)))
      ]

  pub remove_indexed_blob-IsListed :
      (s : Storage) (sha256 : Bytes) (removal : Removal) (expected : Option FileMetadata)
      → IsListed hash s
      → IsListed hash (remove_indexed_blob s io sha256 removal expected).0
  unfolding remove_indexed_blob
  remove_indexed_blob-IsListed s sha256 removal expected h =
      IsListed-remove_current s sha256 removal expected (get s.file_index.map sha256) h

  retry_removals-IsListed :
      (s : Storage) (pending : List (Bytes × FileMetadata))
      → IsListed hash s
      → IsListed hash (retry_removals s io pending).0
  unfolding retry_removals
  retry_removals-IsListed s [] h = h
  retry_removals-IsListed s ((sha256, m) ∷ pending) h =
      retry_removals-IsListed (remove_physical_file s io m.location).0 pending
        (IsListed-remove_physical_file hash io s m.location h)

  pub reconcile_superseded_blobs-IsListed :
      (s : Storage) → IsListed hash s → IsListed hash (reconcile_superseded_blobs s io)
  unfolding reconcile_superseded_blobs
  reconcile_superseded_blobs-IsListed s h =
      retry_removals-IsListed (record s { superseded_blob_deletions = [] })
        s.superseded_blob_deletions h
