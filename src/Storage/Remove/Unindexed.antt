-- ===== src/Storage/Remove/Unindexed.antt =====
-- `remove_indexed_blob` of src/services/file_storage.rs: what a removal leaves in the index.
use almond.Prelude.{
  ◌≡◌, refl, sym, ap, ◌∙◌, Bool, true, false, none, some, Bytes, get, text_eq_instance, arith,
  if◌then◌else◌, Option-cases, inl, inr,
}
use almond.Error.{AppResult, ok, err}
use almond.Retention.{FileMetadata, FileLocation, local, s3}
use almond.BlobIndex.{remove_if_location_matches}
use almond.BlobIndex.Removals.{remove_if_location_matches-gone}
use almond.Storage.{Storage, Faults, Outcome, and_do, mark_changes_pending}
use almond.Storage.Remove.{
  Removal, dispose, quarantine_current, sweep_if, sweeps_backend, sweep_backend_copies,
  sweep_objects, unindex, remove_current, remove_indexed_blob,
}
use almond.Storage.Stored.{remove_physical_file-index}

sweep_objects-index :
    (s : Storage) (io : Faults) (sha256 : Bytes) (prefix : AppResult Bytes)
    → (sweep_objects s io sha256 prefix).0.file_index ≡ s.file_index
unfolding sweep_objects
sweep_objects-index s io sha256 (err e) = refl
sweep_objects-index s io sha256 (ok prefix) = ground arith

sweep_backend_copies-index :
    (s : Storage) (io : Faults) (sha256 : Bytes)
    → (sweep_backend_copies s io sha256).0.file_index ≡ s.file_index
unfolding sweep_backend_copies
sweep_backend_copies-index s io sha256 = ground (arith, sweep_objects-index s io sha256)

sweep_if-index :
    (swept : Bool) (s : Storage) (io : Faults) (sha256 : Bytes)
    → (sweep_if swept s io sha256).0.file_index ≡ s.file_index
unfolding sweep_if
sweep_if-index false s io sha256 = refl
sweep_if-index true s io sha256 = sweep_backend_copies-index s io sha256

quarantine_current-index :
    (s : Storage) (io : Faults) (sha256 : Bytes) (l : FileLocation)
    → (quarantine_current s io sha256 l).0.file_index ≡ s.file_index
unfolding quarantine_current
quarantine_current-index s io sha256 (s3 key) = sweep_backend_copies-index s io sha256
quarantine_current-index s io sha256 (local path) = ground arith

dispose-index :
    (s : Storage) (io : Faults) (sha256 : Bytes) (removal : Removal) (l : FileLocation)
    → (dispose s io sha256 removal l).0.file_index ≡ s.file_index
unfolding dispose
dispose-index s io sha256 removal l =
    ground (arith, quarantine_current-index s io sha256 l, remove_physical_file-index s io l)

and_do-eq-ok :
    {A B : Type 0} (o : Outcome A) (next : Storage → A → Outcome B) (t : Storage) (b : B)
    → and_do o next ≡ (t, ok b)
    → (a : A) × (next o.0 a ≡ (t, ok b))
and_do-eq-ok (s, ok a) next t b h = (a, h)
and_do-eq-ok (s, err e) next t b h = let bad : err e ≡ ok b = ap (λ x. x.1) h in cc bad

marked-index :
    (s : Storage) (removed : Bool)
    → (if removed then mark_changes_pending s else s).file_index ≡ s.file_index
unfolding mark_changes_pending
marked-index s true = refl
marked-index s false = refl

unindex-gone :
    (s t : Storage) (sha256 : Bytes) (m : FileMetadata) (b : Bool)
    → get s.file_index.map sha256 ≡ some m
    → unindex s sha256 m.location ≡ (t, ok b)
    → get t.file_index.map sha256 ≡ none
unfolding unindex mark_changes_pending
unindex-gone s t sha256 m b found h =
    let index = (remove_if_location_matches s.file_index sha256 m.location).0 in
    let same : index ≡ t.file_index =
      sym (marked-index (record s { file_index = index }) _)
      ∙ ap (λ (x : Outcome Bool). x.0.file_index) h in
    ap (λ e. get e.map sha256) (sym same)
    ∙ remove_if_location_matches-gone s.file_index sha256 m found

pub remove_indexed_blob-gone :
    (s t : Storage) (io : Faults) (sha256 : Bytes) (removal : Removal) (b : Bool)
    → remove_indexed_blob s io sha256 removal none ≡ (t, ok b)
    → get t.file_index.map sha256 ≡ none
unfolding remove_indexed_blob remove_current
remove_indexed_blob-gone s t io sha256 removal b h =
    elim (Option-cases (get s.file_index.map sha256)) [
      | inl absent ↦
          let k : and_do (sweep_if (sweeps_backend removal) s io sha256)
                (λ s' swept. (s', ok false))
              ≡ (t, ok b) =
            rw absent at h in
          let (done, last) = and_do-eq-ok (sweep_if (sweeps_backend removal) s io sha256) _ t b k in
          let same = ap (λ (x : Outcome Bool). x.0.file_index) last in
          ap (λ e. get e.map sha256)
            (sym same ∙ sweep_if-index (sweeps_backend removal) s io sha256)
          ∙ absent
      | inr (m, found) ↦
          let d = dispose s io sha256 removal m.location in
          let (gone, k) = and_do-eq-ok d _ t b (rw found at h) in
          let (swept, last) =
            and_do-eq-ok (sweep_if (sweeps_backend removal) d.0 io sha256) _ t b k in
          let kept =
            sweep_if-index (sweeps_backend removal) d.0 io sha256
            ∙ dispose-index s io sha256 removal m.location in
          unindex-gone (sweep_if (sweeps_backend removal) d.0 io sha256).0 t sha256 m b
            (ap (λ e. get e.map sha256) kept ∙ found) last
    ]
