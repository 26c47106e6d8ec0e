-- ===== src/Storage/Quarantine.antt =====
-- A quarantined blob cannot come back.
use mathlib.Core.List.{append_assoc, append-nil}
use almond.Prelude.{
  ℕ, ◌≡◌, ◌⊎◌, inl, inr, refl, sym, ap, ◌∙◌, Bool, true, false, Option, none, some, List, [], ◌∷◌,
  ◌++◌, ◌==◌, Bytes, get, text_eq_instance, if◌then◌else◌, any, arith, Bool-cases,
}
use almond.Text.{contains}
use almond.Text.Split.{strip_prefix-append}
use almond.Error.{AppError, ok, err, bad_request, forbidden, >>=-eq-ok, ensure->>-eq-ok}
use almond.BlobName.{is_valid_hash, require_hash, suffix, name, fan_out, object_key}
use almond.BlobName.ObjectKeys.{NoSlash, file_name-NoSlash}
use almond.Retention.{FileMetadata, FileLocation, local, BlobOrigin}
use almond.Storage.{
  Storage, Faults, Outcome, and_do, BlobPublication, root_of, completed_path,
  quarantine_name_matches, refuse_listed, ensure_not_quarantined, mark_changes_pending,
}
use almond.Storage.Listed.{IsListed}
use almond.Storage.Operations.{Operation, after_all, after_all-IsListed}
use almond.Storage.Publish.{publish_blob, drop_temp}
use almond.Storage.Remove.{
  quarantined, quarantine_current, file_name_from, or_hash, or_no_names, remove_indexed_blob,
  unindex,
}

-- Only what stands behind the last slash counts.
file_name-skip :
    (current xs ys : Bytes) → file_name_from current (xs ++ b'/' ∷ ys) ≡ file_name_from [] ys
unfolding file_name_from
file_name-skip current [] ys = refl
file_name-skip current (x ∷ xs) ys =
    file_name-skip (if x == b'/' then [] else current ++ x ∷ []) xs ys

file_name-whole :
    (current ys : Bytes) → contains b'/' ys ≡ false → file_name_from current ys ≡ current ++ ys
unfolding file_name_from contains
file_name-whole current [] h = sym (append-nil current)
file_name-whole current (y ∷ ys) h = elim (Bool-cases (y == b'/')) [
  | inl slash ↦ ground arith
  | inr other ↦
      rw other
        (file_name-whole (current ++ y ∷ []) ys (ground arith) ∙ append_assoc current (y ∷ []) ys)
]

-- The name of a completed file.
completed_path-file_name :
    (root : Bytes) (origin : BlobOrigin) (hash : Bytes) (x : Option Bytes) (e : Option ℕ)
    (path : Bytes)
    → completed_path root origin hash x e ≡ ok path
    → NoSlash x
    → (is_valid_hash hash ≡ true) × (file_name_from [] path ≡ hash ++ suffix e x)
unfolding completed_path object_key
completed_path-file_name root origin hash x e path h n =
    let (key, made, h1) = >>=-eq-ok (object_key hash x e) _ h in
    let (hs, fanned, h2) = >>=-eq-ok (fan_out hash) _ made in
    let (file, named, h3) = >>=-eq-ok (name hash e x) _ h2 in
    let checked : (is_valid_hash hash ≡ true) × (ok (hash ++ suffix e x) ≡ ok file) =
      unfold name require_hash in
      ensure->>-eq-ok (is_valid_hash hash) bad_request (ok (hash ++ suffix e x)) named in
    let (valid, h4) = checked in
    let key_is : hs.0 ++ b'/' ∷ (hs.1 ++ b'/' ∷ file) ≡ key = cc h3 in
    let path_is : root_of root origin ++ b'/' ∷ key ≡ path = cc h1 in
    let whole : path ≡ root_of root origin ++ b'/' ∷ (hs.0 ++ b'/' ∷ (hs.1 ++ b'/' ∷ file)) =
      sym path_is ∙ ap (λ k. root_of root origin ++ b'/' ∷ k) (sym key_is) in
    let plain : file ≡ hash ++ suffix e x = cc (h4) in
    (
      valid,
      ap (file_name_from []) whole
          ∙ file_name-skip [] (root_of root origin) _
          ∙ file_name-skip [] hs.0 _
          ∙ file_name-skip [] hs.1 file
          ∙ ap (file_name_from []) plain
          ∙ file_name-whole [] (hash ++ suffix e x) (file_name-NoSlash hash e x valid n),
    )

-- Such a name is recognised.
name-matches :
    (hash : Bytes) (e : Option ℕ) (x : Option Bytes)
    → quarantine_name_matches hash (hash ++ suffix e x) ≡ true
unfolding quarantine_name_matches suffix
name-matches hash none none = rw (strip_prefix-append hash [])
name-matches hash none (some x) = rw (strip_prefix-append hash (suffix none (some x)))
name-matches hash (some e) none = rw (strip_prefix-append hash (suffix (some e) none))
name-matches hash (some e) (some x) = rw (strip_prefix-append hash (suffix (some e) (some x)))

-- A quarantined file is moved, and its name is listed.
quarantine_current_listed :
    (s : Storage) (io : Faults) (sha256 path : Bytes) (t : Storage)
    → quarantine_current s io sha256 (local path) ≡ (t, ok tt)
    → t.quarantine ≡ some (or_hash sha256 (file_name_from [] path) ∷ or_no_names s.quarantine)
unfolding quarantine_current
quarantine_current_listed s io sha256 path t h = ground arith

unindex-quarantine :
    (s : Storage) (sha256 : Bytes) (l : FileLocation)
    → (unindex s sha256 l).0.quarantine ≡ s.quarantine
unfolding unindex mark_changes_pending
unindex-quarantine s sha256 l = ground arith

-- The removal is the move and then the index.
body : Storage → Faults → Bytes → FileLocation → Outcome Bool
body s io sha256 l = and_do (quarantine_current s io sha256 l) (λ s' gone. unindex s' sha256 l)

remove-body :
    (s : Storage) (io : Faults) (sha256 path : Bytes) (current : FileMetadata)
    → get s.file_index.map sha256 ≡ some current
    → current.location ≡ local path
    → remove_indexed_blob s io sha256 quarantined none ≡ body s io sha256 (local path)
unfolding remove_indexed_blob body
remove-body s io sha256 path current indexed there = rw indexed (ap (body s io sha256) there)

Outcome-cases :
    (r : Outcome (Unit {0}))
    → ((t : Storage) × (r ≡ (t, ok tt))) ⊎ ((t : Storage) × ((e : AppError) × (r ≡ (t, err e))))
Outcome-cases (t, ok a) = inl (t, refl)
Outcome-cases (t, err e) = inr (t, (e, refl))

-- A removal that succeeds has listed the name.
remove_listed :
    (s : Storage) (io : Faults) (sha256 path : Bytes) (current : FileMetadata)
    → get s.file_index.map sha256 ≡ some current
    → current.location ≡ local path
    → (remove_indexed_blob s io sha256 quarantined none).1 ≡ ok true
    → (remove_indexed_blob s io sha256 quarantined none).0.quarantine
      ≡ some (or_hash sha256 (file_name_from [] path) ∷ or_no_names s.quarantine)
unfolding body
remove_listed s io sha256 path current indexed there done =
    let same = remove-body s io sha256 path current indexed there in
    elim (Outcome-cases (quarantine_current s io sha256 (local path))) [
      | inl (t, moved) ↦
          ap (λ (o : Outcome Bool). o.0.quarantine) same
          ∙ rw moved (unindex-quarantine t sha256 (local path))
          ∙ quarantine_current_listed s io sha256 path t moved
      | inr (t, (e, failed)) ↦
          let bad : err e ≡ ok true =
            sym (ap (λ (o : Outcome Bool). o.1) same ∙ rw failed refl) ∙ done in
          cc
    ]

or_hash-append :
    (hash rest : Bytes) → is_valid_hash hash ≡ true → or_hash hash (hash ++ rest) ≡ hash ++ rest
unfolding is_valid_hash
or_hash-append [] rest valid = ground arith
or_hash-append (c ∷ hash) rest valid = refl

refuse_listed_lem :
    (hash : Bytes) (names : Option (List Bytes))
    → any (quarantine_name_matches hash) (or_no_names names) ≡ true
    → refuse_listed hash names ≡ err forbidden
refuse_listed_lem hash none listed = cc
refuse_listed_lem hash (some names) listed = rw listed refl

-- A name of the blob refuses it.
listed_refuses :
    (t : Storage) (io : Faults) (hash : Bytes)
    → is_valid_hash hash ≡ true
    → io.read_dir ≡ false
    → IsListed hash t
    → ensure_not_quarantined t io hash ≡ err forbidden
unfolding ensure_not_quarantined require_hash
listed_refuses t io hash valid reads listed =
    rw (valid, reads) (refuse_listed_lem hash t.quarantine listed)

-- The removal leaves a name of the blob in quarantine.
removed-IsListed :
    (s : Storage) (io : Faults) (origin : BlobOrigin) (sha256 path : Bytes) (x : Option Bytes)
    (e : Option ℕ) (current : FileMetadata)
    → completed_path s.root origin sha256 x e ≡ ok path
    → NoSlash x
    → get s.file_index.map sha256 ≡ some current
    → current.location ≡ local path
    → (remove_indexed_blob s io sha256 quarantined none).1 ≡ ok true
    → IsListed sha256 (remove_indexed_blob s io sha256 quarantined none).0
removed-IsListed s io origin sha256 path x e current made n indexed there done =
    let (valid, named) = completed_path-file_name s.root origin sha256 x e path made n in
    let listed =
      remove_listed s io sha256 path current indexed there done
      ∙ ap (λ f. some (or_hash sha256 f ∷ or_no_names s.quarantine)) named
      ∙ ap (λ f. some (f ∷ or_no_names s.quarantine)) (or_hash-append sha256 (suffix e x) valid) in
    rw listed (rw (name-matches sha256 e x) refl)

-- A blob whose local file was quarantined, under the path that its publication gave it, cannot be
-- published again: whatever publications, removals and reconciliations, with whatever faults, come
-- in between, while the quarantine directory can be read, a publication of the same hash is refused
-- as forbidden, drops its temporary file, and changes nothing else.
pub quarantined-publish_blob :
    (s : Storage) (io io2 : Faults) (origin : BlobOrigin) (sha256 path temp_path : Bytes)
    (x : Option Bytes) (e : Option ℕ) (current : FileMetadata) (between : List (Faults × Operation))
    (p : BlobPublication) (now : ℕ)
    → completed_path s.root origin sha256 x e ≡ ok path
    → NoSlash x
    → get s.file_index.map sha256 ≡ some current
    → current.location ≡ local path
    → (remove_indexed_blob s io sha256 quarantined none).1 ≡ ok true
    → p.sha256 ≡ sha256
    → io2.read_dir ≡ false
    → let t = after_all (remove_indexed_blob s io sha256 quarantined none).0 between in
      publish_blob t io2 temp_path p now ≡ (drop_temp t io2 temp_path, err forbidden)
unfolding publish_blob
quarantined-publish_blob s io io2 origin sha256 path temp_path x e current between p now made n
      indexed there done same reads =
    let removed = (remove_indexed_blob s io sha256 quarantined none).0 in
    let (valid, named) = completed_path-file_name s.root origin sha256 x e path made n in
    let listed : IsListed sha256 (after_all removed between) =
      after_all-IsListed sha256 removed between
        (removed-IsListed s io origin sha256 path x e current made n indexed there done) in
    let refused : ensure_not_quarantined (after_all removed between) io2 p.sha256 ≡ err forbidden =
      ap (ensure_not_quarantined (after_all removed between) io2) same
      ∙ listed_refuses (after_all removed between) io2 sha256 valid reads listed in
    rw refused refl
