-- ===== src/Deletion/Deleted.antt =====
-- `delete_blob` of src/handlers/delete.rs: what a deletion that succeeds has shown and removed.
use almond.Prelude.{
  ◌≡◌, refl, ap, ◌∙◌, Bool, true, none, some, Bytes, get, text_eq_instance, Bool-cases, inl, inr,
}
use almond.Error.{AppResult, ok, err, status_code}
use almond.Auth.{Backend, AppState, validate_delete_auth}
use almond.Authorization.{Authorized, authorize, bind, delete}
use almond.Authorization.Clearance.{IsCleared, authorize_sound}
use almond.Authorization.Replay.{bind_delete}
use almond.Storage.{Storage, Outcome, Faults}
use almond.Storage.Remove.{requested, remove_indexed_blob}
use almond.Storage.Remove.Unindexed.{remove_indexed_blob-gone}
use almond.Deletion.{
  DeleteRequest, DeleteReply, no_content, refused, DeleteState, stem_of, is_hash, removed,
  bound_delete, authorized_delete, delete_blob,
}

-- What is known after a request that is answered with `No Content`.
pub record IsDeleted (b : Backend) (app after : AppState) (s : Storage) (r : DeleteRequest)
    : Type 0 where
  pub hash : is_hash (stem_of r.filename) ≡ true
  pub authorized : Authorized
  pub cleared : IsCleared b r.now app delete authorized
  pub permits : validate_delete_auth authorized.event (stem_of r.filename) ≡ ok tt
  pub used : get after.destructive_event_replays authorized.event.id ≡ some authorized.expiration
  pub unindexed : get s.file_index.map (stem_of r.filename) ≡ none

removed-gone :
    (app after : AppState) (s t : Storage) (io : Faults) (sha256 : Bytes) (o : Outcome Bool)
    → remove_indexed_blob s io sha256 requested none ≡ o
    → removed app o ≡ ((after, t), no_content)
    → (app ≡ after) × (get t.file_index.map sha256 ≡ none)
removed-gone app after s t io sha256 (u, err e) made h =
    let bad : refused 503 ≡ no_content = ap (λ x. x.1) h in cc bad
removed-gone app after s t io sha256 (u, ok found) made h = (
  ap (λ (x : DeleteState × DeleteReply). x.0.0) h,
  remove_indexed_blob-gone s t io sha256 requested found
      (made ∙ ap (λ x. (x, ok found)) (ap (λ (x : DeleteState × DeleteReply). x.0.1) h)),
)

bound_delete-gone :
    (after : AppState) (s t : Storage) (r : DeleteRequest) (sha256 : Bytes)
    (o : AppState × AppResult (Unit {0}))
    → bound_delete s r sha256 o ≡ ((after, t), no_content)
    → (o ≡ (after, ok tt)) × (get t.file_index.map sha256 ≡ none)
bound_delete-gone after s t r sha256 (app, err e) h =
    let bad : refused (status_code e) ≡ no_content = ap (λ x. x.1) h in cc bad
bound_delete-gone after s t r sha256 (app, ok done) h =
    let (same, gone) = removed-gone app after s t r.faults sha256 _ refl h in
    (ap (λ x. (x, ok tt)) same, gone)

authorized_delete-IsDeleted :
    (b : Backend) (app after : AppState) (s t : Storage) (r : DeleteRequest)
    (o : AppState × AppResult Authorized)
    → is_hash (stem_of r.filename) ≡ true
    → authorize b r.now r.authorization app delete ≡ o
    → authorized_delete s r (stem_of r.filename) o ≡ ((after, t), no_content)
    → IsDeleted b app after t r
authorized_delete-IsDeleted b app after s t r (x, err e) hash made h =
    let bad : refused (status_code e) ≡ no_content = ap (λ y. y.1) h in cc bad
authorized_delete-IsDeleted b app after s t r (x, ok a) hash made h =
    let (binds, gone) =
      bound_delete-gone after s t r (stem_of r.filename) (bind a x (stem_of r.filename) r.bound_at)
        h in
    let cleared = authorize_sound b r.now r.authorization app delete a (ap (λ y. y.1) made) in
    let (permits, used) =
      bind_delete a x after (stem_of r.filename) r.bound_at cleared.operation_kept binds in
    record {
      hash = hash;
      authorized = a;
      cleared = cleared;
      permits = permits;
      used = used;
      unindexed = gone;
    }

-- A request to delete that is answered with `No Content` names a hash; `authorize` cleared its
-- client to delete, with an event that permits the deletion of that hash; the event is remembered
-- as used until it expires; and the index has no entry under the hash any more.
pub delete_blob-IsDeleted :
    (b : Backend) (app after : AppState) (s t : Storage) (r : DeleteRequest)
    → delete_blob b (app, s) r ≡ ((after, t), no_content)
    → IsDeleted b app after t r
unfolding delete_blob
delete_blob-IsDeleted b app after s t r h = elim (Bool-cases (is_hash (stem_of r.filename))) [
  | inl hash ↦ authorized_delete-IsDeleted b app after s t r _ hash refl (rw hash at h)
  | inr other ↦
      let k : ((app, s), refused 400) ≡ ((after, t), no_content) = rw other at h in
      let bad : refused 400 ≡ no_content = ap (λ x. x.1) k in cc bad
]
