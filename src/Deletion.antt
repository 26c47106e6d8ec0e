-- ===== src/Deletion.antt =====
-- `delete_blob` of src/handlers/delete.rs: a client's request to delete a blob. The response is its
-- status.
pub mod Deleted
pub mod Tests
use almond.Prelude.{
  ℕ, Bool, true, false, ◌&&◌, all, Option, none, some, ◌==◌, if◌then◌else◌, Bytes, length,
}
use almond.Text.{split_once, is_hexdigit}
use almond.Error.{AppResult, ok, err, status_code}
use almond.Auth.{Backend, AppState}
use almond.Authorization.{Authorized, authorize, bind, delete}
use almond.Storage.{Storage, Faults, Outcome}
use almond.Storage.Remove.{requested, remove_indexed_blob}

pub record DeleteRequest : Type 0 where
  pub filename : Bytes
  pub authorization : Option Bytes
  pub now : ℕ
  pub bound_at : ℕ
  pub faults : Faults

-- `No Content`, or a status that refuses.
pub data DeleteReply : Type 0 where
  no_content : DeleteReply
  refused : (status : ℕ) → DeleteReply

abbrev pub DeleteState : Type 0
DeleteState = AppState × Storage

abbrev before_dot : Bytes → Option (Bytes × Bytes) → Bytes
before_dot filename none = filename
before_dot filename (some (stem, extension)) = stem

-- `split('.').next()`
pub stem_of : Bytes → Bytes
stem_of filename = before_dot filename (split_once b'.' filename)

pub is_hash : Bytes → Bool
is_hash sha256 = length sha256 == 64 && all is_hexdigit sha256

abbrev pub removed : AppState → Outcome Bool → DeleteState × DeleteReply
removed app (s, err e) = ((app, s), refused 503)
removed app (s, ok found) = ((app, s), no_content)

abbrev pub bound_delete :
    Storage → DeleteRequest → Bytes → AppState × AppResult (Unit {0}) → DeleteState × DeleteReply
bound_delete s r sha256 (app, err e) = ((app, s), refused (status_code e))
bound_delete s r sha256 (app, ok done) =
    removed app (remove_indexed_blob s r.faults sha256 requested none)

abbrev pub authorized_delete :
    Storage → DeleteRequest → Bytes → AppState × AppResult Authorized → DeleteState × DeleteReply
authorized_delete s r sha256 (app, err e) = ((app, s), refused (status_code e))
authorized_delete s r sha256 (app, ok a) = bound_delete s r sha256 (bind a app sha256 r.bound_at)

pub delete_blob : Backend → DeleteState → DeleteRequest → DeleteState × DeleteReply
delete_blob b (app, s) r =
    let sha256 = stem_of r.filename in
    if is_hash sha256
    then authorized_delete s r sha256 (authorize b r.now r.authorization app delete)
    else ((app, s), refused 400)
