-- ===== src/Listing.antt =====
-- `list_blobs` of src/handlers/list.rs: a page of the catalogue for an operator. The reading of a
-- hexadecimal public key is the parameter `from_hex`; an entry is rendered as a descriptor by the
-- handler.
pub mod Listed
pub mod Tests
use almond.Prelude.{
  ℕ, ◌-◌, ◌^◌, min, Bool, true, false, not, ◌&&◌, ◌||◌, all, any, Option, none, some, List, [], ◌∷◌,
  ◌+◌, ◌==◌, leb, ltb, if◌then◌else◌, Bytes, codes, length,
}
use almond.Text.{u64_mod, strip_prefix, contains, is_hexdigit}
use almond.Error.{AppResult, ok, err, status_code}
use almond.Auth.{Backend, AppState}
use almond.Authorization.{Authorized, authorize, bind_without_hash, list}
use almond.Retention.{FileMetadata}
use almond.BlobIndex.{Entries}
use almond.BlobIndex.Pages.{page}

-- The query, the path and the header of a request.
pub record ListRequest : Type 0 where
  pub path : Bytes
  pub authorization : Option Bytes
  pub now : ℕ
  pub since : Option ℕ
  pub until : Option ℕ
  pub cursor : Option Bytes
  pub limit : Option ℕ

pub data ListReply : Type 0 where
  listed : List (Bytes × FileMetadata) → ListReply
  refused : (status : ℕ) → ListReply

abbrev or_value : ℕ → Option ℕ → ℕ
or_value default none = default
or_value default (some n) = n

-- `unwrap_or(DEFAULT_LIST_LIMIT).clamp(1, MAX_LIST_LIMIT)`
pub clamped : Option ℕ → ℕ
clamped limit = let n = or_value 100 limit in if ltb n 1 then 1 else if ltb 1000 n then 1000 else n

-- A path that no key follows asks for no one in particular; `none` is a bad request.
module _ (from_hex : Bytes → Option ℕ) where
  abbrev parsed_key : Bytes → Option (Option ℕ)
  parsed_key value = elim (from_hex value) [ none ↦ none | some pubkey ↦ some (some pubkey) ]

  abbrev key_segment : Option Bytes → Option (Option ℕ)
  key_segment none = some none
  key_segment (some value) =
      if length value == 0 || contains b'/' value then none else parsed_key value

  pub parse_path_pubkey : Bytes → Option (Option ℕ)
  parse_path_pubkey path = key_segment (strip_prefix (codes "/list/") path)

-- `to_ascii_lowercase` of one byte.
abbrev lower : ℕ → ℕ
lower c = if leb b'A' c && leb c b'Z' then c + 32 else c

pub to_ascii_lowercase : Bytes → Bytes
to_ascii_lowercase [] = []
to_ascii_lowercase (c ∷ s) = lower c ∷ to_ascii_lowercase s

-- `none` is a bad request.
pub read_cursor : Option Bytes → Option (Option Bytes)
read_cursor none = some none
read_cursor (some cursor) =
    if length cursor == 64 && all is_hexdigit cursor
    then some (some (to_ascii_lowercase cursor))
    else none

-- The owner of the whole catalogue is every whitelisted key.
pub serves_catalog : AppState → Option ℕ → Bool
serves_catalog app none = true
serves_catalog app (some pubkey) = any (λ allowed. allowed == pubkey) app.allowed_pubkeys

module _ (from_hex : Bytes → Option ℕ) (entries : Entries) where
  abbrev pub page_for : ListRequest → Bool → Option (Option Bytes) → ListReply
  page_for r serves none = refused 400
  page_for r false (some cursor) = listed []
  page_for r true (some cursor) = listed (
      page entries (or_value 0 r.since) (or_value (u64_mod - 1) r.until) none cursor
        (clamped r.limit))

  abbrev pub for_key : AppState → ListRequest → Option (Option ℕ) → ListReply
  for_key app r none = refused 400
  for_key app r (some requested) = page_for r (serves_catalog app requested) (read_cursor r.cursor)

  abbrev pub bound_list : AppState → ListRequest → AppResult (Unit {0}) → ListReply
  bound_list app r (err e) = refused (status_code e)
  bound_list app r (ok done) = for_key app r (parse_path_pubkey from_hex r.path)

  abbrev pub authorized_list : ListRequest → AppState × AppResult Authorized → AppState × ListReply
  authorized_list r (app, err e) = (app, refused (status_code e))
  authorized_list r (app, ok a) = (app, bound_list app r (bind_without_hash a))

  pub list_blobs :
      Backend → (feature_list_enabled : Bool) → AppState → ListRequest → AppState × ListReply
  list_blobs b feature_list_enabled app r =
      if not feature_list_enabled
      then (app, refused 403)
      else authorized_list r (authorize b r.now r.authorization app list)
