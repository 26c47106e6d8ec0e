-- ===== src/Listing/Tests.antt =====
-- Two pages of a catalogue of one blob.
use almond.Prelude.{
  ℕ, ◌≡◌, refl, true, if◌then◌else◌, Option, none, some, [], ◌∷◌, codes, text_eq, Bytes, get,
  text_eq_instance,
}
use almond.Text.{strip_prefix, contains, parse_u64, split_once, is_hexdigit}
use almond.Auth.{
  AppState, Backend, Event, check_pubkey_authorization, parse_auth_header, validate_event_kind,
  verify_event_with_policy, validate_t_tag,
}
use almond.Authorization.{authorize, read_event, bind_without_hash}
use almond.BlobIndex.{Entries}
use almond.BlobIndex.Pages.{page, collect, after_cursor, is_listed}
use almond.BlobName.{is_valid_hash, require_hash}
use almond.Error.{status_code}
use almond.Retention
use almond.Retention.{FileMetadata}
use almond.Uploads.Tests.{hash, app}
use almond.Listing.{
  ListRequest, listed, refused, list_blobs, clamped, parse_path_pubkey, read_cursor, serves_catalog,
  to_ascii_lowercase,
}
use almond.Listing.Listed.{IsPermittedPage, list_blobs-IsPermittedPage}

abbrev event : Event
event = record {
  id = codes "l";
  pubkey = 7;
  created_at = 100;
  kind = 24242;
  tags =
      record { kind = codes "t"; content = some (codes "list") }
      ∷ record { kind = codes "expiration"; content = some (codes "150") }
      ∷ [];
}

abbrev backend : Backend
backend = record { decode = λ t. some event; verify = λ e. true; announced = λ p. none }

abbrev operator : AppState
operator = record app { allowed_pubkeys = 7 ∷ [] }

abbrev entry : FileMetadata
entry = record {
  location = Retention.local (codes "/s/uploads/0/1/x");
  extension = none;
  mime_type = none;
  size = 5;
  created_at = 90;
  pubkey = none;
  expiration = none;
  origin = Retention.upload;
}

abbrev entries : Entries
entries = record {
  map = (hash, entry) ∷ [];
  total_bytes = 5;
  order = (90, hash) ∷ [];
  generation = 0;
}

abbrev from_hex : Bytes → Option ℕ
from_hex t = if text_eq t (codes "07") then some 7 else some 8

abbrev request : Bytes → ListRequest
request path = record {
  path = path;
  authorization = some (codes "Nostr x");
  now = 120;
  since = some 80;
  until = none;
  cursor = none;
  limit = some 0;
}

own :
    list_blobs from_hex entries backend true operator (request (codes "/list/07"))
    ≡ (operator, listed ((hash, entry) ∷ []))
unfolding after_cursor authorize bind_without_hash check_pubkey_authorization clamped collect
    contains get is_hexdigit is_listed is_valid_hash list_blobs page parse_auth_header
    parse_path_pubkey parse_u64 read_cursor read_event require_hash serves_catalog split_once
    status_code strip_prefix text_eq to_ascii_lowercase validate_event_kind validate_t_tag
    verify_event_with_policy
own = refl

other :
    list_blobs from_hex entries backend true operator (request (codes "/list/08"))
    ≡ (operator, listed [])
unfolding after_cursor authorize bind_without_hash check_pubkey_authorization clamped collect
    contains get is_hexdigit is_listed is_valid_hash list_blobs page parse_auth_header
    parse_path_pubkey parse_u64 read_cursor read_event require_hash serves_catalog split_once
    status_code strip_prefix text_eq to_ascii_lowercase validate_event_kind validate_t_tag
    verify_event_with_policy
other = refl

two_keys :
    list_blobs from_hex entries backend true operator (request (codes "/list/07/08"))
    ≡ (operator, refused 400)
unfolding after_cursor authorize bind_without_hash check_pubkey_authorization clamped collect
    contains get is_hexdigit is_listed is_valid_hash list_blobs page parse_auth_header
    parse_path_pubkey parse_u64 read_cursor read_event require_hash serves_catalog split_once
    status_code strip_prefix text_eq to_ascii_lowercase validate_event_kind validate_t_tag
    verify_event_with_policy
two_keys = refl

list_blobs-IsPermittedPage_example :
    (true ≡ true)
    × IsPermittedPage from_hex entries backend operator operator
        (request (codes "/list/07"))
        ((hash, entry) ∷ [])
list_blobs-IsPermittedPage_example =
    list_blobs-IsPermittedPage from_hex entries backend true operator operator
      (request (codes "/list/07")) ((hash, entry) ∷ []) own
