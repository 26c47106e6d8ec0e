-- ===== src/Deletion/Tests.antt =====
-- A deletion of the one blob that is stored.
use almond.BlobIndex.{remove_if_location_matches, remove_stamp}
use almond.Storage.Remove.{remove_indexed_blob, unindex}
use almond.Error.{status_code}
use almond.BlobName.{is_valid_hash, require_hash}
use almond.Text.{parse_u64, strip_prefix, split_once, is_hexdigit}
use almond.Prelude.{
  ◌≡◌, refl, true, false, none, some, [], ◌∷◌, ◌++◌, codes, text_eq, Bytes, get, insert, remove,
  contains_key, text_eq_instance, retain,
}
use almond.Auth.{
  AppState, Backend, Event, check_pubkey_authorization, parse_auth_header, validate_event_kind,
  verify_event_with_policy, validate_delete_auth,
}
use almond.Retention
use almond.Storage.{Storage, remove_physical_file}
use almond.Uploads.Tests.{hash, app, storage}
use almond.Authorization.{authorize, read_event, bind, consume_single_use}
use almond.Deletion.{DeleteRequest, no_content, refused, delete_blob, stem_of, is_hash}
use almond.Deletion.Deleted.{IsDeleted, delete_blob-IsDeleted}

abbrev event : Event
event = record {
  id = codes "d";
  pubkey = 7;
  created_at = 100;
  kind = 24242;
  tags =
      record { kind = codes "t"; content = some (codes "delete") }
      ∷ record { kind = codes "x"; content = some hash }
      ∷ record { kind = codes "expiration"; content = some (codes "150") }
      ∷ [];
}

abbrev backend : Backend
backend = record { decode = λ t. some event; verify = λ e. true; announced = λ p. none }

abbrev operator : AppState
operator = record app { allowed_pubkeys = 7 ∷ [] }

abbrev path : Bytes
path = codes "/s/uploads/0/1/" ++ hash

abbrev holding : Storage
holding = record storage {
  disk = (path, codes "hello") ∷ [];
  file_index = record {
    map =
        (
          hash,
          record {
            location = Retention.local path;
            extension = none;
            mime_type = none;
            size = 5;
            created_at = 90;
            pubkey = none;
            expiration = none;
            origin = Retention.upload;
          },
        )
        ∷ [];
    total_bytes = 5;
    order = (90, hash) ∷ [];
    generation = 0;
  };
}

abbrev request : DeleteRequest
request = record {
  filename = hash ++ codes ".png";
  authorization = some (codes "Nostr x");
  now = 120;
  bound_at = 121;
  faults = record {
    read_dir = false;
    mkdir = false;
    exists = false;
    rename = false;
    remove_file = λ p. false;
    s3_put = false;
    s3_list = false;
    s3_delete = λ key. false;
  };
}

abbrev after : AppState
after = record operator { destructive_event_replays = (codes "d", 150) ∷ [] }

abbrev emptied : Storage
emptied = record storage {
  file_index = record { map = []; total_bytes = 0; order = []; generation = 1 };
  changes_pending = true;
}

deletes : delete_blob backend (operator, holding) request ≡ ((after, emptied), no_content)
unfolding authorize bind check_pubkey_authorization consume_single_use contains_key delete_blob get
    insert is_hash is_hexdigit is_valid_hash parse_auth_header parse_u64 read_event remove
    remove_if_location_matches remove_indexed_blob remove_physical_file remove_stamp require_hash
    retain split_once status_code stem_of strip_prefix text_eq unindex validate_delete_auth
    validate_event_kind verify_event_with_policy
deletes = refl

-- The same event again.
twice : delete_blob backend (after, emptied) request ≡ ((after, emptied), refused 409)
unfolding authorize bind check_pubkey_authorization consume_single_use contains_key delete_blob get
    insert is_hash is_hexdigit is_valid_hash parse_auth_header parse_u64 read_event remove
    remove_if_location_matches remove_indexed_blob remove_physical_file remove_stamp require_hash
    retain split_once status_code stem_of strip_prefix text_eq unindex validate_delete_auth
    validate_event_kind verify_event_with_policy
twice = refl

delete_blob-IsDeleted_example : IsDeleted backend operator after emptied request
delete_blob-IsDeleted_example =
    delete_blob-IsDeleted backend operator after holding emptied request deletes
