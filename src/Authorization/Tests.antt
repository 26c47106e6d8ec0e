-- ===== src/Authorization/Tests.antt =====
-- An upload that is cleared, and a deletion that is presented twice.
use almond.Prelude.{◌≡◌, refl, true, false, none, some, [], ◌∷◌, arith, codes}
use almond.Error.{err, conflict}
use almond.Auth.{Event, Backend, AppState, public}
use almond.Authorization.{upload, Authorized, consume_single_use}
use almond.Authorization.Replay.{Use, after, consume_single_use-once}

abbrev event : Event
event = record {
  id = codes "e1";
  pubkey = 7;
  created_at = 50;
  kind = 24242;
  tags =
      record { kind = codes "t"; content = some (codes "upload") }
      ∷ record { kind = codes "expiration"; content = some (codes "100") }
      ∷ [];
}

abbrev backend : Backend
backend = record { decode = λ s. some event; verify = λ e. true; announced = λ p. none }

abbrev state : AppState
state = record {
  allowed_pubkeys = [];
  trusted_pubkeys = [];
  dvm_pubkeys = [];
  feature_upload_enabled = public;
  feature_mirror_enabled = public;
  auth_max_ttl_secs = 60;
  auth_require_server_tag = false;
  public_url = codes "https://example.com";
  destructive_event_replays = [];
}

abbrev cleared : Authorized
cleared = record { event = event; operation = upload; expiration = 100 }

abbrev first_use : Use
first_use = record { id = codes "e1"; expires_at = 100; now = 60 }

abbrev other_use : Use
other_use = record { id = codes "e1"; expires_at = 100; now = 70 }

consume_single_use-once_example :
    (consume_single_use (after [] (first_use ∷ other_use ∷ [])) (codes "e1") 100 80).1
    ≡ err conflict
consume_single_use-once_example =
    consume_single_use-once [] first_use (other_use ∷ []) 80 ((omega arith, λ e. refl), tt)
      (omega arith)
