-- ===== src/Auth/Tests.antt =====
-- One event that authorizes an upload.
use almond.Prelude.{◌≡◌, refl, none, some, [], ◌∷◌, codes, text_eq}
use almond.Error.{ok}
use almond.Auth.{Event, validate_hash_auth, extract_domain}
use almond.Auth.Tags.{IsFirst, IsAmong, validate_hash_auth_sound}
use almond.Text.{strip_prefix}

abbrev event : Event
event = record {
  id = codes "e1";
  pubkey = 7;
  created_at = 50;
  kind = 24242;
  tags =
      record { kind = codes "t"; content = some (codes "upload") }
      ∷ record { kind = codes "x"; content = none }
      ∷ record { kind = codes "x"; content = some (codes "abc") }
      ∷ [];
}

accepted : validate_hash_auth event (codes "upload") (codes "abc") ≡ ok tt
unfolding validate_hash_auth text_eq
accepted = refl

domain : extract_domain (codes "https://Example.com:3000/path") ≡ codes "example.com"
unfolding extract_domain strip_prefix
domain = refl

validate_hash_auth_sound_example :
    IsFirst (codes "t") (codes "upload") event.tags × IsAmong (codes "x") (codes "abc") event.tags
validate_hash_auth_sound_example =
    validate_hash_auth_sound event (codes "upload") (codes "abc") accepted
