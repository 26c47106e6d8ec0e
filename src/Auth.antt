-- ===== src/Auth.antt =====
-- src/services/auth.rs: the grammar of a BUD-11 authorization event and the checks on it.
-- An event is the record that nostr-sdk parses: a tag is its kind and its content, the second
-- element where there is one. Decoding the header (base64, UTF-8, JSON) and the signature check are
-- that library's and come as parameters; `now` is the clock in seconds. A relay query for a live
-- announcement is a parameter too, `none` standing for its failure.
pub mod Tags
pub mod Servers
pub mod Tests
use almond.Prelude.{
  ℕ, suc, ◌-◌, ◌+◌, Bool, true, false, not, ◌&&◌, ◌||◌, Option, none, some, List, [], ◌∷◌, ltb, leb,
  ◌==◌, if◌then◌else◌, Bytes, codes, text_eq, length, all, any, map, HashMap, contains_key, insert,
  nat_eq_instance,
}
use almond.Text.{is_digit, is_hexdigit, parse_u64, strip_prefix}
use almond.Error.{AppResult, ok, err, unauthorized, forbidden, ensure, ◌>>=◌, ◌>>◌}

pub record Tag : Type 0 where
  pub kind : Bytes
  pub content : Option Bytes

pub record Event : Type 0 where
  pub id : Bytes
  pub pubkey : ℕ
  pub created_at : ℕ
  pub kind : ℕ
  pub tags : List Tag

-- What the checks do not compute themselves.
pub record Backend : Type 0 where
  pub decode : Bytes → Option Event
  pub verify : Event → Bool
  pub announced : ℕ → Option Bool

pub data AuthMode : Type 0 where
  strict unrestricted wot_only dvm_only : AuthMode

-- The fields of `AppState` that authorization reads and writes.
pub data FeatureMode : Type 0 where
  off wot dvm public : FeatureMode

pub record AppState : Type 0 where
  pub allowed_pubkeys : List ℕ
  pub trusted_pubkeys : HashMap ℕ ℕ
  pub dvm_pubkeys : HashMap ℕ (Unit {0})
  pub feature_upload_enabled : FeatureMode
  pub feature_mirror_enabled : FeatureMode
  pub auth_max_ttl_secs : ℕ
  pub auth_require_server_tag : Bool
  pub public_url : Bytes
  pub destructive_event_replays : HashMap Bytes ℕ

abbrev pub or_err {ℓ} : {A : Type ℓ} → Option A → AppResult A
or_err none = err unauthorized
or_err (some a) = ok a

-- The prefix is compared as it is, and the rest of the header is decoded.
unfoldable pub parse_auth_header : Backend → Bytes → AppResult Event
parse_auth_header b auth_header = do
  rest ← or_err (strip_prefix (codes "Nostr ") auth_header)
  or_err (b.decode rest)

pub is_kind : Bytes → Tag → Bool
is_kind kind t = text_eq t.kind kind

-- `tags.iter().find(|t| t.kind() == kind)`
pub find_tag : Bytes → List Tag → Option Tag
unfolding is_kind
find_tag kind [] = none
find_tag kind (t ∷ ts) = if is_kind kind t then some t else find_tag kind ts

abbrev pub and_then {ℓ κ} : {A : Type ℓ} {B : Type κ} → Option A → (A → Option B) → Option B
and_then none f = none
and_then (some a) f = f a

pub expiration_of : Event → Option ℕ
unfolding find_tag
expiration_of event =
    and_then (find_tag (codes "expiration") event.tags) (λ t. and_then t.content parse_u64)

-- Signature, creation time and expiration. A missing expiration tag and an unreadable one are
-- refused alike.
unfoldable pub verify_event : Backend → ℕ → Event → AppResult (Unit {0})
unfolding expiration_of
verify_event b now event = do
  ensure (b.verify event) unauthorized
  ensure (not (ltb now event.created_at)) unauthorized
  exp_time ← or_err (expiration_of event)
  ensure (not (leb exp_time now)) unauthorized

pub is_domain_byte : ℕ → Bool
unfolding is_digit
is_domain_byte c = (leb b'a' c && leb c b'z') || is_digit c || c == b'-'

-- `ends_with('-')`
unfoldable pub ends_with : ℕ → Bytes → Bool
ends_with c [] = false
ends_with c (b ∷ []) = b == c
ends_with c (b ∷ d ∷ s) = ends_with c (d ∷ s)

pub starts_with_byte : ℕ → Bytes → Bool
starts_with_byte c [] = false
starts_with_byte c (b ∷ s) = b == c

pub is_label : Bytes → Bool
unfolding is_domain_byte ends_with starts_with_byte
is_label label =
    not (length label == 0)
    && leb (length label) 63
    && not (starts_with_byte b'-' label)
    && not (ends_with b'-' label)
    && all is_domain_byte label

abbrev add_to_first : ℕ → List Bytes → List Bytes
add_to_first b [] = (b ∷ []) ∷ []
add_to_first b (l ∷ ls) = (b ∷ l) ∷ ls

-- `split(c)`
unfoldable pub split : ℕ → Bytes → List Bytes
split c [] = [] ∷ []
split c (b ∷ s) = let rest = split c s in if b == c then [] ∷ rest else add_to_first b rest

unfoldable pub is_lowercase_domain : Bytes → Bool
unfolding is_label split
is_lowercase_domain domain =
    not (length domain == 0) && leb (length domain) 253 && all is_label (split b'.' domain)

-- `to_lowercase` on ASCII.
unfoldable pub to_lower : ℕ → ℕ
to_lower c = if leb b'A' c && leb c b'Z' then c + 32 else c

-- Everything before the first `/` or `:`.
pub until_delimiter : Bytes → Bytes
until_delimiter [] = []
until_delimiter (b ∷ s) = if b == b'/' || b == b':' then [] else b ∷ until_delimiter s

abbrev pub or_else {ℓ} : {A : Type ℓ} → Option A → A → A
or_else none d = d
or_else (some a) d = a

pub without_scheme : Bytes → Bytes
without_scheme url =
    or_else (strip_prefix (codes "https://") url) (or_else (strip_prefix (codes "http://") url) url)

pub extract_domain : Bytes → Bytes
unfolding without_scheme until_delimiter to_lower
extract_domain url = map to_lower (until_delimiter (without_scheme url))

pub content_is : Bytes → Tag → Bool
content_is value t = elim t.content [ none ↦ false | some c ↦ text_eq c value ]

pub has_domain : Tag → Bool
has_domain t = elim t.content [ none ↦ false | some domain ↦ is_lowercase_domain domain ]

-- The tags of one kind.
unfoldable pub tags_of : Bytes → List Tag → List Tag
unfolding is_kind
tags_of kind [] = []
tags_of kind (t ∷ ts) = if is_kind kind t then t ∷ tags_of kind ts else tags_of kind ts

pub validate_server_tags : Event → Bytes → AppResult (Unit {0})
unfolding tags_of has_domain content_is
validate_server_tags event public_url =
    let server_tags = tags_of (codes "server") event.tags in
    if length server_tags == 0 then ok tt else do
      ensure (all has_domain server_tags) unauthorized
      ensure (any (content_is (extract_domain public_url)) server_tags) unauthorized

unfoldable pub verify_event_with_policy : Backend → ℕ → Event → AppState → AppResult ℕ
unfolding verify_event validate_server_tags
verify_event_with_policy b now event state = do
  verify_event b now event
  expiration ← or_err (expiration_of event)
  ensure (leb (expiration - event.created_at) state.auth_max_ttl_secs) unauthorized
  ensure (not (state.auth_require_server_tag && not (any (is_kind (codes "server")) event.tags)))
      unauthorized
  validate_server_tags event state.public_url
  ok expiration

unfoldable pub is_allowed : ℕ → AppState → Bool
is_allowed pubkey state = any (λ p. p == pubkey) state.allowed_pubkeys

pub is_pubkey_authorized : ℕ → AppState → Bool
unfolding is_allowed
is_pubkey_authorized pubkey state =
    is_allowed pubkey state || contains_key state.trusted_pubkeys pubkey

-- A new DVM is remembered; a failed query counts as a refusal.
pub check_announcement : Option Bool → ℕ → AppState → AppState × AppResult (Unit {0})
check_announcement (some true) pubkey state =
    (record state { dvm_pubkeys = insert state.dvm_pubkeys pubkey tt }, ok tt)
check_announcement (some false) pubkey state = (state, err unauthorized)
check_announcement none pubkey state = (state, err unauthorized)

unfoldable pub check_pubkey_authorization :
    Backend → Event → AppState → AuthMode → AppState × AppResult (Unit {0})
unfolding is_allowed check_announcement
check_pubkey_authorization b event state strict =
    if length state.allowed_pubkeys == 0
    then (state, err forbidden)
    else (state, ensure (is_allowed event.pubkey state) unauthorized)
check_pubkey_authorization b event state unrestricted = (state, ok tt)
check_pubkey_authorization b event state wot_only =
    if is_allowed event.pubkey state
    then (state, ok tt)
    else (state, ensure (contains_key state.trusted_pubkeys event.pubkey) unauthorized)
check_pubkey_authorization b event state dvm_only =
    if is_allowed event.pubkey state || contains_key state.dvm_pubkeys event.pubkey
    then (state, ok tt)
    else check_announcement (b.announced event.pubkey) event.pubkey state

unfoldable pub validate_event_kind : Event → ℕ → AppResult (Unit {0})
validate_event_kind event expected_kind = ensure (event.kind == expected_kind) unauthorized

-- The first `t` tag decides.
unfoldable pub validate_t_tag : Event → Bytes → AppResult (Unit {0})
unfolding find_tag content_is
validate_t_tag event expected_verb = elim (find_tag (codes "t") event.tags) [
  | none ↦ err unauthorized
  | some t ↦ ensure (content_is expected_verb t) unauthorized
]

-- The checks on the verb and the `x` tags that the three validators of the source share.
pub validate_hash_auth : Event → Bytes → Bytes → AppResult (Unit {0})
unfolding validate_t_tag tags_of
validate_hash_auth event verb sha256 = do
  validate_t_tag event verb
  let x_tags = tags_of (codes "x") event.tags
  ensure (not (length x_tags == 0)) unauthorized
  ensure (any (content_is sha256) x_tags) unauthorized

unfoldable pub validate_upload_auth : Event → Bytes → AppResult (Unit {0})
unfolding validate_hash_auth
validate_upload_auth event expected_sha256 =
    validate_hash_auth event (codes "upload") expected_sha256

unfoldable pub validate_delete_auth : Event → Bytes → AppResult (Unit {0})
unfolding validate_hash_auth
validate_delete_auth event sha256 = validate_hash_auth event (codes "delete") sha256

unfoldable pub validate_chunk_upload_auth : Event → Bytes → AppResult (Unit {0})
unfolding validate_hash_auth
validate_chunk_upload_auth event sha256 = validate_hash_auth event (codes "upload") sha256
