-- ===== src/Authorization.antt =====
-- src/services/authorization.rs: which signed event may perform which operation, and the single use
-- of an event for a destructive verb. A handler runs `authorize` and then `bind`; each takes the
-- clock at its own time.
pub mod Clearance
pub mod Replay
pub mod Tests
use almond.Prelude.{
  ℕ, Bool, true, false, not, ◌&&◌, Option, none, some, List, [], ◌∷◌, leb, ◌==◌, if◌then◌else◌,
  Bytes, codes, length, HashMap, get, insert, retain, text_eq_instance,
}
use almond.Error.{
  AppError, AppResult, ok, err, unauthorized, forbidden, conflict, internal_error, ensure, ◌>>=◌,
  ◌>>◌,
}
use almond.Auth.{
  Event, Backend, AppState, FeatureMode, off, wot, dvm, public, AuthMode, strict, unrestricted,
  wot_only, dvm_only, parse_auth_header, verify_event_with_policy, validate_event_kind,
  check_pubkey_authorization, validate_upload_auth, validate_chunk_upload_auth,
  validate_delete_auth, validate_t_tag, or_err,
}

pub data Operation : Type 0 where
  upload mirror chunk_upload delete list : Operation

pub is_destructive : Operation → Bool
is_destructive delete = true
is_destructive upload = false
is_destructive mirror = false
is_destructive chunk_upload = false
is_destructive list = false

pub feature : Operation → AppState → Option FeatureMode
feature upload state = some state.feature_upload_enabled
feature chunk_upload state = some state.feature_upload_enabled
feature mirror state = some state.feature_mirror_enabled
feature delete state = none
feature list state = none

pub mode_for : FeatureMode → Bool → Option AuthMode
mode_for off has_whitelist = none
mode_for wot has_whitelist = some wot_only
mode_for dvm has_whitelist = some dvm_only
mode_for public has_whitelist = if has_whitelist then some strict else some unrestricted

-- A feature that is off refuses its operations; an operation with no feature is strict.
pub mode_of : Option FeatureMode → Bool → AppResult AuthMode
unfolding mode_for
mode_of none has_whitelist = ok strict
mode_of (some f) has_whitelist = elim (mode_for f has_whitelist) [
  | none ↦ err forbidden
  | some m ↦ ok m
]

pub record Authorized : Type 0 where
  pub event : Event
  pub operation : Operation
  pub expiration : ℕ

-- What `authorize` reads of the event before the policy on its public key.
unfoldable pub read_event : Backend → ℕ → Option Bytes → AppState → AppResult (Event × ℕ)
read_event b now header state = do
  auth_header ← or_err header
  event ← parse_auth_header b auth_header
  expiration ← verify_event_with_policy b now event state
  validate_event_kind event 24242
  ok (event, expiration)

-- `check_pubkey_authorization` may remember a DVM, so the state comes back also beside an error.
admit : Event → ℕ → Operation → AppState × AppResult (Unit {0}) → AppState × AppResult Authorized
admit event expiration operation (state, ok _) =
    (state, ok (record { event = event; operation = operation; expiration = expiration }))
admit event expiration operation (state, err e) = (state, err e)

check_read :
    Backend
    → AppState
    → Operation
    → AuthMode
    → AppResult (Event × ℕ)
    → AppState × AppResult Authorized
unfolding admit
check_read b state operation mode (err e) = (state, err e)
check_read b state operation mode (ok (event, expiration)) =
    admit event expiration operation (check_pubkey_authorization b event state mode)

with_mode :
    Backend
    → ℕ
    → Option Bytes
    → AppState
    → Operation
    → AppResult AuthMode
    → AppState × AppResult Authorized
unfolding check_read
with_mode b now header state operation (err e) = (state, err e)
with_mode b now header state operation (ok mode) =
    check_read b state operation mode (read_event b now header state)

-- `header` is the `Authorization` header, where it is there and readable.
unfoldable pub authorize :
    Backend → ℕ → Option Bytes → AppState → Operation → AppState × AppResult Authorized
unfolding with_mode mode_of feature
authorize b now header state operation =
    with_mode b now header state operation
      (mode_of (feature operation state) (not (length state.allowed_pubkeys == 0)))

-- `seen.insert(id, expires_at)` replaces the expiry also when it reports a second use.
unfoldable pub consume_single_use :
    HashMap Bytes ℕ → Bytes → ℕ → ℕ → HashMap Bytes ℕ × AppResult (Unit {0})
consume_single_use replays event_id expires_at now =
    let seen = retain (λ id expiry. leb now expiry) replays in
    (
      insert seen event_id expires_at,
      elim (get seen event_id) [ none ↦ ok tt | some _ ↦ err conflict ],
    )

pub validate_for : Operation → Event → Bytes → AppResult (Unit {0})
validate_for upload event sha256 = validate_upload_auth event sha256
validate_for mirror event sha256 = validate_upload_auth event sha256
validate_for chunk_upload event sha256 = validate_chunk_upload_auth event sha256
validate_for delete event sha256 = validate_delete_auth event sha256
validate_for list event sha256 = err internal_error

consume_for : Authorized → AppState → ℕ → Bool → AppState × AppResult (Unit {0})
consume_for a state now false = (state, ok tt)
consume_for a state now true =
    let (seen, r) =
      consume_single_use state.destructive_event_replays a.event.id a.expiration now in
    (record state { destructive_event_replays = seen }, r)

bind_checked : Authorized → AppState → ℕ → AppResult (Unit {0}) → AppState × AppResult (Unit {0})
unfolding consume_for is_destructive
bind_checked a state now (err e) = (state, err e)
bind_checked a state now (ok _) = consume_for a state now (is_destructive a.operation)

unfoldable pub bind : Authorized → AppState → Bytes → ℕ → AppState × AppResult (Unit {0})
unfolding bind_checked validate_for
bind a state sha256 now = bind_checked a state now (validate_for a.operation a.event sha256)

bind_list : Operation → Event → AppResult (Unit {0})
bind_list list event = validate_t_tag event (codes "list")
bind_list upload event = err internal_error
bind_list mirror event = err internal_error
bind_list chunk_upload event = err internal_error
bind_list delete event = err internal_error

unfoldable pub bind_without_hash : Authorized → AppResult (Unit {0})
unfolding bind_list
bind_without_hash a = bind_list a.operation a.event
