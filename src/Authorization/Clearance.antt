-- ===== src/Authorization/Clearance.antt =====
-- What a client that was cleared has shown.
use almond.Prelude.{
  ℕ, ◌-◌, ◌≤◌, ◌<◌, ◌≡◌, refl, ◌⊎◌, Bool, true, false, not, List, [], ◌∷◌, Exists, any-Exists,
  ==_iff, Option, none, some, arith, ◌==◌, Bytes, length, contains_key, Bool-cases, Option-cases,
  inl, inr, nat_eq_instance,
}
use almond.Error.{AppResult, ok, err, ensure, unauthorized, ◌>>◌, >>=-eq-ok, Result-cases}
use almond.Auth.{
  Event, Backend, AppState, AuthMode, strict, unrestricted, wot_only, dvm_only, parse_auth_header,
  verify_event, verify_event_with_policy, expiration_of, validate_event_kind, FeatureMode, off, wot,
  dvm, public, check_pubkey_authorization, is_allowed,
}
use almond.Auth.Servers.{IsForServer, validate_server_tags_sound}
use almond.Authorization.{
  upload, mirror, chunk_upload, delete, list, mode_for, Operation, Authorized, feature, mode_of,
  read_event, authorize, with_mode, check_read, admit,
}

-- What the event itself must satisfy.
pub record IsCurrent (b : Backend) (now : ℕ) (state : AppState) (event : Event) (expiration : ℕ)
    : Type 0 where
  pub signed : b.verify event ≡ true
  pub not_future : event.created_at ≤ now
  pub expires : expiration_of event ≡ some expiration
  pub not_expired : now < expiration
  pub short_lived : expiration - event.created_at ≤ state.auth_max_ttl_secs
  pub for_this_server : IsForServer state.auth_require_server_tag state.public_url event.tags

-- The mode that a feature grants, by the whitelist.
abbrev pub Grants : FeatureMode → List ℕ → AuthMode → Type 0
Grants off whitelist mode = ⊥
Grants wot whitelist mode = mode ≡ wot_only
Grants dvm whitelist mode = mode ≡ dvm_only
Grants public [] mode = mode ≡ unrestricted
Grants public (p ∷ ps) mode = mode ≡ strict

-- The mode that an operation is permitted under.
abbrev pub GrantsOperation : AppState → Operation → AuthMode → Type 0
GrantsOperation state upload mode = Grants state.feature_upload_enabled state.allowed_pubkeys mode
GrantsOperation state chunk_upload mode =
    Grants state.feature_upload_enabled state.allowed_pubkeys mode
GrantsOperation state mirror mode = Grants state.feature_mirror_enabled state.allowed_pubkeys mode
GrantsOperation state delete mode = mode ≡ strict
GrantsOperation state list mode = mode ≡ strict

mode_of-Grants :
    (f : FeatureMode) (whitelist : List ℕ) (mode : AuthMode)
    → mode_of (some f) (not (length whitelist == 0)) ≡ ok mode
    → Grants f whitelist mode
unfolding mode_of mode_for
mode_of-Grants off whitelist mode h = cc h
mode_of-Grants wot whitelist mode h = cc h
mode_of-Grants dvm whitelist mode h = cc h
mode_of-Grants public [] mode h = cc h
mode_of-Grants public (p ∷ ps) mode h =
    let some_keys : length (p ∷ ps) == 0 ≡ false = ground arith in
    let k : ok strict ≡ ok mode = rw some_keys at h in cc k

mode_of-strict :
    (has_whitelist : Bool) (mode : AuthMode) → mode_of none has_whitelist ≡ ok mode → mode ≡ strict
unfolding mode_of
mode_of-strict has_whitelist mode h = cc h

mode_of-GrantsOperation :
    (state : AppState) (operation : Operation) (mode : AuthMode)
    → mode_of (feature operation state) (not (length state.allowed_pubkeys == 0)) ≡ ok mode
    → GrantsOperation state operation mode
unfolding feature
mode_of-GrantsOperation state upload mode h = mode_of-Grants _ state.allowed_pubkeys mode h
mode_of-GrantsOperation state chunk_upload mode h = mode_of-Grants _ state.allowed_pubkeys mode h
mode_of-GrantsOperation state mirror mode h = mode_of-Grants _ state.allowed_pubkeys mode h
mode_of-GrantsOperation state delete mode h = mode_of-strict _ mode h
mode_of-GrantsOperation state list mode h = mode_of-strict _ mode h

abbrev pub IsWhitelisted : ℕ → AppState → Type 0
IsWhitelisted pubkey state = Exists (λ p. p ≡ pubkey) state.allowed_pubkeys

is_allowed-IsWhitelisted :
    (pubkey : ℕ) (state : AppState) → is_allowed pubkey state ≡ true → IsWhitelisted pubkey state
unfolding is_allowed
is_allowed-IsWhitelisted pubkey state h =
    any-Exists (λ p. p == pubkey) (λ p. p ≡ pubkey) state.allowed_pubkeys
      (λ p same. (==_iff p pubkey).0 same) h

-- Why a public key is permitted under a mode.
abbrev pub IsPermitted : Backend → AppState → ℕ → AuthMode → Type 0
IsPermitted b state pubkey strict = IsWhitelisted pubkey state
IsPermitted b state pubkey unrestricted = Unit
IsPermitted b state pubkey wot_only =
    IsWhitelisted pubkey state ⊎ (contains_key state.trusted_pubkeys pubkey ≡ true)
IsPermitted b state pubkey dvm_only =
    IsWhitelisted pubkey state
    ⊎ (contains_key state.dvm_pubkeys pubkey ≡ true)
    ⊎ (b.announced pubkey ≡ some true)

check_pubkey_authorization_sound :
    (b : Backend) (event : Event) (state : AppState) (mode : AuthMode)
    → (check_pubkey_authorization b event state mode).1 ≡ ok tt
    → IsPermitted b state event.pubkey mode
unfolding check_pubkey_authorization
check_pubkey_authorization_sound b event state strict h =
    is_allowed-IsWhitelisted event.pubkey state (ground arith)
check_pubkey_authorization_sound b event state unrestricted h = tt
check_pubkey_authorization_sound b event state wot_only h =
    elim (Bool-cases (is_allowed event.pubkey state)) [
      | inl allowed ↦ inl (is_allowed-IsWhitelisted event.pubkey state allowed)
      | inr other ↦ inr (ground arith)
    ]
check_pubkey_authorization_sound b event state dvm_only h =
    elim (Bool-cases (is_allowed event.pubkey state)) [
      | inl allowed ↦ inl (is_allowed-IsWhitelisted event.pubkey state allowed)
      | inr other ↦ inr (ground arith)
    ]

at_expiration :
    (b : Backend) (now : ℕ) (event : Event) (state : AppState) (e x : ℕ)
    → expiration_of event ≡ some x
    → verify_event_with_policy b now event state ≡ ok e
    → IsCurrent b now state event e
unfolding verify_event_with_policy verify_event
at_expiration b now event state e x found h = record {
  signed = ground arith;
  not_future = ground arith;
  expires = ground arith;
  not_expired = ground arith;
  short_lived = ground arith;
  for_this_server =
      validate_server_tags_sound state.auth_require_server_tag event state.public_url (ground arith)
        (ground arith);
}

verify_event_with_policy_sound :
    (b : Backend) (now : ℕ) (event : Event) (state : AppState) (e : ℕ)
    → verify_event_with_policy b now event state ≡ ok e
    → IsCurrent b now state event e
unfolding verify_event_with_policy verify_event
verify_event_with_policy_sound b now event state e h = elim (Option-cases (expiration_of event)) [
  | inl absent ↦ absurd (ground arith)
  | inr (x, found) ↦ at_expiration b now event state e x found h
]

-- What a cleared client has shown, and the mode that it was cleared under.
pub record IsCleared (b : Backend) (now : ℕ) (state : AppState) (operation : Operation)
    (a : Authorized) : Type 0 where
  pub mode : AuthMode
  pub granted : GrantsOperation state operation mode
  pub current : IsCurrent b now state a.event a.expiration
  pub kind : a.event.kind ≡ 24242
  pub permitted : IsPermitted b state a.event.pubkey mode
  pub operation_kept : a.operation ≡ operation

read_event_sound :
    (b : Backend) (now : ℕ) (header : Option Bytes) (state : AppState) (event : Event) (e : ℕ)
    → read_event b now header state ≡ ok (event, e)
    → (verify_event_with_policy b now event state ≡ ok e) × (event.kind ≡ 24242)
unfolding read_event validate_event_kind
read_event_sound b now none state event e h = cc
read_event_sound b now (some header) state event e h =
    let (event', parsed, h') = >>=-eq-ok (parse_auth_header b header) _ h in
    let (e', verified, h'') = >>=-eq-ok (verify_event_with_policy b now event' state) _ h' in
    read_done event' e' verified h''
  where
    read_done :
        (event' : Event) (e' : ℕ)
        → verify_event_with_policy b now event' state ≡ ok e'
        → ◌>>◌ {Next = Event × ℕ} (ensure (event'.kind == 24242) unauthorized) (ok (event', e'))
          ≡ ok (event, e)
        → (verify_event_with_policy b now event state ≡ ok e) × (event.kind ≡ 24242)
    read_done event' e' verified h'' = elim (Bool-cases (event'.kind == 24242)) [
      | inl right ↦
          let same : ◌≡◌ {A = AppResult (Event × ℕ)} (ok (event', e')) (ok (event, e)) =
            rw right at h'' in
          let event_same : event' ≡ event = cc same in
          let e_same : e' ≡ e = cc same in
          (rw (← event_same) (rw (← e_same) verified), rw (← event_same) (ground (arith, right)))
      | inr wrong ↦ cc (rw wrong at h'')
    ]

admit_sound :
    (b : Backend) (event : Event) (e : ℕ) (operation : Operation)
    (r : AppState × AppResult (Unit {0})) (a : Authorized)
    → (admit event e operation r).1 ≡ ok a
    → (r.1 ≡ ok tt) × (a.event ≡ event) × (a.expiration ≡ e) × (a.operation ≡ operation)
unfolding admit
admit_sound b event e operation (state, ok u) a h = (refl, ground arith, ground arith, ground arith)
admit_sound b event e operation (state, err x) a h = cc

pub authorize_sound :
    (b : Backend) (now : ℕ) (header : Option Bytes) (state : AppState) (operation : Operation)
    (a : Authorized)
    → (authorize b now header state operation).1 ≡ ok a
    → IsCleared b now state operation a
unfolding authorize with_mode
authorize_sound b now header state operation a h =
    elim (Result-cases
      (mode_of (feature operation state) (not (length state.allowed_pubkeys == 0)))) [
        | inl (mode, chosen) ↦ elim (Result-cases (read_event b now header state)) [
          | inl ((event, e), read) ↦
              let checked = rw (chosen, read, authorize, with_mode, check_read) at h in
              let (passed, ev, ex, op) =
                admit_sound b event e operation (check_pubkey_authorization b event state mode) a
                  checked in
              let (verified, kind) = read_event_sound b now header state event e read in
              record {
                mode = mode;
                granted = mode_of-GrantsOperation state operation mode chosen;
                current =
                    rw ev (rw ex (verify_event_with_policy_sound b now event state e verified));
                kind = rw ev kind;
                permitted = rw ev (check_pubkey_authorization_sound b event state mode passed);
                operation_kept = op;
              }
          | inr (x, failed) ↦ cc (rw (chosen, failed, authorize, with_mode, check_read) at h)
        ]
        | inr (x, refused) ↦ cc (rw (refused, authorize, with_mode) at h)
      ]
