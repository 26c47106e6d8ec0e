-- ===== src/Authorization/Replay.antt =====
-- A destructive event is accepted once.
use almond.Prelude.{
  ℕ, ◌≤◌, ◌≡◌, codes, refl, sym, ◌∙◌, insert, ap, Bool, true, some, List, [], ◌∷◌, arith, leb,
  le→leb, Bytes, text_eq, text_eq_refl, text_eq_iff, All, HashMap, get, retain, get-insert,
  text_eq_instance, Bool-cases, inl, inr,
}
use almond.Error.{AppResult, ok, err, conflict}
use almond.Auth.{AppState, validate_delete_auth, validate_t_tag}
use almond.Authorization.{
  consume_single_use, Authorized, delete, list, bind, bind_without_hash, bind_list, bind_checked,
  consume_for, validate_for, is_destructive,
}

-- One presentation of an event: its id, its expiration and the time.
pub record Use : Type 0 where
  pub id : Bytes
  pub expires_at : ℕ
  pub now : ℕ

pub after : HashMap Bytes ℕ → List Use → HashMap Bytes ℕ
after replays [] = replays
after replays (u ∷ us) = after (consume_single_use replays u.id u.expires_at u.now).0 us

get-retain :
    (p : Bytes → ℕ → Bool) (m : HashMap Bytes ℕ) (k : Bytes) (v : ℕ)
    → p k v ≡ true
    → get m k ≡ some v
    → get (retain p m) k ≡ some v
unfolding get retain
get-retain p [] k v h g = g
get-retain p ((j, w) ∷ m) k v h g = elim (Bool-cases (text_eq j k)) [
  | inl same ↦
      let je : j ≡ k = (text_eq_iff j k).0 same in
      let we : w ≡ v = cc (rw same at g) in
      let kept : p j w ≡ true = rw je (rw we h) in rw kept (rw same (ap some we))
  | inr other ↦ ground (arith, get-retain p m k v h)
]

consume-keeps :
    (replays : HashMap Bytes ℕ) (u : Use) (id : Bytes) (e : ℕ)
    → get replays id ≡ some e
    → u.now ≤ e
    → (u.id ≡ id → u.expires_at ≡ e)
    → get (consume_single_use replays u.id u.expires_at u.now).0 id ≡ some e
unfolding consume_single_use
consume-keeps replays u id e g early same =
    let seen = retain (λ _ expiry. leb u.now expiry) replays in
    rw (get-insert seen u.id id u.expires_at) (elim (Bool-cases (text_eq u.id id)) [
      | inl own ↦ rw own (ap some (same ((text_eq_iff u.id id).0 own)))
      | inr other ↦
          rw other (get-retain (λ _ expiry. leb u.now expiry) replays id e (le→leb u.now e early) g)
    ])

consume_self :
    (replays : HashMap Bytes ℕ) (u : Use)
    → get (consume_single_use replays u.id u.expires_at u.now).0 u.id ≡ some u.expires_at
unfolding consume_single_use
consume_self replays u =
    rw (get-insert (retain (λ _ expiry. leb u.now expiry) replays) u.id u.id u.expires_at)
      (rw (text_eq_refl u.id))

-- An event that was seen stays so while it has not expired, whatever else is presented.
after-keeps :
    (replays : HashMap Bytes ℕ) (us : List Use) (id : Bytes) (e : ℕ)
    → get replays id ≡ some e
    → All (λ u. (u.now ≤ e) × (u.id ≡ id → u.expires_at ≡ e)) us
    → get (after replays us) id ≡ some e
unfolding after
after-keeps replays [] id e g h = g
after-keeps replays (u ∷ us) id e g ((early, same), h) =
    after-keeps (consume_single_use replays u.id u.expires_at u.now).0 us id e
      (consume-keeps replays u id e g early same) h

-- Once an event has been presented, every later presentation up to its expiration is refused as a
-- conflict, whatever events are presented in between, at times up to that expiration and with each
-- id belonging to one event.
pub consume_single_use-once :
    (replays : HashMap Bytes ℕ) (first : Use) (us : List Use) (now : ℕ)
    → All (λ u. (u.now ≤ first.expires_at) × (u.id ≡ first.id → u.expires_at ≡ first.expires_at)) us
    → now ≤ first.expires_at
    → (consume_single_use (after replays (first ∷ us)) first.id first.expires_at now).1
      ≡ err conflict
unfolding consume_single_use after
consume_single_use-once replays first us now h early =
    let start = (consume_single_use replays first.id first.expires_at first.now).0 in
    let stored = after-keeps start us first.id first.expires_at (consume_self replays first) h in
    let seen =
      get-retain (λ _ expiry. leb now expiry) (after start us) first.id first.expires_at
        (le→leb now first.expires_at early) stored in
    rw (seen, consume_single_use)

bind_checked-delete :
    (a : Authorized) (state after : AppState) (now : ℕ) (o : AppResult (Unit {0}))
    → a.operation ≡ delete
    → bind_checked a state now o ≡ (after, ok tt)
    → (o ≡ ok tt) × (get after.destructive_event_replays a.event.id ≡ some a.expiration)
unfolding bind_checked consume_for consume_single_use is_destructive
bind_checked-delete a state after now (err e) op h =
    let bad : err e ≡ ok tt = ap (λ x. x.1) h in cc bad
bind_checked-delete a state after now (ok done) op h =
    let seen = retain (λ id expiry. leb now expiry) state.destructive_event_replays in
    let used : bind_checked a state now (ok done) ≡ consume_for a state now true = rw op refl in
    let k : consume_for a state now true ≡ (after, ok tt) = sym used ∙ h in
    let kept : insert seen a.event.id a.expiration ≡ after.destructive_event_replays =
      ap (λ (x : AppState × AppResult (Unit {0})). x.0.destructive_event_replays) k in
    (
      refl,
      rw (← kept)
          (get-insert seen a.event.id a.event.id a.expiration ∙ rw (text_eq_refl a.event.id) refl),
    )

-- A deletion that is bound to a hash has an event that permits it, which is now remembered.
pub bind_delete :
    (a : Authorized) (state after : AppState) (sha256 : Bytes) (now : ℕ)
    → a.operation ≡ delete
    → bind a state sha256 now ≡ (after, ok tt)
    → (validate_delete_auth a.event sha256 ≡ ok tt)
      × (get after.destructive_event_replays a.event.id ≡ some a.expiration)
unfolding bind validate_for
bind_delete a state after sha256 now op h =
    let (valid, used) =
      bind_checked-delete a state after now (validate_for a.operation a.event sha256) op h in
    let at_delete : validate_for a.operation a.event sha256 ≡ validate_delete_auth a.event sha256 =
      rw op refl in
    (sym at_delete ∙ valid, used)

-- A request that is bound to no hash has an event for listing.
pub bind_without_hash-list :
    (a : Authorized)
    → a.operation ≡ list
    → bind_without_hash a ≡ ok tt
    → validate_t_tag a.event (codes "list") ≡ ok tt
unfolding bind_without_hash bind_list
bind_without_hash-list a op h =
    let at_list : bind_without_hash a ≡ validate_t_tag a.event (codes "list") = rw op refl in
    sym at_list ∙ h
