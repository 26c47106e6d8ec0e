-- ===== src/Negotiation.antt =====
-- src/services/download.rs: who leads a negotiation with upstream and who follows it. An `Arc` is the
-- number under which it was created, so `ptr_eq` is equality; what it holds, and the key of the guard
-- of its leader, are in stores by that number. Each write lock and each `send` is one atomic step;
-- a guard's `finish` and its `drop` are two of them, between which others may run.
pub mod Leaders
pub mod Tests
use almond.Prelude.{
  ℕ, ◌+◌, Bool, true, false, Option, none, some, ◌==◌, if◌then◌else◌, Bytes, HashMap, get, insert,
  remove, text_eq_instance, update, is_current,
}

pub data NegotiationPhase : Type 0 where
  pending ready failed : NegotiationPhase

-- The map, and the stores of what its `Arc`s and the guards of leaders hold.
pub record Negotiations : Type 0 where
  pub negotiations : HashMap Bytes ℕ
  pub phase : ℕ → NegotiationPhase
  pub guard : ℕ → Option Bytes
  pub next : ℕ

pub data NegotiationClaim : Type 0 where
  leader follower : ℕ → NegotiationClaim

abbrev pub is_failed : NegotiationPhase → Bool
is_failed failed = true
is_failed pending = false
is_failed ready = false

-- A new negotiation for a key, whose claimant leads it.
pub lead : Negotiations → Bytes → Negotiations × NegotiationClaim
lead s key = (
  record {
    negotiations = insert s.negotiations key s.next;
    phase = update s.phase s.next pending;
    guard = update s.guard s.next (some key);
    next = s.next + 1;
  },
  leader s.next,
)

claim_over : Negotiations → Bytes → Option ℕ → Negotiations × NegotiationClaim
unfolding lead
claim_over s key none = lead s key
claim_over s key (some existing) =
    if is_failed (s.phase existing)
    then lead (record s { negotiations = remove s.negotiations key }) key
    else (s, follower existing)

pub claim_upstream_negotiation : Negotiations → Bytes → Negotiations × NegotiationClaim
unfolding claim_over
claim_upstream_negotiation s key = claim_over s key (get s.negotiations key)

-- `negotiation.phase.send_replace(phase)`
pub send_replace : Negotiations → ℕ → NegotiationPhase → Negotiations
send_replace s negotiation phase = record s { phase = update s.phase negotiation phase }

pub remove_negotiation : Negotiations → Bytes → ℕ → Negotiations
remove_negotiation s key negotiation =
    if is_current negotiation (get s.negotiations key)
    then record s { negotiations = remove s.negotiations key }
    else s

-- The first half of `finish` and of `drop`, and the second, which a spawned task may run later.
pub finish : Negotiations → Bytes → ℕ → NegotiationPhase → Negotiations
unfolding send_replace remove_negotiation
finish s key negotiation phase =
    remove_negotiation (send_replace s negotiation phase) key negotiation
