-- ===== src/Negotiation/Tests.antt =====
-- One leader, one follower, and a second leader after a failure.
use almond.Prelude.{ℕ, ◌≡◌, refl, some, codes, Bytes, get, insert, text_eq, remove}
use almond.Negotiation.{
  Negotiations, pending, ready, failed, leader, follower, claim_upstream_negotiation, send_replace,
  finish,
}
use almond.Negotiation.Leaders.{empty, claims, Reach, here, next, claim_follows_leader}

abbrev key : Bytes
key = codes "k"

claimed : Negotiations
claimed = (claim_upstream_negotiation empty key).0

follows : (claim_upstream_negotiation claimed key).1 ≡ follower 0
unfolding claimed claim_upstream_negotiation get insert text_eq
follows = refl

leads_again : (claim_upstream_negotiation (send_replace claimed 0 failed) key).1 ≡ leader 1
unfolding claimed claim_upstream_negotiation get send_replace insert text_eq
leads_again = refl

leads_after : (claim_upstream_negotiation (finish claimed key 0 ready) key).1 ≡ leader 1
unfolding claimed claim_upstream_negotiation finish get insert text_eq remove
leads_after = refl

led : claimed.guard 0 ≡ some key
unfolding claimed claim_upstream_negotiation get
led = refl

waiting : claimed.phase 0 ≡ pending
unfolding claimed claim_upstream_negotiation get
waiting = refl

reached : Reach empty claimed
unfolding claimed
reached = next here (claims key)

claim_follows_leader_example :
    (claim_upstream_negotiation claimed key ≡ (claimed, follower 0))
    × ((j : ℕ) → claimed.guard j ≡ some key → claimed.phase j ≡ pending → j ≡ 0)
claim_follows_leader_example = claim_follows_leader claimed key 0 reached led waiting
