-- ===== src/Negotiation/Leaders.antt =====
-- The negotiations of src/services/download.rs under every interleaving: one leader for each key.
use almond.Prelude.{
  ℕ, ◌<◌, ◌≡◌, ◌≢◌, refl, sym, ap, ◌∙◌, Option, none, some, arith, Bytes, get, remove, get-insert,
  get-remove, text_eq_iff, text_eq_instance, Bool-cases, inl, inr, is_current, [],
}
use almond.Negotiation.{
  Negotiations, NegotiationPhase, pending, ready, follower, is_failed, lead, claim_over,
  claim_upstream_negotiation, send_replace, is_current, remove_negotiation,
}

abbrev pub empty : Negotiations
empty = record { negotiations = []; phase = λ i. ready; guard = λ i. none; next = 0 }

-- A claim; the phase that a guard leaves; the removal behind it, which comes after the phase.
pub data Step (s : Negotiations) : Negotiations → Type 0 where
  claims : (key : Bytes) → Step s (claim_upstream_negotiation s key).0
  settles :
      (i : ℕ) (key : Bytes) (phase : NegotiationPhase)
      → s.guard i ≡ some key
      → phase ≢ pending
      → Step s (send_replace s i phase)
  withdraws :
      (i : ℕ) (key : Bytes)
      → s.guard i ≡ some key
      → s.phase i ≢ pending
      → Step s (remove_negotiation s key i)

pub data Reach (s : Negotiations) : Negotiations → Type 0 where
  here : Reach s s
  next : {t u : Negotiations} → Reach s t → Step t u → Reach s u

-- A pending leader is the one in the map.
pub record IsValid (s : Negotiations) : Type 0 where
  pub current :
      (i : ℕ) (key : Bytes)
      → s.guard i ≡ some key
      → s.phase i ≡ pending
      → get s.negotiations key ≡ some i
  pub old : (i : ℕ) (key : Bytes) → s.guard i ≡ some key → i < s.next

empty-IsValid : IsValid empty
empty-IsValid = record { current = λ i key h. cc; old = λ i key h. cc }

-- A key that has no pending leader can be given one.
lead-IsValid :
    (s : Negotiations) (key : Bytes)
    → IsValid s
    → ((i : ℕ) → s.guard i ≡ some key → s.phase i ≢ pending)
    → IsValid (lead s key).0
unfolding lead
lead-IsValid s key v free = record {
  current = λ i k g p.
      ground
        (arith, get-insert s.negotiations key k s.next, text_eq_iff key k, v.current i k, free i);
  old = λ i k g. ground (arith, v.old i k);
}

-- A failed entry is taken out before the key is led again.
without-IsValid :
    (s : Negotiations) (key : Bytes)
    → IsValid s
    → ((i : ℕ) → s.guard i ≡ some key → s.phase i ≢ pending)
    → IsValid (record s { negotiations = remove s.negotiations key })
without-IsValid s key v free = record {
  current = λ i k g p.
      ground (arith, get-remove s.negotiations key k, text_eq_iff key k, v.current i k, free i);
  old = v.old;
}

claim_over-IsValid :
    (s : Negotiations) (key : Bytes) (o : Option ℕ)
    → get s.negotiations key ≡ o
    → IsValid s
    → IsValid (claim_over s key o).0
unfolding claim_over
claim_over-IsValid s key none h v =
    lead-IsValid s key v (λ i g p. ground (arith, v.current i key g p))
claim_over-IsValid s key (some existing) h v = elim (Bool-cases (is_failed (s.phase existing))) [
  | inr live ↦ rw live v
  | inl over ↦
      let free : (i : ℕ) → s.guard i ≡ some key → s.phase i ≢ pending = λ i g p.
        let same : some i ≡ some existing = sym (v.current i key g p) ∙ h in
        let one : i ≡ existing = cc same in
        let q : is_failed (s.phase existing) ≡ is_failed pending =
          ap is_failed (ap s.phase (sym one) ∙ p) in
        cc (sym over ∙ q) in
      rw over (lead-IsValid _ key (without-IsValid s key v free) free)
]

claim-IsValid :
    (s : Negotiations) (key : Bytes) → IsValid s → IsValid (claim_upstream_negotiation s key).0
unfolding claim_upstream_negotiation
claim-IsValid s key v = claim_over-IsValid s key (get s.negotiations key) refl v

send_replace-IsValid :
    (s : Negotiations) (i : ℕ) (phase : NegotiationPhase)
    → phase ≢ pending
    → IsValid s
    → IsValid (send_replace s i phase)
unfolding send_replace
send_replace-IsValid s i phase h v = record {
  current = λ j k g p. ground (arith, v.current j k g);
  old = v.old;
}

remove_negotiation-IsValid :
    (s : Negotiations) (key : Bytes) (i : ℕ)
    → s.phase i ≢ pending
    → IsValid s
    → IsValid (remove_negotiation s key i)
unfolding remove_negotiation
remove_negotiation-IsValid s key i h v = elim (Bool-cases (is_current i (get s.negotiations key))) [
  | inr other ↦ rw other v
  | inl same ↦ rw same (without-IsValid s key v (λ j g p. ground (arith, v.current j key g p)))
]

Step-IsValid : {s t : Negotiations} → Step s t → IsValid s → IsValid t
Step-IsValid {s = s} (claims key) v = claim-IsValid s key v
Step-IsValid {s = s} (settles i key phase g h) v = send_replace-IsValid s i phase h v
Step-IsValid {s = s} (withdraws i key g h) v = remove_negotiation-IsValid s key i h v

Reach-IsValid : {s t : Negotiations} → IsValid s → Reach s t → IsValid t
Reach-IsValid v here = v
Reach-IsValid v (next r st) = Step-IsValid st (Reach-IsValid v r)

-- Whatever claims, phases and removals have run in whatever order, while the leader of a key is
-- pending every claim for that key follows that leader and changes nothing, and no other negotiation
-- of the key is pending.
pub claim_follows_leader :
    (s : Negotiations) (key : Bytes) (i : ℕ)
    → Reach empty s
    → s.guard i ≡ some key
    → s.phase i ≡ pending
    → (claim_upstream_negotiation s key ≡ (s, follower i))
      × ((j : ℕ) → s.guard j ≡ some key → s.phase j ≡ pending → j ≡ i)
unfolding claim_upstream_negotiation
claim_follows_leader s key i r g p =
    let v = Reach-IsValid empty-IsValid r in
    let here_now = v.current i key g p in
    (rw (here_now, p), λ j g' p'. ground (arith, v.current j key g' p'))
