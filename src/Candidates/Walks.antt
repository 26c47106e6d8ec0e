-- ===== src/Candidates/Walks.antt =====
-- The walk of src/services/upstream_candidates.rs to its end: it stops, and what it yields.
use mathlib.Core.Path.{subst}
use almond.Prelude.{
  ℕ, zero, suc, ◌+◌, ◌≤◌, ◌<◌, ◌≡◌, refl, ◌∙◌, Bool, true, false, Option, none, some, List, [], ◌∷◌,
  ◌++◌, arith, All, length, length-append, Bytes, text_eq, text_eq_iff, text_eq_instance,
  contains_key, contains_key-insert, insert, if◌then◌else◌, Bool-cases, inl, inr,
}
use almond.Text.{trim_end_matches}
use almond.Error.{AppResult, ok, err, >>=-eq-ok}
use almond.Ssrf.{validate_url_for_ssrf, validate_upstream_url, normalize_server_url}
use almond.Candidates.{
  Tier, Candidate, Hint, Seen, Context, Walk, try_hint, add_servers, drain, drained, user_hints,
  fetched, take_user_servers, next_drained, next, walk, continue, new, plan,
}

-- A server that passed the address checks, and the URL of the blob there.
pub record IsCandidate (ctx : Context) (c : Candidate) : Type 0 where
  pub validated : validate_url_for_ssrf ctx.net c.base ≡ ok tt
  pub addressed : c.url ≡ trim_end_matches b'/' c.base ++ b'/' ∷ ctx.filename

validate_upstream_url-validated :
    (ctx : Context) (hint base : Bytes)
    → validate_upstream_url ctx.net hint ≡ ok base
    → validate_url_for_ssrf ctx.net base ≡ ok tt
unfolding validate_upstream_url
validate_upstream_url-validated ctx hint base h =
    let (done, passed, same) =
      >>=-eq-ok (validate_url_for_ssrf ctx.net (normalize_server_url hint)) _ h in
    let e : normalize_server_url hint ≡ base = cc same in rw (← e) passed

-- What one call may return, from the servers tried before it and a bound on what is pending.
abbrev IsNext : Context → ℕ → Seen → Seen → ℕ → Option Candidate → Type 0
IsNext ctx n tried tried' n' none = (tried' ≡ tried) × (n' ≤ n)
IsNext ctx n tried tried' n' (some c) =
    (contains_key tried c.base ≡ false)
    × (tried' ≡ insert tried c.base tt)
    × IsCandidate ctx c
    × (n' < n)

IsNext-later :
    (ctx : Context) (n : ℕ) (tried : Seen) (r : Option Candidate × List Hint × Seen)
    → IsNext ctx n tried r.2 (length r.1) r.0
    → IsNext ctx (suc n) tried r.2 (length r.1) r.0
IsNext-later ctx n tried (none, p, t) h = (h.0, omega (arith, h.1))
IsNext-later ctx n tried (some c, p, t) h = (h.0, h.1, h.2, omega (arith, h.3))

try_hint-IsNext :
    (ctx : Context) (tier : Tier) (hint : Bytes) (pending : List Hint) (tried : Seen)
    (skip : Option Candidate × List Hint × Seen) (r : AppResult Bytes)
    → validate_upstream_url ctx.net hint ≡ r
    → IsNext ctx (length pending) tried skip.2 (length skip.1) skip.0
    → let (c, pending', tried') = try_hint ctx tier pending tried skip r in
      IsNext ctx (suc (length pending)) tried tried' (length pending') c
unfolding try_hint
try_hint-IsNext ctx tier hint pending tried skip (err e) v h =
    IsNext-later ctx (length pending) tried skip h
try_hint-IsNext ctx tier hint pending tried skip (ok base) v h =
    elim (Bool-cases (contains_key tried base)) [
      | inl old ↦ rw old (IsNext-later ctx (length pending) tried skip h)
      | inr fresh ↦ rw fresh (
        fresh,
        refl,
        record { validated = validate_upstream_url-validated ctx hint base v; addressed = refl },
        omega arith,
      )
    ]

drain-IsNext :
    (ctx : Context) (pending : List Hint) (tried : Seen)
    → let (c, pending', tried') = drain ctx pending tried in
      IsNext ctx (length pending) tried tried' (length pending') c
unfolding drain
drain-IsNext ctx [] tried = (refl, omega arith)
drain-IsNext ctx ((tier, hint) ∷ pending) tried =
    try_hint-IsNext ctx tier hint pending tried (drain ctx pending tried)
      (validate_upstream_url ctx.net hint) refl (drain-IsNext ctx pending tried)

-- The hints that the author's servers can still add.
abbrev hints_of_fetched : Option (List Bytes) → List Hint
hints_of_fetched none = []
hints_of_fetched (some servers) = user_hints servers

abbrev pub author_hints : Context → List Hint
author_hints ctx = hints_of_fetched (fetched ctx)

abbrev pub potential : Context → Walk → ℕ
potential ctx w =
    length w.pending + (if w.user_servers_pending then length (author_hints ctx) else 0)

IsNext-mono :
    (ctx : Context) (n m k l : ℕ) (s t t' : Seen) (c : Option Candidate)
    → s ≡ t
    → n + l ≤ m + k
    → IsNext ctx n s t' k c
    → IsNext ctx m t t' l c
IsNext-mono ctx n m k l s t t' none e le h = (h.0 ∙ e, omega (arith, h.1))
IsNext-mono ctx n m k l s t t' (some c) e le h =
    (rw (← e) h.0, rw (← e) h.1, h.2, omega (arith, h.3))

drained-IsNext :
    (ctx : Context) (w : Walk)
    → let (w', c) = drained ctx w in
      IsNext ctx (potential ctx w) w.tried w'.tried (potential ctx w') c
drained-IsNext ctx w =
    IsNext-mono ctx (length w.pending) (potential ctx w) (length (drain ctx w.pending w.tried).1)
      (potential ctx (drained ctx w).0) w.tried w.tried (drain ctx w.pending w.tried).2
      (drain ctx w.pending w.tried).0 refl (omega arith) (drain-IsNext ctx w.pending w.tried)

add-potential :
    (ctx : Context) (w : Walk) (o : Option (List Bytes))
    → fetched ctx ≡ o
    → w.user_servers_pending ≡ true
    → ((add_servers w o).0.tried ≡ w.tried) × (potential ctx (add_servers w o).0 ≤ potential ctx w)
unfolding add_servers
add-potential ctx w none h on = (refl, ground arith)
add-potential ctx w (some servers) h on =
    (refl, ground (arith, length-append w.pending (user_hints servers)))

abbrev Kept : Context → Walk → Walk × Bool → Type 0
Kept ctx w r = (r.0.tried ≡ w.tried) × (potential ctx r.0 ≤ potential ctx w)

take_user_servers-Kept : (ctx : Context) (w : Walk) → Kept ctx w (take_user_servers ctx w)
take_user_servers-Kept ctx w = elim (Bool-cases w.user_servers_pending) [
  | inl on ↦
      let same : add_servers w (fetched ctx) ≡ take_user_servers ctx w =
        unfold take_user_servers in ground arith in
      subst (Kept ctx w) same (add-potential ctx w (fetched ctx) refl on)
  | inr off ↦
      let same : (w, false) ≡ take_user_servers ctx w = unfold take_user_servers in ground arith in
      subst (Kept ctx w) same (refl, omega arith)
]

abbrev IsResult : Context → Walk → Walk × Option Candidate → Type 0
IsResult ctx w r = IsNext ctx (potential ctx w) w.tried r.0.tried (potential ctx r.0) r.1

next_drained-IsResult :
    (ctx : Context) (w w1 : Walk) (c : Option Candidate)
    → IsResult ctx w (w1, c)
    → IsResult ctx w (next_drained ctx w1 c)
next_drained-IsResult ctx w w1 (some c) h = h
next_drained-IsResult ctx w w1 none h =
    let w2 = (take_user_servers ctx w1).0 in
    let k = take_user_servers-Kept ctx w1 in
    elim (Bool-cases (take_user_servers ctx w1).1) [
      | inl added ↦
          let same : drained ctx w2 ≡ next_drained ctx w1 none = rw added in
          subst (IsResult ctx w) same (
            IsNext-mono ctx (potential ctx w2) (potential ctx w) (potential ctx (drained ctx w2).0)
              (potential ctx (drained ctx w2).0) w2.tried w.tried (drained ctx w2).0.tried
              (drained ctx w2).1 (k.0 ∙ h.0) (omega (arith, h.1, k.1)) (drained-IsNext ctx w2))
      | inr ended ↦
          let same : (w2, none) ≡ next_drained ctx w1 none = rw ended in
          subst (IsResult ctx w) same (k.0 ∙ h.0, omega (arith, h.1, k.1))
    ]

next-IsResult : (ctx : Context) (w : Walk) → IsResult ctx w (next ctx w)
unfolding next
next-IsResult ctx w =
    next_drained-IsResult ctx w (drained ctx w).0 (drained ctx w).1 (drained-IsNext ctx w)

-- Candidates after some servers have been tried.
IsFresh : Context → Seen → List Candidate → Type 0
IsFresh ctx tried [] = Unit
IsFresh ctx tried (c ∷ cs) =
    (contains_key tried c.base ≡ false)
    × IsCandidate ctx c
    × IsFresh ctx (insert tried c.base tt) cs

continue-IsFresh :
    (ctx : Context) (w : Walk) (fuel : ℕ) (r : Walk × Option Candidate)
    → IsResult ctx w r
    → potential ctx w < suc fuel
    → ((w' : Walk)
        → potential ctx w' < fuel
        → (cs : List Candidate) × (walk fuel ctx w' ≡ some cs) × IsFresh ctx w'.tried cs)
    → (cs : List Candidate) × (continue r (walk fuel ctx) ≡ some cs) × IsFresh ctx w.tried cs
unfolding IsFresh
continue-IsFresh ctx w fuel (w', none) h b rest = ([], refl, tt)
continue-IsFresh ctx w fuel (w', some c) h b rest =
    let (cs, found, fresh) = rest w' (omega (arith, h.3)) in
    (c ∷ cs, rw found, (h.0, h.2, subst (λ t. IsFresh ctx t cs) h.1 fresh))

walk-IsFresh :
    (ctx : Context) (fuel : ℕ) (w : Walk)
    → potential ctx w < fuel
    → (cs : List Candidate) × (walk fuel ctx w ≡ some cs) × IsFresh ctx w.tried cs
unfolding walk
walk-IsFresh ctx zero w h = absurd (omega arith)
walk-IsFresh ctx (suc fuel) w h =
    continue-IsFresh ctx w fuel (next ctx w) (next-IsResult ctx w) h (walk-IsFresh ctx fuel)

-- No two candidates have the same server.
abbrev pub IsDistinct : List Candidate → Type 0
IsDistinct [] = Unit
IsDistinct (c ∷ cs) = All (λ d. text_eq c.base d.base ≡ false) cs × IsDistinct cs

fresh_differ :
    (ctx : Context) (tried : Seen) (base : Bytes) (cs : List Candidate)
    → contains_key tried base ≡ true
    → IsFresh ctx tried cs
    → All (λ d. text_eq base d.base ≡ false) cs
unfolding IsFresh
fresh_differ ctx tried base [] h f = tt
fresh_differ ctx tried base (d ∷ cs) h f = (
  ground (arith, text_eq_iff base d.base, f.0),
  fresh_differ ctx (insert tried d.base tt) base cs
      (ground (arith, contains_key-insert tried d.base base tt)) f.2,
)

IsFresh-IsDistinct :
    (ctx : Context) (tried : Seen) (cs : List Candidate)
    → IsFresh ctx tried cs
    → IsDistinct cs × All (IsCandidate ctx) cs
unfolding IsFresh
IsFresh-IsDistinct ctx tried [] f = (tt, tt)
IsFresh-IsDistinct ctx tried (c ∷ cs) f =
    let (distinct, valid) = IsFresh-IsDistinct ctx (insert tried c.base tt) cs f.2 in
    (
      (
        fresh_differ ctx (insert tried c.base tt) c.base cs
            (ground (arith, contains_key-insert tried c.base c.base tt, text_eq_iff c.base c.base))
            f.2,
        distinct,
      ),
      (f.1, valid),
    )

-- A caller that asks a new walk for its next candidate until there is none comes to an end, within as
-- many calls as the plan and the author's list have hints, and one more. The candidates that it was
-- given name pairwise different servers, each passed the address checks, and each URL is the blob's
-- file name at that server.
pub walk_ends :
    (ctx : Context) (origin : Option Bytes) (xs_servers : Option (List Bytes))
    (servers : List Bytes) (fuel : ℕ)
    → length (plan origin xs_servers servers) + length (author_hints ctx) < fuel
    → (cs : List Candidate) × (walk fuel ctx (new ctx origin xs_servers servers) ≡ some cs)
      × IsDistinct cs
      × All (IsCandidate ctx) cs
unfolding new
walk_ends ctx origin xs_servers servers fuel h =
    let w = new ctx origin xs_servers servers in
    let (cs, found, fresh) = walk-IsFresh ctx fuel w (ground arith) in
    let (distinct, valid) = IsFresh-IsDistinct ctx [] cs fresh in (cs, found, distinct, valid)
