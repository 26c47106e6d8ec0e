-- ===== src/Ssrf/Redirects.antt =====
-- `fetch_from_url` of src/services/upload.rs: what it asks and what it returns, over all redirects.
use almond.Prelude.{
  ℕ, zero, suc, ◌+◌, ◌≤◌, ◌≡◌, ◌≢◌, ◌⊎◌, inl, inr, refl, true, false, not, ◌||◌, Option, none, some,
  List, [], ◌∷◌, ◌==◌, arith, All, length, Bytes, Bool-cases, Option-cases,
}
use mathlib.Core.Path.{subst}
use almond.Error.{
  AppResult, ok, err, ensure->>-eq-ok, >>=-eq-ok, Result-cases, bad_request, bad_gateway, or_refuse,
}
use almond.Ssrf.{
  IpAddr, is_private_ip, is_fips_hostname, is_fips_overlay_ip, is_reachable, reachable,
  addresses_of, Lookup, timed_out, failed, found, is_allowed_scheme, resolve_public_target,
  ResolvedTarget, Net, Url, Response, no_answer, answer, Step, done, follow, after_answer,
  fetch_rounds, fetch_from_url, next_round, max_redirects, within, joined, redirect, Fetched,
  or_else, is_allowed_private_upstream_ip,
}

-- Publicly routable, or an overlay address of an overlay host.
abbrev pub IsRoutable : Bytes → IpAddr → Type 0
IsRoutable host ip =
    (is_private_ip ip ≡ false) ⊎ ((is_fips_hostname host ≡ true) × (is_fips_overlay_ip ip ≡ true))

pub record IsSafe (t : ResolvedTarget) : Type 0 where
  pub routable : All (IsRoutable t.host) t.addresses
  pub resolved : length t.addresses ≢ 0
  pub allowed : is_allowed_scheme t.url.scheme t.host ≡ true

reachable-IsRoutable :
    (host : Bytes) (ips : List IpAddr) → All (IsRoutable host) (reachable host ips)
unfolding reachable is_reachable is_allowed_private_upstream_ip
reachable-IsRoutable host [] = tt
reachable-IsRoutable host (ip ∷ ips) = ground (arith, reachable-IsRoutable host ips)

addresses_of-IsRoutable :
    (host : Bytes) (l : Lookup) (ips : List IpAddr)
    → addresses_of host l ≡ ok ips
    → All (IsRoutable host) ips
unfolding addresses_of
addresses_of-IsRoutable host timed_out ips h = cc
addresses_of-IsRoutable host failed ips h = cc
addresses_of-IsRoutable host (found l) ips h =
    let same : reachable host l ≡ ips = cc h in rw (← same) (reachable-IsRoutable host l)

resolve-IsSafe :
    (net : Net) (url : Bytes) (t : ResolvedTarget) → resolve_public_target net url ≡ ok t → IsSafe t
unfolding resolve_public_target
resolve-IsSafe net url t h =
    let (parsed, read, h1) = >>=-eq-ok (or_refuse (net.parse_url url)) _ h in
    let (host, named, h2) = >>=-eq-ok (or_refuse parsed.host) _ h1 in
    let (scheme, h3) = ensure->>-eq-ok (is_allowed_scheme parsed.scheme host) bad_request _ h2 in
    let (ips, looked, h4) =
      >>=-eq-ok (addresses_of host (net.lookup_host host (or_else parsed.port 443))) _ h3 in
    let (some_left, h5) = ensure->>-eq-ok (not (length ips == 0)) bad_request _ h4 in
    let same : record { url = parsed; host = host; addresses = ips } ≡ t = cc h5 in
    subst IsSafe same (record {
      routable = addresses_of-IsRoutable host _ ips looked;
      resolved = λ e. ground arith;
      allowed = scheme;
    })

-- What a fetch may end with.
abbrev pub IsSuccess : AppResult Response → Type 0
IsSuccess (err e) = Unit
IsSuccess (ok no_answer) = ⊥
IsSuccess (ok (answer status location)) = within 200 299 status ≡ true

Step-cases : (s : Step) → ((r : AppResult Response) × (s ≡ done r)) ⊎ ((u : Bytes) × (s ≡ follow u))
Step-cases (done r) = inl (r, refl)
Step-cases (follow u) = inr (u, refl)

redirect-IsSuccess :
    (net : Net) (url : Url) (location : Option Bytes) (r : AppResult Response)
    → redirect net url location ≡ done r
    → IsSuccess r
redirect-IsSuccess net url none r h =
    let same : err bad_gateway ≡ r = cc h in subst IsSuccess same tt
redirect-IsSuccess net url (some location) r h = elim (Option-cases (net.join url location)) [
  | inl bad ↦
      let k : joined none ≡ done r = rw bad at h in
      let same : err bad_gateway ≡ r = cc k in subst IsSuccess same tt
  | inr (u, good) ↦ let k : joined (some u) ≡ done r = rw good at h in cc k
]

after_answer-IsSuccess :
    (net : Net) (t : ResolvedTarget) (redirects : ℕ) (a : Response) (r : AppResult Response)
    → after_answer net t redirects a ≡ done r
    → IsSuccess r
unfolding after_answer
after_answer-IsSuccess net t redirects no_answer r h =
    let same : err bad_gateway ≡ r = cc h in subst IsSuccess same tt
after_answer-IsSuccess net t redirects (answer status location) r h =
    elim (Bool-cases (within 200 299 status)) [
      | inl good ↦
          let k : done (ok (answer status location)) ≡ done r = rw good at h in
          let same : ok (answer status location) ≡ r = cc k in subst IsSuccess same good
      | inr other ↦ elim (Bool-cases (not (within 300 399 status) || redirects == max_redirects)) [
        | inl stops ↦ let same : err bad_gateway ≡ r = ground arith in subst IsSuccess same tt
        | inr moves ↦ redirect-IsSuccess net t.url location r (ground arith)
      ]
    ]

-- The last iteration follows nothing.
last-stops :
    (net : Net) (t : ResolvedTarget) (a : Response) (u : Bytes)
    → after_answer net t max_redirects a ≢ follow u
unfolding after_answer
last-stops net t no_answer u h = cc
last-stops net t (answer status location) u h = ground arith

pub record IsBounded (rounds : ℕ) (f : Fetched) : Type 0 where
  pub safe : All IsSafe f.0
  pub few : length f.0 ≤ rounds
  pub ended : (r : AppResult Response) × (f.1 ≡ some r) × IsSuccess r

fetch_step-IsBounded :
    (net : Net) (rounds redirects : ℕ) (t : ResolvedTarget) (s : Step)
    → IsSafe t
    → after_answer net t redirects (net.send t) ≡ s
    → ((u : Bytes) → s ≡ follow u → IsBounded rounds (fetch_rounds net rounds (redirects + 1) u))
    → IsBounded (suc rounds) (next_round t (fetch_rounds net rounds (redirects + 1)) s)
fetch_step-IsBounded net rounds redirects t (done r) safe e more = record {
  safe = (safe, tt);
  few = omega arith;
  ended = (r, refl, after_answer-IsSuccess net t redirects (net.send t) r e);
}
fetch_step-IsBounded net rounds redirects t (follow u) safe e more = record {
  safe = (safe, (more u refl).safe);
  few = omega (arith, (more u refl).few);
  ended = (more u refl).ended;
}

fetch_rounds-IsBounded :
    (net : Net) (rounds redirects : ℕ) (url : Bytes)
    → redirects + rounds ≡ max_redirects
    → IsBounded (suc rounds) (fetch_rounds net (suc rounds) redirects url)
unfolding fetch_rounds
fetch_rounds-IsBounded net zero redirects url h =
    elim (Result-cases (resolve_public_target net url)) [
      | inr (e, refused) ↦
          rw refused (record { safe = tt; few = omega arith; ended = (err e, refl, tt) })
      | inl (t, resolved) ↦
          let last : redirects ≡ max_redirects = omega arith in
          rw resolved (
            fetch_step-IsBounded net zero redirects t (after_answer net t redirects (net.send t))
              (resolve-IsSafe net url t resolved) refl
              (λ u e. absurd (last-stops net t (net.send t) u (rw last at e))))
    ]
fetch_rounds-IsBounded net (suc rounds) redirects url h =
    elim (Result-cases (resolve_public_target net url)) [
      | inr (e, refused) ↦
          rw refused (record { safe = tt; few = omega arith; ended = (err e, refl, tt) })
      | inl (t, resolved) ↦ rw resolved (
          fetch_step-IsBounded net (suc rounds) redirects t
            (after_answer net t redirects (net.send t)) (resolve-IsSafe net url t resolved) refl
            (λ u e. fetch_rounds-IsBounded net rounds (redirects + 1) u (omega arith)))
    ]

-- Whatever URL a fetch starts from and wherever the answers redirect it, every host that it asks is
-- named by an allowed scheme and is asked at public addresses only, or at overlay addresses where
-- the host is an overlay host, and at least at one; it asks six times at most; and it returns, with
-- an error or with an answer of status 200 to 299.
pub fetch_from_url_safe : (net : Net) (url : Bytes) → IsBounded 6 (fetch_from_url net url)
unfolding fetch_from_url
fetch_from_url_safe net url = fetch_rounds-IsBounded net 5 0 url refl
