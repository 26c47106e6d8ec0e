-- ===== src/Candidates/Plans.antt =====
-- The plan of src/services/upstream_candidates.rs against its description without a hash set.
use almond.Prelude.{
  ◌≡◌, refl, sym, ◌∙◌, Bool, true, false, not, ◌&&◌, Option, List, [], ◌∷◌, ◌++◌, map, filter,
  arith, Bytes, text_eq, text_eq_iff, text_eq_instance, contains_key, contains_key-insert, insert,
  Bool-cases, inl, inr, ap,
}
use mathlib.Core.List.{append_assoc, append-nil}
use almond.Candidates.{
  Tier, Hint, Seen, Planning, custom_origin, xs_server, configured, server_url_candidates,
  push_candidates, push, push_all, push_one, plan, or_default, option_list,
}

abbrev pub is_other : Bytes → Hint → Bool
is_other url h = not (text_eq url h.1)

-- Of several hints with one URL the first is kept.
pub first_of_each : List Hint → List Hint
first_of_each [] = []
first_of_each ((tier, url) ∷ hints) = (tier, url) ∷ filter (is_other url) (first_of_each hints)

-- Every candidate of every server of a tier.
pub hints_of : Tier → List Bytes → List Hint
hints_of tier [] = []
hints_of tier (server ∷ servers) =
    map (λ url. (tier, url)) (server_url_candidates server) ++ hints_of tier servers

push_hint : Hint → Planning → Planning
push_hint (tier, url) p = push_one tier url p

-- `plan` as one loop over hints.
push_hints : List Hint → Planning → Planning
push_hints [] p = p
push_hints (h ∷ hs) p = push_hints hs (push_hint h p)

push_hints-append :
    (hs ks : List Hint) (p : Planning) → push_hints (hs ++ ks) p ≡ push_hints ks (push_hints hs p)
unfolding push_hints
push_hints-append [] ks p = refl
push_hints-append (h ∷ hs) ks p = push_hints-append hs ks (push_hint h p)

push_candidates_lem :
    (tier : Tier) (urls : List Bytes) (p : Planning)
    → push_candidates tier urls p ≡ push_hints (map (λ url. (tier, url)) urls) p
unfolding push_candidates push_hints push_hint
push_candidates_lem tier [] p = refl
push_candidates_lem tier (url ∷ urls) p = push_candidates_lem tier urls (push_one tier url p)

push_all_lem :
    (tier : Tier) (servers : List Bytes) (p : Planning)
    → push_all tier servers p ≡ push_hints (hints_of tier servers) p
unfolding push_all hints_of push_hints push
push_all_lem tier [] p = refl
push_all_lem tier (s ∷ servers) p =
    push_all_lem tier servers (push tier s p)
    ∙ ap (push_hints (hints_of tier servers)) (push_candidates_lem tier (server_url_candidates s) p)
    ∙ sym (
        push_hints-append (map (λ url. (tier, url)) (server_url_candidates s))
          (hints_of tier servers) p)

abbrev is_new : Seen → Hint → Bool
is_new seen h = not (contains_key seen h.1)

filter-filter :
    (p q r : Hint → Bool) (hs : List Hint)
    → ((h : Hint) → r h ≡ (q h && p h))
    → filter p (filter q hs) ≡ filter r hs
filter-filter p q r [] e = refl
filter-filter p q r (h ∷ hs) e = ground (arith, e h, filter-filter p q r hs e)

seen_drops :
    (seen : Seen) (url : Bytes) (h : Hint)
    → contains_key seen url ≡ true
    → is_new seen h ≡ (is_other url h && is_new seen h)
seen_drops seen url (tier, v) c = ground (arith, text_eq_iff url v)

seen_grows :
    (seen : Seen) (url : Bytes) (h : Hint)
    → is_new (insert seen url tt) h ≡ (is_other url h && is_new seen h)
seen_grows seen url (tier, v) = ground (arith, contains_key-insert seen url v tt)

push_one_old :
    (tier : Tier) (url : Bytes) (p : Planning)
    → contains_key p.seen url ≡ true
    → push_one tier url p ≡ p
push_one_old tier url p old = ground arith

push_one_new :
    (tier : Tier) (url : Bytes) (p : Planning)
    → contains_key p.seen url ≡ false
    → push_one tier url p
      ≡ record { planned = p.planned ++ (tier, url) ∷ []; seen = insert p.seen url tt }
push_one_new tier url p fresh = ground arith

filter_first_old :
    (seen : Seen) (tier : Tier) (url : Bytes) (hs : List Hint)
    → contains_key seen url ≡ true
    → filter (is_new seen) (first_of_each hs)
      ≡ filter (is_new seen) (first_of_each ((tier, url) ∷ hs))
unfolding first_of_each
filter_first_old seen tier url hs old = rw old (
    sym (
      filter-filter (is_new seen) (is_other url) (is_new seen) (first_of_each hs)
        (λ h. seen_drops seen url h old)))

filter_first_new :
    (seen : Seen) (tier : Tier) (url : Bytes) (hs : List Hint)
    → contains_key seen url ≡ false
    → (tier, url) ∷ filter (is_new (insert seen url tt)) (first_of_each hs)
      ≡ filter (is_new seen) (first_of_each ((tier, url) ∷ hs))
unfolding first_of_each
filter_first_new seen tier url hs fresh = rw fresh (
    ap (λ l. (tier, url) ∷ l)
      (sym (
        filter-filter (is_new seen) (is_other url) (is_new (insert seen url tt)) (first_of_each hs)
          (λ h. seen_grows seen url h))))

push_hints_lem :
    (hs : List Hint) (p : Planning)
    → (push_hints hs p).planned ≡ p.planned ++ filter (is_new p.seen) (first_of_each hs)
unfolding push_hints push_hint
push_hints_lem [] p = unfold first_of_each in sym (append-nil p.planned)
push_hints_lem ((tier, url) ∷ hs) p = elim (Bool-cases (contains_key p.seen url)) [
  | inl old ↦
      ap (λ q. (push_hints hs q).planned) (push_one_old tier url p old)
      ∙ push_hints_lem hs p
      ∙ ap (λ l. p.planned ++ l) (filter_first_old p.seen tier url hs old)
  | inr fresh ↦
      let q : Planning = record {
        planned = p.planned ++ (tier, url) ∷ [];
        seen = insert p.seen url tt;
      } in
      ap (λ q. (push_hints hs q).planned) (push_one_new tier url p fresh)
      ∙ push_hints_lem hs q
      ∙ append_assoc p.planned ((tier, url) ∷ []) _
      ∙ ap (λ l. p.planned ++ l) (filter_first_new p.seen tier url hs fresh)
]

filter_all : (hs : List Hint) → filter (is_new []) hs ≡ hs
unfolding contains_key
filter_all [] = refl
filter_all (h ∷ hs) = rw (filter_all hs)

-- The plan is the candidates of the custom origin, of the `xs` servers and of the configured servers,
-- in this order and in the order in which each tier names them, each URL once and in the first tier
-- that names it.
pub plan_lem :
    (origin : Option Bytes) (xs_servers : Option (List Bytes)) (servers : List Bytes)
    → plan origin xs_servers servers
      ≡ first_of_each (
          hints_of custom_origin (option_list origin)
          ++ (hints_of xs_server (or_default xs_servers) ++ hints_of configured servers))
unfolding plan
plan_lem origin xs_servers servers =
    let start : Planning = record { planned = []; seen = [] } in
    let first = hints_of custom_origin (option_list origin) in
    let second = hints_of xs_server (or_default xs_servers) in
    let third = hints_of configured servers in
    let planned : Planning → List Hint = λ p. p.planned in
    ap planned (
      push_all_lem configured servers _
      ∙ ap (push_hints third) (
          push_all_lem xs_server (or_default xs_servers) _
          ∙ ap (push_hints second) (push_all_lem custom_origin (option_list origin) start)))
    ∙ ap planned (
        sym (
          push_hints-append first (second ++ third) start
          ∙ push_hints-append second third (push_hints first start)))
    ∙ push_hints_lem (first ++ (second ++ third)) start
    ∙ filter_all (first_of_each (first ++ (second ++ third)))
