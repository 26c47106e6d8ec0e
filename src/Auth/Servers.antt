-- ===== src/Auth/Servers.antt =====
-- The server tags of an event, on the list of tags itself.
use almond.Prelude.{
  ◌≡◌, ◌⊎◌, inl, inr, refl, Bool, true, false, not, ◌&&◌, some, List, [], ◌∷◌, codes, Bytes,
  text_eq, text_eq_refl, any, all, All, arith, ◌==◌, length, Bool-cases, Option-cases,
}
use almond.Error.{ok, unauthorized, ensure->>-eq-ok}
use almond.Auth.{
  Tag, Event, is_kind, tags_of, has_domain, is_lowercase_domain, extract_domain,
  validate_server_tags,
}
use almond.Auth.Tags.{IsAmong, tags_of_sound}

abbrev pub IsServerTag : Tag → Type 0
IsServerTag t = t.kind ≡ codes "server"

-- The tag names a domain in lower case.
abbrev pub HasDomain : Tag → Type 0
HasDomain t = (domain : Bytes) × (t.content ≡ some domain) × (is_lowercase_domain domain ≡ true)

-- Every server tag names a domain; and one of them names the domain of this server, or there is
-- none and none is required.
pub record IsForServer (required : Bool) (public_url : Bytes) (tags : List Tag) : Type 0 where
  pub domains : All (λ t. IsServerTag t → HasDomain t) tags
  pub bound :
      IsAmong (codes "server") (extract_domain public_url) tags
      ⊎ ((required ≡ false) × All (λ t. IsServerTag t → ⊥) tags)

has_domain-HasDomain : (t : Tag) → has_domain t ≡ true → HasDomain t
unfolding has_domain
has_domain-HasDomain t h = elim (Option-cases t.content) [
  | inl absent ↦ cc (rw absent at h)
  | inr (domain, e) ↦ (domain, e, rw e at h)
]

not_server : (t : Tag) → text_eq t.kind (codes "server") ≡ false → IsServerTag t → ⊥
not_server t other is =
    let bad : text_eq (codes "server") (codes "server") ≡ false = rw is at other in
    let good = text_eq_refl (codes "server") in cc (bad, good)

domains-of :
    (ts : List Tag)
    → all has_domain (tags_of (codes "server") ts) ≡ true
    → All (λ t. IsServerTag t → HasDomain t) ts
unfolding tags_of is_kind
domains-of [] h = tt
domains-of (t ∷ ts) h = elim (Bool-cases (text_eq t.kind (codes "server"))) [
  | inl server ↦
      let k : has_domain t && all has_domain (tags_of (codes "server") ts) ≡ true =
        rw server at h in
      (λ is. has_domain-HasDomain t (ground arith), domains-of ts (ground arith))
  | inr other ↦ (λ is. absurd (not_server t other is), domains-of ts (rw other at h))
]

none-of :
    (ts : List Tag)
    → length (tags_of (codes "server") ts) == 0 ≡ true
    → (any (is_kind (codes "server")) ts ≡ false) × All (λ t. IsServerTag t → ⊥) ts
unfolding tags_of is_kind
none-of [] h = (refl, tt)
none-of (t ∷ ts) h = elim (Bool-cases (text_eq t.kind (codes "server"))) [
  | inl server ↦
      let more = tags_of (codes "server") ts in
      let k : length (t ∷ more) == 0 ≡ true = rw server at h in absurd (ground arith)
  | inr other ↦
      let (none, others) = none-of ts (rw other at h) in
      (rw other none, (not_server t other, others))
]

nothing : (ts : List Tag) → length ts == 0 ≡ true → all has_domain ts ≡ true
nothing [] h = refl
nothing (t ∷ ts) h = absurd (ground arith)

pub validate_server_tags_sound :
    (required : Bool) (event : Event) (public_url : Bytes)
    → not (required && not (any (is_kind (codes "server")) event.tags)) ≡ true
    → validate_server_tags event public_url ≡ ok tt
    → IsForServer required public_url event.tags
unfolding validate_server_tags
validate_server_tags_sound required event public_url present h =
    let tags = tags_of (codes "server") event.tags in
    elim (Bool-cases (length tags == 0)) [
      | inl empty ↦
          let (none, others) = none-of event.tags empty in
          record {
            domains = domains-of event.tags (nothing tags empty);
            bound = inr (ground (arith, none), others);
          }
      | inr some_tags ↦
          let (domains, k) =
            ensure->>-eq-ok (all has_domain tags) unauthorized _ (rw some_tags at h) in
          record {
            domains = domains-of event.tags domains;
            bound = inl (
                tags_of_sound (codes "server") (extract_domain public_url) event.tags
                  (ground arith));
          }
    ]
