-- ===== src/Auth/Tags.antt =====
-- What the tag checks establish.
use almond.Prelude.{
  ◌≡◌, ap, ◌∙◌, true, some, List, [], ◌∷◌, arith, Bytes, codes, text_eq, eq_of_text_eq, any,
  Bool-cases, Option-cases, inl, inr, ◌⊎◌,
}
use almond.Error.{ok}
use almond.Auth.{
  Tag, Event, is_kind, find_tag, tags_of, content_is, validate_t_tag, validate_hash_auth,
}

-- The first tag of a kind has a content.
abbrev pub IsFirst : Bytes → Bytes → List Tag → Type 0
IsFirst kind value ts = (t : Tag) × (find_tag kind ts ≡ some t) × (t.content ≡ some value)

-- A tag of a kind with a content is among the tags.
abbrev pub IsAmong : Bytes → Bytes → List Tag → Type 0
IsAmong kind value [] = ⊥
IsAmong kind value (t ∷ ts) = ((t.kind ≡ kind) × (t.content ≡ some value)) ⊎ IsAmong kind value ts

content_is_sound : (value : Bytes) (t : Tag) → content_is value t ≡ true → t.content ≡ some value
unfolding content_is
content_is_sound value t h = elim (Option-cases t.content) [
  | inl absent ↦ cc (rw (absent, content_is) at h)
  | inr (c, e) ↦ e ∙ ap some (eq_of_text_eq c value (rw (e, content_is) at h))
]

pub tags_of_sound :
    (kind value : Bytes) (ts : List Tag)
    → any (content_is value) (tags_of kind ts) ≡ true
    → IsAmong kind value ts
unfolding tags_of is_kind
tags_of_sound kind value [] h = cc
tags_of_sound kind value (t ∷ ts) h = elim (Bool-cases (text_eq t.kind kind)) [
  | inl same ↦ elim (Bool-cases (content_is value t)) [
    | inl found ↦ inl (eq_of_text_eq t.kind kind same, content_is_sound value t found)
    | inr other ↦ inr (tags_of_sound kind value ts (rw (same, other) at h))
  ]
  | inr other ↦ inr (tags_of_sound kind value ts (rw other at h))
]

-- An event that passes has the verb in its first `t` tag, and an `x` tag for the hash.
pub validate_hash_auth_sound :
    (event : Event) (verb sha256 : Bytes)
    → validate_hash_auth event verb sha256 ≡ ok tt
    → IsFirst (codes "t") verb event.tags × IsAmong (codes "x") sha256 event.tags
unfolding validate_hash_auth validate_t_tag
validate_hash_auth_sound event verb sha256 h =
    elim (Option-cases (find_tag (codes "t") event.tags)) [
      | inl absent ↦ cc (rw (absent, validate_hash_auth, validate_t_tag) at h)
      | inr (t, found) ↦
          let h' = rw (found, validate_hash_auth, validate_t_tag) at h in
          elim (Bool-cases (content_is verb t)) [
            | inl verb_ok ↦
                elim (Bool-cases (any (content_is sha256) (tags_of (codes "x") event.tags))) [
                  | inl hash_ok ↦ (
                    (t, found, content_is_sound verb t verb_ok),
                    tags_of_sound (codes "x") sha256 event.tags hash_ok,
                  )
                  | inr none_ok ↦ ground arith
                ]
            | inr other ↦ cc (rw other at h')
          ]
    ]
