-- ===== src/BlobName/ObjectKeys.antt =====
-- Object keys of the S3 backend: round trip, and the prefix under which a hash is searched.
use mathlib.Core.List.{append_assoc}
use almond.Prelude.{
  ℕ, zero, suc, ◌≡◌, refl, ◌∙◌, ap, Bool, true, false, Option, none, some, [], ◌∷◌, ◌++◌, arith,
  Bytes, all, take, drop, text_eq, text_eq_refl, eq_of_text_eq, if-eq-some, unless-eq-some, ◌&&◌,
  Option-cases, inl, inr,
}
use almond.Text.{split_once, contains, is_digit, print_u64}
use almond.Text.Decimal.{contains-digits, print_u64-all_digits}
use almond.Text.Split.{split_once-append, split_once_sound, contains-append}
use almond.Error.{ok}
use almond.BlobName.{
  ParsedName, hash_len, is_lower_hex, is_valid_hash, suffix, parse, object_key, hash_prefix,
  check_dirs, parse_object_key,
}
use almond.BlobName.RoundTrip.{Fits, parse-append-suffix}
use almond.BlobName.Soundness.{parse_sound}

contains_of_hex : (s : Bytes) → all is_lower_hex s ≡ true → contains b'/' s ≡ false
unfolding contains is_lower_hex
contains_of_hex [] h = refl
contains_of_hex (c ∷ s) h = ground (arith, contains_of_hex s)

pub all_of_IsValid : (hash : Bytes) → is_valid_hash hash ≡ true → all is_lower_hex hash ≡ true
unfolding is_valid_hash
all_of_IsValid hash h = ground arith

pub all-take : (n : ℕ) (p : ℕ → Bool) (s : Bytes) → all p s ≡ true → all p (take n s) ≡ true
all-take zero p s h = refl
all-take (suc n) p [] h = refl
all-take (suc n) p (c ∷ s) h = ground (arith, all-take n p s)

pub all-drop : (n : ℕ) (p : ℕ → Bool) (s : Bytes) → all p s ≡ true → all p (drop n s) ≡ true
all-drop zero p s h = h
all-drop (suc n) p [] h = refl
all-drop (suc n) p (c ∷ s) h = ground (arith, all-drop n p s)

-- An extension, where there is one, has no slash.
abbrev pub NoSlash : Option Bytes → Type 0
NoSlash none = Unit
NoSlash (some x) = contains b'/' x ≡ false

print_u64-no_slash : (e : ℕ) → contains b'/' (print_u64 e) ≡ false
print_u64-no_slash e =
    contains-digits b'/' (print_u64 e) (unfold is_digit in refl) (print_u64-all_digits e)

suffix-NoSlash : (e : Option ℕ) (x : Option Bytes) → NoSlash x → contains b'/' (suffix e x) ≡ false
unfolding suffix contains
suffix-NoSlash (some e) (some x) h =
    ground (arith, contains-append b'/' (print_u64 e) (b'.' ∷ x), print_u64-no_slash e)
suffix-NoSlash (some e) none h = ground (arith, print_u64-no_slash e)
suffix-NoSlash none (some x) h = ground arith
suffix-NoSlash none none h = refl

pub file_name-NoSlash :
    (hash : Bytes) (e : Option ℕ) (x : Option Bytes)
    → is_valid_hash hash ≡ true
    → NoSlash x
    → contains b'/' (hash ++ suffix e x) ≡ false
file_name-NoSlash hash e x h n =
    rw (contains-append b'/' hash (suffix e x))
      (rw (contains_of_hex hash (all_of_IsValid hash h)) (suffix-NoSlash e x n))

-- The two directories of a hash.
dir_first-no_slash :
    (hash : Bytes) → is_valid_hash hash ≡ true → contains b'/' (take 1 hash) ≡ false
dir_first-no_slash hash h =
    contains_of_hex (take 1 hash) (all-take 1 is_lower_hex hash (all_of_IsValid hash h))

dir_second-no_slash :
    (hash : Bytes) → is_valid_hash hash ≡ true → contains b'/' (take 1 (drop 1 hash)) ≡ false
dir_second-no_slash hash h =
    contains_of_hex (take 1 (drop 1 hash))
      (all-take 1 is_lower_hex (drop 1 hash) (all-drop 1 is_lower_hex hash (all_of_IsValid hash h)))

check_dirs-same :
    (p : ParsedName) → check_dirs (take 1 p.hash) (take 1 (drop 1 p.hash)) (some p) ≡ some p
unfolding check_dirs
check_dirs-same p = rw (text_eq_refl (take 1 p.hash)) (rw (text_eq_refl (take 1 (drop 1 p.hash))))

check_dirs-eq-some :
    (first second : Bytes) (o : Option ParsedName) {p : ParsedName}
    → check_dirs first second o ≡ some p
    → (o ≡ some p) × (first ≡ take 1 p.hash) × (second ≡ take 1 (drop 1 p.hash))
unfolding check_dirs
check_dirs-eq-some first second none h = cc
check_dirs-eq-some first second (some q) {p = p} h =
    let (same, e) =
      if-eq-some (text_eq first (take 1 q.hash) && text_eq second (take 1 (drop 1 q.hash))) _ h in
    let q_p : q ≡ p = cc e in
    (
      e,
      rw (← q_p) (eq_of_text_eq first _ (ground arith)),
      rw (← q_p) (eq_of_text_eq second _ (ground arith)),
    )

split_key-eq-some :
    (key : Bytes) {p : ParsedName}
    → parse_object_key key ≡ some p
    → (first : Bytes) × (second : Bytes) × (filename : Bytes) × (key
        ≡ first ++ b'/' ∷ (second ++ b'/' ∷ filename))
      × (check_dirs first second (parse filename) ≡ some p)
unfolding parse_object_key
split_key-eq-some key h = elim (Option-cases (split_once b'/' key)) [
  | inl whole ↦ cc (rw (whole, parse_object_key) at h)
  | inr ((first, rest), e) ↦ elim (Option-cases (split_once b'/' rest)) [
    | inl whole ↦ cc (rw (e, whole, parse_object_key) at h)
    | inr ((second, filename), e') ↦ (
      first,
      second,
      filename,
      split_once_sound b'/' key first rest e
          ∙ ap (λ t. first ++ b'/' ∷ t) (split_once_sound b'/' rest second filename e'),
      (unless-eq-some (contains b'/' filename) _ (rw (e, e', parse_object_key) at h)).1,
    )
  ]
]

-- For a valid hash, an expiration that is a `u64` and an extension without a slash, `object_key`
-- succeeds and `parse_object_key` reads the three parts back.
pub parse_object_key-object_key :
    (hash : Bytes) (x : Option Bytes) (e : Option ℕ)
    → is_valid_hash hash ≡ true
    → Fits e
    → NoSlash x
    → (key : Bytes) × (object_key hash x e ≡ ok key)
      × (parse_object_key key ≡ some (record { hash = hash; expiration = e; extension = x }))
unfolding parse_object_key object_key
parse_object_key-object_key hash x e h k n =
    let file = hash ++ suffix e x in
    let inner = take 1 (drop 1 hash) ++ b'/' ∷ file in
    (
      take 1 hash ++ b'/' ∷ inner,
      rw h,
      rw
          (
            split_once-append b'/' (take 1 hash) inner (dir_first-no_slash hash h),
            split_once-append b'/' (take 1 (drop 1 hash)) file (dir_second-no_slash hash h),
            file_name-NoSlash hash e x h n,
            parse-append-suffix hash e x h k,
            parse_object_key,
          )
          (check_dirs-same _),
    )

-- Every key that `parse_object_key` accepts lies under the prefix that `find` and `delete_matching`
-- list for its hash.
pub hash_prefix-covers :
    (key : Bytes) (p : ParsedName)
    → parse_object_key key ≡ some p
    → (pre : Bytes) × (rest : Bytes) × (hash_prefix p.hash ≡ ok pre) × (key ≡ pre ++ rest)
unfolding hash_prefix
hash_prefix-covers key p h =
    let (first, second, filename, split, checked) = split_key-eq-some key h in
    let (read, d0, d1) = check_dirs-eq-some first second (parse filename) checked in
    let (valid, whole, _) = parse_sound filename p read in
    (
      take 1 p.hash ++ b'/' ∷ (take 1 (drop 1 p.hash) ++ b'/' ∷ p.hash),
      drop hash_len filename,
      rw valid,
      split
          ∙ cc (
            d0,
            d1,
            whole,
            append_assoc (take 1 p.hash) (b'/' ∷ (take 1 (drop 1 p.hash) ++ b'/' ∷ p.hash))
                (drop hash_len filename),
            append_assoc (take 1 (drop 1 p.hash)) (b'/' ∷ p.hash) (drop hash_len filename),
          ),
    )
