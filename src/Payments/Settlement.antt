-- ===== src/Payments/Settlement.antt =====
-- `charge` of src/services/cashu.rs: what a passed charge took in, and when the wallet changes.
use almond.Prelude.{
  ℕ, Bool, List, map, codes, false, ltb, ◌||◌, text_eq, text_eq_refl, eq_of_text_eq, Exists,
  any-Exists, Exists-any, ◌+◌, ◌≤◌, ◌≡◌, ◌⊎◌, inl, inr, refl, ap, true, Option, none, some, Bytes,
  arith, Bool-cases, Option-cases,
}
use almond.Text.{trim, starts_with, trim_end_matches}
use almond.Auth.{to_lower}
use almond.Error.{
  ensure->>-eq-ok, AppResult, ok, err, ensure, or_refuse, >>=-eq-ok, Result-cases, bad_request,
  bad_gateway,
}
use almond.Payments.{
  PaidOperation, Pricing, is_paid, Quote, calculate_price, quote, Cdk, HeaderMap,
  extract_cashu_header, is_accepted, eq_ignore_ascii_case, parse_token, verify_token_basics,
  receive_token, settled, settle_token, checked_token, settle, charge_quote, charge, received,
  payment_error,
}

settled-ok :
    (q : Quote) (r : AppResult ℕ) → settled q r ≡ ok tt → (n : ℕ) × (r ≡ ok n) × (q.amount_sats ≤ n)
unfolding settled
settled-ok q (err e) h = cc
settled-ok q (ok n) h = (n, refl, ground arith)

module _ {Token Wallet : Type 0} (cdk : Cdk Token Wallet) (balance : Wallet → ℕ) where
  -- The library returns what it has added to the wallet.
  pub record ReceiveLaw : Type 0 where
    pub adds :
        (w after : Wallet) (token : Bytes) (amount : ℕ)
        → cdk.receive w token ≡ (some amount, after)
        → balance after ≡ balance w + amount

  -- There is a wallet before and after, and it has gained `price` at least.
  abbrev pub HasGained : ℕ → Option Wallet → Option Wallet → Type 0
  HasGained price none after = ⊥
  HasGained price (some w) none = ⊥
  HasGained price (some w) (some after) = balance w + price ≤ balance after

  receive-gains :
      (law : ReceiveLaw) (q : Quote) (w w1 : Wallet) (after : Option Wallet) (text : Bytes)
      (r : Option ℕ)
      → cdk.receive w text ≡ (r, w1)
      → settled q (received r) ≡ ok tt
      → some w1 ≡ after
      → HasGained q.amount_sats (some w) after
  receive-gains law q w w1 none text r asked h same = cc
  receive-gains law q w w1 (some w2) text none asked h same =
      let (n, bad, enough) = settled-ok q (err bad_gateway) h in cc bad
  receive-gains law q w w1 (some w2) text (some n) asked h same =
      let (m, is_n, enough) = settled-ok q (ok n) h in
      let added = law.adds w w1 text n asked in
      let there : w1 ≡ w2 = cc same in
      let amount : n ≡ m = cc is_n in
      let gained : balance w2 ≡ balance w + n = rw (← there) added in omega arith

  settle_token-gains :
      (law : ReceiveLaw) (q : Quote) (wallet after : Option Wallet) (token : AppResult Token)
      → settle_token cdk q wallet token ≡ (ok tt, after)
      → HasGained q.amount_sats wallet after
  unfolding settle_token receive_token
  settle_token-gains law q wallet after (err e) h = cc
  settle_token-gains law q none after (ok token) h = cc
  settle_token-gains law q (some w) after (ok token) h =
      let text = cdk.to_text token in
      receive-gains law q w (cdk.receive w text).1 after text (cdk.receive w text).0 refl
        (ap (λ r. r.0) h) (ap (λ r. r.1) h)

  -- A charge of a paid operation that passes has added the price of the size to the wallet at least.
  pub charge-gains :
      (law : ReceiveLaw) (s : Pricing) (wallet after : Option Wallet) (headers : HeaderMap)
      (operation : PaidOperation) (size : ℕ)
      → is_paid operation s ≡ true
      → charge cdk s wallet headers operation size ≡ (ok tt, after)
      → HasGained (calculate_price size s.cashu_price_per_mb) wallet after
  unfolding charge charge_quote settle quote
  charge-gains law s wallet after headers operation size paid h =
      elim (Option-cases (extract_cashu_header headers)) [
        | inl absent ↦
            let q = quote s.cashu_price_per_mb s.cashu_accepted_mints size in
            let k : (err (payment_error q), wallet) ≡ (ok tt, after) = rw (paid, absent) at h in
            cc k
        | inr (text, given) ↦
            let q = quote s.cashu_price_per_mb s.cashu_accepted_mints size in
            let token = checked_token cdk text q s.cashu_accepted_mints in
            let k : settle_token cdk q wallet token ≡ (ok tt, after) = rw (paid, given) at h in
            settle_token-gains law q wallet after token k
      ]

-- A mint without its trailing slashes and in lower case.
abbrev pub plain_mint : Bytes → Bytes
plain_mint mint = map to_lower (trim_end_matches b'/' mint)

-- The mint is one of the configured ones.
abbrev pub IsConfigured : Bytes → List Bytes → Type 0
IsConfigured mint mints = Exists (λ configured. plain_mint mint ≡ plain_mint configured) mints

is_accepted-IsConfigured :
    (mint : Bytes) (mints : List Bytes) → is_accepted mint mints ≡ true → IsConfigured mint mints
unfolding is_accepted eq_ignore_ascii_case
is_accepted-IsConfigured mint mints h =
    any-Exists _ _ mints (λ c same. eq_of_text_eq (plain_mint mint) (plain_mint c) same) h

IsConfigured-is_accepted :
    (mint : Bytes) (mints : List Bytes) → IsConfigured mint mints → is_accepted mint mints ≡ true
unfolding is_accepted eq_ignore_ascii_case
IsConfigured-is_accepted mint mints h =
    Exists-any (λ c. text_eq (plain_mint mint) (plain_mint c)) (λ c. plain_mint mint ≡ plain_mint c)
      mints (λ c same. rw same (text_eq_refl (plain_mint c))) h

-- A token text with one of the two prefixes.
abbrev pub IsTagged : Bytes → Type 0
IsTagged text =
    (starts_with (codes "cashuA") text ≡ true) ⊎ (starts_with (codes "cashuB") text ≡ true)

module _ {Token Wallet : Type 0} (cdk : Cdk Token Wallet) where
  -- What a charge has checked of the token that it gives to the wallet.
  pub record IsChecked (s : Pricing) (price : ℕ) (text : Bytes) : Type 0 where
    pub token : Token
    pub tagged : IsTagged (trim text)
    pub read : cdk.from_str (trim text) ≡ some token
    pub mint : Bytes
    pub minted : cdk.mint_url token ≡ some mint
    pub accepted : IsConfigured mint s.cashu_accepted_mints
    pub amount : ℕ
    pub valued : cdk.value token ≡ some amount
    pub enough : price ≤ amount

  or_refuse-ok : {A : Type 0} (o : Option A) (a : A) → or_refuse o ≡ ok a → o ≡ some a
  or_refuse-ok none a h = cc
  or_refuse-ok (some b) a h = cc

  parse_token-ok :
      (text : Bytes) (token : Token)
      → parse_token cdk text ≡ ok token
      → IsTagged (trim text) × (cdk.from_str (trim text) ≡ some token)
  unfolding parse_token
  parse_token-ok text token h =
      let (tagged, k) =
        ensure->>-eq-ok
          (starts_with (codes "cashuA") (trim text) || starts_with (codes "cashuB") (trim text))
          bad_request _ h in
      (or-tagged (starts_with (codes "cashuA") (trim text)) _ tagged, or_refuse-ok _ token k)
    where
      or-tagged : (a b : Bool) → (a || b) ≡ true → (a ≡ true) ⊎ (b ≡ true)
      or-tagged true b h = inl refl
      or-tagged false b h = inr h

  pub checked_token-IsChecked :
      (s : Pricing) (q : Quote) (text : Bytes) (token : Token)
      → checked_token cdk text q s.cashu_accepted_mints ≡ ok token
      → IsChecked s q.amount_sats text
  unfolding checked_token verify_token_basics
  checked_token-IsChecked s q text token h =
      let (t, read, h1) = >>=-eq-ok (parse_token cdk text) _ h in
      let (done, verified, h2) =
        >>=-eq-ok (verify_token_basics cdk t q.amount_sats s.cashu_accepted_mints) _ h1 in
      let (mint, minted, h3) = >>=-eq-ok (or_refuse (cdk.mint_url t)) _ verified in
      let (good, accepted, h4) =
        >>=-eq-ok (ensure (is_accepted mint s.cashu_accepted_mints) bad_request) _ h3 in
      let (amount, valued, h5) = >>=-eq-ok (or_refuse (cdk.value t)) _ h4 in
      record {
        token = t;
        tagged = (parse_token-ok text t read).0;
        read = (parse_token-ok text t read).1;
        mint = mint;
        minted = or_refuse-ok (cdk.mint_url t) mint minted;
        accepted = is_accepted-IsConfigured mint s.cashu_accepted_mints (ground arith);
        amount = amount;
        valued = or_refuse-ok (cdk.value t) amount valued;
        enough = ground arith;
      }

  -- A text that has all this is checked.
  pub IsChecked-checked_token :
      (s : Pricing) (q : Quote) (text : Bytes) (c : IsChecked s q.amount_sats text)
      → checked_token cdk text q s.cashu_accepted_mints ≡ ok c.token
  unfolding checked_token verify_token_basics parse_token
  IsChecked-checked_token s q text c =
      let tagged : (starts_with (codes "cashuA") (trim text)
            || starts_with (codes "cashuB") (trim text))
          ≡ true =
        tagged-or c.tagged in
      let fits : ltb c.amount q.amount_sats ≡ false = ground (arith, c.enough) in
      rw
        (
          tagged,
          c.read,
          c.minted,
          IsConfigured-is_accepted c.mint s.cashu_accepted_mints c.accepted,
          c.valued,
          fits,
        )
        refl
    where
      tagged-or : {a b : Bool} → (a ≡ true) ⊎ (b ≡ true) → (a || b) ≡ true
      tagged-or (inl h) = rw h refl
      tagged-or {a} (inr h) = ground arith

  -- A charge leaves the wallet as it is, unless the operation is paid and the request brings a token
  -- text with one of the two prefixes that the library reads, of a configured mint, up to case and
  -- trailing slashes, and worth the price at least.
  pub charge-keeps :
      (s : Pricing) (wallet : Option Wallet) (headers : HeaderMap) (operation : PaidOperation)
      (size : ℕ)
      → ((charge cdk s wallet headers operation size).1 ≡ wallet)
        ⊎ ((is_paid operation s ≡ true)
            × (text : Bytes) × (extract_cashu_header headers ≡ some text)
            × IsChecked s (calculate_price size s.cashu_price_per_mb) text)
  unfolding charge charge_quote settle settle_token quote
  charge-keeps s wallet headers operation size = elim (Bool-cases (is_paid operation s)) [
    | inr free ↦ inl (rw free refl)
    | inl paid ↦ elim (Option-cases (extract_cashu_header headers)) [
      | inl absent ↦ inl (rw (paid, absent) refl)
      | inr (text, given) ↦
          let q = quote s.cashu_price_per_mb s.cashu_accepted_mints size in
          elim (Result-cases (checked_token cdk text q s.cashu_accepted_mints)) [
            | inl (token, good) ↦
                inr (paid, text, given, checked_token-IsChecked s q text token good)
            | inr (e, bad) ↦ inl (rw (paid, given, bad) refl)
          ]
    ]
  ]
