-- ===== src/Payments/Refusals.antt =====
-- `charge` of src/services/cashu.rs: what a refused charge answers.
use mathlib.Core.Path.{subst}
use almond.Prelude.{
  ℕ, ◌<◌, ◌≡◌, refl, sym, ◌∙◌, true, ltb→lt, inl, inr, not, Option, none, some, List, Bytes, ltb,
  Bool-cases, Option-cases, ◌||◌, codes,
}
use almond.Error.{
  AppError, AppResult, ok, err, ◌>>=◌, payment_required, bad_request, bad_gateway,
  service_unavailable, OnError, Result-cases, >>=-OnError, ensure-OnError, or_refuse-OnError,
}
use almond.Text.{trim, starts_with}
use almond.Payments.{
  PaidOperation, Pricing, calculate_price, is_paid, Quote, quote, Cdk, HeaderMap,
  extract_cashu_header, is_accepted, parse_token, verify_token_basics, receive_token, settled,
  settle_token, checked_token, settle, charge_quote, charge, received, payment_error,
}
use almond.Payments.Settlement.{IsChecked, checked_token-IsChecked, IsChecked-checked_token}

OnError-with :
    {A Q : Type 0} (P : AppError → Type 0)
    → Q
    → (r : AppResult A) → OnError P r
    → OnError (λ e. Q × P e) r
OnError-with P q (ok a) h = tt
OnError-with P q (err e) h = (q, h)

module _ {Token Wallet : Type 0} (cdk : Cdk Token Wallet) where
  parse_token-OnError :
      (P : AppError → Type 0) (text : Bytes) → P bad_request → OnError P (parse_token cdk text)
  unfolding parse_token
  parse_token-OnError P text bad =
      let trimmed = trim text in
      elim (Bool-cases
        (starts_with (codes "cashuA") trimmed || starts_with (codes "cashuB") trimmed)) [
          | inl tagged ↦ rw tagged (or_refuse-OnError P (cdk.from_str trimmed) bad)
          | inr other ↦ rw other bad
        ]

  verify_token_basics-OnError :
      (P : AppError → Type 0) (token : Token) (price : ℕ) (mints : List Bytes)
      → P bad_request
      → OnError P (verify_token_basics cdk token price mints)
  unfolding verify_token_basics
  verify_token_basics-OnError P token price mints bad = elim (Option-cases (cdk.mint_url token)) [
    | inl absent ↦ rw absent bad
    | inr (mint, minted) ↦ elim (Bool-cases (is_accepted mint mints)) [
      | inr foreign ↦ rw (minted, foreign) bad
      | inl accepted ↦ elim (Option-cases (cdk.value token)) [
        | inl worthless ↦ rw (minted, accepted, worthless) bad
        | inr (n, valued) ↦
            rw (minted, accepted, valued) (ensure-OnError P (not (ltb n price)) bad_request bad)
      ]
    ]
  ]

  checked_token-OnError :
      (P : AppError → Type 0) (q : Quote) (text : Bytes) (mints : List Bytes)
      → P bad_request
      → OnError P (checked_token cdk text q mints)
  unfolding checked_token
  checked_token-OnError P q text mints bad =
      >>=-OnError P (parse_token cdk text)
        (λ token. verify_token_basics cdk token q.amount_sats mints >>= (λ done. ok token))
        (parse_token-OnError P text bad)
        (λ token.
          >>=-OnError P (verify_token_basics cdk token q.amount_sats mints) (λ done. ok token)
            (verify_token_basics-OnError P token q.amount_sats mints bad) (λ done. tt))

  -- The request for payment of a size.
  abbrev pub price_request : Pricing → ℕ → AppError
  price_request s size =
      payment_required (calculate_price size s.cashu_price_per_mb) (codes "sat")
        s.cashu_accepted_mints

  abbrev pub IsPriced : Pricing → ℕ → Bytes → Type 0
  IsPriced s size text = IsChecked cdk s (calculate_price size s.cashu_price_per_mb) text

  -- When a charge is refused, and with which error.
  pub data IsRefusal (s : Pricing) (wallet : Option Wallet) (given : Option Bytes) (size : ℕ)
      : AppError → Type 0 where
    no_token : given ≡ none → IsRefusal s wallet given size (price_request s size)
    bad_token :
        (text : Bytes)
        → given ≡ some text
        → (IsPriced s size text → ⊥)
        → IsRefusal s wallet given size bad_request
    no_wallet :
        (text : Bytes)
        → given ≡ some text
        → IsPriced s size text
        → wallet ≡ none
        → IsRefusal s wallet given size service_unavailable
    mint_failed :
        (text : Bytes) (w : Wallet)
        → given ≡ some text
        → (c : IsPriced s size text) → wallet ≡ some w
        → (cdk.receive w (cdk.to_text c.token)).0 ≡ none
        → IsRefusal s wallet given size bad_gateway
    too_little :
        (text : Bytes) (w : Wallet) (n : ℕ)
        → given ≡ some text
        → (c : IsPriced s size text) → wallet ≡ some w
        → (cdk.receive w (cdk.to_text c.token)).0 ≡ some n
        → n < calculate_price size s.cashu_price_per_mb
        → IsRefusal s wallet given size (price_request s size)

  received-IsRefusal :
      (s : Pricing) (w : Wallet) (text : Bytes) (size : ℕ) (c : IsPriced s size text)
      (amount : Option ℕ)
      → (cdk.receive w (cdk.to_text c.token)).0 ≡ amount
      → OnError
          (IsRefusal s (some w) (some text) size)
          (settled (quote s.cashu_price_per_mb s.cashu_accepted_mints size) (received amount))
  unfolding settled payment_error quote
  received-IsRefusal s w text size c none asked = mint_failed text w refl c refl asked
  received-IsRefusal s w text size c (some n) asked =
      elim (Bool-cases (ltb n (calculate_price size s.cashu_price_per_mb))) [
        | inl short ↦ rw short (too_little text w n refl c refl asked (ltb→lt n _ short))
        | inr enough ↦ rw enough tt
      ]

  checked-IsRefusal :
      (s : Pricing) (wallet : Option Wallet) (text : Bytes) (size : ℕ) (c : IsPriced s size text)
      → OnError
          (IsRefusal s wallet (some text) size)
          (settle_token cdk
            (quote s.cashu_price_per_mb s.cashu_accepted_mints size)
            wallet
            (ok c.token)).0
  unfolding settle_token receive_token
  checked-IsRefusal s none text size c = no_wallet text refl c refl
  checked-IsRefusal s (some w) text size c = received-IsRefusal s w text size c _ refl

  token-IsRefusal :
      (s : Pricing) (wallet : Option Wallet) (text : Bytes) (size : ℕ)
      → OnError
          (IsRefusal s wallet (some text) size)
          (settle cdk s wallet text (quote s.cashu_price_per_mb s.cashu_accepted_mints size)).0
  unfolding settle settle_token quote
  token-IsRefusal s wallet text size =
      let q = quote s.cashu_price_per_mb s.cashu_accepted_mints size in
      elim (Result-cases (checked_token cdk text q s.cashu_accepted_mints)) [
        | inl (token, good) ↦
            let c = checked_token-IsChecked cdk s q text token good in
            rw (IsChecked-checked_token cdk s q text c) (checked-IsRefusal s wallet text size c)
        | inr (e, bad) ↦
            let is_bad : e ≡ bad_request =
              subst (OnError (λ f. f ≡ bad_request)) bad
                (checked_token-OnError (λ f. f ≡ bad_request) q text s.cashu_accepted_mints refl) in
            let unchecked : IsPriced s size text → ⊥ = λ c.
              let both : ok c.token ≡ err e = sym (IsChecked-checked_token cdk s q text c) ∙ bad in
              cc both in
            rw bad (rw is_bad (bad_token text refl unchecked))
      ]

  -- A charge is refused for these reasons alone: the operation is paid, and the request brings no
  -- token, which is answered by the price for the size, in sats and with the configured mints; or a
  -- token that is unreadable, of another mint or worth less than the price, a bad request; or there is
  -- no wallet, or the mint gives nothing for a good token; or it settles less than the price, which is
  -- answered by the price again.
  pub charge-IsRefusal :
      (s : Pricing) (wallet : Option Wallet) (headers : HeaderMap) (operation : PaidOperation)
      (size : ℕ)
      → OnError
          (λ e.
            (is_paid operation s ≡ true) × IsRefusal s wallet (extract_cashu_header headers) size e)
          (charge cdk s wallet headers operation size).0
  unfolding charge charge_quote payment_error quote
  charge-IsRefusal s wallet headers operation size = elim (Bool-cases (is_paid operation s)) [
    | inr free ↦ rw free tt
    | inl paid ↦ elim (Option-cases (extract_cashu_header headers)) [
      | inl absent ↦ rw (paid, absent) (refl, no_token refl)
      | inr (text, given) ↦
          rw (paid, given)
            (OnError-with (IsRefusal s wallet (some text) size) refl
              (settle cdk s wallet text (quote s.cashu_price_per_mb s.cashu_accepted_mints size)).0
              (token-IsRefusal s wallet text size))
    ]
  ]
