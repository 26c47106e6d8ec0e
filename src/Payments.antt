-- ===== src/Payments.antt =====
-- src/services/cashu.rs: the price of an operation and its settlement, in the build that has the
-- `cashu` feature. Tokens and the wallet are the `cashu` and `cdk` libraries' and come as the
-- parameter `Cdk`; a `None` of it is an error there. Opening the wallet is not modelled.
pub mod Price
pub mod Settlement
pub mod Refusals
pub mod Tests
use almond.Prelude.{
  ℕ, ◌+◌, ◌-◌, ◌*◌, ◌/◌, ◌%◌, Bool, true, false, not, ◌||◌, Option, none, some, List, map, codes,
  ltb, ◌==◌, text_eq, if◌then◌else◌, Bytes, any,
}
use almond.Text.{u64_mod, trim, starts_with, trim_end_matches}
use almond.Auth.{to_lower}
use almond.Error.{
  AppError, AppResult, ok, err, bad_request, bad_gateway, service_unavailable, payment_required,
  ensure, ◌>>=◌, ◌>>◌, or_refuse,
}

pub data PaidOperation : Type 0 where
  upload mirror download : PaidOperation

-- The fields of `AppState` that a payment reads.
pub record Pricing : Type 0 where
  pub feature_paid_upload : Bool
  pub feature_paid_mirror : Bool
  pub feature_paid_download : Bool
  pub cashu_price_per_mb : ℕ
  pub cashu_accepted_mints : List Bytes

unfoldable pub is_paid : PaidOperation → Pricing → Bool
is_paid upload s = s.feature_paid_upload
is_paid mirror s = s.feature_paid_mirror
is_paid download s = s.feature_paid_download

pub record Quote : Type 0 where
  pub amount_sats : ℕ
  pub unit : Bytes
  pub mints : List Bytes

pub div_ceil : ℕ → ℕ → ℕ
div_ceil n d = n / d + (if n % d == 0 then 0 else 1)

pub saturating_mul : ℕ → ℕ → ℕ
saturating_mul a b = let product = a * b in if ltb product u64_mod then product else u64_mod - 1

-- `std::cmp::max`
abbrev pub max : ℕ → ℕ → ℕ
max a b = if ltb b a then a else b

pub calculate_price : ℕ → ℕ → ℕ
calculate_price size_bytes price_per_mb =
    max 1 (saturating_mul (div_ceil size_bytes (1024 * 1024)) price_per_mb)

pub quote : ℕ → List Bytes → ℕ → Quote
quote price_per_mb mints size_bytes = record {
  amount_sats = calculate_price size_bytes price_per_mb;
  unit = codes "sat";
  mints = mints;
}

pub payment_error : Quote → AppError
payment_error q = payment_required q.amount_sats q.unit q.mints

-- What the two libraries do; `receive` returns what the mint settled.
pub record Cdk (Token Wallet : Type 0) : Type 0 where
  pub from_str : Bytes → Option Token
  pub to_text : Token → Bytes
  pub mint_url : Token → Option Bytes
  pub value : Token → Option ℕ
  pub receive : Wallet → Bytes → Option ℕ × Wallet

-- A header's value is text or it is not; a name is looked up in any case.
pub record HeaderMap : Type 0 where
  pub header : Bytes → Option (Option Bytes)

abbrev or_else : Option (Option Bytes) → Option (Option Bytes) → Option (Option Bytes)
or_else none other = other
or_else (some value) other = some value

abbrev pub as_text : Option (Option Bytes) → Option Bytes
as_text none = none
as_text (some value) = value

pub extract_cashu_header : HeaderMap → Option Bytes
extract_cashu_header headers =
    as_text (or_else (headers.header (codes "X-Cashu")) (headers.header (codes "x-cashu")))

pub eq_ignore_ascii_case : Bytes → Bytes → Bool
eq_ignore_ascii_case a b = text_eq (map to_lower a) (map to_lower b)

-- Without trailing slashes and in any case.
pub is_accepted : Bytes → List Bytes → Bool
is_accepted mint accepted_mints =
    any
      (λ accepted.
        eq_ignore_ascii_case (trim_end_matches b'/' mint) (trim_end_matches b'/' accepted))
      accepted_mints

abbrev pub received : Option ℕ → AppResult ℕ
received none = err bad_gateway
received (some amount) = ok amount

pub settled : Quote → AppResult ℕ → AppResult (Unit {0})
settled q (err e) = err e
settled q (ok received_sats) =
    if ltb received_sats q.amount_sats then err (payment_error q) else ok tt

module _ {Token Wallet : Type 0} (cdk : Cdk Token Wallet) where
  pub parse_token : Bytes → AppResult Token
  parse_token token_str =
      let trimmed = trim token_str in
      ensure (starts_with (codes "cashuA") trimmed || starts_with (codes "cashuB") trimmed)
        bad_request
      >> or_refuse (cdk.from_str trimmed)

  pub verify_token_basics : Token → ℕ → List Bytes → AppResult (Unit {0})
  verify_token_basics token required_amount accepted_mints = do
    mint ← or_refuse (cdk.mint_url token)
    accepted ← ensure (is_accepted mint accepted_mints) bad_request
    token_sats ← or_refuse (cdk.value token)
    ensure (not (ltb token_sats required_amount)) bad_request

  pub receive_token : Wallet → Token → AppResult ℕ × Wallet
  receive_token wallet token =
      let (amount, after) = cdk.receive wallet (cdk.to_text token) in (received amount, after)

  -- From the checked token on: the wallet is asked once, if there is one.
  pub settle_token : Quote → Option Wallet → AppResult Token → AppResult (Unit {0}) × Option Wallet
  settle_token q wallet (err e) = (err e, wallet)
  settle_token q none (ok token) = (err service_unavailable, none)
  settle_token q (some wallet) (ok token) =
      let (amount, after) = receive_token wallet token in (settled q amount, some after)

  -- The token of a header, checked.
  pub checked_token : Bytes → Quote → List Bytes → AppResult Token
  checked_token token_str q accepted_mints = do
    token ← parse_token token_str
    verified ← verify_token_basics token q.amount_sats accepted_mints
    ok token

  pub settle : Pricing → Option Wallet → Bytes → Quote → AppResult (Unit {0}) × Option Wallet
  settle s wallet token_str q =
      settle_token q wallet (checked_token token_str q s.cashu_accepted_mints)

  pub charge_quote :
      Pricing → Option Wallet → Option Bytes → Quote → AppResult (Unit {0}) × Option Wallet
  charge_quote s wallet none q = (err (payment_error q), wallet)
  charge_quote s wallet (some token_str) q = settle s wallet token_str q

  unfoldable pub charge :
      Pricing → Option Wallet → HeaderMap → PaidOperation → ℕ → AppResult (Unit {0}) × Option Wallet
  charge s wallet headers operation size_bytes =
      if is_paid operation s
      then charge_quote s wallet (extract_cashu_header headers)
          (quote s.cashu_price_per_mb s.cashu_accepted_mints size_bytes)
      else (ok tt, wallet)
