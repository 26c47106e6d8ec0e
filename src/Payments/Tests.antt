-- ===== src/Payments/Tests.antt =====
-- A wallet that counts what it was given, and one token of six sats.
use almond.Prelude.{
  ℕ, ◌+◌, ◌*◌, ◌≡◌, refl, true, false, none, some, [], ◌∷◌, codes, text_eq, if◌then◌else◌, Bytes,
  arith, ◌⊎◌, ◌^◌, ◌-◌, min,
}
use almond.Error.{ok, err, bad_request, payment_required, OnError}
use almond.Text.{starts_with, trim, trim_end_matches, is_whitespace, keep_end, trim_end, trim_start}
use almond.Auth.{to_lower}
use almond.Payments.{
  charge_quote, settle, settle_token, checked_token, parse_token, verify_token_basics, is_accepted,
  eq_ignore_ascii_case, div_ceil, payment_error, receive_token, saturating_mul, settled, upload,
  download, Pricing, Cdk, HeaderMap, charge, calculate_price, quote, max, is_paid,
  extract_cashu_header, charge_quote, div_ceil, payment_error, saturating_mul,
}
use almond.Payments.Price.{calculate_price_exact}
use almond.Payments.Settlement.{ReceiveLaw, HasGained, IsChecked, charge-gains, charge-keeps}
use almond.Payments.Refusals.{IsRefusal, charge-IsRefusal}

abbrev pricing : Pricing
pricing = record {
  feature_paid_upload = true;
  feature_paid_mirror = false;
  feature_paid_download = false;
  cashu_price_per_mb = 3;
  cashu_accepted_mints = codes "M" ∷ [];
}

abbrev cdk : Cdk Bytes ℕ
cdk = record {
  from_str = λ t. some t;
  to_text = λ t. t;
  mint_url = λ t. some (codes "m/");
  value = λ t. some 6;
  receive = λ w t. (some 6, w + 6);
}

abbrev paying : HeaderMap
paying = record {
  header = λ name. if text_eq name (codes "X-Cashu") then some (some (codes " cashuAx")) else none;
}

abbrev without_token : HeaderMap
without_token = record { header = λ name. none }

law : ReceiveLaw cdk (λ w. w)
law = record { adds = λ w after token amount h. cc h }

two_mebibytes : calculate_price (1048576 + 1) 7 ≡ 14
unfolding calculate_price saturating_mul div_ceil
two_mebibytes = refl

floor_price : calculate_price (50 * 1048576) 0 ≡ 1
unfolding calculate_price saturating_mul div_ceil
floor_price = refl

no_token :
    charge cdk pricing (some 5) without_token upload 10
    ≡ (err (payment_required 3 (codes "sat") (codes "M" ∷ [])), some 5)
unfolding charge is_paid charge_quote extract_cashu_header payment_error quote calculate_price
    saturating_mul div_ceil
no_token = refl

too_large : charge cdk pricing (some 5) paying upload (3 * 1048576) ≡ (err bad_request, some 5)
unfolding charge is_paid charge_quote extract_cashu_header text_eq settle settle_token checked_token
    parse_token starts_with trim verify_token_basics is_accepted eq_ignore_ascii_case
    trim_end_matches to_lower quote calculate_price div_ceil payment_error receive_token
    saturating_mul settled is_whitespace keep_end trim_end trim_start
too_large = refl

free : charge cdk pricing (some 5) without_token download 10 ≡ (ok tt, some 5)
unfolding charge is_paid
free = refl

pays : charge cdk pricing (some 5) paying upload (2 * 1048576) ≡ (ok tt, some 11)
unfolding charge is_paid charge_quote extract_cashu_header text_eq settle settle_token checked_token
    parse_token starts_with trim verify_token_basics is_accepted eq_ignore_ascii_case
    trim_end_matches to_lower quote calculate_price div_ceil payment_error receive_token
    saturating_mul settled is_whitespace keep_end trim_end trim_start
pays = refl

charge-gains_example : HasGained cdk (λ w. w) 6 (some 5) (some 11)
unfolding is_paid calculate_price saturating_mul div_ceil
charge-gains_example =
    charge-gains cdk (λ w. w) law pricing (some 5) (some 11) paying upload (2 * 1048576) refl pays

charge-keeps_example :
    ((charge cdk pricing (some 5) paying upload (2 * 1048576)).1 ≡ some 5)
    ⊎ ((is_paid upload pricing ≡ true)
        × (text : Bytes) × (extract_cashu_header paying ≡ some text)
        × IsChecked cdk pricing (calculate_price (2 * 1048576) 3) text)
charge-keeps_example = charge-keeps cdk pricing (some 5) paying upload (2 * 1048576)

charge-IsRefusal_example :
    OnError
      (λ e.
        (is_paid upload pricing ≡ true)
        × IsRefusal cdk pricing (some 5) (extract_cashu_header without_token) 10 e)
      (charge cdk pricing (some 5) without_token upload 10).0
charge-IsRefusal_example = charge-IsRefusal cdk pricing (some 5) without_token upload 10

calculate_price_exact_example : calculate_price 1048577 7 ≡ max 1 (min (2 * 7) (2 ^ 64 - 1))
calculate_price_exact_example = calculate_price_exact 1048577 7 2 (omega arith) (omega arith)
