-- ===== src/Payments/Price.antt =====
-- `calculate_price` of src/services/cashu.rs.
use almond.Prelude.{ℕ, ◌+◌, ◌-◌, ◌*◌, ◌≤◌, ◌<◌, ◌≡◌, refl, arith, min, ◌^◌}
use almond.Payments.{calculate_price, div_ceil, saturating_mul, max}

div_ceil-mebibyte :
    (size blocks : ℕ)
    → size ≤ blocks * 1048576
    → blocks * 1048576 < size + 1048576
    → div_ceil size (1024 * 1024) ≡ blocks
unfolding div_ceil
div_ceil-mebibyte size blocks covers least = ground arith

saturating_mul_lem : (a b : ℕ) → saturating_mul a b ≡ min (a * b) (2 ^ 64 - 1)
unfolding saturating_mul
saturating_mul_lem a b = ground arith

-- A size that fills `blocks` mebibytes and no fewer, the last one perhaps in part, is charged
-- `blocks` times the rate, one sat at least and the greatest `u64` at most.
pub calculate_price_exact :
    (size rate blocks : ℕ)
    → size ≤ blocks * 1048576
    → blocks * 1048576 < size + 1048576
    → calculate_price size rate ≡ max 1 (min (blocks * rate) (2 ^ 64 - 1))
unfolding calculate_price
calculate_price_exact size rate blocks covers least =
    rw (div_ceil-mebibyte size blocks covers least, saturating_mul_lem blocks rate) refl
