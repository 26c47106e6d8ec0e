-- ===== src/Error.antt =====
-- src/error.rs: the error type of the application. The message texts are not modelled.
use almond.Prelude.{
  Option, none, some, ℕ, List, Bytes, Bool, true, false, if◌then◌else◌, ◌≡◌, refl, ◌⊎◌, inl, inr,
}

pub data AppError : Type 0 where
  unauthorized forbidden bad_request length_required : AppError
  payment_required : (amount_sats : ℕ) (unit : Bytes) (mints : List Bytes) → AppError
  payload_too_large not_found conflict insufficient_storage io_error : AppError
  network_error timeout bad_gateway service_unavailable internal_error : AppError

pub data AppResult {ℓ} (A : Type ℓ) : Type ℓ where
  ok : A → AppResult A
  err : AppError → AppResult A

-- `if !test { return Err(e) }`
abbrev pub ensure : Bool → AppError → AppResult (Unit {0})
ensure test failure = if test then ok tt else err failure

-- `ok_or` and `map_err` where the error is a bad request.
abbrev pub or_refuse {ℓ} : {A : Type ℓ} → Option A → AppResult A
or_refuse none = err bad_request
or_refuse (some a) = ok a

-- The `?` operator, and the inversion of a `?` that goes on.
module _ {ℓ κ} {Value : Type ℓ} {Next : Type κ} where
  infixl 5 ◌>>=◌
  abbrev pub ◌>>=◌ : AppResult Value → (Value → AppResult Next) → AppResult Next
  err failure >>= _ = err failure
  ok value >>= continue = continue value

  pub >>=-eq-ok :
      (first : AppResult Value) (continue : Value → AppResult Next) {last : Next}
      → first >>= continue ≡ ok last
      → (value : Value) × (first ≡ ok value) × (continue value ≡ ok last)
  >>=-eq-ok (err _) continue h = cc
  >>=-eq-ok (ok value) continue h = (value, refl, h)

infixl 5 ◌>>◌
abbrev pub ◌>>◌ {κ} : {Next : Type κ} → AppResult (Unit {0}) → AppResult Next → AppResult Next
first >> next = first >>= (λ done. next)

-- To split on a computed result and keep the equation.
pub Result-cases {ℓ} :
    {A : Type ℓ} (r : AppResult A) → ((a : A) × (r ≡ ok a)) ⊎ ((e : AppError) × (r ≡ err e))
Result-cases (ok a) = inl (a, refl)
Result-cases (err e) = inr (e, refl)

-- A chain that ends well passed its test.
pub ensure->>-eq-ok {κ} :
    {Next : Type κ} (test : Bool) (failure : AppError) (next : AppResult Next) {last : Next}
    → ensure test failure >> next ≡ ok last
    → (test ≡ true) × (next ≡ ok last)
ensure->>-eq-ok true failure next h = (refl, h)
ensure->>-eq-ok false failure next h = cc

-- Every error that a result may be satisfies `P`.
abbrev pub OnError {ℓ μ} : {A : Type ℓ} → (AppError → Type μ) → AppResult A → Type μ
OnError P (ok a) = Unit
OnError P (err e) = P e

pub >>=-OnError {ℓ κ μ} :
    {A : Type ℓ} {B : Type κ} (P : AppError → Type μ) (first : AppResult A)
    (continue : A → AppResult B)
    → OnError P first
    → ((a : A) → OnError P (continue a))
    → OnError P (first >>= continue)
>>=-OnError P (err e) continue h k = h
>>=-OnError P (ok a) continue h k = k a

pub ensure-OnError {μ} :
    (P : AppError → Type μ) (test : Bool) (failure : AppError)
    → P failure
    → OnError P (ensure test failure)
ensure-OnError P true failure h = tt
ensure-OnError P false failure h = h

pub or_refuse-OnError {ℓ μ} :
    {A : Type ℓ} (P : AppError → Type μ) (o : Option A) → P bad_request → OnError P (or_refuse o)
or_refuse-OnError P none h = h
or_refuse-OnError P (some a) h = tt

-- `From<AppError> for StatusCode`
unfoldable pub status_code : AppError → ℕ
status_code unauthorized = 401
status_code forbidden = 403
status_code (payment_required amount_sats unit mints) = 402
status_code bad_request = 400
status_code length_required = 411
status_code payload_too_large = 413
status_code not_found = 404
status_code conflict = 409
status_code insufficient_storage = 507
status_code io_error = 500
status_code network_error = 502
status_code timeout = 408
status_code bad_gateway = 502
status_code service_unavailable = 503
status_code internal_error = 500
