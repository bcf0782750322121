-- ===== src/Base/Errors.antt =====
-- sonotxt-core/src/error.rs: the error type of every handler, and the results that carry errors.
use Prim.Native.Nat.{ℕ}
use Prim.Native.String.{String}
use mathlib.Core.Path.{◌≡◌, refl}
use mathlib.Core.Logic.{◌⊎◌, inl, inr}
use sonotxt_rust.Base.Int.{ℤ}

-- `enum ApiError`
pub data ApiError : Type 0 where
  invalid_api_key : ApiError
  insufficient_balance : ApiError
  free_tier_limit_exceeded : ℤ → ℤ → ApiError
  invalid_url : ApiError
  content_too_large : ApiError
  processing_failed : ApiError
  not_found : ApiError
  unauthorized : ApiError
  invalid_credentials : ApiError
  rate_limited : ApiError
  internal_error : ApiError
  internal : String → ApiError
  invalid_request_error : ApiError
  invalid_request : String → ApiError
  quota_exceeded : ApiError

-- The HTTP status that `into_response` answers with.
unfoldable pub status_code : ApiError → ℕ
status_code ApiError.invalid_api_key = 401
status_code ApiError.insufficient_balance = 402
status_code (ApiError.free_tier_limit_exceeded remaining limit) = 429
status_code ApiError.invalid_url = 400
status_code ApiError.content_too_large = 413
status_code ApiError.processing_failed = 422
status_code ApiError.not_found = 404
status_code ApiError.unauthorized = 401
status_code ApiError.invalid_credentials = 401
status_code ApiError.rate_limited = 429
status_code ApiError.internal_error = 500
status_code (ApiError.internal message) = 500
status_code ApiError.invalid_request_error = 400
status_code (ApiError.invalid_request message) = 400
status_code ApiError.quota_exceeded = 507

-- `Result<A, E>`
pub data Result {ℓ κ} (E : Type ℓ) (A : Type κ) : Type (ℓ ⊔ κ) where
  ok : A → Result E A
  err : E → Result E A

-- The `?` operator on a result.
infixl 5 ◌>>=◌ ◌>>◌
abbrev pub ◌>>=◌ {ℓ κ μ} :
    {E : Type ℓ} {A : Type κ} {B : Type μ} → Result E A → (A → Result E B) → Result E B
ok a >>= f = f a
err e >>= f = err e

abbrev pub ◌>>◌ {ℓ κ} : {E : Type ℓ} {B : Type κ} → Result E (Unit {0}) → Result E B → Result E B
m >> k = m >>= λ _. k

pub Result-cases {ℓ κ} :
    {E : Type ℓ} {A : Type κ} (r : Result E A) → ((a : A) × (r ≡ ok a)) ⊎ ((e : E) × (r ≡ err e))
Result-cases (ok a) = inl (a, refl)
Result-cases (err e) = inr (e, refl)
