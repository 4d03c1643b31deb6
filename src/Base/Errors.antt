-- ===== src/Base/Errors.antt =====
-- server/src/errors.rs: `AppError`, its HTTP status and response; and the results of fallible
-- code. Of a message that is built by `format!` the model keeps the constant part.
use Prim.Native.Nat.{ℕ}
use Prim.Native.String
use Prim.Native.String.{String}
use mathlib.Core.Path.{◌≡◌, refl}
use mathlib.Core.Logic.{◌⊎◌, inl, inr}
use mathlib.Core.Bool.{Bool, true, false}
use mathlib.Core.List.{List, [], ◌∷◌}
use native.Mathlib.Omega.{arith}
use authere.Base.Tests.{if◌then◌else◌}

-- A database error is known by the driver's text.
pub data AppError : Type 0 where
  db_error : String → AppError
  unique_error : String → AppError
  not_found : AppError
  input_error : List String → AppError
  authentication_required : AppError
  forbidden : AppError
  internal_error : String → AppError

-- `impl From<AppError> for StatusCode`
unfoldable status_code : AppError → ℕ
status_code (db_error _) = 500
status_code (unique_error _) = 409
status_code not_found = 404
status_code (input_error _) = 400
status_code authentication_required = 401
status_code forbidden = 403
status_code (internal_error _) = 500

-- `errs.join(", ")`
unfoldable pub join : List String → String
join [] = ""
join (e ∷ []) = e
join (e ∷ es) = String.◌++◌ e (String.◌++◌ ", " (join es))

pub record Response : Type 0 where
  pub status : ℕ
  pub body : String

-- `impl IntoResponse for AppError`
unfoldable pub into_response : AppError → Response
unfolding join
into_response (db_error err) = record { status = 500; body = "Internal server error" }
into_response (internal_error err) = record { status = 500; body = "Internal server error" }
into_response not_found = record { status = 404; body = "Resource not found" }
into_response (unique_error err) = record { status = 409; body = err }
into_response authentication_required = record { status = 401; body = "Authentication required" }
into_response forbidden = record { status = 403; body = "Access denied" }
into_response (input_error errs) = record { status = 400; body = join errs }

-- `impl From<sqlx::Error> for AppError`; whether the driver's error is a unique violation is
-- the driver's to say.
unfoldable pub from_sqlx : Bool → String → AppError
from_sqlx unique_violation text =
    if unique_violation then unique_error "Uniqueness constraint not satisfied" else db_error text

pub data Result {ℓ κ} (A : Type ℓ) (E : Type κ) : Type (ℓ ⊔ κ) where
  ok : A → Result A E
  err : E → Result A E

infixl 5 ◌>>=◌ ◌>>◌
abbrev pub ◌>>=◌ {ℓ κ μ} :
    {A : Type ℓ} {B : Type κ} {E : Type μ} → Result A E → (A → Result B E) → Result B E
ok a >>= f = f a
err e >>= f = err e

abbrev pub ◌>>◌ {ℓ μ} : {B : Type ℓ} {E : Type μ} → Result (Unit {0}) E → Result B E → Result B E
m >> k = m >>= λ _. k

-- `if !test { return Err(e) }`
abbrev pub guard {μ} : {E : Type μ} → Bool → E → Result (Unit {0}) E
guard true e = ok tt
guard false e = err e

abbrev pub is_ok {ℓ κ} : {A : Type ℓ} {E : Type κ} → Result A E → Bool
is_ok (ok a) = true
is_ok (err e) = false

pub Result-cases {ℓ κ} :
    {A : Type ℓ} {E : Type κ} (r : Result A E) → ((a : A) × (r ≡ ok a)) ⊎ ((e : E) × (r ≡ err e))
Result-cases (ok a) = inl (a, refl)
Result-cases (err e) = inr (e, refl)

-- The status that an error converts to is the one that its response carries; and a response with
-- the status 500 says nothing of its cause.
status_code-into_response :
    (e : AppError)
    → (status_code e ≡ (into_response e).status)
      × ((into_response e).status ≡ 500 → (into_response e).body ≡ "Internal server error")
unfolding status_code into_response
status_code-into_response (db_error text) = (refl, λ h. refl)
status_code-into_response (unique_error text) = (refl, λ h. ground arith)
status_code-into_response not_found = (refl, λ h. ground arith)
status_code-into_response (input_error errs) = (refl, λ h. ground arith)
status_code-into_response authentication_required = (refl, λ h. ground arith)
status_code-into_response forbidden = (refl, λ h. ground arith)
status_code-into_response (internal_error text) = (refl, λ h. refl)
