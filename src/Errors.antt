-- ===== src/Errors.antt =====
-- exceptions.py: the domain exceptions with their detail, and results that may raise one.
use triton_control.Prelude.{ℕ, String, Bool, true, false, Option, none, some}

pub data AppError : Type 0 where
  not_found_error forbidden_error unauthorized_error conflict_error : String → AppError
  bad_request_error service_unavailable_error bad_gateway_error : String → AppError
  -- an exception that is no `AppError`, by the name of its class
  uncaught : String → AppError

-- `status_code` of the classes; what is no `AppError` ends as an HTTP 500
unfoldable pub status_code : AppError → ℕ
status_code (not_found_error _) = 404
status_code (forbidden_error _) = 403
status_code (unauthorized_error _) = 401
status_code (conflict_error _) = 409
status_code (bad_request_error _) = 400
status_code (service_unavailable_error _) = 503
status_code (bad_gateway_error _) = 502
status_code (uncaught _) = 500

pub data Result {ℓ} (V : Type ℓ) : Type ℓ where
  err : AppError → Result V
  ok : V → Result V

-- `if c: raise e`
abbrev pub reject_if : Bool → AppError → Result (Unit {0})
reject_if c e = elim c [ true ↦ err e | false ↦ ok tt ]

-- the value, or the exception where there is none
abbrev pub or_raise {ℓ} : {V : Type ℓ} → Option V → AppError → Result V
or_raise found e = elim found [ none ↦ err e | some v ↦ ok v ]

-- A chain of steps that keep no state: an exception skips the rest.
module _ {ℓ κ} {V : Type ℓ} {W : Type κ} where
  infixl 5 ◌>>=◌
  abbrev pub ◌>>=◌ : Result V → (V → Result W) → Result W
  err e >>= rest = err e
  ok v >>= rest = rest v

infixl 5 ◌>>◌
abbrev pub ◌>>◌ {κ} : {W : Type κ} → Result (Unit {0}) → Result W → Result W
check >> rest = check >>= λ done. rest
