-- ===== src/Errors.antt =====
-- The error classes that every service declares (inventory-service/src/utils/error.js and its
-- copies), and the other ways in which an operation ends without a result. Messages are left out.
use railway_booking_system.Base.{ℕ, ◌≡◌, refl, ◌⊎◌, inl, inr}

pub data ErrorCode : Type 0 where
  bad_request unauthorized forbidden not_found conflict too_many_requests server_error : ErrorCode
  seats_unavailable seats_locked lock_expired stale_state invalid_signature : ErrorCode
  service_unavailable otp_invalid otp_rate_limit invalid_credentials oauth_only_account : ErrorCode
  login_again login_again_capitals payment_gateway_error : ErrorCode
  token_expired token_invalid gateway_timeout : ErrorCode

pub record AppError : Type 0 where
  pub status_code : ℕ
  pub code : ErrorCode

-- The database's own errors: a row that another transaction has locked (NOWAIT), a serialization
-- failure, a deadlock, a violated constraint, an update of a row that is not there, and a negative skip.
pub data DbError : Type 0 where
  could_not_obtain_lock could_not_serialize deadlock_detected : DbError
  unique_violation record_not_found invalid_argument : DbError

-- `type_error` is JavaScript's, on reading a property of null.
pub data Failure : Type 0 where
  app : AppError → Failure
  database : DbError → Failure
  type_error : Failure

pub data Result {ℓ} (A : Type ℓ) : Type ℓ where
  ok : A → Result A
  err : Failure → Result A

unfoldable pub bad_request_error : ErrorCode → Failure
bad_request_error code = app (record { status_code = 400; code = code })

unfoldable pub unauthorized_error : ErrorCode → Failure
unauthorized_error code = app (record { status_code = 401; code = code })

unfoldable pub forbidden_error : ErrorCode → Failure
forbidden_error code = app (record { status_code = 403; code = code })

unfoldable pub not_found_error : Failure
not_found_error = app (record { status_code = 404; code = not_found })

unfoldable pub conflict_error : ErrorCode → Failure
conflict_error code = app (record { status_code = 409; code = code })

unfoldable pub too_many_requests_error : ErrorCode → Failure
too_many_requests_error code = app (record { status_code = 429; code = code })

pub Result-cases {ℓ} :
    {A : Type ℓ} (r : Result A) → ((a : A) × (r ≡ ok a)) ⊎ ((e : Failure) × (r ≡ err e))
Result-cases (ok a) = inl (a, refl)
Result-cases (err e) = inr (e, refl)
