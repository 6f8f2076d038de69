-- ===== src/Inventory/Retry.antt =====
-- `retryTransaction` of inventory-service/src/utils/retryTransaction.js. The outcome of attempt k is
-- an argument: other transactions may run between two attempts.
use railway_booking_system.Base.{ℕ, zero, suc, ◌+◌, Bool, true, false, ◌&&◌, ltb, if◌then◌else◌}
use railway_booking_system.Errors.{
  Failure, database, type_error, Result, ok, err, could_not_obtain_lock, could_not_serialize,
  deadlock_detected,
}

unfoldable pub is_retryable : Failure → Bool
is_retryable (database could_not_obtain_lock) = true
is_retryable (database could_not_serialize) = true
is_retryable (database deadlock_detected) = true
is_retryable _ = false

-- `rounds` attempts from number `attempt` on.
unfoldable pub attempt_from {ℓ} :
    {A : Type ℓ} → (ℕ → Result A) → (max_retries : ℕ) → (rounds attempt : ℕ) → Result A
unfolding is_retryable
attempt_from fn max_retries zero attempt = err type_error
attempt_from fn max_retries (suc rounds) attempt =
    let rest = attempt_from fn max_retries rounds (attempt + 1) in
    elim (fn attempt) [
      | ok a ↦ ok a
      | err e ↦ if is_retryable e && ltb attempt max_retries then rest else err e
    ]

unfoldable pub retry_transaction {ℓ} : {A : Type ℓ} → (ℕ → Result A) → Result A
unfolding attempt_from
retry_transaction fn = attempt_from fn 3 3 1
