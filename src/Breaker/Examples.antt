-- ===== src/Breaker/Examples.antt =====
-- Concrete requests through the circuit breaker.
use railway_booking_system.Base.{ℕ, ◌+◌, ◌≡◌, some, List, [], ◌∷◌, arith}
use railway_booking_system.Errors.{ok, err, type_error}
use railway_booking_system.Breaker.{
  Breaker, opened, half_open, new_breaker, admit, on_success, on_failure,
}
use railway_booking_system.Breaker.Runs.{
  Call, run, described_run, at, run-described, late_success-half_open,
}

abbrev fails : ℕ → Call ℕ
fails t = record { start = t; finish = t + 1; outcome = err type_error }

-- Two failures open the breaker until 112; the third call is refused, the fourth is made.
abbrev calls : List (Call ℕ)
calls =
    fails 10
    ∷ fails 11
    ∷ record { start = 50; finish = 51; outcome = ok 1 }
    ∷ record { start = 112; finish = 113; outcome = ok 2 }
    ∷ []

run-described_example :
    run calls (new_breaker 2 100 0) ≡ described_run 2 100 calls (record { failures = 0; until = 0 })
run-described_example = run-described 2 100 (omega arith) 0 calls

late_success-half_open_example :
    (b : Breaker) × (admit 60 (on_success (at 5 100 opened 5 50)) ≡ some b)
    × ((on_failure 61 b).state ≡ half_open)
    × ((t : ℕ) → admit t (on_failure 61 b) ≡ some (on_failure 61 b))
late_success-half_open_example = late_success-half_open 60 61 5 5 100 50 (omega arith) (omega arith)
