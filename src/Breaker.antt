-- ===== src/Breaker.antt =====
-- The circuit breaker of api-gateway/src/services/circuitBreaker.js. A request is three steps, since
-- others run while it is awaited: it is admitted, and later it succeeds or fails.
pub mod Runs
mod Examples
use railway_booking_system.Base.{
  ℕ, ◌+◌, Bool, true, false, Option, none, some, ltb, leb, if◌then◌else◌,
}
use railway_booking_system.Errors.{Failure, Result, ok, err, app, service_unavailable}

pub data BreakerState : Type 0 where
  closed opened half_open : BreakerState

pub record Breaker : Type 0 where
  pub state : BreakerState
  pub failure_count : ℕ
  pub threshold : ℕ
  pub timeout : ℕ
  pub next_attempt : ℕ

unfoldable pub new_breaker : (threshold timeout now : ℕ) → Breaker
new_breaker threshold timeout now = record {
  state = closed;
  failure_count = 0;
  threshold = threshold;
  timeout = timeout;
  next_attempt = now;
}

-- The beginning of `execute`: none is the refusal, before any request is made.
unfoldable pub admit : ℕ → Breaker → Option Breaker
admit now b = elim b.state [
  | opened ↦ if ltb now b.next_attempt then none else some (record b { state = half_open })
  | _ ↦ some b
]

unfoldable pub on_success : Breaker → Breaker
on_success b = elim b.state [
  | half_open ↦ record b { state = closed; failure_count = 0 }
  | _ ↦ record b { failure_count = 0 }
]

unfoldable pub on_failure : ℕ → Breaker → Breaker
on_failure now b =
    let count = b.failure_count + 1 in
    if leb b.threshold count
    then record b { state = opened; failure_count = count; next_attempt = now + b.timeout }
    else record b { failure_count = count }

-- `execute` where nothing runs in between: `outcome` is what the request comes to, `start` and `end`
-- are its times.
unfoldable pub execute {ℓ} :
    {A : Type ℓ} → (start end : ℕ) → Result A → Breaker → Result A × Breaker
unfolding admit on_success on_failure
execute start end outcome b = elim (admit start b) [
  | none ↦ (err (app (record { status_code = 503; code = service_unavailable })), b)
  | some b' ↦ elim outcome [ ok a ↦ (ok a, on_success b') | err e ↦ (err e, on_failure end b') ]
]

pub record BreakerView : Type 0 where
  pub state : BreakerState
  pub failure_count : ℕ
  pub next_attempt : Option ℕ

unfoldable pub get_state : Breaker → BreakerView
get_state b = record {
  state = b.state;
  failure_count = b.failure_count;
  next_attempt = elim b.state [ opened ↦ some b.next_attempt | _ ↦ none ];
}
