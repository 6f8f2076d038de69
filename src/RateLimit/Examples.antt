-- ===== src/RateLimit/Examples.antt =====
-- Concrete requests to the limiter.
use railway_booking_system.Base.{ℕ, ◌≡◌, refl, true, false, none, some, List, [], ◌∷◌, arith}
use railway_booking_system.RateLimit.{
  RateKey, ip_key, user_key, counted, Member, RateStore, zrange_fails, answers, rate_limiter,
}
use railway_booking_system.RateLimit.Middlewares.{
  Options, GatewayRequest, or_default, address, range_error, ip_rate_limit, user_rate_limit,
  endpoint_rate_limit,
}
use railway_booking_system.RateLimit.Window.{
  Asking, InOrder, verdicts, described, verdicts-described,
}
use railway_booking_system.RateLimit.Failing.{rate_limits-cut_off}

abbrev ask : RateKey → (time random : ℕ) → Asking
ask key time random = record { key = key; member = record { time = time; random = random } }

abbrev two_clients : List Asking
two_clients =
    ask (ip_key 1) 100 7
    ∷ ask (ip_key 1) 400 8
    ∷ ask (user_key 1) 400 9
    ∷ ask (ip_key 1) 1100 3
    ∷ []

-- One request in a second: the client that is refused at 400 is told to come back in 1 second, counted
-- from the first request, and is refused again then, since its refused request counts.
told :
    (rate_limiter answers
      (ip_key 1)
      1
      1000
      (record { time = 400; random = 8 })
      (rate_limiter answers (ip_key 1) 1 1000 (record { time = 100; random = 7 }) (λ _. none)).1).0
    ≡ record { allowed = false; remaining = some 0; reset_time = some 1100; retry_after = some 1 }
unfolding rate_limiter
told = refl

refused_again : verdicts 1 1000 two_clients (λ _. none) ≡ true ∷ false ∷ true ∷ false ∷ []
unfolding verdicts
refused_again = refl

verdicts-described_example :
    verdicts 1 1000 two_clients (λ _. none) ≡ described 1 1000 [] two_clients
unfolding InOrder
verdicts-described_example = verdicts-described 1 1000 two_clients (omega arith) (
  (omega arith),
  tt,
  (
    (omega arith),
    (refl, tt),
    ((omega arith), (refl, (refl, tt)), ((omega arith), (refl, (refl, (refl, tt))), tt)),
  ),
)

abbrev from_user : GatewayRequest
from_user = record { ip = some 1; remote_address = 2; user = some 3; endpoint = 4 }

abbrev defaults : Options
defaults = record { max = none; window_ms = none }

abbrev at_five : Member
at_five = record { time = 5; random = 6 }

abbrev empty : RateStore
empty _ = none

-- One request in a second was made by the address, the user and to the endpoint.
abbrev one_a_second : Options
one_a_second = record { max = some 1; window_ms = some 1000 }

abbrev asked_before : RateStore
asked_before _ = some (record { members = record { time = 4; random = 1 } ∷ []; expires_at = 1004 })

rate_limits-cut_off_example :
    ((rate_limiter zrange_fails (ip_key 1) 1 1000 at_five asked_before).0.allowed ≡ true)
    × ((ip_rate_limit one_a_second zrange_fails from_user at_five asked_before).0
        ≡ range_error none)
    × ((user_rate_limit one_a_second zrange_fails from_user at_five none asked_before).0
        ≡ range_error none)
    × ((endpoint_rate_limit 1 1000 zrange_fails from_user at_five asked_before).0
        ≡ range_error none)
unfolding counted or_default address
rate_limits-cut_off_example =
    rate_limits-cut_off one_a_second 1 1000 from_user 3 at_five none asked_before refl refl refl
      refl refl
