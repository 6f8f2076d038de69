-- ===== src/RateLimit/Failing.antt =====
-- The middlewares while Redis does not answer: api-gateway/src/middlewares/rateLimiting.middleware.js.
use railway_booking_system.Base.{
  ℕ, ◌*◌, ◌≡◌, refl, true, false, Option, none, some, length, leb, ◌==◌,
}
use railway_booking_system.RateLimit.{
  RateKey, ip_key, user_key, endpoint_key, RateStore, Member, zrange_fails, counted, decide,
  over_limit, fail_open, rate_limiter,
}
use railway_booking_system.RateLimit.Middlewares.{
  Options, GatewayRequest, range_error, Headers, or_default, address, rate_limit_max_requests,
  rate_limit_window_ms, ip_rate_limit, user_rate_limit, endpoint_rate_limit, limit_user, respond,
  with_reset,
}

-- The limits of the two configurable limiters.
abbrev pub ip_max : Options → ℕ
ip_max options = or_default options.max rate_limit_max_requests

abbrev pub user_max : Options → ℕ
user_max options = or_default options.max (rate_limit_max_requests * 10)

abbrev pub window_of : Options → ℕ
window_of options = or_default options.window_ms rate_limit_window_ms

-- What a request that nobody counted is told: no number of remaining requests, and the present.
abbrev pub told_now : (max_requests now : ℕ) → Option Headers
told_now max_requests now = some (record { limit = max_requests; remaining = none; reset = now })

-- The request is one too many for the key.
abbrev pub IsOver : RateKey → (max_requests window : ℕ) → Member → RateStore → Type 0
IsOver key max_requests window m store =
    leb (length (counted window m (store key))) max_requests ≡ false

limiter_over :
    (key : RateKey) (max_requests window : ℕ) (m : Member) (store : RateStore)
    → IsOver key max_requests window m store
    → (rate_limiter zrange_fails key max_requests window m store).0 ≡ fail_open max_requests
unfolding rate_limiter decide over_limit
limiter_over key max_requests window m store h = rw h refl

-- A request over the limit during which Redis stops to answer, after the pipeline and before zrange: the
-- limiter says that it is allowed, and still the middleware of the address, the one of the user and the
-- one of the endpoint call next neither with an error nor without, since each ends in a RangeError.
pub rate_limits-cut_off :
    (options : Options) (max_requests window : ℕ) (req : GatewayRequest) (user_id : ℕ) (m : Member)
    (headers : Option Headers) (store : RateStore)
    → req.user ≡ some user_id
    → (user_id == 0) ≡ false
    → IsOver (ip_key (address req)) (ip_max options) (window_of options) m store
    → IsOver (user_key user_id) (user_max options) (window_of options) m store
    → IsOver (endpoint_key req.endpoint (address req)) max_requests window m store
    → ((rate_limiter zrange_fails
          (ip_key (address req))
          (ip_max options)
          (window_of options)
          m
          store).0.allowed
        ≡ true)
      × ((ip_rate_limit options zrange_fails req m store).0 ≡ range_error none)
      × ((user_rate_limit options zrange_fails req m headers store).0 ≡ range_error headers)
      × ((endpoint_rate_limit max_requests window zrange_fails req m store).0 ≡ range_error none)
unfolding ip_rate_limit user_rate_limit limit_user endpoint_rate_limit fail_open respond with_reset
rate_limits-cut_off options max_requests window req user_id m headers store u z o p q =
    let a = limiter_over (ip_key (address req)) (ip_max options) (window_of options) m store o in
    let b = limiter_over (user_key user_id) (user_max options) (window_of options) m store p in
    let c = limiter_over (endpoint_key req.endpoint (address req)) max_requests window m store q in
    (rw a refl, rw a refl, rw (u, z, b) refl, rw c refl)
