-- ===== src/RateLimit/Middlewares.antt =====
-- The middlewares over the limiter: api-gateway/src/middlewares/rateLimiting.middleware.js.
use railway_booking_system.Base.{ℕ, ◌*◌, Option, none, some, ◌==◌, if◌then◌else◌}
use railway_booking_system.RateLimit.{
  ip_key, user_key, endpoint_key, Member, RateStore, LimitResult, Link, rate_limiter,
}

-- The headers X-RateLimit-Limit, X-RateLimit-Remaining, which is NaN as `none`, and X-RateLimit-Reset.
pub record Headers : Type 0 where
  pub limit : ℕ
  pub remaining : Option ℕ
  pub reset : ℕ

-- next(), next(new TooManyRequestsError(…)), or the RangeError that toISOString throws on an invalid
-- date, on which neither is called. `range_error` keeps what the middlewares before have set.
pub data Passed : Type 0 where
  goes_on : Option Headers → Passed
  too_many_requests : Headers → (retry_after : Option ℕ) → Passed
  range_error : Option Headers → Passed

unfoldable pub with_reset : (max_requests : ℕ) → LimitResult → Option Headers → Option ℕ → Passed
with_reset max_requests r before none = range_error before
with_reset max_requests r before (some t) =
    let headers : Headers = record { limit = max_requests; remaining = r.remaining; reset = t } in
    if r.allowed then goes_on (some headers) else too_many_requests headers r.retry_after

-- What a middleware does with the result.
unfoldable pub respond :
    (max_requests : ℕ) → Option Headers → LimitResult × RateStore → Passed × RateStore
unfolding with_reset
respond max_requests before (r, store) = (with_reset max_requests r before r.reset_time, store)

abbrev pub rate_limit_window_ms : ℕ
rate_limit_window_ms = 900000

abbrev pub rate_limit_max_requests : ℕ
rate_limit_max_requests = 100

pub record Options : Type 0 where
  pub max : Option ℕ
  pub window_ms : Option ℕ

-- `option || fallback`
unfoldable pub or_default : Option ℕ → ℕ → ℕ
or_default none fallback = fallback
or_default (some n) fallback = if n == 0 then fallback else n

pub record GatewayRequest : Type 0 where
  pub ip : Option ℕ
  pub remote_address : ℕ
  pub user : Option ℕ
  pub endpoint : ℕ

unfoldable pub address : GatewayRequest → ℕ
unfolding or_default
address req = or_default req.ip req.remote_address

unfoldable pub ip_rate_limit :
    Options → Link → GatewayRequest → Member → RateStore → Passed × RateStore
unfolding or_default address rate_limiter respond
ip_rate_limit options link req m store =
    let max_requests = or_default options.max rate_limit_max_requests in
    let window = or_default options.window_ms rate_limit_window_ms in
    respond max_requests none (rate_limiter link (ip_key (address req)) max_requests window m store)

-- The limit of a request that has a user.
unfoldable pub limit_user :
    Options → Link → (user_id : ℕ) → Member → Option Headers → RateStore → Passed × RateStore
unfolding or_default rate_limiter respond
limit_user options link user_id m before store =
    let max_requests = or_default options.max (rate_limit_max_requests * 10) in
    let window = or_default options.window_ms rate_limit_window_ms in
    respond max_requests before (rate_limiter link (user_key user_id) max_requests window m store)

unfoldable pub user_rate_limit :
    Options → Link → GatewayRequest → Member → Option Headers → RateStore → Passed × RateStore
unfolding limit_user
user_rate_limit options link req m before store = elim req.user [
  | none ↦ (goes_on before, store)
  | some user_id ↦
      if user_id == 0
      then (goes_on before, store)
      else limit_user options link user_id m before store
]

unfoldable pub endpoint_rate_limit :
    (max_requests window : ℕ) → Link → GatewayRequest → Member → RateStore → Passed × RateStore
unfolding address rate_limiter respond
endpoint_rate_limit max_requests window link req m store =
    respond max_requests none
      (rate_limiter link (endpoint_key req.endpoint (address req)) max_requests window m store)

-- The second limiter of combinedRateLimit, unless the first one passed an error on.
unfoldable pub then_user :
    Options → Link → GatewayRequest → Member → Passed × RateStore → Passed × RateStore
unfolding user_rate_limit
then_user options link req m (goes_on headers, store) =
    user_rate_limit options link req m headers store
then_user options link req m (p, store) = (p, store)

unfoldable pub combined_rate_limit :
    (ip_options user_options : Options)
    → (ip_link user_link : Link) → GatewayRequest
    → (ip_member user_member : Member) → RateStore
    → Passed × RateStore
unfolding ip_rate_limit then_user
combined_rate_limit ip_options user_options ip_link user_link req ip_member user_member store =
    then_user user_options user_link req user_member
      (ip_rate_limit ip_options ip_link req ip_member store)
