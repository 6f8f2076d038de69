-- ===== src/RateLimit.antt =====
-- The sliding window in Redis and the middlewares over it:
-- api-gateway/src/middlewares/rateLimiting.middleware.js. A time is in milliseconds, and the random part
-- of a member is an argument beside the time. Addresses, users and `METHOD:path` are numbers.
pub mod Kept
pub mod Middlewares
pub mod Window
pub mod Failing
mod Examples
use railway_booking_system.Base.{
  ℕ, ◌+◌, ◌-◌, ◌*◌, ◌/◌, Bool, true, false, ◌&&◌, Option, none, some, List, [], ◌∷◌, ◌++◌, length,
  delete_where, min, ltb, leb, truthy, ◌==◌, if◌then◌else◌,
}

pub data RateKey : Type 0 where
  ip_key : (ip : ℕ) → RateKey
  user_key : (user_id : ℕ) → RateKey
  endpoint_key : (endpoint ip : ℕ) → RateKey

unfoldable pub same_rate_key : RateKey → RateKey → Bool
same_rate_key (ip_key a) (ip_key b) = a == b
same_rate_key (user_key a) (user_key b) = a == b
same_rate_key (endpoint_key a b) (endpoint_key c d) = a == c && b == d
same_rate_key _ _ = false

-- A member of the sorted set, `${now}-${Math.random()}`, whose score is the time.
pub record Member : Type 0 where
  pub time : ℕ
  pub random : ℕ

unfoldable pub same_member : Member → Member → Bool
same_member m x = x.time == m.time && x.random == m.random

pub record SortedSet : Type 0 where
  pub members : List Member
  pub expires_at : ℕ

abbrev pub RateStore : Type 0
RateStore = RateKey → Option SortedSet

-- The members of a key at a time, when a key that has expired is gone.
unfoldable pub members_at : ℕ → Option SortedSet → List Member
members_at now none = []
members_at now (some s) = if ltb now s.expires_at then s.members else []

-- A score up to windowStart.
unfoldable pub is_old : (window now : ℕ) → Member → Bool
is_old window now m = leb (m.time + window) now

-- zadd, which replaces a member that is there.
unfoldable pub zadd : Member → List Member → List Member
unfolding same_member
zadd m members = delete_where (same_member m) members ++ m ∷ []

-- Math.ceil(ms / 1000)
unfoldable pub seconds : ℕ → ℕ
seconds ms = (ms + 999) / 1000

-- expire, which removes the key at once for 0 seconds.
unfoldable pub expire : (now secs : ℕ) → List Member → Option SortedSet
expire now secs members =
    if secs == 0 then none else some (record { members = members; expires_at = now + secs * 1000 })

unfoldable pub put : RateKey → Option SortedSet → RateStore → RateStore
unfolding same_rate_key
put key s store j = if same_rate_key key j then s else store j

-- The least score, which zrange returns for the ranks 0 to 0.
unfoldable pub oldest : List Member → Option ℕ
oldest [] = none
oldest (m ∷ ms) = elim (oldest ms) [ none ↦ some m.time | some t ↦ some (min m.time t) ]

-- A number that the code leaves undefined or reads as NaN is `none`.
pub record LimitResult : Type 0 where
  pub allowed : Bool
  pub remaining : Option ℕ
  pub reset_time : Option ℕ
  pub retry_after : Option ℕ

-- How Redis answers: every command; the pipeline's commands with errors, with which exec resolves all
-- the same, none of them carried out; or the pipeline, and zrange rejects.
pub data Link : Type 0 where
  answers pipeline_errors zrange_fails : Link

-- The catch branch, which sets no resetTime.
unfoldable pub fail_open : (max_requests : ℕ) → LimitResult
fail_open max_requests = record {
  allowed = true;
  remaining = some max_requests;
  reset_time = none;
  retry_after = none;
}

unfoldable pub limited_until : (window now : ℕ) → Option ℕ → LimitResult
unfolding seconds
limited_until window now none = record {
  allowed = false;
  remaining = some 0;
  reset_time = none;
  retry_after = none;
}
limited_until window now (some t) = record {
  allowed = false;
  remaining = some 0;
  reset_time = some (t + window);
  retry_after = some (seconds (t + window - now));
}

unfoldable pub over_limit : Link → (max_requests window now : ℕ) → List Member → LimitResult
unfolding fail_open limited_until oldest
over_limit zrange_fails max_requests window now members = fail_open max_requests
over_limit _ max_requests window now members = limited_until window now (oldest members)

unfoldable pub decide :
    Link → (max_requests window now : ℕ) → List Member → Option SortedSet → LimitResult
unfolding over_limit members_at
decide link max_requests window now members s =
    if leb (length members) max_requests
    then record {
      allowed = true;
      remaining = some (max_requests - length members);
      reset_time = some now;
      retry_after = none;
    }
    else over_limit link max_requests window now (members_at now s)

-- `requestCount` is undefined where zcard answers an error: it is not more than the limit, and
-- `maxRequests - requestCount` is NaN.
unfoldable pub uncounted : (now : ℕ) → LimitResult
uncounted now = record {
  allowed = true;
  remaining = none;
  reset_time = some now;
  retry_after = none;
}

-- The pipeline's first two commands: the members that zcard counts.
unfoldable pub counted : (window : ℕ) → Member → Option SortedSet → List Member
unfolding is_old members_at zadd
counted window m s = zadd m (delete_where (is_old window m.time) (members_at m.time s))

unfoldable pub rate_limiter :
    Link → RateKey → (max_requests window : ℕ) → Member → RateStore → LimitResult × RateStore
unfolding uncounted decide counted expire seconds put
rate_limiter pipeline_errors key max_requests window m store = (uncounted m.time, store)
rate_limiter link key max_requests window m store =
    let members = counted window m (store key) in
    let s = expire m.time (seconds window) members in
    (decide link max_requests window m.time members s, put key s store)
