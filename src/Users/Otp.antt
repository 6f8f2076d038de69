-- ===== src/Users/Otp.antt =====
-- One-time passwords: user-service/src/utils/otp.js, at the defaults of user-service/src/config/index.js.
-- The HMAC is an argument; a session's id is the next that was not given out.
use railway_booking_system.Base.{ℕ, Bool, Option, none, some, leb, ◌==◌, if◌then◌else◌}
use railway_booking_system.Errors.{too_many_requests_error, otp_rate_limit, too_many_requests}
use railway_booking_system.Effects.{Act, pure, gets, modify, fail_if, ◌>>=◌, ◌>>◌}
use railway_booking_system.Users.Rows.{
  Meta, OtpSession, World, get, set_ex, at_key, count_of, count_up, on_redis, skip_id,
}

abbrev pub rate_max : ℕ
rate_max = 5

abbrev pub attempt_max : ℕ
attempt_max = 5

abbrev pub otp_ttl : ℕ
otp_ttl = 300

unfoldable pub set_session : (now id : ℕ) → OtpSession → World → World
unfolding set_ex at_key on_redis
set_session now id s w =
    on_redis (λ r. record r { otp_session = at_key id (set_ex now otp_ttl s) r.otp_session }) w

unfoldable pub count_sent : (now email : ℕ) → World → World
unfolding count_up at_key on_redis
count_sent now email w =
    on_redis
      (λ r. record r { otp_rate = at_key email (count_up now 3600 (r.otp_rate email)) r.otp_rate })
      w

unfoldable pub count_attempt : (now email : ℕ) → World → World
unfolding count_up at_key on_redis
count_attempt now email w =
    on_redis
      (λ r. record r {
        otp_attempts = at_key email (count_up now otp_ttl (r.otp_attempts email)) r.otp_attempts;
      })
      w

-- The deletions after a one-time password that is right.
unfoldable pub close_session : (id email : ℕ) → World → World
unfolding at_key on_redis
close_session id email w =
    on_redis
      (λ r. record r {
        otp_session = at_key id none r.otp_session;
        otp_attempts = at_key email none r.otp_attempts;
        otp_rate = at_key email none r.otp_rate;
      })
      w

unfoldable pub rate_reached : (now email : ℕ) → World → Bool
unfolding count_of
rate_reached now email w = leb rate_max (count_of now (w.redis.otp_rate email))

unfoldable pub attempts_reached : (now email : ℕ) → World → Bool
unfolding count_of
attempts_reached now email w = leb attempt_max (count_of now (w.redis.otp_attempts email))

module _ (hmac_for : (email otp : ℕ) → ℕ) where
  -- The session's id; the caller has the one-time password that the package generated.
  unfoldable pub generate_and_store_otp : (now otp : ℕ) → Meta → Act World ℕ
  unfolding rate_reached skip_id set_session count_sent
  generate_and_store_otp now otp meta = do
    reached ← gets (rate_reached now meta.email)
    fail_if reached (too_many_requests_error otp_rate_limit)
    id ← gets (λ w. w.next_id)
    modify skip_id
    modify (set_session now id (record { hashed_otp = hmac_for meta.email otp; meta = meta }))
    modify (count_sent now meta.email)
    pure id

  unfoldable pub compare_otp : (now otp id : ℕ) → OtpSession → Act World (Option Meta)
  unfolding close_session count_attempt
  compare_otp now otp id s w =
      if hmac_for s.meta.email otp == s.hashed_otp
      then (pure (some s.meta) (close_session id s.meta.email w))
      else (pure none (count_attempt now s.meta.email w))

  unfoldable pub verify_session : (now otp id : ℕ) → Option OtpSession → Act World (Option Meta)
  unfolding attempts_reached compare_otp
  verify_session now otp id none = pure none
  verify_session now otp id (some s) = do
    reached ← gets (attempts_reached now s.meta.email)
    fail_if reached (too_many_requests_error too_many_requests)
    compare_otp now otp id s

  unfoldable pub verify_otp : (now otp id : ℕ) → Act World (Option Meta)
  unfolding get verify_session
  verify_otp now otp id = do
    s ← gets (λ w. get now (w.redis.otp_session id))
    verify_session now otp id s
