-- ===== src/Users/Rotation.antt =====
-- Refresh tokens that are used twice: user-service/src/services/auth.service.js.
use railway_booking_system.Base.{
  ℕ, ◌+◌, ◌*◌, ◌<◌, ◌≡◌, refl, false, Option, none, some, lt→ltb, ==_refl, ◌==◌,
}
use railway_booking_system.Errors.{ok, err, forbidden_error, login_again, login_again_capitals}
use railway_booking_system.Users.Rows.{
  World, get, set_ex, Payload, Jwt, refresh_at, on_redis, skip_id,
}
use railway_booking_system.Users.Auth.{
  refresh_token_exp_sec, rotate_refresh_token, rotate_found, rotate_stored, issue,
}

module _ (jwt : Jwt) (device_id : ℕ) where
  -- A world where the device has no refresh token, or the one with a jti until a time.
  unfoldable Holds : (now : ℕ) → (user_id : ℕ) → Option ℕ → World → Type 0
  unfolding get
  Holds now user_id jti w = get now (w.redis.refresh user_id device_id) ≡ jti

  rotate-missing :
      (now token : ℕ) (p : Payload) (w : World)
      → jwt.verify_refresh now token ≡ ok p
      → Holds now p.id none w
      → (rotate_refresh_token jwt now token device_id w).0 ≡ err (forbidden_error login_again)
  unfolding rotate_refresh_token rotate_found Holds
  rotate-missing now token p w v h = rw (v, h) refl

  rotate-current :
      (now token : ℕ) (p : Payload) (w : World)
      → jwt.verify_refresh now token ≡ ok p
      → Holds now p.id (some p.jti) w
      → rotate_refresh_token jwt now token device_id w ≡ issue jwt now p.id device_id w
  unfolding rotate_refresh_token rotate_found rotate_stored Holds
  rotate-current now token p w v h = rw (v, h, ==_refl p.jti) refl

  rotate-stale :
      (now token stored : ℕ) (p : Payload) (w : World)
      → jwt.verify_refresh now token ≡ ok p
      → Holds now p.id (some stored) w
      → (stored == p.jti) ≡ false
      → rotate_refresh_token jwt now token device_id w
        ≡ (err (forbidden_error login_again_capitals), on_redis (refresh_at p.id device_id none) w)
  unfolding rotate_refresh_token rotate_found rotate_stored Holds
  rotate-stale now token stored p w v h s = rw (v, h, s) refl

  issued-Holds :
      (now later user_id : ℕ) (w : World)
      → later < now + refresh_token_exp_sec * 1000
      → Holds later user_id (some w.next_id) (issue jwt now user_id device_id w).1
  unfolding Holds get issue on_redis refresh_at set_ex skip_id
  issued-Holds now later user_id w h =
      rw (==_refl user_id, ==_refl device_id, lt→ltb later (now + refresh_token_exp_sec * 1000) h)
        refl

  removed-Holds :
      (later user_id : ℕ) (w : World)
      → Holds later user_id none (on_redis (refresh_at user_id device_id none) w)
  unfolding Holds get on_redis refresh_at
  removed-Holds later user_id w = rw (==_refl user_id, ==_refl device_id) refl

  -- A refresh token that is the device's current one is exchanged for a new one. Whoever then uses the
  -- old one again, before its session ends, is refused, and that ends the session: the new token is
  -- refused, too.
  pub rotate_refresh_token-reuse :
      (now later latest token : ℕ) (p : Payload) (w : World)
      → jwt.verify_refresh now token ≡ ok p
      → get now (w.redis.refresh p.id device_id) ≡ some p.jti
      → (w.next_id == p.jti) ≡ false
      → jwt.verify_refresh later token ≡ ok p
      → later < now + refresh_token_exp_sec * 1000
      → (let new = jwt.sign_refresh now (record { id = p.id; jti = w.next_id }) in
          let first = rotate_refresh_token jwt now token device_id w in
          let second = rotate_refresh_token jwt later token device_id first.1 in
          jwt.verify_refresh latest new ≡ ok (record { id = p.id; jti = w.next_id })
          → (first.0 ≡ ok (jwt.sign_access now p.id, new))
            × (second.0 ≡ err (forbidden_error login_again_capitals))
            × ((rotate_refresh_token jwt latest new device_id second.1).0
                ≡ err (forbidden_error login_again)))
  unfolding Holds issue
  rotate_refresh_token-reuse now later latest token p w v current fresh v' h v'' =
      let new = jwt.sign_refresh now (record { id = p.id; jti = w.next_id }) in
      let w1 = (issue jwt now p.id device_id w).1 in
      let q : Payload = record { id = p.id; jti = w.next_id } in
      let e1 = rotate-current now token p w v current in
      let e2 = rotate-stale later token w.next_id p w1 v' (issued-Holds now later p.id w h) fresh in
      let w2 = on_redis (refresh_at p.id device_id none) w1 in
      rw (e1, e2) (refl, refl, rotate-missing latest new q w2 v'' (removed-Holds latest p.id w1))
