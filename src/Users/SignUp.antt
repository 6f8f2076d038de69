-- ===== src/Users/SignUp.antt =====
-- From the one-time password to the profile: user-service/src/services/auth.service.js,
-- user-service/src/services/user.service.js and user-service/src/utils/otp.js together.
use railway_booking_system.Base.{
  ℕ, ◌+◌, ◌*◌, ◌<◌, ◌≡◌, refl, ap, ◌∙◌, Bool, true, false, none, some, [], ◌∷◌, ◌++◌, find_first,
  find_first-append, find_first-none, any, lt→ltb, ==_refl, ◌==◌,
}
use railway_booking_system.Errors.{ok, err, bad_request_error, otp_invalid}
use railway_booking_system.Effects.{bind-ok}
use railway_booking_system.Users.Rows.{
  User, safe_user, Meta, OtpSession, World, get, set_ex, at_key, Jwt, on_redis, skip_id,
}
use railway_booking_system.Users.Otp.{
  otp_ttl, rate_reached, attempts_reached, set_session, count_sent, close_session,
  generate_and_store_otp, compare_otp, verify_session, verify_otp,
}
use railway_booking_system.Users.Auth.{
  redis_user_ttl, has_email, insert_user, send_otp, user_of, create_account, send_mail,
  verify_sign_up, open_session, login, issue, cache_user, get_profile, cached_or_row, LoggedIn,
}

module _ (hmac_for : (email otp : ℕ) → ℕ) where
  sent_session : (otp : ℕ) → Meta → OtpSession
  sent_session otp meta = record { hashed_otp = hmac_for meta.email otp; meta = meta }

  sent_world : (now otp : ℕ) → Meta → World → World
  sent_world now otp meta w =
      count_sent now meta.email (set_session now w.next_id (sent_session otp meta) (skip_id w))

  generate-result :
      (now otp : ℕ) (meta : Meta) (w : World)
      → rate_reached now meta.email w ≡ false
      → generate_and_store_otp hmac_for now otp meta w ≡ (ok w.next_id, sent_world now otp meta w)
  unfolding generate_and_store_otp sent_world sent_session
  generate-result now otp meta w r = rw r refl

  -- The session that was sent is found in its time.
  sent-found :
      (now later otp : ℕ) (meta : Meta) (w : World)
      → later < now + otp_ttl * 1000
      → get later ((sent_world now otp meta w).redis.otp_session w.next_id)
        ≡ some (sent_session otp meta)
  unfolding sent_world count_sent set_session on_redis at_key set_ex get
  sent-found now later otp meta w h =
      let e : (w.next_id == w.next_id) ≡ true = ==_refl w.next_id in
      rw e (rw (lt→ltb later (now + otp_ttl * 1000) h) refl)

  verify-result :
      (later otp id : ℕ) (meta : Meta) (w : World)
      → get later (w.redis.otp_session id) ≡ some (sent_session otp meta)
      → attempts_reached later meta.email w ≡ false
      → verify_otp hmac_for later otp id w ≡ (ok (some meta), close_session id meta.email w)
  unfolding verify_otp verify_session compare_otp sent_session
  verify-result later otp id meta w h a = rw (h, a, ==_refl (hmac_for meta.email otp)) refl

  verify-gone :
      (later otp id : ℕ) (w : World)
      → get later (w.redis.otp_session id) ≡ none
      → verify_otp hmac_for later otp id w ≡ (ok none, w)
  unfolding verify_otp verify_session
  verify-gone later otp id w h = rw h refl

  send-result :
      (hash : ℕ → ℕ) (now otp first_name last_name email password : ℕ) (w : World)
      → any (has_email email) w.users ≡ false
      → rate_reached now email w ≡ false
      → (let meta : Meta = record {
        first_name = first_name;
        last_name = last_name;
        email = email;
        hashed_password = hash password;
      } in
          send_otp hmac_for hash (ok tt) now otp first_name last_name email password w
          ≡ (ok w.next_id, sent_world now otp meta w))
  unfolding send_otp send_mail
  send-result hash now otp first_name last_name email password w absent r =
      let meta : Meta = record {
        first_name = first_name;
        last_name = last_name;
        email = email;
        hashed_password = hash password;
      } in
      let mailed =
        bind-ok (generate_and_store_otp hmac_for now otp meta) (send_mail (ok tt)) w
          (generate-result now otp meta w r) in
      rw absent mailed

  added : User → World → World
  added u w = record (skip_id w) { users = w.users ++ u ∷ [] }

  insert-result :
      (row : ℕ → User) (w : World)
      → any (has_email (row w.next_id).email) w.users ≡ false
      → insert_user row w ≡ (ok (row w.next_id), added (row w.next_id) w)
  unfolding insert_user added
  insert-result row w absent = rw absent refl

  sign_up-result :
      (later otp id : ℕ) (meta : Meta) (w : World)
      → get later (w.redis.otp_session id) ≡ some (sent_session otp meta)
      → attempts_reached later meta.email w ≡ false
      → any (has_email meta.email) w.users ≡ false
      → verify_sign_up hmac_for later otp id w ≡ (
        ok (user_of meta w.next_id),
        added (user_of meta w.next_id) (close_session id meta.email w),
      )
  unfolding verify_sign_up create_account close_session on_redis
  sign_up-result later otp id meta w h a absent =
      bind-ok (verify_otp hmac_for later otp id) create_account w
        (verify-result later otp id meta w h a)
      ∙ insert-result (user_of meta) (close_session id meta.email w) absent

  sign_up-again :
      (later otp id email : ℕ) (u : User) (w : World)
      → (verify_sign_up hmac_for later otp id (added u (close_session id email w))).0
        ≡ err (bad_request_error otp_invalid)
  unfolding verify_sign_up create_account added close_session on_redis skip_id at_key get
  sign_up-again later otp id email u w =
      let e : (id == id) ≡ true = ==_refl id in
      let gone : get later ((added u (close_session id email w)).redis.otp_session id) ≡ none =
        rw e refl in
      ap (λ x. x.0)
        (bind-ok (verify_otp hmac_for later otp id) create_account
          (added u (close_session id email w))
          (verify-gone later otp id (added u (close_session id email w)) gone))

login-result :
    (jwt : Jwt) (compare : (password hashed : ℕ) → Bool) (now email password hashed device_id : ℕ)
    (u : User) (w : World)
    → find_first (has_email email) w.users ≡ some u
    → u.password ≡ some hashed
    → compare password hashed ≡ true
    → login jwt now compare email password device_id w ≡ open_session jwt now device_id u w
unfolding login
login-result jwt compare now email password hashed device_id u w h p c = rw (h, p, c) refl

opened-cached :
    (jwt : Jwt) (now soon device_id : ℕ) (u : User) (w : World)
    → soon < now + redis_user_ttl * 1000
    → (get_profile soon u.id (open_session jwt now device_id u w).1).0 ≡ ok (safe_user u)
unfolding get_profile cached_or_row open_session cache_user issue on_redis at_key set_ex get
    safe_user
opened-cached jwt now soon device_id u w h =
    let e : (u.id == u.id) ≡ true = ==_refl u.id in
    rw e (rw (lt→ltb soon (now + redis_user_ttl * 1000) h) refl)

-- A person whose email is unknown and who has not asked too often gets a one-time password, enters it
-- in its time, with attempts left, and has an account with a verified email; then the login with the
-- password succeeds, and the profile that is read within a day is that of the account. The one-time
-- password cannot be used again.
pub sign_up_login_profile :
    (hmac_for : (email otp : ℕ) → ℕ) (hash : ℕ → ℕ) (compare : (password hashed : ℕ) → Bool)
    (jwt : Jwt) (now later evening soon otp first_name last_name email password device_id : ℕ)
    (w : World)
    → any (has_email email) w.users ≡ false
    → rate_reached now email w ≡ false
    → attempts_reached later email w ≡ false
    → later < now + otp_ttl * 1000
    → soon < evening + redis_user_ttl * 1000
    → compare password (hash password) ≡ true
    → (let sent = send_otp hmac_for hash (ok tt) now otp first_name last_name email password w in
        let made = verify_sign_up hmac_for later otp w.next_id sent.1 in
        let u : User = record {
          id = w.next_id + 1;
          first_name = first_name;
          last_name = last_name;
          email = email;
          password = some (hash password);
          email_verified = true;
        } in
        let entered = login jwt evening compare email password device_id made.1 in
        (sent.0 ≡ ok w.next_id)
        × (made.0 ≡ ok u)
        × ((verify_sign_up hmac_for later otp w.next_id made.1).0
            ≡ err (bad_request_error otp_invalid))
        × ((t : LoggedIn) × (entered.0 ≡ ok t))
        × ((get_profile soon u.id entered.1).0 ≡ ok (safe_user u)))
unfolding added sent_world user_of count_sent set_session close_session on_redis skip_id
    attempts_reached has_email open_session
sign_up_login_profile hmac_for hash compare jwt now later evening soon otp first_name last_name
      email password device_id w absent rate attempts in_time in_day right =
    let meta : Meta = record {
      first_name = first_name;
      last_name = last_name;
      email = email;
      hashed_password = hash password;
    } in
    let u = user_of meta (w.next_id + 1) in
    let w1 = sent_world hmac_for now otp meta w in
    let w2 = close_session w.next_id email w1 in
    let w3 = added hmac_for u w2 in
    let e1 = send-result hmac_for hash now otp first_name last_name email password w absent rate in
    let e2 =
      sign_up-result hmac_for later otp w.next_id meta w1
        (sent-found hmac_for now later otp meta w in_time) attempts absent in
    let e3 =
      login-result jwt compare evening email password (hash password) device_id u w3
        (find_first-append (has_email email) w.users u
          (find_first-none (has_email email) w.users absent) (==_refl email))
        refl right in
    rw (e1, e2, e3)
      (
        refl,
        refl,
        sign_up-again hmac_for later otp w.next_id email u w1,
        (_, refl),
        opened-cached jwt evening soon device_id u w3 in_day,
      )
