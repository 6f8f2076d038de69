-- ===== src/Users/Auth.antt =====
-- `sendOTP`, `verifyOTP`, `login`, `rotateRefreshToken` and `verifyGoogleIdToken` of
-- user-service/src/services/auth.service.js, with utils/auth.js, and `getProfile` of user.service.js.
-- bcrypt, jsonwebtoken, the Google client and the mail are arguments.
use railway_booking_system.Base.{
  ℕ, Bool, true, not, Option, none, some, [], ◌∷◌, ◌++◌, find_first, any, ◌==◌, if◌then◌else◌,
}
use railway_booking_system.Errors.{
  Result, type_error, database, unique_violation, conflict, conflict_error, bad_request_error,
  otp_invalid, oauth_only_account, unauthorized, unauthorized_error, invalid_credentials,
  forbidden_error, login_again, login_again_capitals,
}
use railway_booking_system.Effects.{
  Act, pure, fail, gets, modify, fail_if, or_fail, answer, ◌>>=◌, ◌>>◌,
}
use railway_booking_system.Users.Rows.{
  User, AuthProvider, SafeUser, safe_user, Meta, World, get, set_ex, at_key, Payload, Jwt,
  refresh_at, on_redis, skip_id,
}
use railway_booking_system.Users.Otp.{generate_and_store_otp, verify_otp}

abbrev pub refresh_token_exp_sec : ℕ
refresh_token_exp_sec = 604800

abbrev pub redis_user_ttl : ℕ
redis_user_ttl = 86400

unfoldable pub has_email : ℕ → User → Bool
has_email email u = u.email == email

unfoldable pub has_user_id : ℕ → User → Bool
has_user_id id u = u.id == id

unfoldable pub has_provider_id : ℕ → AuthProvider → Bool
has_provider_id id p = p.provider_id == id

unfoldable pub insert_user : (ℕ → User) → Act World User
unfolding skip_id has_email
insert_user row = do
  w ← gets (λ w. w)
  let u = row w.next_id
  fail_if (any (has_email u.email) w.users) (database unique_violation)
  modify (λ w. record (skip_id w) { users = w.users ++ u ∷ [] })
  pure u

unfoldable pub send_mail : (mail : Result (Unit {0})) → (id : ℕ) → Act World ℕ
send_mail mail id = do answer mail; pure id

unfoldable pub send_otp :
    (hmac_for : (email otp : ℕ) → ℕ) (hash : ℕ → ℕ) (mail : Result (Unit {0})) (now otp : ℕ)
    (first_name last_name email password : ℕ)
    → Act World ℕ
unfolding has_email generate_and_store_otp send_mail
send_otp hmac_for hash mail now otp first_name last_name email password = do
  existing ← gets (λ w. any (has_email email) w.users)
  fail_if existing (conflict_error conflict)
  id ← generate_and_store_otp hmac_for now otp (record {
    first_name = first_name;
    last_name = last_name;
    email = email;
    hashed_password = hash password;
  })
  send_mail mail id

unfoldable pub user_of : Meta → ℕ → User
user_of meta id = record {
  id = id;
  first_name = meta.first_name;
  last_name = meta.last_name;
  email = meta.email;
  password = some meta.hashed_password;
  email_verified = true;
}

unfoldable pub create_account : Option Meta → Act World User
unfolding user_of insert_user
create_account found = do
  meta ← or_fail found (bad_request_error otp_invalid)
  insert_user (user_of meta)

-- verifyOTP of the service, where `verify_otp` is that of the utilities.
unfoldable pub verify_sign_up : (hmac_for : (email otp : ℕ) → ℕ) (now otp id : ℕ) → Act World User
unfolding verify_otp create_account
verify_sign_up hmac_for now otp id = do found ← verify_otp hmac_for now otp id; create_account found

pub record LoggedIn : Type 0 where
  pub access_token : ℕ
  pub refresh_token : ℕ
  pub logged_in_user : SafeUser

unfoldable pub cache_user : (now : ℕ) → SafeUser → World → World
unfolding set_ex at_key on_redis
cache_user now u w =
    on_redis (λ r. record r { user = at_key u.id (set_ex now redis_user_ttl u) r.user }) w

module _ (jwt : Jwt) (now : ℕ) where
  -- A refresh token with a new jti, which Redis keeps for the device.
  unfoldable pub issue : (user_id device_id : ℕ) → Act World (ℕ × ℕ)
  unfolding skip_id set_ex refresh_at on_redis
  issue user_id device_id = do
    jti ← gets (λ w. w.next_id)
    modify skip_id
    modify (on_redis (refresh_at user_id device_id (set_ex now refresh_token_exp_sec jti)))
    pure (jwt.sign_access now user_id, jwt.sign_refresh now (record { id = user_id; jti = jti }))

  -- How login and verifyGoogleIdToken end.
  unfoldable pub open_session : (device_id : ℕ) → User → Act World LoggedIn
  unfolding issue safe_user cache_user
  open_session device_id u = do
    tokens ← issue u.id device_id
    modify (cache_user now (safe_user u))
    pure
        (record { access_token = tokens.0; refresh_token = tokens.1; logged_in_user = safe_user u })

  unfoldable pub login :
      (compare : (password hashed : ℕ) → Bool) (email password device_id : ℕ) → Act World LoggedIn
  unfolding has_email open_session
  login compare email password device_id = do
    found ← gets (λ w. find_first (has_email email) w.users)
    u ← or_fail found (unauthorized_error invalid_credentials)
    hashed ← or_fail u.password (bad_request_error oauth_only_account)
    fail_if (not (compare password hashed)) (unauthorized_error invalid_credentials)
    open_session device_id u

  unfoldable pub rotate_stored : (device_id : ℕ) → Payload → (stored : ℕ) → Act World (ℕ × ℕ)
  unfolding issue refresh_at on_redis
  rotate_stored device_id p stored =
      if stored == p.jti
      then issue p.id device_id
      else (modify (on_redis (refresh_at p.id device_id none))
          >> fail (forbidden_error login_again_capitals))

  unfoldable pub rotate_found : (device_id : ℕ) → Payload → Option ℕ → Act World (ℕ × ℕ)
  unfolding rotate_stored
  rotate_found device_id p none = fail (forbidden_error login_again)
  rotate_found device_id p (some stored) = rotate_stored device_id p stored

  unfoldable pub rotate_refresh_token : (refresh_token device_id : ℕ) → Act World (ℕ × ℕ)
  unfolding get rotate_found
  rotate_refresh_token refresh_token device_id = do
    p ← answer (jwt.verify_refresh now refresh_token)
    found ← gets (λ w. get now (w.redis.refresh p.id device_id))
    rotate_found device_id p found

-- What the Google client found in a token.
pub record GooglePayload : Type 0 where
  pub sub : ℕ
  pub email : ℕ
  pub given_name : ℕ
  pub family_name : ℕ
  pub email_verified : Bool

unfoldable pub link_provider : (provider_id user_id : ℕ) → World → World
link_provider provider_id user_id w = record w {
  providers = w.providers ++ record { provider_id = provider_id; user_id = user_id } ∷ [];
}

-- The user of a row that names it; the foreign key keeps one.
unfoldable pub linked_user : World → AuthProvider → Option User
unfolding has_user_id
linked_user w p = find_first (has_user_id p.user_id) w.users

unfoldable pub google_row : GooglePayload → ℕ → User
google_row p id = record {
  id = id;
  first_name = p.given_name;
  last_name = p.family_name;
  email = p.email;
  password = none;
  email_verified = p.email_verified;
}

unfoldable pub is_linked : ℕ → AuthProvider → Bool
is_linked user_id p = p.user_id == user_id

-- The provider's row is one for each user and provider, too.
unfoldable pub link_existing : GooglePayload → User → Act World User
unfolding link_provider is_linked
link_existing p u = do
  linked ← gets (λ w. any (is_linked u.id) w.providers)
  fail_if linked (database unique_violation)
  modify (link_provider p.sub u.id)
  pure u

unfoldable pub create_google : GooglePayload → Act World User
unfolding insert_user google_row link_provider
create_google p = do u ← insert_user (google_row p); modify (link_provider p.sub u.id); pure u

unfoldable pub by_email : GooglePayload → Option User → Act World User
unfolding link_existing create_google
by_email p (some u) = link_existing p u
by_email p none = create_google p

unfoldable pub by_provider : GooglePayload → Option AuthProvider → Act World User
unfolding linked_user has_email by_email
by_provider p (some q) = do u ← gets (λ w. linked_user w q); or_fail u type_error
by_provider p none = do u ← gets (λ w. find_first (has_email p.email) w.users); by_email p u

-- The transaction of verifyGoogleIdToken.
unfoldable pub google_user : GooglePayload → Act World User
unfolding has_provider_id by_provider
google_user p = do q ← gets (λ w. find_first (has_provider_id p.sub) w.providers); by_provider p q

unfoldable pub verify_google_id_token :
    (ticket : Result GooglePayload) (jwt : Jwt) (now device_id : ℕ) → Act World LoggedIn
unfolding google_user open_session
verify_google_id_token ticket jwt now device_id = do
  p ← answer ticket
  fail_if (p.sub == 0) (unauthorized_error unauthorized)
  fail_if (p.email == 0) (unauthorized_error unauthorized)
  u ← google_user p
  open_session jwt now device_id u

unfoldable pub profile_row : (now user_id : ℕ) → Act World SafeUser
unfolding has_user_id safe_user cache_user
profile_row now user_id = do
  found ← gets (λ w. find_first (has_user_id user_id) w.users)
  u ← or_fail found type_error
  modify (cache_user now (safe_user u))
  pure (safe_user u)

unfoldable pub cached_or_row : (now user_id : ℕ) → Option SafeUser → Act World SafeUser
unfolding profile_row
cached_or_row now user_id (some u) = pure u
cached_or_row now user_id none = profile_row now user_id

unfoldable pub get_profile : (now user_id : ℕ) → Act World SafeUser
unfolding get cached_or_row
get_profile now user_id = do
  cached ← gets (λ w. get now (w.redis.user user_id))
  cached_or_row now user_id cached
