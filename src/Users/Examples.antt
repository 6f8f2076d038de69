-- ===== src/Users/Examples.antt =====
-- Concrete people, one-time passwords and tokens.
use railway_booking_system.Base.{
  ℕ, ◌+◌, ◌*◌, ◌/◌, ◌%◌, ◌≤◌, ◌≡◌, refl, Bool, true, false, none, some, List, [], ◌∷◌, ◌==◌, arith,
}
use railway_booking_system.Errors.{
  ok, err, bad_request_error, otp_invalid, forbidden_error, login_again, login_again_capitals,
}
use railway_booking_system.Users.Rows.{
  User, safe_user, Redis, World, get, set_ex, at_key, Cell, OtpSession, Jwt, refresh_at, on_redis,
}
use railway_booking_system.Users.Otp.{rate_reached, attempts_reached}
use railway_booking_system.Users.Auth.{
  send_otp, verify_sign_up, LoggedIn, login, rotate_refresh_token, GooglePayload, has_email,
  has_user_id, has_provider_id, is_linked, verify_google_id_token, get_profile,
}
use railway_booking_system.Users.Guesses.{Guess, IsWrong, tried, tried-IsBounded}
use railway_booking_system.Users.Rotation.{rotate_refresh_token-reuse}
use railway_booking_system.Users.SignUp.{sign_up_login_profile}
use railway_booking_system.Users.Google.{IsComplete, verify_google_id_token-links}

-- Tokens that say what was signed; a refresh token never expires here.
abbrev plain : Jwt
plain = record {
  sign_access = λ now id. id;
  sign_refresh = λ now p. p.id * 1000 + p.jti;
  verify_refresh = λ now token. ok (record { id = token / 1000; jti = token % 1000 });
}

abbrev quiet : Redis
quiet = record {
  otp_rate = λ _. none;
  otp_attempts = λ _. none;
  otp_session = λ _. none;
  refresh = λ _ _. none;
  user = λ _. none;
}

abbrev alice : User
alice = record {
  id = 1;
  first_name = 11;
  last_name = 12;
  email = 13;
  password = some 14;
  email_verified = true;
}

abbrev one_user : World
one_user = record { users = alice ∷ []; providers = []; redis = quiet; next_id = 5 }

abbrev sum : (email otp : ℕ) → ℕ
sum email otp = email * 1000 + otp

abbrev add_seven : ℕ → ℕ
add_seven password = password + 7

abbrev is_seven_less : (password hashed : ℕ) → Bool
is_seven_less password hashed = (password + 7) == hashed

sign_up_login_profile_example :
    (let sent = send_otp sum add_seven (ok tt) 1000 482913 21 22 23 9 one_user in
      let made = verify_sign_up sum 5000 482913 5 sent.1 in
      let u : User = record {
        id = 6;
        first_name = 21;
        last_name = 22;
        email = 23;
        password = some 16;
        email_verified = true;
      } in
      let entered = login plain 9000 is_seven_less 23 9 77 made.1 in
      (sent.0 ≡ ok 5)
      × (made.0 ≡ ok u)
      × ((verify_sign_up sum 5000 482913 5 made.1).0 ≡ err (bad_request_error otp_invalid))
      × ((t : LoggedIn) × (entered.0 ≡ ok t))
      × ((get_profile 10000 6 entered.1).0 ≡ ok (safe_user u)))
unfolding has_email rate_reached attempts_reached
sign_up_login_profile_example =
    sign_up_login_profile sum add_seven is_seven_less plain 1000 5000 9000 10000 482913 21 22 23 9
      77 one_user refl refl refl (omega arith) (omega arith) refl

-- A device of Alice's that holds the refresh token with the id 3.
abbrev logged_in : World
unfolding on_redis refresh_at set_ex
logged_in = on_redis (refresh_at 1 77 (set_ex 0 604800 3)) one_user

rotate_refresh_token-reuse_example :
    (let new : ℕ = 1005 in
      let first = rotate_refresh_token plain 100 1003 77 logged_in in
      let second = rotate_refresh_token plain 200 1003 77 first.1 in
      (first.0 ≡ ok (1, new))
      × (second.0 ≡ err (forbidden_error login_again_capitals))
      × ((rotate_refresh_token plain 300 new 77 second.1).0 ≡ err (forbidden_error login_again)))
unfolding get logged_in
rotate_refresh_token-reuse_example =
    rotate_refresh_token-reuse plain 77 100 200 300 1003 (record { id = 1; jti = 3 }) logged_in refl
      refl refl refl (omega arith) refl

abbrev session : Cell OtpSession
session = record {
  value = record {
    hashed_otp = 13482913;
    meta = record { first_name = 11; last_name = 12; email = 13; hashed_password = 14 };
  };
  expires_at = 300000;
}

abbrev with_session : World
unfolding at_key
with_session = record one_user {
  redis = record quiet { otp_session = at_key 8 (some session) quiet.otp_session };
}

abbrev guesses : List Guess
guesses =
    record { time = 10; otp = 1 }
    ∷ record { time = 20; otp = 2 }
    ∷ record { time = 30; otp = 3 }
    ∷ record { time = 40; otp = 4 }
    ∷ record { time = 50; otp = 5 }
    ∷ record { time = 60; otp = 6 }
    ∷ []

all_tried : tried sum 8 session guesses with_session ≡ 5
unfolding tried with_session
all_tried = refl

tried-IsBounded_example : tried sum 8 session guesses with_session ≤ 5
unfolding with_session at_key IsWrong
tried-IsBounded_example =
    tried-IsBounded sum 8 session guesses with_session refl
      (
        (omega arith),
        ((omega arith), ((omega arith), ((omega arith), ((omega arith), ((omega arith), tt))))),
      )
      (refl, (refl, (refl, (refl, (refl, (refl, tt))))))

abbrev google : (email : ℕ) → GooglePayload
google email = record {
  sub = 99;
  email = email;
  given_name = 11;
  family_name = 12;
  email_verified = false;
}

verify_google_id_token-links_example :
    (let first = verify_google_id_token (ok (google 13)) plain 100 77 one_user in
      let second = verify_google_id_token (ok (google 55)) plain 200 77 first.1 in
      ((t : LoggedIn) × (first.0 ≡ ok t) × (t.logged_in_user ≡ safe_user alice))
      × ((t : LoggedIn) × (second.0 ≡ ok t) × (t.logged_in_user ≡ safe_user alice)))
unfolding IsComplete has_provider_id has_email has_user_id is_linked
verify_google_id_token-links_example =
    verify_google_id_token-links plain 77 100 200 (google 13) (google 55) alice one_user
      (refl, refl) (refl, refl) refl refl refl refl refl
