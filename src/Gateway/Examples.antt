-- ===== src/Gateway/Examples.antt =====
-- Concrete requests to the gateway.
use railway_booking_system.Base.{ℕ, ◌≡◌, refl, false, none, [], ◌∷◌, select, ◌==◌}
use railway_booking_system.Breaker.{new_breaker}
use railway_booking_system.Gateway.{
  x_user_id, host, other_header, is_user_id, get_method, Incoming, bearer, Verified, valid,
  access_token, Outgoing, Called, responded, private_route,
}
use railway_booking_system.Gateway.Identity.{private_route-identity}

abbrev token_is_user : ℕ → Verified
token_is_user token = valid token

abbrev echoes : Outgoing → Called
echoes out = responded (record { status = 200; content = 1; headers = [] })

-- Somebody with a token of the user 5 who claims to be the user 9.
abbrev forged : Incoming
forged = record {
  method = get_method;
  path = 1 ∷ 2 ∷ 3 ∷ [];
  query = none;
  body = none;
  headers =
      record { name = host; value = 3 }
      ∷ record { name = x_user_id; value = 9 }
      ∷ record { name = other_header 4; value = 6 }
      ∷ [];
  authorization = bearer 5;
  cookie_token = none;
  user = none;
}

abbrev sent : Outgoing
sent = record {
  method = get_method;
  path = 2 ∷ 3 ∷ [];
  query = none;
  data_sent = none;
  params = none;
  headers =
      record { name = other_header 4; value = 6 } ∷ record { name = x_user_id; value = 5 } ∷ [];
}

private_route-identity_example :
    (id : ℕ) × (token_is_user (access_token forged) ≡ valid id)
    × ((id == 0) ≡ false)
    × (select is_user_id sent.headers ≡ record { name = x_user_id; value = id } ∷ [])
unfolding private_route new_breaker
private_route-identity_example =
    private_route-identity token_is_user 1 2 echoes false forged (new_breaker 5 60000 0) sent refl
