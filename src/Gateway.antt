-- ===== src/Gateway.antt =====
-- The way of a request through the gateway: api-gateway/src/middlewares/auth.middleware.js,
-- api-gateway/src/services/proxy.js and api-gateway/src/middlewares/error.middleware.js. A path is the list of
-- its parts, and texts are numbers; 0 is the empty text. jwt.verify and axios are arguments.
pub mod Identity
mod Examples
use railway_booking_system.Base.{
  ℕ, Bool, true, false, not, ◌&&◌, ◌||◌, Option, none, some, List, [], ◌∷◌, ◌++◌, select,
  delete_where, drop, ◌==◌, if◌then◌else◌,
}
use railway_booking_system.Errors.{
  ErrorCode, Failure, Result, ok, err, app, AppError, unauthorized, unauthorized_error,
  token_expired, token_invalid, service_unavailable, gateway_timeout, server_error,
}
use railway_booking_system.Breaker.{Breaker, admit, on_success, on_failure}

-- Header names are in lower case.
pub data HeaderName : Type 0 where
  host content_length x_user_id connection keep_alive transfer_encoding : HeaderName
  other_header : ℕ → HeaderName

pub record Header : Type 0 where
  pub name : HeaderName
  pub value : ℕ

unfoldable pub names_user : HeaderName → Bool
names_user x_user_id = true
names_user _ = false

unfoldable pub is_user_id : Header → Bool
unfolding names_user
is_user_id h = names_user h.name

-- `req.headers.authorization`: a token after 'Bearer ', or something else.
pub data Authorization : Type 0 where
  no_authorization other_scheme : Authorization
  bearer : (token : ℕ) → Authorization

pub data Method : Type 0 where
  get_method delete_method other_method : Method

pub record Incoming : Type 0 where
  pub method : Method
  pub path : List ℕ
  pub query : Option ℕ
  pub body : Option ℕ
  pub headers : List Header
  pub authorization : Authorization
  pub cookie_token : Option ℕ
  pub user : Option ℕ

-- What jwt.verify comes to: a payload with its id, or an error by its name.
pub data Verified : Type 0 where
  valid : (id : ℕ) → Verified
  expired invalid : Verified
  failed_with : Failure → Verified

unfoldable pub or_cookie : (token : ℕ) → Option ℕ → ℕ
or_cookie token none = token
or_cookie token (some c) = if token == 0 then c else token

unfoldable pub bearer_token : Authorization → ℕ
bearer_token (bearer token) = token
bearer_token _ = 0

unfoldable pub access_token : Incoming → ℕ
unfolding or_cookie bearer_token
access_token req = or_cookie (bearer_token req.authorization) req.cookie_token

unfoldable pub set_user : (id : ℕ) → Incoming → Incoming
unfolding is_user_id
set_user id req = record req {
  user = some id;
  headers = delete_where is_user_id req.headers ++ record { name = x_user_id; value = id } ∷ [];
}

unfoldable pub with_payload : Incoming → Verified → Result Incoming
unfolding set_user
with_payload req (valid id) =
    if id == 0 then err (unauthorized_error unauthorized) else ok (set_user id req)
with_payload req expired = err (unauthorized_error token_expired)
with_payload req invalid = err (unauthorized_error token_invalid)
with_payload req (failed_with e) = err e

unfoldable pub require_auth : (verify : ℕ → Verified) → Incoming → Result Incoming
unfolding access_token with_payload
require_auth verify req =
    if access_token req == 0
    then err (unauthorized_error unauthorized)
    else with_payload req (verify (access_token req))

-- The request that axios is given.
pub record Outgoing : Type 0 where
  pub method : Method
  pub path : List ℕ
  pub query : Option ℕ
  pub data_sent : Option ℕ
  pub params : Option ℕ
  pub headers : List Header

unfoldable pub names_dropped : HeaderName → Bool
names_dropped host = true
names_dropped content_length = true
names_dropped _ = false

unfoldable pub is_dropped : Header → Bool
unfolding names_dropped
is_dropped h = names_dropped h.name

unfoldable pub has_no_body : Method → Bool
has_no_body other_method = false
has_no_body _ = true

unfoldable pub request_config : (preserve_path : Bool) → Incoming → Outgoing
unfolding is_dropped has_no_body
request_config preserve_path req = record {
  method = req.method;
  path = if preserve_path then req.path else drop 1 req.path;
  query = req.query;
  data_sent = if has_no_body req.method then none else req.body;
  params = if has_no_body req.method then req.body else none;
  headers = delete_where is_dropped req.headers;
}

pub record Response : Type 0 where
  pub status : ℕ
  pub content : ℕ
  pub headers : List Header

pub data NetworkCode : Type 0 where
  econnaborted etimedout econnrefused other_code : NetworkCode

-- What axios comes to; every status is a response.
pub data Called : Type 0 where
  responded : Response → Called
  failed : NetworkCode → (response : Option Response) → Called

unfoldable pub service_unavailable_error : Failure
service_unavailable_error = app (record { status_code = 503; code = service_unavailable })

unfoldable pub gateway_timeout_error : Failure
gateway_timeout_error = app (record { status_code = 504; code = gateway_timeout })

unfoldable pub call_failed : NetworkCode → Option Response → Result Response
unfolding service_unavailable_error gateway_timeout_error
call_failed econnaborted response = err gateway_timeout_error
call_failed etimedout response = err gateway_timeout_error
call_failed econnrefused response = err service_unavailable_error
call_failed other_code (some r) = ok r
call_failed other_code none = err service_unavailable_error

unfoldable pub after_call : (end : ℕ) → Called → Breaker → Result Response × Breaker
unfolding on_success on_failure call_failed
after_call end (responded r) b = (ok r, on_success b)
after_call end (failed code response) b = (call_failed code response, on_failure end b)

-- The second component is what was sent, where the breaker lets the request through.
unfoldable pub forward_request :
    (start end : ℕ)
    → (call : Outgoing → Called) → Outgoing
    → Breaker
    → Result Response × Option Outgoing × Breaker
unfolding admit after_call service_unavailable_error
forward_request start end call out b = elim (admit start b) [
  | none ↦ (err service_unavailable_error, none, b)
  | some b' ↦ let r = after_call end (call out) b' in (r.0, some out, r.1)
]

unfoldable pub names_excluded : HeaderName → Bool
names_excluded connection = true
names_excluded keep_alive = true
names_excluded transfer_encoding = true
names_excluded host = true
names_excluded _ = false

unfoldable pub is_excluded : Header → Bool
unfolding names_excluded
is_excluded h = names_excluded h.name

unfoldable pub send_response : Response → Response
unfolding is_excluded
send_response r = record r { headers = delete_where is_excluded r.headers }

unfoldable pub proxied : Result Response → Result Response
unfolding send_response
proxied (ok r) = ok (send_response r)
proxied (err e) = err e

unfoldable pub proxy :
    (start end : ℕ)
    → (call : Outgoing → Called) → (preserve_path : Bool) → Incoming
    → Breaker
    → Result Response × Option Outgoing × Breaker
unfolding request_config forward_request proxied
proxy start end call preserve_path req b =
    let x = forward_request start end call (request_config preserve_path req) b in
    (proxied x.0, x.1, x.2)

-- What the client is sent: the service's answer, or that of the error middleware.
pub data Answer : Type 0 where
  from_service : Response → Answer
  with_error : (status : ℕ) → ErrorCode → Answer

unfoldable pub error_middleware : Failure → Answer
error_middleware (app e) = with_error e.status_code e.code
error_middleware _ = with_error 500 server_error

unfoldable pub respond : Result Response → Answer
unfolding error_middleware
respond (ok r) = from_service r
respond (err e) = error_middleware e

unfoldable pub authorized :
    (start end : ℕ)
    → (call : Outgoing → Called) → (preserve_path : Bool) → Result Incoming
    → Breaker
    → Answer × Option Outgoing × Breaker
unfolding proxy respond error_middleware
authorized start end call preserve_path (ok req) b =
    let x = proxy start end call preserve_path req b in (respond x.0, x.1, x.2)
authorized start end call preserve_path (err e) b = (error_middleware e, none, b)

-- A private route: requireAuth, then the proxy; the limiter between them lets the request pass.
unfoldable pub private_route :
    (verify : ℕ → Verified) (start end : ℕ)
    → (call : Outgoing → Called) → (preserve_path : Bool) → Incoming
    → Breaker
    → Answer × Option Outgoing × Breaker
unfolding require_auth authorized
private_route verify start end call preserve_path req b =
    authorized start end call preserve_path (require_auth verify req) b
