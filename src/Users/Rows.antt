-- ===== src/Users/Rows.antt =====
-- The tables of user-service/prisma/schema.prisma and the keys that user-service keeps in Redis. Times
-- are in milliseconds; texts, hashes and tokens are numbers that are only compared.
use railway_booking_system.Base.{
  ℕ, ◌+◌, ◌*◌, Bool, ◌&&◌, Option, none, some, List, ltb, ◌==◌, if◌then◌else◌,
}
use railway_booking_system.Errors.{Result}

pub record User : Type 0 where
  pub id : ℕ
  pub first_name : ℕ
  pub last_name : ℕ
  pub email : ℕ
  pub password : Option ℕ
  pub email_verified : Bool

-- A row of AuthProvider; the provider is always google.
pub record AuthProvider : Type 0 where
  pub provider_id : ℕ
  pub user_id : ℕ

-- A user without the password.
pub record SafeUser : Type 0 where
  pub id : ℕ
  pub first_name : ℕ
  pub last_name : ℕ
  pub email : ℕ
  pub email_verified : Bool

unfoldable pub safe_user : User → SafeUser
safe_user u = record {
  id = u.id;
  first_name = u.first_name;
  last_name = u.last_name;
  email = u.email;
  email_verified = u.email_verified;
}

pub record Meta : Type 0 where
  pub first_name : ℕ
  pub last_name : ℕ
  pub email : ℕ
  pub hashed_password : ℕ

pub record OtpSession : Type 0 where
  pub hashed_otp : ℕ
  pub meta : Meta

-- A value in Redis with the time at which it is gone.
pub record Cell {ℓ} (A : Type ℓ) : Type ℓ where
  pub value : A
  pub expires_at : ℕ

-- otp:rate:{email}, otp:attempts:{email}, otp:session:{id}, refresh:{user}:{device} and user:{id}.
pub record Redis : Type 0 where
  pub otp_rate : ℕ → Option (Cell ℕ)
  pub otp_attempts : ℕ → Option (Cell ℕ)
  pub otp_session : ℕ → Option (Cell OtpSession)
  pub refresh : ℕ → ℕ → Option (Cell ℕ)
  pub user : ℕ → Option (Cell SafeUser)

pub record World : Type 0 where
  pub users : List User
  pub providers : List AuthProvider
  pub redis : Redis
  pub next_id : ℕ

module _ {ℓ} {A : Type ℓ} where
  unfoldable pub get : (now : ℕ) → Option (Cell A) → Option A
  get now none = none
  get now (some c) = if ltb now c.expires_at then some c.value else none

  -- set … 'EX'
  unfoldable pub set_ex : (now ttl : ℕ) → A → Option (Cell A)
  set_ex now ttl a = some (record { value = a; expires_at = now + ttl * 1000 })

  unfoldable pub at_key : ℕ → Option (Cell A) → (ℕ → Option (Cell A)) → ℕ → Option (Cell A)
  at_key key c cells k = if key == k then c else cells k

-- parseInt(… || '0', 10)
unfoldable pub count_of : (now : ℕ) → Option (Cell ℕ) → ℕ
unfolding get
count_of now c = elim (get now c) [ none ↦ 0 | some n ↦ n ]

-- incr, then expire.
unfoldable pub count_up : (now ttl : ℕ) → Option (Cell ℕ) → Option (Cell ℕ)
unfolding count_of set_ex
count_up now ttl c = set_ex now ttl (count_of now c + 1)

-- What jwt.verify returns of a refresh token.
pub record Payload : Type 0 where
  pub id : ℕ
  pub jti : ℕ

-- The tokens of jsonwebtoken, made at a time; jwt.verify throws where it refuses one.
pub record Jwt : Type 0 where
  pub sign_access : (now id : ℕ) → ℕ
  pub sign_refresh : (now : ℕ) → Payload → ℕ
  pub verify_refresh : (now token : ℕ) → Result Payload

unfoldable pub refresh_at : (user_id device_id : ℕ) → Option (Cell ℕ) → Redis → Redis
refresh_at user_id device_id c r = record r {
  refresh = λ u d. if u == user_id && d == device_id then c else r.refresh u d;
}

unfoldable pub on_redis : (Redis → Redis) → World → World
on_redis f w = record w { redis = f w.redis }

-- crypto.randomUUID() and the ids of new rows.
unfoldable pub skip_id : World → World
skip_id w = record w { next_id = w.next_id + 1 }
