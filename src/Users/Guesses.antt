-- ===== src/Users/Guesses.antt =====
-- How often a one-time password can be guessed: user-service/src/utils/otp.js.
use railway_booking_system.Base.{
  ℕ, ◌+◌, ◌*◌, ◌≤◌, ◌<◌, ◌≡◌, refl, sym, subst, inl, inr, Bool, true, false, Bool-cases, Option,
  none, some, List, [], ◌∷◌, All, ltb, ltb→lt, lt→ltb, ==_refl, ◌==◌, if◌then◌else◌, arith,
}
use railway_booking_system.Errors.{Result, ok, err, too_many_requests_error, too_many_requests}
use railway_booking_system.Users.Rows.{
  Meta, OtpSession, Cell, World, get, set_ex, at_key, count_of, count_up, on_redis,
}
use railway_booking_system.Users.Otp.{
  attempt_max, otp_ttl, attempts_reached, count_attempt, compare_otp, verify_session, verify_otp,
}

pub record Guess : Type 0 where
  pub time : ℕ
  pub otp : ℕ

-- An answer that tells that the password was compared: not an error, and in the session's time.
unfoldable pub is_tried : (expires_at : ℕ) → Guess → Result (Option Meta) → Bool
is_tried expires_at g (ok _) = ltb g.time expires_at
is_tried expires_at g (err _) = false

count_up-shown :
    (now ttl t key : ℕ) (cells : ℕ → Option (Cell ℕ))
    → t < now + ttl * 1000
    → count_of t (at_key key (count_up now ttl (cells key)) cells key)
      ≡ count_of now (cells key) + 1
unfolding count_of at_key count_up set_ex get
count_up-shown now ttl t key cells h =
    let e : (key == key) ≡ true = ==_refl key in
    rw e (rw (count_of, get, lt→ltb t (now + ttl * 1000) h) refl)

module _ (hmac_for : (email otp : ℕ) → ℕ) (id : ℕ) (session : Cell OtpSession) where
  -- How many of the guesses are compared.
  unfoldable pub tried : List Guess → World → ℕ
  unfolding is_tried verify_otp
  tried [] w = 0
  tried (g ∷ gs) w =
      let x = verify_otp hmac_for g.time g.otp id w in
      let rest = tried gs x.1 in if is_tried session.expires_at g x.0 then rest + 1 else rest

  unfoldable pub IsWrong : Guess → Type 0
  IsWrong g = (hmac_for session.value.meta.email g.otp == session.value.hashed_otp) ≡ false

  -- After n comparisons: the session is there, and its counter stands at n or more until it ends.
  record Counted (n : ℕ) (w : World) : Type 0 where
    there : w.redis.otp_session id ≡ some session
    counted :
        (t : ℕ)
        → t < session.expires_at
        → n ≤ count_of t (w.redis.otp_attempts session.value.meta.email)

  verify-over :
      (g : Guess) (w : World)
      → w.redis.otp_session id ≡ some session
      → ltb g.time session.expires_at ≡ false
      → verify_otp hmac_for g.time g.otp id w ≡ (ok none, w)
  unfolding verify_otp verify_session get
  verify-over g w h e = rw (h, e) refl

  verify-refused :
      (g : Guess) (w : World)
      → w.redis.otp_session id ≡ some session
      → ltb g.time session.expires_at ≡ true
      → attempts_reached g.time session.value.meta.email w ≡ true
      → verify_otp hmac_for g.time g.otp id w ≡ (err (too_many_requests_error too_many_requests), w)
  unfolding verify_otp verify_session get
  verify-refused g w h e r = rw (h, e, r) refl

  verify-wrong :
      (g : Guess) (w : World)
      → w.redis.otp_session id ≡ some session
      → ltb g.time session.expires_at ≡ true
      → attempts_reached g.time session.value.meta.email w ≡ false
      → IsWrong g
      → verify_otp hmac_for g.time g.otp id w
        ≡ (ok none, count_attempt g.time session.value.meta.email w)
  unfolding verify_otp verify_session get compare_otp IsWrong
  verify-wrong g w h e r wrong = rw (h, e, r, wrong) refl

  Counted-next :
      (n : ℕ) (g : Guess) (w : World)
      → session.expires_at ≤ g.time + otp_ttl * 1000
      → g.time < session.expires_at
      → Counted n w
      → Counted (n + 1) (count_attempt g.time session.value.meta.email w)
  unfolding count_attempt on_redis
  Counted-next n g w h l c = record {
    there = c.there;
    counted = λ t before.
        subst (λ k. n + 1 ≤ k)
          (sym (
            count_up-shown g.time otp_ttl t session.value.meta.email w.redis.otp_attempts
              (omega arith)))
          (let k = c.counted g.time l in omega arith);
  }

  below_max :
      (n : ℕ) (g : Guess) (w : World)
      → Counted n w
      → g.time < session.expires_at
      → attempts_reached g.time session.value.meta.email w ≡ false
      → n + 1 ≤ attempt_max
  unfolding attempts_reached
  below_max n g w c l r = let k = c.counted g.time l in ground arith

  bounded :
      (n : ℕ) (guesses : List Guess) (w : World)
      → Counted n w
      → n ≤ attempt_max
      → All (λ g. session.expires_at ≤ g.time + otp_ttl * 1000) guesses
      → All IsWrong guesses
      → n + tried guesses w ≤ attempt_max
  unfolding tried
  bounded n [] w c h times wrong = omega arith
  bounded n (g ∷ gs) w c h times wrong = elim (Bool-cases (ltb g.time session.expires_at)) [
    | inr e ↦ rw (verify-over g w c.there e, e) (bounded n gs w c h times.1 wrong.1)
    | inl e ↦ elim (Bool-cases (attempts_reached g.time session.value.meta.email w)) [
      | inl r ↦ rw (verify-refused g w c.there e r) (bounded n gs w c h times.1 wrong.1)
      | inr r ↦
          let l = ltb→lt g.time session.expires_at e in
          let ih =
            bounded (n + 1) gs (count_attempt g.time session.value.meta.email w)
              (Counted-next n g w times.0 l c) (below_max n g w c l r) times.1 wrong.1 in
          rw (verify-wrong g w c.there e r wrong.0, e) (omega arith)
    ]
  ]

  -- Whatever the counters of the store say at first: of the wrong guesses at a session's one-time
  -- password, in any number, at most attempt_max are compared with it. The session was opened at most
  -- otp_ttl seconds before its end, and the guesses come after that.
  pub tried-IsBounded :
      (guesses : List Guess) (w : World)
      → w.redis.otp_session id ≡ some session
      → All (λ g. session.expires_at ≤ g.time + otp_ttl * 1000) guesses
      → All IsWrong guesses
      → tried guesses w ≤ attempt_max
  tried-IsBounded guesses w h times wrong =
      let b =
        bounded 0 guesses w (record { there = h; counted = λ t l. omega arith }) (omega arith) times
          wrong in
      omega arith
