-- ===== src/RateLimit/Kept.antt =====
-- What a key of the limiter holds: api-gateway/src/middlewares/rateLimiting.middleware.js.
use railway_booking_system.Base.{
  ℕ, ◌+◌, ◌*◌, ◌≤◌, ◌<◌, ◌≡◌, refl, ==_refl, sym, ap, ◌∙◌, inl, inr, true, false, List, [], ◌∷◌,
  ◌++◌, length, delete_where, ltb, Bool-cases, All, All-append, &&-split, ==_iff, ◌==◌, All-mono,
  delete_where-append, delete_where-all, arith,
}
use railway_booking_system.RateLimit.{
  RateKey, ip_key, user_key, endpoint_key, same_rate_key, Member, members_at, is_old, seconds,
  expire,
}

pub seconds_enough : (window : ℕ) → window ≤ seconds window * 1000
unfolding seconds
seconds_enough window = omega arith

pub old_later :
    (window now later : ℕ) (m : Member)
    → now ≤ later
    → is_old window now m ≡ true
    → is_old window later m ≡ true
unfolding is_old
old_later window now later m h o = ground arith

pub delete_old_twice :
    (window now later : ℕ) (ms : List Member)
    → now ≤ later
    → delete_where (is_old window later) (delete_where (is_old window now) ms)
      ≡ delete_where (is_old window later) ms
delete_old_twice window now later [] h = refl
delete_old_twice window now later (m ∷ ms) h =
    let ih = delete_old_twice window now later ms h in
    elim (Bool-cases (is_old window now m)) [
      | inl o ↦ rw (o, old_later window now later m h o, ih) refl
      | inr o ↦ rw (o, ih) refl
    ]

pub same_rate_key-eq : (k j : RateKey) → same_rate_key k j ≡ true → k ≡ j
unfolding same_rate_key
same_rate_key-eq (ip_key a) (ip_key b) h = ap ip_key (ground arith)
same_rate_key-eq (user_key a) (user_key b) h = ap user_key (ground arith)
same_rate_key-eq (endpoint_key a b) (endpoint_key c d) h =
    let p = &&-split (a == c) (b == d) h in
    ap (λ n. endpoint_key n b) ((==_iff a c).0 p.0) ∙ ap (endpoint_key c) ((==_iff b d).0 p.1)
same_rate_key-eq (ip_key a) (user_key c) h = absurd cc
same_rate_key-eq (ip_key a) (endpoint_key c d) h = absurd cc
same_rate_key-eq (user_key a) (ip_key b) h = absurd cc
same_rate_key-eq (user_key a) (endpoint_key c d) h = absurd cc
same_rate_key-eq (endpoint_key a b) (ip_key c) h = absurd cc
same_rate_key-eq (endpoint_key a b) (user_key c) h = absurd cc

pub same_rate_key_refl : (k : RateKey) → same_rate_key k k ≡ true
unfolding same_rate_key
same_rate_key_refl (ip_key a) = ==_refl a
same_rate_key_refl (user_key a) = ==_refl a
same_rate_key_refl (endpoint_key a b) = rw (==_refl a, ==_refl b) refl

pub append-nil : (ms : List Member) → ms ++ [] ≡ ms
append-nil [] = refl
append-nil (m ∷ ms) = ap (λ xs. m ∷ xs) (append-nil ms)

pub length-snoc : (ms : List Member) (m : Member) → length (ms ++ m ∷ []) ≡ length ms + 1
length-snoc [] m = refl
length-snoc (x ∷ ms) m = let ih = length-snoc ms m in omega arith

module _ (window : ℕ) (positive : 0 < window) where
  some_seconds : (seconds window == 0) ≡ false
  some_seconds = let h = seconds_enough window in ground arith

  all_old :
      (now later : ℕ) (ms : List Member)
      → now + window ≤ later
      → All (λ m. m.time ≤ now) ms
      → All (λ m. is_old window later m ≡ true) ms
  unfolding is_old
  all_old now later ms h a =
      All-mono (λ m. m.time ≤ now) (λ m. is_old window later m ≡ true) ms (λ m g. ground arith) a

  -- A key that has expired holds no member whose window has not ended.
  pub kept_in_key :
      (m : Member) (later : ℕ) (ms : List Member)
      → m.time ≤ later
      → All (λ x. x.time ≤ m.time) ms
      → delete_where (is_old window later) (
          members_at later
            (expire m.time (seconds window) (delete_where (is_old window m.time) ms ++ m ∷ [])))
        ≡ delete_where (is_old window later) (ms ++ m ∷ [])
  unfolding expire members_at
  kept_in_key m later ms h before =
      let d = m.time + seconds window * 1000 in
      let e = seconds_enough window in
      elim (Bool-cases (ltb later d)) [
        | inl l ↦
            rw (some_seconds, l)
              (delete_where-append (is_old window later) (delete_where (is_old window m.time) ms)
                  (m ∷ [])
                ∙ ap (λ xs. xs ++ delete_where (is_old window later) (m ∷ []))
                    (delete_old_twice window m.time later ms h)
                ∙ sym (delete_where-append (is_old window later) ms (m ∷ [])))
        | inr l ↦
            rw (some_seconds, l)
              (sym (
                delete_where-all (is_old window later) (ms ++ m ∷ []) (
                  all_old m.time later (ms ++ m ∷ []) (ground arith)
                    (All-append (λ x. x.time ≤ m.time) ms (m ∷ []) before ((omega arith), tt)))))
      ]
