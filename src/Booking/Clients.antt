-- ===== src/Booking/Clients.antt =====
-- `withRetry` of booking-service/src/services/inventoryClient.js, and of paymentClient.js beside it,
-- which is the same: what it makes of the outcomes of its calls, which are an argument.
use railway_booking_system.Base.{
  ℕ, zero, suc, ◌+◌, ◌*◌, ◌-◌, ◌≤◌, ◌<◌, ◌≡◌, refl, sym, ◌∙◌, subst, ◌⊎◌, inl, inr, Bool, true,
  false, ◌&&◌, Option, none, some, ltb, leb, Bool-cases, if◌then◌else◌, arith,
}
use Prim.Native.Nat.{◌^◌}

-- A call returns, or throws with the status of the answer, if there was one.
pub data CallOutcome {ℓ} (A : Type ℓ) : Type ℓ where
  returned : A → CallOutcome A
  threw : (status : Option ℕ) → CallOutcome A

-- A 4xx answer, which is not worth another try.
unfoldable pub is_client_error : Option ℕ → Bool
is_client_error none = false
is_client_error (some status) = leb 400 status && ltb status 500

-- The outcome that the caller sees, the calls that were made and the milliseconds waited between them.
pub record Tried {ℓ} (A : Type ℓ) : Type ℓ where
  pub outcome : CallOutcome A
  pub calls : ℕ
  pub waited : ℕ

abbrev pub delay : ℕ → ℕ
delay attempt = 200 * 2 ^ (attempt - 1)

-- An answer that is not worth another call, or the next one.
unfoldable pub after_call {ℓ} : {A : Type ℓ} → CallOutcome A → (stop next : Tried A) → Tried A
unfolding is_client_error
after_call (returned a) stop next = stop
after_call (threw status) stop next = if is_client_error status then stop else next

module _ {ℓ} {A : Type ℓ} (fn : ℕ → CallOutcome A) (max_retries : ℕ) where
  -- `rounds` more attempts, the next one being number `attempt`.
  unfoldable pub attempt_from : (rounds attempt waited : ℕ) → (last : CallOutcome A) → Tried A
  unfolding after_call
  attempt_from zero attempt waited last = record {
    outcome = last;
    calls = attempt - 1;
    waited = waited;
  }
  attempt_from (suc rounds) attempt waited last =
      after_call (fn attempt) (record { outcome = fn attempt; calls = attempt; waited = waited })
        (attempt_from rounds (attempt + 1)
          (if ltb attempt max_retries then waited + delay attempt else waited) (fn attempt))

unfoldable pub with_retry {ℓ} : {A : Type ℓ} → (ℕ → CallOutcome A) → Tried A
unfolding attempt_from
with_retry fn = attempt_from fn 3 3 1 0 (threw none)

-- The call returned, or it was answered from 400 to 499.
abbrev pub IsFinal {ℓ} : {A : Type ℓ} → CallOutcome A → Type 0
IsFinal (returned a) = Unit {0}
IsFinal (threw none) = ⊥
IsFinal (threw (some status)) = (400 ≤ status) × (status < 500)

-- The same as the code tests it.
abbrev is_final {ℓ} : {A : Type ℓ} → CallOutcome A → Bool
is_final (returned a) = true
is_final (threw status) = is_client_error status

-- The tries of `fn` were made as they should be.
pub record IsBounded {ℓ} {A : Type ℓ} (fn : ℕ → CallOutcome A) (t : Tried A) : Type ℓ where
  pub some_call : 1 ≤ t.calls
  pub few_calls : t.calls ≤ 3
  pub short_wait : t.waited ≤ 600
  pub last_call : t.outcome ≡ fn t.calls
  pub not_earlier : (j : ℕ) → 1 ≤ j → j < t.calls → ¬ IsFinal (fn j)
  pub ended : IsFinal (fn t.calls) ⊎ (t.calls ≡ 3)

final→IsFinal {ℓ} : {A : Type ℓ} (o : CallOutcome A) → is_final o ≡ true → IsFinal o
unfolding is_client_error
final→IsFinal (returned a) h = tt
final→IsFinal (threw none) h = absurd cc
final→IsFinal (threw (some status)) h = (ground (arith, h), ground (arith, h))

not_final→IsFinal {ℓ} : {A : Type ℓ} (o : CallOutcome A) → is_final o ≡ false → ¬ IsFinal o
unfolding is_client_error
not_final→IsFinal (returned a) h = λ _. cc
not_final→IsFinal (threw none) h = λ x. x
not_final→IsFinal (threw (some status)) h = λ x. ground (arith, h, x.0, x.1)

module _ {ℓ} {A : Type ℓ} (fn : ℕ → CallOutcome A) where
  abbrev stopped : ℕ → ℕ → Tried A
  stopped attempt waited = record { outcome = fn attempt; calls = attempt; waited = waited }

  abbrev waits : ℕ → ℕ → ℕ
  waits attempt waited = if ltb attempt 3 then waited + delay attempt else waited

  after_final : (o : CallOutcome A) (x y : Tried A) → is_final o ≡ true → after_call o x y ≡ x
  unfolding after_call
  after_final (returned a) x y h = refl
  after_final (threw st) x y h = rw h refl

  after_error : (o : CallOutcome A) (x y : Tried A) → is_final o ≡ false → after_call o x y ≡ y
  unfolding after_call
  after_error (returned a) x y h = absurd cc
  after_error (threw st) x y h = rw h refl

  stops :
      (rounds attempt waited : ℕ) (last : CallOutcome A)
      → is_final (fn attempt) ≡ true
      → attempt_from fn 3 (suc rounds) attempt waited last ≡ stopped attempt waited
  unfolding attempt_from
  stops rounds attempt waited last h =
      after_final (fn attempt) (stopped attempt waited)
        (attempt_from fn 3 rounds (attempt + 1) (waits attempt waited) (fn attempt)) h

  goes_on :
      (rounds attempt waited : ℕ) (last : CallOutcome A)
      → is_final (fn attempt) ≡ false
      → attempt_from fn 3 (suc rounds) attempt waited last
        ≡ attempt_from fn 3 rounds (attempt + 1) (waits attempt waited) (fn attempt)
  unfolding attempt_from
  goes_on rounds attempt waited last h =
      after_error (fn attempt) (stopped attempt waited)
        (attempt_from fn 3 rounds (attempt + 1) (waits attempt waited) (fn attempt)) h

  first_fails : is_final (fn 1) ≡ false → with_retry fn ≡ attempt_from fn 3 2 2 200 (fn 1)
  unfolding with_retry
  first_fails e = goes_on 2 1 0 (threw none) e

  second_fails :
      is_final (fn 1) ≡ false
      → is_final (fn 2) ≡ false
      → with_retry fn ≡ attempt_from fn 3 1 3 600 (fn 2)
  second_fails e f = first_fails e ∙ goes_on 1 2 200 (fn 1) f

  third :
      is_final (fn 1) ≡ false
      → is_final (fn 2) ≡ false
      → (b : Bool) → is_final (fn 3) ≡ b
      → with_retry fn ≡ stopped 3 600
  unfolding attempt_from
  third e f true g = second_fails e f ∙ stops 0 3 600 (fn 2) g
  third e f false g = second_fails e f ∙ goes_on 0 3 600 (fn 2) g

-- Whatever the calls come to, withRetry makes one to three of them and waits 600 ms at most; the caller
-- sees what the last one came to; no call before it returned or was answered 4xx, and it did, or it is
-- the third.
pub with_retry-IsBounded {ℓ} : {A : Type ℓ} (fn : ℕ → CallOutcome A) → IsBounded fn (with_retry fn)
unfolding with_retry
with_retry-IsBounded fn = elim (Bool-cases (is_final (fn 1))) [
  | inl e ↦ subst (IsBounded fn) (sym (stops fn 2 1 0 (threw none) e)) (record {
    some_call = omega arith;
    few_calls = omega arith;
    short_wait = omega arith;
    last_call = refl;
    not_earlier = λ j a b. absurd (omega arith);
    ended = inl (final→IsFinal (fn 1) e);
  })
  | inr e ↦ elim (Bool-cases (is_final (fn 2))) [
    | inl f ↦ subst (IsBounded fn) (sym (first_fails fn e ∙ stops fn 1 2 200 (fn 1) f)) (record {
      some_call = omega arith;
      few_calls = omega arith;
      short_wait = omega arith;
      last_call = refl;
      not_earlier = λ j a b. let q : j ≡ 1 = omega arith in rw q (not_final→IsFinal (fn 1) e);
      ended = inl (final→IsFinal (fn 2) f);
    })
    | inr f ↦ subst (IsBounded fn) (sym (third fn e f (is_final (fn 3)) refl)) (record {
      some_call = omega arith;
      few_calls = omega arith;
      short_wait = omega arith;
      last_call = refl;
      not_earlier = λ j a b. elim (first_or_second j a b) [
        | inl q ↦ rw q (not_final→IsFinal (fn 1) e)
        | inr q ↦ rw q (not_final→IsFinal (fn 2) f)
      ];
      ended = inr refl;
    })
  ]
]
  where
    first_or_second : (j : ℕ) → 1 ≤ j → j < 3 → (j ≡ 1) ⊎ (j ≡ 2)
    first_or_second j a b = ground arith
