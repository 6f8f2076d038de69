-- ===== src/Inventory/Retrying.antt =====
-- What `retryTransaction` returns, for every sequence of outcomes of its attempts.
use railway_booking_system.Base.{
  ℕ, zero, suc, ◌+◌, ◌≤◌, ◌<◌, ◌≡◌, refl, sym, subst, ◌⊎◌, inl, inr, true, arith, ltb, Bool-cases,
}
use railway_booking_system.Errors.{
  Failure, app, database, type_error, could_not_obtain_lock, could_not_serialize, deadlock_detected,
  unique_violation, record_not_found, invalid_argument, Result, ok, err,
}
use railway_booking_system.Inventory.Retry.{is_retryable, attempt_from, retry_transaction}

-- A row that another transaction has locked, a serialization failure or a deadlock.
pub data IsTransient : Failure → Type 0 where
  lock_not_free : IsTransient (database could_not_obtain_lock)
  serialization : IsTransient (database could_not_serialize)
  deadlock : IsTransient (database deadlock_detected)

retryable→IsTransient : (e : Failure) → is_retryable e ≡ true → IsTransient e
unfolding is_retryable
retryable→IsTransient (database could_not_obtain_lock) h = lock_not_free
retryable→IsTransient (database could_not_serialize) h = serialization
retryable→IsTransient (database deadlock_detected) h = deadlock
retryable→IsTransient (database unique_violation) h = absurd cc
retryable→IsTransient (database record_not_found) h = absurd cc
retryable→IsTransient (database invalid_argument) h = absurd cc
retryable→IsTransient (app a) h = absurd cc
retryable→IsTransient type_error h = absurd cc

IsTransient→retryable : (e : Failure) → IsTransient e → is_retryable e ≡ true
unfolding is_retryable
IsTransient→retryable _ lock_not_free = refl
IsTransient→retryable _ serialization = refl
IsTransient→retryable _ deadlock = refl

-- The attempt failed in a way that may be another one's fault.
abbrev pub FailedForNow {ℓ} : {A : Type ℓ} → Result A → Type 0
FailedForNow (ok a) = ⊥
FailedForNow (err e) = IsTransient e

-- The outcome is that of one attempt of those from `first` to `last`: all before it failed for now,
-- and it is the last one or did not.
pub record Decided {ℓ} {A : Type ℓ} (fn : ℕ → Result A) (first last : ℕ) (r : Result A)
    : Type ℓ where
  pub attempt : ℕ
  pub not_before : first ≤ attempt
  pub not_after : attempt ≤ last
  pub outcome : r ≡ fn attempt
  pub earlier : (j : ℕ) → first ≤ j → j < attempt → FailedForNow (fn j)
  pub final : (attempt ≡ last) ⊎ ¬ FailedForNow (fn attempt)

module _ {ℓ} {A : Type ℓ} (fn : ℕ → Result A) where
  -- The first attempt decides.
  at_first :
      (first last : ℕ)
      → first ≤ last
      → (first ≡ last) ⊎ ¬ FailedForNow (fn first)
      → Decided fn first last (fn first)
  at_first first last h d = record {
    attempt = first;
    not_before = omega arith;
    not_after = h;
    outcome = refl;
    earlier = λ j a b. absurd (omega arith);
    final = d;
  }

  -- It failed for now, and a later one decides.
  later :
      (first last : ℕ) (r : Result A)
      → FailedForNow (fn first)
      → Decided fn (first + 1) last r
      → Decided fn first last r
  later first last r failed d = record {
    attempt = d.attempt;
    not_before = omega (arith, d.not_before);
    not_after = d.not_after;
    outcome = d.outcome;
    earlier =
        λ j a b. elim (first_or_later j a) [ inl e ↦ rw e failed | inr lt ↦ d.earlier j lt b ];
    final = d.final;
  }
    where
      first_or_later : (j : ℕ) → first ≤ j → (j ≡ first) ⊎ (first + 1 ≤ j)
      first_or_later j a = ground arith

  stops :
      (first last : ℕ) (r : Result A)
      → fn first ≡ r
      → first ≤ last
      → (first ≡ last) ⊎ ¬ FailedForNow r
      → Decided fn first last r
  stops first last r e h d =
      subst (Decided fn first last) e
        (at_first first last h (subst (λ q. (first ≡ last) ⊎ ¬ FailedForNow q) (sym e) d))

  one_round :
      (n first last : ℕ)
      → first ≤ last
      → (first < last → Decided fn (first + 1) last (attempt_from fn last n (first + 1)))
      → (r : Result A) → fn first ≡ r
      → Decided fn first last (attempt_from fn last (suc n) first)
  unfolding attempt_from
  one_round n first last h rest (ok a) e =
      rw (e, attempt_from) (stops first last (ok a) e h (inr (λ x. x)))
  one_round n first last h rest (err f) e = elim (Bool-cases (is_retryable f)) [
    | inl c ↦ elim (Bool-cases (ltb first last)) [
      | inl more ↦
          rw (e, attempt_from, c, more)
            (later first last _ (rw e (retryable→IsTransient f c)) (rest (ground arith)))
      | inr stop ↦ rw (e, attempt_from, c, stop) (stops first last (err f) e h (inl (ground arith)))
    ]
    | inr c ↦
        rw (e, attempt_from, c)
          (stops first last (err f) e h (inr (λ x. let g = IsTransient→retryable f x in cc)))
  ]

  attempts-Decided :
      (rounds first last : ℕ)
      → first + rounds ≡ last
      → Decided fn first last (attempt_from fn last (suc rounds) first)
  attempts-Decided zero first last h =
      one_round 0 first last (omega arith) (λ lt. absurd (omega arith)) (fn first) refl
  attempts-Decided (suc n) first last h =
      one_round (suc n) first last (omega arith)
        (λ lt. attempts-Decided n (first + 1) last (omega arith)) (fn first) refl

-- `retryTransaction` returns what one of its three attempts came to: every attempt before that one
-- failed with a lock that was not free, a serialization failure or a deadlock, and that one did not,
-- or was the third.
pub retry_transaction-Decided {ℓ} :
    {A : Type ℓ} (fn : ℕ → Result A) → Decided fn 1 3 (retry_transaction fn)
unfolding retry_transaction
retry_transaction-Decided fn = attempts-Decided fn 2 1 3 refl
