-- ===== src/Breaker/Runs.antt =====
-- Requests through the circuit breaker one after the other, against a description without its states.
use railway_booking_system.Base.{
  ℕ, ◌+◌, ◌≤◌, ◌<◌, ◌≡◌, refl, sym, subst, Bool, true, false, ◌&&◌, some, List, [], ◌∷◌, arith, ltb,
  leb, Bool-cases, inl, inr, if◌then◌else◌,
}
use railway_booking_system.Errors.{Result, Result-cases, ok, err, app, service_unavailable}
use railway_booking_system.Breaker.{
  BreakerState, closed, opened, half_open, Breaker, new_breaker, admit, on_success, on_failure,
  execute,
}

-- A request: when it comes, when it ends, and what it comes to if it is made.
pub record Call (A : Type 0) : Type 0 where
  pub start : ℕ
  pub finish : ℕ
  pub outcome : Result A

unfoldable pub run : {A : Type 0} → List (Call A) → Breaker → List (Result A)
unfolding execute
run [] b = []
run (c ∷ cs) b = let r = execute c.start c.finish c.outcome b in r.0 ∷ run cs r.1

-- What the breaker is for: after `threshold` failures in a row, nothing is let through until `timeout`
-- after the last of them.
pub record Streak : Type 0 where
  pub failures : ℕ
  pub until : ℕ

abbrev pub refusal : {A : Type 0} → Result A
refusal = err (app (record { status_code = 503; code = service_unavailable }))

unfoldable pub described :
    {A : Type 0} → (threshold timeout : ℕ) → Call A → Streak → Result A × Streak
described threshold timeout c s =
    if leb threshold s.failures && ltb c.start s.until then (refusal, s) else elim c.outcome [
      | ok a ↦ (ok a, record s { failures = 0 })
      | err e ↦ (err e, record { failures = s.failures + 1; until = c.finish + timeout })
    ]

unfoldable pub described_run :
    {A : Type 0} → (threshold timeout : ℕ) → List (Call A) → Streak → List (Result A)
unfolding described
described_run threshold timeout [] s = []
described_run threshold timeout (c ∷ cs) s =
    let r = described threshold timeout c s in r.0 ∷ described_run threshold timeout cs r.1

unfoldable is_closed : BreakerState → Bool
is_closed closed = true
is_closed _ = false

unfoldable is_opened : BreakerState → Bool
is_opened opened = true
is_opened _ = false

-- Between two requests a breaker is closed or open, as its failures say.
record Follows (threshold timeout : ℕ) (b : Breaker) (s : Streak) : Type 0 where
  same_threshold : b.threshold ≡ threshold
  same_timeout : b.timeout ≡ timeout
  same_failures : b.failure_count ≡ s.failures
  closed_below : b.failure_count < threshold → is_closed b.state ≡ true
  opened_above :
      threshold ≤ b.failure_count → (is_opened b.state ≡ true) × (b.next_attempt ≡ s.until)

reached : (n threshold : ℕ) → (n < threshold → ⊥) → threshold ≤ n
reached n threshold h = elim (Bool-cases (leb threshold n)) [
  | inl e ↦ ground (arith, e)
  | inr e ↦ absurd (h (ground (arith, e)))
]

not_reached : (n threshold : ℕ) → (threshold ≤ n → ⊥) → n < threshold
not_reached n threshold h = elim (Bool-cases (ltb n threshold)) [
  | inl e ↦ ground (arith, e)
  | inr e ↦ absurd (h (ground (arith, e)))
]

module _ (threshold timeout : ℕ) where
  abbrev pub at : BreakerState → (failure_count next_attempt : ℕ) → Breaker
  at st n until = record {
    state = st;
    failure_count = n;
    threshold = threshold;
    timeout = timeout;
    next_attempt = until;
  }

  fresh :
      (n until : ℕ) (s : Streak)
      → n ≡ s.failures
      → n < threshold
      → Follows threshold timeout (at closed n until) s
  fresh n until s same lt = record {
    same_threshold = refl;
    same_timeout = refl;
    same_failures = same;
    closed_below = λ _. unfold is_closed in refl;
    opened_above = λ h. absurd (omega arith);
  }

  failed_step :
      (st : BreakerState) (n until finish : ℕ) (s : Streak)
      → n ≡ s.failures
      → (n + 1 < threshold → is_closed st ≡ true)
      → Follows threshold timeout
          (on_failure finish (at st n until))
          (record { failures = s.failures + 1; until = finish + timeout })
  unfolding on_failure is_opened
  failed_step st n until finish s same still = elim (Bool-cases (leb threshold (n + 1))) [
    | inl e ↦ rw e (record {
      same_threshold = refl;
      same_timeout = refl;
      same_failures = omega (arith, same);
      closed_below = λ h. absurd (ground (arith, e, h));
      opened_above = λ _. (refl, refl);
    })
    | inr e ↦ rw e (record {
      same_threshold = refl;
      same_timeout = refl;
      same_failures = omega (arith, same);
      closed_below = still;
      opened_above = λ h. absurd (ground (arith, e, h));
    })
  ]

  tripped :
      (n until : ℕ) (s : Streak)
      → Follows threshold timeout (at opened n until) s
      → (leb threshold s.failures ≡ true) × (until ≡ s.until)
  unfolding is_closed
  tripped n until s f =
      let above = reached n threshold (λ h. let p = f.closed_below h in cc) in
      (ground (arith, above, f.same_failures), (f.opened_above above).1)

module _ {A : Type 0} (threshold timeout : ℕ) (positive : 0 < threshold) where
  -- One request, in the two descriptions.
  abbrev Agrees : Breaker → Streak → Call A → Type 0
  Agrees b s c =
      ((execute c.start c.finish c.outcome b).0 ≡ (described threshold timeout c s).0)
      × Follows threshold timeout (execute c.start c.finish c.outcome b).1
          (described threshold timeout c s).1

  one_call :
      (st : BreakerState) (n until : ℕ) (s : Streak) (start finish : ℕ) (r : Result A)
      → Follows threshold timeout (at threshold timeout st n until) s
      → Agrees
          (at threshold timeout st n until)
          s
          (record { start = start; finish = finish; outcome = r })
  unfolding execute described is_closed is_opened
  one_call half_open n until s start finish r f = absurd (
      let lt = not_reached n threshold (λ h. let p = (f.opened_above h).0 in cc) in
      let p = f.closed_below lt in cc)
  one_call closed n until s start finish r f =
      let lt = not_reached n threshold (λ h. let p = (f.opened_above h).0 in cc) in
      let free : leb threshold s.failures ≡ false = ground (arith, lt, f.same_failures) in
      elim (Result-cases r) [
        | inl (a, e) ↦ rw (e, free) (refl, fresh threshold timeout 0 until _ refl positive)
        | inr (x, e) ↦
            rw (e, free)
              (
                refl,
                failed_step threshold timeout closed n until finish s f.same_failures (λ _. refl),
              )
      ]
  one_call opened n until s start finish (ok a) f = elim (Bool-cases (ltb start until)) [
    | inl e ↦
        let early : ltb start s.until ≡ true =
          (rw (tripped threshold timeout n until s f).1 at e) in
        rw (e, (tripped threshold timeout n until s f).0, early, execute) (refl, f)
    | inr e ↦
        let late : ltb start s.until ≡ false =
          (rw (tripped threshold timeout n until s f).1 at e) in
        rw (e, (tripped threshold timeout n until s f).0, late, execute)
          (refl, fresh threshold timeout 0 until _ refl positive)
  ]
  one_call opened n until s start finish (err x) f = elim (Bool-cases (ltb start until)) [
    | inl e ↦
        let early : ltb start s.until ≡ true =
          (rw (tripped threshold timeout n until s f).1 at e) in
        rw (e, (tripped threshold timeout n until s f).0, early, execute) (refl, f)
    | inr e ↦
        let late : ltb start s.until ≡ false =
          (rw (tripped threshold timeout n until s f).1 at e) in
        rw (e, (tripped threshold timeout n until s f).0, late, execute)
          (
            refl,
            failed_step threshold timeout half_open n until finish s f.same_failures (λ h. absurd (
                let p = (tripped threshold timeout n until s f).0 in
                ground (arith, p, h, f.same_failures))),
          )
  ]

  any_call : (c : Call A) (b : Breaker) (s : Streak) → Follows threshold timeout b s → Agrees b s c
  any_call c b s f =
      subst
        (λ th.
          Follows threshold timeout (record b { threshold = th }) s
          → Agrees (record b { threshold = th }) s c)
        (sym f.same_threshold)
        (subst
          (λ to.
            let b' : Breaker = record b { threshold = threshold; timeout = to } in
            Follows threshold timeout b' s → Agrees b' s c)
          (sym f.same_timeout)
          (one_call b.state b.failure_count b.next_attempt s c.start c.finish c.outcome))
        f

  runs_agree :
      (cs : List (Call A)) (b : Breaker) (s : Streak)
      → Follows threshold timeout b s
      → run cs b ≡ described_run threshold timeout cs s
  unfolding run described_run
  runs_agree [] b s f = refl
  runs_agree (c ∷ cs) b s f =
      let step : Agrees b s c = any_call c b s f in
      cc (
        step.0,
        runs_agree cs (execute c.start c.finish c.outcome b).1 (described threshold timeout c s).1
            step.1,
      )

  -- The breaker lets through exactly what its purpose says: in any sequence of requests made one after the
  -- other, each is made unless the `threshold` latest that were made all failed and the timeout after the
  -- last failure has not passed; then it is refused with 503.
  pub run-described :
      (now : ℕ) (cs : List (Call A))
      → run cs (new_breaker threshold timeout now)
        ≡ described_run threshold timeout cs (record { failures = 0; until = now })
  unfolding new_breaker
  run-described now cs = runs_agree cs _ _ (fresh threshold timeout 0 now _ refl positive)

-- A request that was let through before the breaker opened and succeeds after it did resets the count and
-- leaves the breaker open; with a threshold above 1, the probe after the timeout may then fail without
-- opening it again, and requests go through a service that has not answered since.
pub late_success-half_open :
    (now later n threshold timeout until : ℕ)
    → 1 < threshold
    → until ≤ now
    → (b : Breaker) × (admit now (on_success (at threshold timeout opened n until)) ≡ some b)
      × ((on_failure later b).state ≡ half_open)
      × ((t : ℕ) → admit t (on_failure later b) ≡ some (on_failure later b))
unfolding admit on_success on_failure
late_success-half_open now later n threshold timeout until many late =
    let few : leb threshold 1 ≡ false = ground (arith, many) in
    let over : ltb now until ≡ false = ground (arith, late) in
    (at threshold timeout half_open 0 until, rw over refl, rw few refl, λ t. rw few refl)
