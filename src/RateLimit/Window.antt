-- ===== src/RateLimit/Window.antt =====
-- The limiter against its specification: api-gateway/src/middlewares/rateLimiting.middleware.js.
use railway_booking_system.Base.{
  ℕ, ◌+◌, ◌≤◌, ◌<◌, ◌≡◌, refl, sym, ap, ◌∙◌, inl, inr, Bool, true, false, Option, none, List, [],
  ◌∷◌, ◌++◌, length, delete_where, select, ltb, leb, Bool-cases, Option-cases, All, All-append,
  All-mono, All-delete_where, subst, delete_where-none, arith, if◌then◌else◌,
}
use railway_booking_system.RateLimit.{
  RateKey, same_rate_key, Member, same_member, SortedSet, RateStore, members_at, is_old, zadd,
  seconds, expire, put, answers, counted, decide, over_limit, limited_until, oldest, rate_limiter,
}
use railway_booking_system.RateLimit.Kept.{
  same_rate_key-eq, same_rate_key_refl, append-nil, length-snoc, kept_in_key,
}

-- A request that asks for a key.
pub record Asking : Type 0 where
  pub key : RateKey
  pub member : Member

-- The specification: of all the requests so far, refused ones included, those for the key whose window
-- has not ended.
unfoldable pub asked_for : RateKey → List Asking → List Member
unfolding same_rate_key
asked_for key [] = []
asked_for key (a ∷ next) =
    let rest = asked_for key next in if same_rate_key a.key key then a.member ∷ rest else rest

unfoldable pub in_window : (window now : ℕ) → Member → Bool
in_window window now m = ltb now (m.time + window)

unfoldable pub recent : (window now : ℕ) → RateKey → List Asking → List Member
unfolding asked_for in_window
recent window now key history = select (in_window window now) (asked_for key history)

unfoldable pub described : (max_requests window : ℕ) → (history coming : List Asking) → List Bool
unfolding recent
described max_requests window history [] = []
described max_requests window history (a ∷ next) =
    leb (length (recent window a.member.time a.key history) + 1) max_requests
    ∷ described max_requests window (history ++ a ∷ []) next

unfoldable pub verdicts : (max_requests window : ℕ) → List Asking → RateStore → List Bool
unfolding rate_limiter
verdicts max_requests window [] store = []
verdicts max_requests window (a ∷ next) store =
    let x = rate_limiter answers a.key max_requests window a.member store in
    x.0.allowed ∷ verdicts max_requests window next x.1

-- The clock does not go back, and no two requests have one member.
unfoldable pub InOrder : (now : ℕ) → (history coming : List Asking) → Type 0
unfolding same_member
InOrder now history [] = Unit {0}
InOrder now history (a ∷ next) =
    (now ≤ a.member.time)
    × All (λ h. same_member a.member h.member ≡ false) history
    × InOrder a.member.time (history ++ a ∷ []) next

-- The same with the deletion that the code makes.
kept : (window now : ℕ) → RateKey → List Asking → List Member
unfolding is_old
kept window now key history = delete_where (is_old window now) (asked_for key history)

delete-in_window :
    (window now : ℕ) (ms : List Member)
    → delete_where (is_old window now) ms ≡ select (in_window window now) ms
unfolding is_old in_window
delete-in_window window now [] = refl
delete-in_window window now (m ∷ ms) =
    let ih = delete-in_window window now ms in
    elim (Bool-cases (ltb now (m.time + window))) [
      | inl e ↦ let o : leb (m.time + window) now ≡ false = ground arith in rw (e, o, ih) refl
      | inr e ↦ let o : leb (m.time + window) now ≡ true = ground arith in rw (e, o, ih) refl
    ]

asked_for-append :
    (key : RateKey) (first next : List Asking)
    → asked_for key (first ++ next) ≡ asked_for key first ++ asked_for key next
unfolding asked_for
asked_for-append key [] next = refl
asked_for-append key (a ∷ first) next =
    let ih = asked_for-append key first next in
    elim (Bool-cases (same_rate_key a.key key)) [
      | inl e ↦ rw (e, ih) refl
      | inr e ↦ rw (e, ih) refl
    ]

All-asked_for :
    (P : Member → Type 0) (key : RateKey) (history : List Asking)
    → All (λ a. P a.member) history
    → All P (asked_for key history)
unfolding asked_for
All-asked_for P key [] h = tt
All-asked_for P key (a ∷ history) (h, hs) =
    let ih = All-asked_for P key history hs in
    elim (Bool-cases (same_rate_key a.key key)) [ inl e ↦ rw e (h, ih) | inr e ↦ rw e ih ]

module _ (window : ℕ) (positive : 0 < window) where
  -- The store holds what the history asks for, up to members whose window has ended.
  unfoldable pub Agrees : (now : ℕ) → RateStore → List Asking → Type 0
  unfolding kept
  Agrees now store history =
      (key : RateKey) (later : ℕ)
      → now ≤ later
      → delete_where (is_old window later) (members_at later (store key))
        ≡ kept window later key history

  unfoldable Before : (now : ℕ) → List Asking → Type 0
  Before now history = All (λ a. a.member.time ≤ now) history

  Before-later :
      (now : ℕ) (a : Asking) (history : List Asking)
      → Before now history
      → now ≤ a.member.time
      → Before a.member.time history
  unfolding Before
  Before-later now a history before h =
      All-mono (λ b. b.member.time ≤ now) (λ b. b.member.time ≤ a.member.time) history
        (λ b p. omega arith) before

  Before-next :
      (now : ℕ) (a : Asking) (history : List Asking)
      → Before now history
      → now ≤ a.member.time
      → Before a.member.time (history ++ a ∷ [])
  unfolding Before
  Before-next now a history before h =
      All-append (λ b. b.member.time ≤ a.member.time) history (a ∷ [])
        (Before-later now a history before h) (omega arith, tt)

  counted-kept :
      (now : ℕ) (a : Asking) (store : RateStore) (history : List Asking)
      → Agrees now store history
      → now ≤ a.member.time
      → All (λ h. same_member a.member h.member ≡ false) history
      → counted window a.member (store a.key)
        ≡ kept window a.member.time a.key history ++ a.member ∷ []
  unfolding counted zadd Agrees kept
  counted-kept now a store history agrees h fresh =
      let members = delete_where (is_old window a.member.time) (asked_for a.key history) in
      let unlike : All (λ x. same_member a.member x ≡ false) members =
        All-delete_where (λ x. same_member a.member x ≡ false) (is_old window a.member.time)
          (asked_for a.key history)
          (All-asked_for (λ x. same_member a.member x ≡ false) a.key history fresh) in
      ap (zadd a.member) (agrees a.key a.member.time h)
      ∙ ap (λ xs. xs ++ a.member ∷ []) (delete_where-none (same_member a.member) members unlike)

  step-Agrees :
      (now : ℕ) (a : Asking) (store : RateStore) (history : List Asking)
      → Agrees now store history
      → Before now history
      → now ≤ a.member.time
      → All (λ h. same_member a.member h.member ≡ false) history
      → Agrees a.member.time
          (put a.key
            (expire a.member.time (seconds window) (counted window a.member (store a.key)))
            store)
          (history ++ a ∷ [])
  unfolding Agrees Before kept put asked_for
  step-Agrees now a store history agrees before h fresh key later g =
      elim (Bool-cases (same_rate_key a.key key)) [
        | inl e ↦
            subst
              (λ k.
                delete_where (is_old window later) (
                  members_at later (
                    put a.key
                      (expire a.member.time (seconds window)
                        (counted window a.member (store a.key)))
                      store k))
                ≡ kept window later k (history ++ a ∷ []))
              (same_rate_key-eq a.key key e)
              (rw
                (
                  same_rate_key_refl a.key,
                  counted-kept now a store history agrees h fresh,
                  asked_for-append a.key history (a ∷ []),
                  same_rate_key_refl a.key,
                )
                (kept_in_key window positive a.member later (asked_for a.key history) g (
                  All-asked_for (λ x. x.time ≤ a.member.time) a.key history
                    (Before-later now a history before h))))
        | inr e ↦
            rw (e, asked_for-append key history (a ∷ []), e)
              (agrees key later (omega arith)
                ∙ ap (delete_where (is_old window later))
                    (sym (append-nil (asked_for key history))))
      ]

  decide-allowed :
      (max_requests now : ℕ) (ms : List Member) (s : Option SortedSet)
      → (decide answers max_requests window now ms s).allowed ≡ leb (length ms) max_requests
  unfolding decide over_limit limited_until
  decide-allowed max_requests now ms s = elim (Bool-cases (leb (length ms) max_requests)) [
    | inl e ↦ rw e refl
    | inr e ↦ elim (Option-cases (oldest (members_at now s))) [
      | inl o ↦ rw (e, o) refl
      | inr (t, o) ↦ rw (e, o) refl
    ]
  ]

  run_from :
      (max_requests now : ℕ) (history coming : List Asking) (store : RateStore)
      → Agrees now store history
      → Before now history
      → InOrder now history coming
      → verdicts max_requests window coming store ≡ described max_requests window history coming
  unfolding verdicts described rate_limiter InOrder kept recent
  run_from max_requests now history [] store agrees before order = refl
  run_from max_requests now history (a ∷ coming) store agrees before (h, fresh, order) =
      let ms = counted window a.member (store a.key) in
      let s = expire a.member.time (seconds window) ms in
      let verdict = decide-allowed max_requests a.member.time ms s in
      let size : length ms ≡ length (recent window a.member.time a.key history) + 1 =
        ap length (counted-kept now a store history agrees h fresh)
        ∙ length-snoc (kept window a.member.time a.key history) a.member
        ∙ ap (λ n. length n + 1)
            (delete-in_window window a.member.time (asked_for a.key history)) in
      let ih =
        run_from max_requests a.member.time (history ++ a ∷ []) coming (put a.key s store)
          (step-Agrees now a store history agrees before h fresh)
          (Before-next now a history before h) order in
      rw (verdict, size, ih) refl

-- Over any requests to any keys, in the order of the clock and with distinct members, while Redis
-- answers: the limiter lets a request pass exactly where the requests made for its key in the window
-- that ends with it, those that were refused and itself included, are at most the limit.
pub verdicts-described :
    (max_requests window : ℕ) (requests : List Asking)
    → 0 < window
    → InOrder 0 [] requests
    → verdicts max_requests window requests (λ _. none) ≡ described max_requests window [] requests
unfolding Agrees Before members_at kept asked_for
verdicts-described max_requests window requests positive order =
    run_from window positive max_requests 0 [] requests (λ _. none) (λ key later h. refl) tt order
