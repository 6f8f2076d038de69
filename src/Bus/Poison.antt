-- ===== src/Bus/Poison.antt =====
-- A message of the bus of shared/utils/streamBus.js that its handler always fails on.
use railway_booking_system.Base.{
  ℕ, ◌+◌, ◌≡◌, refl, sym, ap, ◌∙◌, subst, true, false, Option, some, List, [], ◌∷◌, ◌++◌, leb,
  NonePass,
}
use railway_booking_system.Errors.{Result, ok, err, Failure}
use railway_booking_system.Effects.{Act}
use railway_booking_system.Bus.{
  stream_max_retries, data_name, fields_to_object, Entry, Pending, handler_failed, DeadLetter,
  Group, is_pending, acknowledge, deliver, letter, bury, handle_failure, after_handler,
  handle_message, parsed, handle_fields, handle_entry,
}
use railway_booking_system.Bus.Delivery.{
  row, acknowledged, counted, still_pending, delivered_first, delivered_again, same_letters,
  same_state, delivery, reclaim,
}

module _ {S Message : Type 0} (parse : ℕ → Option Message) (handler : Message → Act S (Unit {0}))
    (source : ℕ) (e : Entry) where
  abbrev reclaimed : Group S → Group S
  reclaimed = reclaim parse handler source e

  abbrev delivered : Group S → Group S
  delivered = delivery parse handler source e

  after-err :
      (content : Option ℕ) (y : Result (Unit {0}) × S) (x : Failure) (g : Group S)
      → y.0 ≡ err x
      → after_handler parse handler source e.id content y g
        ≡ handle_failure parse handler source e.id content x (record g { state = y.1 })
  unfolding after_handler
  after-err content (ok _, s) x g h = absurd cc
  after-err content (err f, s) x g h =
      let q : f ≡ x = cc in
      ap (λ z. handle_failure parse handler source e.id content z (record g { state = s })) q

  -- A message that the handler fails on in every state, with the error that it throws there.
  module _ (m : Message) (fields : List ℕ) (whole : e.fields ≡ some fields)
      (reads : parsed parse handler source (fields_to_object fields data_name) ≡ some m)
      (error : S → Failure) (fails : (s : S) → (handler m s).0 ≡ err (error s)) where
    abbrev text : Option ℕ
    text = fields_to_object fields data_name

    -- What the handler leaves of a state when it fails.
    abbrev left_by : S → S
    left_by s = (handler m s).1

    poisoned :
        (g : Group S)
        → handle_entry parse handler source e g
          ≡ handle_failure parse handler source e.id text
              (error g.state)
              (record g { state = left_by g.state })
    unfolding handle_entry handle_fields handle_message
    poisoned g =
        rw (whole, reads) (after-err text (handler m g.state) (error g.state) g (fails g.state))

    module _ (old : List Pending) (free : NonePass (is_pending e.id) old) where
      left :
          (n : ℕ) (x : Failure) (g : Group S)
          → g.pending ≡ old ++ row e.id n ∷ []
          → leb stream_max_retries n ≡ false
          → handle_failure parse handler source e.id text x g ≡ g
      unfolding handle_failure
      left n x g h few = rw (counted parse handler source e.id old free n g h, few) refl

      given_up :
          (n : ℕ) (x : Failure) (g : Group S)
          → g.pending ≡ old ++ row e.id n ∷ []
          → leb stream_max_retries n ≡ true
          → handle_failure parse handler source e.id text x g
            ≡ acknowledge e.id (bury parse handler source text (handler_failed x) g)
      unfolding handle_failure
      given_up n x g h many = rw (counted parse handler source e.id old free n g h, many) refl

      after_failure : Group S → Group S
      after_failure g = record (deliver e.id g) { state = left_by (deliver e.id g).state }

      -- A delivery that leaves the entry waiting.
      abbrev Waits : ℕ → List DeadLetter → S → Group S → Type 0
      Waits n dead s h =
          (h.pending ≡ old ++ row e.id n ∷ []) × (h.dead_letters ≡ dead) × (h.state ≡ s)

      retried :
          (n : ℕ) (g : Group S)
          → (deliver e.id g).pending ≡ old ++ row e.id n ∷ []
          → leb stream_max_retries n ≡ false
          → Waits n g.dead_letters (left_by g.state) (delivered g)
      unfolding after_failure
      retried n g h few =
          let d = deliver e.id g in
          subst (Waits n g.dead_letters (left_by g.state))
            (sym (poisoned d ∙ left n (error d.state) (after_failure g) h few))
            (h, same_letters e.id g, ap left_by (same_state e.id g))

      -- One that buries it with an error.
      abbrev GivenUp : List DeadLetter → Failure → Group S → Type 0
      GivenUp dead x h =
          (h.pending ≡ old)
          × (h.dead_letters ≡ dead ++ letter parse handler source text (handler_failed x) ∷ [])

      exhausted :
          (n : ℕ) (g : Group S)
          → (deliver e.id g).pending ≡ old ++ row e.id n ∷ []
          → leb stream_max_retries n ≡ true
          → GivenUp g.dead_letters (error g.state) (delivered g)
      unfolding after_failure acknowledge bury
      exhausted n g h many =
          let d = deliver e.id g in
          subst (GivenUp g.dead_letters (error g.state))
            (sym (poisoned d ∙ given_up n (error d.state) (after_failure g) h many))
            (
              acknowledged parse handler source e.id old free n (after_failure g) h,
              rw (same_letters e.id g, same_state e.id g) refl,
            )

      left_pending :
          (n : ℕ) (dead : List DeadLetter) (s : S) (g : Group S)
          → Waits n dead s g
          → leb stream_max_retries (n + 1) ≡ false
          → Waits (n + 1) dead (left_by s) (reclaimed g)
      left_pending n dead s g (h, d, same) few =
          rw (still_pending parse handler source e.id old free n g h) (
            subst (λ x. Waits (n + 1) dead (left_by x) (delivered g)) same
              (subst (λ l. Waits (n + 1) l (left_by g.state) (delivered g)) d
                (retried (n + 1) g (delivered_again parse handler source e.id old free n g h) few)))

      buried_then :
          (n : ℕ) (dead : List DeadLetter) (s : S) (g : Group S)
          → Waits n dead s g
          → leb stream_max_retries (n + 1) ≡ true
          → GivenUp dead (error s) (reclaimed g)
      buried_then n dead s g (h, d, same) many =
          rw (still_pending parse handler source e.id old free n g h) (
            subst (λ x. GivenUp dead (error x) (delivered g)) same
              (subst (λ l. GivenUp l (error g.state) (delivered g)) d
                (exhausted (n + 1) g (delivered_again parse handler source e.id old free n g h)
                  many)))

    -- An entry that is not pending and whose message the handler fails on in every state is delivered
    -- three times. After two deliveries it is pending and the dead-letter stream is as it was; the third
    -- takes it from the pending ones, which are as they were, and adds one dead letter: its text, with the
    -- error that the handler throws in the state that two failures have left.
    pub poison-buried :
        (g : Group S)
        → NonePass (is_pending e.id) g.pending
        → (let h = reclaimed (delivered g) in
            (h.pending ≡ g.pending ++ record { id = e.id; deliveries = 2 } ∷ [])
            × (h.dead_letters ≡ g.dead_letters)
            × ((reclaimed h).pending ≡ g.pending)
            × ((reclaimed h).dead_letters
                ≡ g.dead_letters
                  ++ letter parse handler source text
                      (handler_failed (error (left_by (left_by g.state))))
                    ∷ []))
    poison-buried g free =
        let one =
          retried g.pending free 1 g
            (delivered_first parse handler source e.id g.pending free g refl) refl in
        let two =
          left_pending g.pending free 1 g.dead_letters (left_by g.state) (delivered g) one refl in
        let three =
          buried_then g.pending free 2 g.dead_letters (left_by (left_by g.state))
            (reclaimed (delivered g)) two refl in
        (two.0, two.1, three.0, three.1)
