-- ===== src/Payment/Replay.antt =====
-- Requests to payment-service that are repeated with the same idempotency key.
use railway_booking_system.Base.{
  ℕ, ◌≡◌, refl, sym, ◌∙◌, Bool, true, false, ◌||◌, none, some, [], ◌∷◌, ◌++◌, find_first-append,
  ◌==◌, ==_refl, Option-cases, inl, inr, ap,
}
use railway_booking_system.Errors.{
  Failure, database, unique_violation, Result, Result-cases, ok, err, bad_request,
  bad_request_error,
}
use railway_booking_system.Effects.{Act, fail_if, ◌>>=◌, ◌>>◌}
use railway_booking_system.Payment.Rows.{
  IdempotencyKey, order_key, refund_key, Response, Record, PayDb, Gateway,
}
use railway_booking_system.Payment.Orders.{
  same_key, recorded, with_idempotency, place_order, create_payment_order,
}

same_key_refl : (k : IdempotencyKey) → same_key k k ≡ true
unfolding same_key
same_key_refl (order_key a) = ==_refl a
same_key_refl (refund_key a) = ==_refl a

-- The key is on record with this response.
abbrev Remembers : IdempotencyKey → Response → PayDb → Type 0
Remembers key r db = (s : Record) × (recorded key db ≡ some s) × (s.response ≡ r)

module _ (key : IdempotencyKey) (fn : Act PayDb Response) (db : PayDb) where
  with_record : Response → PayDb → PayDb
  with_record r db' = record db' {
    records = db'.records ++ record { key = key; response = r } ∷ [];
  }

  seen : (s : Record) → recorded key db ≡ some s → with_idempotency key fn db ≡ (ok s.response, db)
  unfolding with_idempotency
  seen s e = rw (e, ◌>>=◌) refl

  unseen_failed :
      (f : Failure)
      → recorded key db ≡ none
      → (fn db).0 ≡ err f
      → with_idempotency key fn db ≡ (err f, (fn db).1)
  unfolding with_idempotency
  unseen_failed f e c = rw (e, c, ◌>>=◌) refl

  unseen_taken :
      (r : Response) (s : Record)
      → recorded key db ≡ none
      → (fn db).0 ≡ ok r
      → recorded key (fn db).1 ≡ some s
      → with_idempotency key fn db ≡ (err (database unique_violation), (fn db).1)
  unfolding with_idempotency
  unseen_taken r s e c d = rw (e, c, d, ◌>>=◌) refl

  unseen_done :
      (r : Response)
      → recorded key db ≡ none
      → (fn db).0 ≡ ok r
      → recorded key (fn db).1 ≡ none
      → with_idempotency key fn db ≡ (ok r, with_record r (fn db).1)
  unfolding with_idempotency with_record
  unseen_done r e c d = rw (e, c, d, ◌>>=◌) refl

  same_ok :
      (x : Result Response × PayDb) (r : Response)
      → with_idempotency key fn db ≡ x
      → (with_idempotency key fn db).0 ≡ ok r
      → x.0 ≡ ok r
  same_ok x r e h = ap (λ (y : Result Response × PayDb). y.0) (sym e) ∙ h

  record_found :
      (r : Response) (db' : PayDb)
      → recorded key db' ≡ none
      → recorded key (with_record r db') ≡ some (record { key = key; response = r })
  unfolding recorded with_record
  record_found r db' h =
      find_first-append (λ (s : Record). same_key key s.key) db'.records
        (record { key = key; response = r }) h (same_key_refl key)

  remembered :
      (r : Response)
      → (with_idempotency key fn db).0 ≡ ok r
      → Remembers key r (with_idempotency key fn db).1
  remembered r h = elim (Option-cases (recorded key db)) [
    | inr (s, e) ↦
        let same : ok s.response ≡ ok r = same_ok (ok s.response, db) r (seen s e) h in
        rw (seen s e) (s, e, cc)
    | inl e ↦ elim (Result-cases (fn db).0) [
      | inr (f, c) ↦
          let same : err f ≡ ok r = same_ok (err f, (fn db).1) r (unseen_failed f e c) h in
          absurd cc
      | inl (r', c) ↦ elim (Option-cases (recorded key (fn db).1)) [
        | inr (s, d) ↦
            let same : err (database unique_violation) ≡ ok r =
              same_ok (err (database unique_violation), (fn db).1) r (unseen_taken r' s e c d) h in
            absurd cc
        | inl d ↦
            let same : ok r' ≡ ok r =
              same_ok (ok r', with_record r' (fn db).1) r (unseen_done r' e c d) h in
            rw (unseen_done r' e c d)
              (record { key = key; response = r' }, record_found r' (fn db).1 d, cc)
      ]
    ]
  ]

from_record :
    (key : IdempotencyKey) (r : Response) (fn : Act PayDb Response) (db : PayDb)
    → Remembers key r db
    → with_idempotency key fn db ≡ (ok r, db)
from_record key r fn db (s, e, h) = seen key fn db s e ∙ ap (λ (q : Response). (ok q, db)) h

-- The same behind the check of the arguments.
guarded_replay :
    (missing : Bool) (key : IdempotencyKey) (fn fn' : Act PayDb Response) (r : Response)
    (db : PayDb)
    → ((fail_if missing (bad_request_error bad_request) >> with_idempotency key fn) db).0 ≡ ok r
    → (let db' =
          ((fail_if missing (bad_request_error bad_request) >> with_idempotency key fn) db).1 in
        (fail_if missing (bad_request_error bad_request) >> with_idempotency key fn') db'
        ≡ (ok r, db'))
guarded_replay true key fn fn' r db h = absurd cc
guarded_replay false key fn fn' r db h = from_record key r fn' _ (remembered key fn db r h)

module _ {Body Payload : Type 0} (gateway gateway' : Gateway Body Payload) where
  -- A payment order that was created is not created again: the same request is answered as before from
  -- the record, without the gateway and without a write.
  pub create_payment_order-replay :
      (booking_id amount user_id key : ℕ) (r : Response) (db : PayDb)
      → (create_payment_order gateway booking_id amount user_id key db).0 ≡ ok r
      → (let db' = (create_payment_order gateway booking_id amount user_id key db).1 in
          create_payment_order gateway' booking_id amount user_id key db' ≡ (ok r, db'))
  unfolding create_payment_order
  create_payment_order-replay booking_id amount user_id key r db h =
      guarded_replay (booking_id == 0 || amount == 0 || user_id == 0 || key == 0) (order_key key)
        (place_order gateway booking_id amount user_id key)
        (place_order gateway' booking_id amount user_id key) r db h
