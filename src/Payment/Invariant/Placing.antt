-- ===== src/Payment/Invariant/Placing.antt =====
-- New orders and new refunds keep the invariant.
use railway_booking_system.Base.{
  ℕ, suc, ◌+◌, ◌≤◌, ◌<◌, ◌≡◌, refl, Bool, false, ◌||◌, not, Option, List, [], ◌∷◌, ◌++◌, arith,
  find_first, any, ltb, ◌==◌, ==_iff, count_where, count_where-none, All, All-zip, All-mono,
  All-append, AllPairs-append, Bool-cases, Option-cases, inl, inr,
}
use railway_booking_system.Errors.{
  Result-cases, bad_request, conflict, bad_request_error, conflict_error, not_found_error,
}
use railway_booking_system.Effects.{Act, or_fail, pure, past_guard, past_lookup, ◌>>=◌, ◌>>◌}
use railway_booking_system.Payment.Rows.{
  created, refund_initiated, initiated, same_refund_status, refund_failed, PaymentOrder, Refund,
  order_created, refund_requested, Published, IdempotencyKey, order_key, refund_key, Response,
  order_response, refund_response, PayDb, Gateway,
}
use railway_booking_system.Payment.Orders.{
  is_order, recorded, with_idempotency, log_audit, write_order, new_order, order_clashes,
  insert_order, place_order, create_payment_order,
}
use railway_booking_system.Payment.Capture.{total_of, set_status}
use railway_booking_system.Payment.Refunds.{
  is_live_refund, is_refundable, new_refund, refund_clashes, insert_refund, request_refund,
  refund_payment, refund_found, refund_order, initiate_refund,
}
use railway_booking_system.Payment.Invariant.{is_paid, is_success, OldEvent, IsSound, PayValid}
use railway_booking_system.Payment.Invariant.Writes.{audit-PayValid}
use railway_booking_system.Payment.Invariant.Captures.{Read, found-Read}
use railway_booking_system.Payment.Invariant.Settling.{set_status-PayValid}

total_of-append :
    (p : Refund → Bool) (rs ss : List Refund)
    → total_of p (rs ++ ss) ≡ total_of p rs + total_of p ss
unfolding total_of
total_of-append p [] ss = omega arith
total_of-append p (r ∷ rs) ss = omega (arith, total_of-append p rs ss)

-- An id that was not given out has no refund and no event.
total_of-new :
    (n : ℕ) (rs : List Refund)
    → All (λ (r : Refund). r.payment_order_id < n) rs
    → total_of (is_live_refund n) rs ≡ 0
unfolding total_of is_live_refund
total_of-new n [] h = refl
total_of-new n (r ∷ rs) h = ground (arith, h.0, total_of-new n rs h.1)

no_success : (n : ℕ) (es : List Published) → All (OldEvent n) es → count_where (is_success n) es ≡ 0
no_success n es h = count_where-none (is_success n) es (
    All-mono _ _ es
      (λ e old. elim (Bool-cases (is_success n e)) [
        | inl c ↦ absurd (omega (arith, old n c))
        | inr c ↦ c
      ])
      h)

insert_order-PayValid :
    {A : Type 0} (o : PaymentOrder) (k : Act PayDb A) (db : PayDb)
    → o.id ≡ db.next_id
    → PayValid db
    → ((db' : PayDb) → PayValid db' → PayValid (k db').1)
    → PayValid ((insert_order o >> k) db).1
unfolding insert_order
insert_order-PayValid o k db here v after =
    elim (Bool-cases (any (order_clashes o.idempotency_key o.gateway_order_id) db.orders)) [
      | inl e ↦ rw (e, e, e, ◌>>=◌) v
      | inr e ↦ rw (e, e, e, ◌>>=◌) (after _ added)
    ]
  where
    added : PayValid (record db { orders = db.orders ++ o ∷ []; next_id = suc db.next_id })
    added = record {
      keys =
          AllPairs-append _ db.orders (o ∷ []) v.keys (tt, tt)
            (All-mono _ _ db.orders (λ p h. ((λ e. omega (arith, here)), tt)) v.fresh);
      fresh =
          All-append _ db.orders (o ∷ []) (All-mono _ _ db.orders (λ p h. omega arith) v.fresh)
            (omega (arith, here), tt);
      known = All-mono _ _ db.refunds (λ r h. omega arith) v.known;
      live = v.live;
      published = All-mono _ _ db.events (λ e h i s. let b = h i s in omega arith) v.published;
      sound = All-append _ db.orders (o ∷ []) v.sound (
        record {
          within = rw here (omega (arith, total_of-new db.next_id db.refunds v.known));
          once = rw here (omega (arith, no_success db.next_id db.events v.published));
        },
        tt,
      );
    }

with_idempotency-PayValid :
    (key : IdempotencyKey) (fn : Act PayDb Response) (db : PayDb)
    → PayValid db
    → PayValid (fn db).1
    → PayValid (with_idempotency key fn db).1
unfolding with_idempotency
with_idempotency-PayValid key fn db v after = elim (Option-cases (recorded key db)) [
  | inr (r, e) ↦ rw (e, ◌>>=◌) v
  | inl e ↦ elim (Result-cases (fn db).0) [
    | inr (f, c) ↦ rw (e, c, ◌>>=◌) after
    | inl (response, c) ↦ elim (Option-cases (recorded key (fn db).1)) [
      | inr (r, d) ↦ rw (e, c, d, ◌>>=◌) after
      | inl d ↦
          rw (e, c, d, ◌>>=◌)
            (record {
              keys = after.keys;
              fresh = after.fresh;
              known = after.known;
              live = after.live;
              published = after.published;
              sound = after.sound;
            })
    ]
  ]
]

module _ {Body Payload : Type 0} (gateway : Gateway Body Payload) where
  place_order-PayValid :
      (booking_id amount user_id key : ℕ) (db : PayDb)
      → PayValid db
      → PayValid (place_order gateway booking_id amount user_id key db).1
  unfolding place_order
  place_order-PayValid booking_id amount user_id key db v =
      elim (Result-cases (gateway.create_order amount booking_id)) [
        | inr (f, e) ↦ rw (e, ◌>>=◌) v
        | inl (gid, e) ↦
            rw (e, ◌>>=◌)
              (insert_order-PayValid (new_order db.next_id booking_id user_id amount key gid)
                (log_audit db.next_id order_created
                  >> pure (
                      order_response (record {
                        payment_order_id = db.next_id;
                        gateway_order_id = gid;
                        amount = amount;
                        status = created;
                      })))
                db (unfold new_order in refl) v
                (λ db' w. audit-PayValid db.next_id order_created db' w))
      ]

  -- Creating a payment order keeps the invariant.
  pub create_payment_order-PayValid :
      (booking_id amount user_id key : ℕ) (db : PayDb)
      → PayValid db
      → PayValid (create_payment_order gateway booking_id amount user_id key db).1
  unfolding create_payment_order
  create_payment_order-PayValid booking_id amount user_id key db v =
      past_guard PayValid (booking_id == 0 || amount == 0 || user_id == 0 || key == 0)
        (bad_request_error bad_request)
        (with_idempotency (order_key key) (place_order gateway booking_id amount user_id key)) db v
        λ _.
          with_idempotency-PayValid (order_key key)
            (place_order gateway booking_id amount user_id key) db v
            (place_order-PayValid booking_id amount user_id key db v)

  -- The refund is covered by what is left of the order.
  module _ (o : PaymentOrder) (amount : ℕ) (db : PayDb) (r : Read o db)
      (covered : total_of (is_live_refund o.id) db.refunds + amount ≤ o.amount) where
    insert_refund-PayValid :
        {A : Type 0} (s : Refund) (k : Act PayDb A)
        → s.amount ≡ amount
        → s.payment_order_id ≡ o.id
        → same_refund_status s.status refund_failed ≡ false
        → PayValid db
        → ((db' : PayDb) → PayValid db' → PayValid (k db').1)
        → PayValid ((insert_refund s >> k) db).1
    unfolding insert_refund
    insert_refund-PayValid s k same home alive v after =
        elim (Bool-cases (any (refund_clashes s.idempotency_key s.gateway_refund_id) db.refunds)) [
          | inl e ↦ rw (e, e, e, ◌>>=◌) v
          | inr e ↦ rw (e, e, e, ◌>>=◌) (after _ added)
        ]
      where
        more :
            (p : PaymentOrder)
            → (p.id ≡ o.id → p ≡ o)
            → total_of (is_live_refund p.id) db.refunds ≤ p.amount
            → total_of (is_live_refund p.id) (db.refunds ++ s ∷ []) ≤ p.amount
        more p only old = elim (Bool-cases (p.id == o.id)) [
          | inl e ↦
              let eq : p ≡ o = only ((==_iff _ _).0 e) in
              rw eq (
                unfold total_of is_live_refund in
                ground (
                  arith,
                  covered,
                  same,
                  home,
                  alive,
                  total_of-append (is_live_refund o.id) db.refunds (s ∷ []),
                ))
          | inr e ↦
              unfold total_of is_live_refund in
              ground
                (arith, old, e, home, total_of-append (is_live_refund p.id) db.refunds (s ∷ []))
        ]

        added : PayValid (record db { refunds = db.refunds ++ s ∷ []; next_id = suc db.next_id })
        added = record {
          keys = v.keys;
          fresh = All-mono _ _ db.orders (λ p h. omega arith) v.fresh;
          known =
              All-append _ db.refunds (s ∷ [])
                (All-mono _ _ db.refunds (λ t h. omega arith) v.known)
                (omega (arith, home, r.old), tt);
          live = All-append _ db.refunds (s ∷ []) v.live (alive, tt);
          published = All-mono _ _ db.events (λ e h i q. let b = h i q in omega arith) v.published;
          sound =
              All-zip (λ (p : PaymentOrder). p.id ≡ o.id → p ≡ o) (IsSound db.refunds db.events) _
                db.orders
                (λ p only old. record { within = more p only old.within; once = old.once })
                r.current v.sound;
        }

    request_refund-PayValid :
        (payment_id : ℕ) (reason : Option ℕ) (key : ℕ)
        → PayValid db
        → PayValid (request_refund gateway o payment_id amount reason key db).1
    unfolding request_refund write_order
    request_refund-PayValid payment_id reason key v =
        elim (Result-cases (gateway.initiate_refund payment_id amount)) [
          | inr (f, e) ↦ rw (e, ◌>>=◌) v
          | inl (gid, e) ↦
              rw (e, ◌>>=◌)
                (insert_refund-PayValid (new_refund db.next_id o.id amount reason key gid)
                  (write_order o.id (set_status refund_initiated)
                    >> log_audit o.id refund_requested
                    >> pure (
                        refund_response (record {
                          refund_id = db.next_id;
                          payment_order_id = o.id;
                          status = initiated;
                          amount = amount;
                          gateway_refund_id = gid;
                        })))
                  (unfold new_refund in refl) (unfold new_refund in refl)
                  (unfold new_refund same_refund_status in refl) v
                  (λ db' w.
                    audit-PayValid o.id refund_requested _
                      (set_status-PayValid o.id refund_initiated db' (unfold is_paid in refl) w)))
        ]

  refund_order-PayValid :
      (payment_order_id amount : ℕ) (reason : Option ℕ) (key : ℕ) (db : PayDb)
      → PayValid db
      → PayValid (refund_order gateway payment_order_id amount reason key db).1
  unfolding refund_order refund_found refund_payment
  refund_order-PayValid payment_order_id amount reason key db v =
      past_lookup PayValid (find_first (is_order payment_order_id) db.orders) not_found_error
        (λ o. refund_found gateway o amount reason key) db v
        λ o a.
          past_guard PayValid (not (is_refundable o)) (conflict_error conflict)
            (or_fail o.gateway_payment_id (conflict_error conflict) >>= λ payment_id.
              refund_payment gateway o payment_id amount reason key)
            db v
            λ _.
              past_lookup PayValid o.gateway_payment_id (conflict_error conflict)
                (λ payment_id. refund_payment gateway o payment_id amount reason key) db v
                λ payment_id _.
                  past_guard PayValid
                    (ltb o.amount (total_of (is_live_refund o.id) db.refunds + amount))
                    (bad_request_error bad_request)
                    (request_refund gateway o payment_id amount reason key) db v
                    λ d.
                      request_refund-PayValid o amount db (found-Read _ db o a v)
                        (ground (arith, d)) payment_id reason key v

  -- Starting a refund keeps the invariant.
  pub initiate_refund-PayValid :
      (payment_order_id amount : ℕ) (reason : Option ℕ) (key : ℕ) (db : PayDb)
      → PayValid db
      → PayValid (initiate_refund gateway payment_order_id amount reason key db).1
  unfolding initiate_refund
  initiate_refund-PayValid payment_order_id amount reason key db v =
      past_guard PayValid (payment_order_id == 0 || amount == 0 || key == 0)
        (bad_request_error bad_request)
        (with_idempotency (refund_key key)
          (refund_order gateway payment_order_id amount reason key))
        db v
        λ _.
          with_idempotency-PayValid (refund_key key)
            (refund_order gateway payment_order_id amount reason key) db v
            (refund_order-PayValid payment_order_id amount reason key db v)
