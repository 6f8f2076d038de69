-- ===== src/Payment/Invariant/Captures.antt =====
-- The webhook's handlers and the verification keep the invariant of the tables.
use railway_booking_system.Base.{
  ℕ, ◌+◌, ◌≤◌, ◌<◌, ◌≡◌, refl, Bool, true, false, Option, some, List, [], ◌∷◌, ◌++◌, arith,
  find_first, any, ◌==◌, ==_iff, update_where, update_row, count_where, count_where-append, All,
  All-mono, All-append, All-update_where, All-zip, Bool-cases, ◌⊎◌, inl, inr, if◌then◌else◌, ap,
  ◌∙◌,
}
use railway_booking_system.Errors.{ok, err, database, unique_violation}
use railway_booking_system.Effects.{Act, pure, ◌>>=◌, ◌>>◌}
use railway_booking_system.Payment.Rows.{
  OrderStatus, created, captured, failed, refund_initiated, partially_refunded, refunded,
  same_order_status, PaymentOrder, Published, payment_failure, PayDb,
}
use railway_booking_system.Payment.Orders.{is_order, publish, write_order}
use railway_booking_system.Payment.Capture.{
  PaymentEntity, was_captured, was_failed, claims_payment, write_paid_order, capture, success_of,
  handle_payment_captured, failure_reason, fail_payment, handle_payment_failed,
}
use railway_booking_system.Payment.Invariant.{is_paid, is_success, IsSound, PayValid}
use railway_booking_system.Payment.Invariant.Writes.{
  Current, All-found, found-Current, Advances, StaysPaid, write-PayValid, failure-PayValid,
}

-- The order was read from the tables.
pub record Read (o : PaymentOrder) (db : PayDb) : Type 0 where
  pub current : Current o db
  pub old : o.id < db.next_id

pub found-Read :
    (q : PaymentOrder → Bool) (db : PayDb) (o : PaymentOrder)
    → find_first q db.orders ≡ some o
    → PayValid db
    → Read o db
found-Read q db o h v = record {
  current = found-Current q db o h v;
  old = All-found _ q db.orders o h v.fresh;
}

pub created-unpaid : (st : OrderStatus) → same_order_status st created ≡ true → is_paid st ≡ false
unfolding same_order_status is_paid
created-unpaid created h = refl
created-unpaid captured h = absurd cc
created-unpaid failed h = refl
created-unpaid refund_initiated h = absurd cc
created-unpaid partially_refunded h = absurd cc
created-unpaid refunded h = absurd cc

-- An order that is not paid stays so trivially.
unpaid_StaysPaid :
    (f : PaymentOrder → PaymentOrder) (o : PaymentOrder) (db : PayDb)
    → Read o db
    → is_paid o.status ≡ false
    → All (StaysPaid o.id f) db.orders
unpaid_StaysPaid f o db r unpaid =
    All-mono _ _ db.orders
      (λ p same e paid. absurd (let eq : p ≡ o = same ((==_iff _ _).0 e) in cc (eq, unpaid, paid)))
      r.current

capture-Advances : (payment_id : ℕ) (s : Option ℕ) → Advances (capture payment_id s)
unfolding capture
capture-Advances payment_id s = record { same_id = λ o. refl; same_amount = λ o. refl }

success-count :
    (k : ℕ) (o : PaymentOrder) (payment_id : ℕ) (es : List Published)
    → count_where (is_success k) (es ++ success_of o payment_id ∷ [])
      ≡ count_where (is_success k) es + (if o.id == k then 1 else 0)
unfolding is_success success_of
success-count k o payment_id es =
    omega (arith, count_where-append (is_success k) es (success_of o payment_id ∷ []))

module _ (accepts : Published → Bool) (o : PaymentOrder) (payment_id : ℕ)
    (signature : Option ℕ) where
  -- The two writes of a capture.
  abbrev pub captured_db : PayDb → PayDb
  captured_db db =
      (publish accepts (success_of o payment_id) (record db {
        orders = update_where (is_order o.id) (capture payment_id signature) db.orders;
      })).1

  success_row :
      (db : PayDb) (p : PaymentOrder)
      → (p.id ≡ o.id → p ≡ o)
      → is_paid o.status ≡ false
      → IsSound db.refunds db.events p
      → IsSound db.refunds
          (db.events ++ success_of o payment_id ∷ [])
          (update_row (is_order o.id) (capture payment_id signature) p)
  unfolding is_order success_of
  success_row db p same unpaid s = elim (Bool-cases (p.id == o.id)) [
    | inl e ↦
        let eq : p ≡ o = same ((==_iff _ _).0 e) in
        let unpaid_row : is_paid p.status ≡ false =
          ap (λ (q : PaymentOrder). is_paid q.status) eq ∙ unpaid in
        let none_yet : count_where (is_success p.id) db.events ≤ 0 = (rw unpaid_row at s.once) in
        rw e (record {
          within = unfold capture in s.within;
          once =
              unfold capture is_paid in
              ground (arith, e, none_yet, success-count p.id o payment_id db.events);
        })
    | inr e ↦
        let same_count : count_where (is_success p.id) (db.events ++ success_of o payment_id ∷ [])
            ≡ count_where (is_success p.id) db.events =
          ground (arith, e, success-count p.id o payment_id db.events) in
        rw e (record { within = s.within; once = rw same_count s.once })
  ]

  pub captured_db-PayValid :
      (db : PayDb) → Read o db → is_paid o.status ≡ false → PayValid db → PayValid (captured_db db)
  unfolding publish
  captured_db-PayValid db r unpaid v =
      let written =
        write-PayValid o.id (capture payment_id signature) db
          (capture-Advances payment_id signature)
          (unpaid_StaysPaid (capture payment_id signature) o db r unpaid) v in
      elim (Bool-cases (accepts (success_of o payment_id))) [
        | inr e ↦ rw e written
        | inl e ↦ rw e (record {
          keys = written.keys;
          fresh = written.fresh;
          known = written.known;
          live = written.live;
          published =
              All-append _ db.events (success_of o payment_id ∷ []) written.published
                ((λ i h. unfold success_of is_success in ground (arith, h, r.old)), tt);
          sound =
              All-update_where
                (λ (p : PaymentOrder). (p.id ≡ o.id → p ≡ o) × IsSound db.refunds db.events p) _
                (is_order o.id) (capture payment_id signature) db.orders
                (λ p h. success_row db p h.0 unpaid h.1)
                (All-zip _ _ _ db.orders (λ p c s. (c, s)) r.current v.sound);
        })
      ]

-- A write of the payment's id fails where another order has it.
paid_write-cases :
    (o : PaymentOrder) (payment_id : ℕ) (f : PaymentOrder → PaymentOrder) (db : PayDb)
    → (write_paid_order o.id payment_id f db ≡ (err (database unique_violation), db))
      ⊎ (write_paid_order o.id payment_id f db
          ≡ (ok tt, record db { orders = update_where (is_order o.id) f db.orders }))
unfolding write_paid_order write_order
paid_write-cases o payment_id f db =
    elim (Bool-cases (any (claims_payment o.id payment_id) db.orders)) [
      | inl e ↦ inl (rw (e, e, ◌>>=◌) refl)
      | inr e ↦ inr (rw (e, e, ◌>>=◌) refl)
    ]

pub paid_write-PayValid :
    {A : Type 0} (o : PaymentOrder) (payment_id : ℕ) (f : PaymentOrder → PaymentOrder)
    (k : Act PayDb A) (db : PayDb)
    → PayValid db
    → PayValid (k (record db { orders = update_where (is_order o.id) f db.orders })).1
    → PayValid ((write_paid_order o.id payment_id f >> k) db).1
paid_write-PayValid o payment_id f k db v w = elim (paid_write-cases o payment_id f db) [
  | inl e ↦ rw (e, e, ◌>>=◌) v
  | inr e ↦ rw (e, e, ◌>>=◌) w
]

pub handle_payment_captured-PayValid :
    (accepts : Published → Bool) (o : PaymentOrder) (entity : PaymentEntity) (db : PayDb)
    → Read o db
    → PayValid db
    → PayValid (handle_payment_captured accepts o entity db).1
unfolding handle_payment_captured write_paid_order
handle_payment_captured-PayValid accepts o entity db r v =
    elim (Bool-cases (same_order_status o.status captured)) [
      | inl a ↦ rw (a, handle_payment_captured) v
      | inr a ↦ elim (Bool-cases (same_order_status o.status created)) [
        | inr b ↦ rw (a, b, handle_payment_captured) v
        | inl b ↦
            rw (a, b, handle_payment_captured)
              (paid_write-PayValid o entity.id (capture entity.id entity.auth_code)
                (publish accepts (success_of o entity.id) >> pure (was_captured o.id)) db v
                (captured_db-PayValid accepts o entity.id entity.auth_code db r
                  (created-unpaid o.status b) v))
      ]
    ]

pub failed_write-PayValid :
    (o : PaymentOrder) (f : PaymentOrder → PaymentOrder) (db : PayDb)
    → Advances f
    → Read o db
    → is_paid o.status ≡ false
    → PayValid db
    → PayValid (record db { orders = update_where (is_order o.id) f db.orders })
failed_write-PayValid o f db a r unpaid v =
    write-PayValid o.id f db a (unpaid_StaysPaid f o db r unpaid) v

pub handle_payment_failed-PayValid :
    (accepts : Published → Bool) (o : PaymentOrder) (entity : PaymentEntity) (db : PayDb)
    → Read o db
    → PayValid db
    → PayValid (handle_payment_failed accepts o entity db).1
unfolding handle_payment_failed write_paid_order
handle_payment_failed-PayValid accepts o entity db r v =
    elim (Bool-cases (same_order_status o.status failed)) [
      | inl a ↦ rw (a, handle_payment_failed) v
      | inr a ↦ elim (Bool-cases (same_order_status o.status created)) [
        | inr b ↦ rw (a, b, handle_payment_failed) v
        | inl b ↦
            let f = fail_payment entity.id (failure_reason entity) in
            rw (a, b, handle_payment_failed)
              (paid_write-PayValid o entity.id f
                (publish accepts (payment_failure o.id o.booking_id (failure_reason entity))
                  >> pure (was_failed o.id))
                db v
                (failure-PayValid accepts o.id o.booking_id (failure_reason entity)
                  (record db { orders = update_where (is_order o.id) f db.orders })
                  (failed_write-PayValid o f db
                    (unfold fail_payment in record { same_id = λ o. refl; same_amount = λ o. refl })
                    r (created-unpaid o.status b) v)))
      ]
    ]
