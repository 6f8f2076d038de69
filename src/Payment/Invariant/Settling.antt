-- ===== src/Payment/Invariant/Settling.antt =====
-- A refund that the gateway reports as done keeps the invariant, and so does every webhook.
use railway_booking_system.Base.{
  ℕ, ◌≡◌, refl, Bool, true, false, ◌||◌, Option, none, some, List, [], ◌∷◌, arith, find_first, leb,
  ◌==◌, update_where, All, All-all, All-mono, All-update_where, Bool-cases, Option-cases, inl, inr,
  if◌then◌else◌,
}
use railway_booking_system.Errors.{Result-cases, bad_request, bad_request_error, not_found_error}
use railway_booking_system.Effects.{gets, or_fail, past_guard, past_lookup, pure, ◌>>=◌, ◌>>◌}
use railway_booking_system.Payment.Rows.{
  OrderStatus, created, captured, refunded, partially_refunded, refund_failed, same_order_status,
  same_refund_status, PaymentOrder, Refund, WebhookEvent, payment_captured, payment_authorized,
  payment_failed_event, refund_processed, refund_created, other_event,
  signature_verification_failed, webhook, signature_verified, signature_rejected,
  captured_via_verify, Published, PayDb, Gateway,
}
use railway_booking_system.Payment.Orders.{is_order, log_audit, publish, write_order}
use railway_booking_system.Payment.Capture.{
  PaymentEntity, WebhookPayload, total_of, is_refund, complete_refund, counts_as_done, set_status,
  settle_refund, handle_refund_processed, handle_event, handle_entity, handle_webhook, capture,
  success_of, reject_signature, capture_verified, verify_signature, verify_order,
  verify_and_capture_payment,
}
use railway_booking_system.Payment.Refunds.{is_live_refund}
use railway_booking_system.Payment.Invariant.{is_paid, IsSound, PayValid}
use railway_booking_system.Payment.Invariant.Writes.{
  Advances, write-PayValid, audit-PayValid, failure-PayValid,
}
use railway_booking_system.Payment.Invariant.Captures.{
  Read, found-Read, created-unpaid, captured_db-PayValid, paid_write-PayValid,
  failed_write-PayValid, handle_payment_captured-PayValid, handle_payment_failed-PayValid,
}

-- A total does not see an update that keeps what is counted and how much it is.
total_of-update_where :
    (p q : Refund → Bool) (f : Refund → Refund) (rs : List Refund)
    → All (λ (r : Refund). (p (f r) ≡ p r) × ((f r).amount ≡ r.amount)) rs
    → total_of p (update_where q f rs) ≡ total_of p rs
unfolding total_of
total_of-update_where p q f [] h = refl
total_of-update_where p q f (r ∷ rs) h = elim (Bool-cases (q r)) [
  | inl e ↦ rw (e, h.0.0, h.0.1, total_of-update_where p q f rs h.1) refl
  | inr e ↦ rw (e, total_of-update_where p q f rs h.1) refl
]

live_kept :
    (k : ℕ) (r : Refund)
    → same_refund_status r.status refund_failed ≡ false
    → (is_live_refund k (complete_refund r) ≡ is_live_refund k r)
      × ((complete_refund r).amount ≡ r.amount)
unfolding is_live_refund complete_refund same_refund_status
live_kept k r h = (rw h refl, refl)

done_is_paid : (b : Bool) → is_paid (if b then refunded else partially_refunded) ≡ true
unfolding is_paid
done_is_paid true = refl
done_is_paid false = refl

completed_db : ℕ → PayDb → PayDb
completed_db id db = record db { refunds = update_where (is_refund id) complete_refund db.refunds }

completed-PayValid : (id : ℕ) (db : PayDb) → PayValid db → PayValid (completed_db id db)
unfolding completed_db complete_refund
completed-PayValid id db v = record {
  keys = v.keys;
  fresh = v.fresh;
  known =
      All-update_where _ _ (is_refund id) complete_refund db.refunds (λ r h. ground (arith, h))
        v.known;
  live =
      All-update_where _ _ (is_refund id) complete_refund db.refunds
        (λ r h. elim (Bool-cases (is_refund id r)) [
          | inl e ↦ rw e (unfold same_refund_status in refl)
          | inr e ↦ rw e h
        ])
        v.live;
  published = v.published;
  sound =
      All-mono (IsSound db.refunds db.events) _ db.orders
        (λ o s. record { within = rw (same_total o.id) s.within; once = s.once }) v.sound;
}
  where
    same_total :
        (k : ℕ)
        → total_of (is_live_refund k) (update_where (is_refund id) complete_refund db.refunds)
          ≡ total_of (is_live_refund k) db.refunds
    same_total k =
        total_of-update_where (is_live_refund k) (is_refund id) complete_refund db.refunds
          (All-mono _ _ db.refunds (live_kept k) v.live)

set_status-Advances : (st : OrderStatus) → Advances (set_status st)
unfolding set_status
set_status-Advances st = record { same_id = λ o. refl; same_amount = λ o. refl }

-- A status that says that money was taken.
pub set_status-PayValid :
    (id : ℕ) (st : OrderStatus) (db : PayDb)
    → is_paid st ≡ true
    → PayValid db
    → PayValid (record db { orders = update_where (is_order id) (set_status st) db.orders })
unfolding set_status
set_status-PayValid id st db paid v =
    write-PayValid id (set_status st) db (set_status-Advances st)
      (All-all _ db.orders (λ o e h. paid)) v

pub handle_refund_processed-PayValid :
    (o : PaymentOrder) (refund : Option ℕ) (db : PayDb)
    → PayValid db
    → PayValid (handle_refund_processed o refund db).1
unfolding handle_refund_processed settle_refund write_order completed_db
handle_refund_processed-PayValid o none db v = v
handle_refund_processed-PayValid o (some id) db v =
    elim (Option-cases (find_first (λ (r : Refund). r.gateway_refund_id == id) db.refunds)) [
      | inl e ↦ rw e v
      | inr (r, e) ↦
          let st =
            if leb o.amount (total_of (counts_as_done o.id r.id) (completed_db r.id db).refunds)
            then refunded
            else partially_refunded in
          rw e (
            set_status-PayValid o.id st (completed_db r.id db) (done_is_paid (leb o.amount _))
              (completed-PayValid r.id db v))
    ]

module _ (accepts : Published → Bool) (o : PaymentOrder) (entity : PaymentEntity)
    (refund : Option ℕ) where
  handle_event-PayValid :
      (event : WebhookEvent) (db : PayDb)
      → Read o db
      → PayValid db
      → PayValid (handle_event accepts event o entity refund db).1
  unfolding handle_event
  handle_event-PayValid payment_captured db r v =
      handle_payment_captured-PayValid accepts o entity db r v
  handle_event-PayValid payment_authorized db r v =
      handle_payment_captured-PayValid accepts o entity db r v
  handle_event-PayValid payment_failed_event db r v =
      handle_payment_failed-PayValid accepts o entity db r v
  handle_event-PayValid refund_processed db r v = handle_refund_processed-PayValid o refund db v
  handle_event-PayValid refund_created db r v = handle_refund_processed-PayValid o refund db v
  handle_event-PayValid (other_event n) db r v = v

module _ {Body : Type 0} (gateway : Gateway Body WebhookPayload) where
  handle_entity-PayValid :
      (payload : WebhookPayload) (entity : PaymentEntity) (db : PayDb)
      → PayValid db
      → PayValid (handle_entity gateway payload entity db).1
  unfolding handle_entity
  handle_entity-PayValid payload entity db v =
      elim (Option-cases
        (find_first (λ (o : PaymentOrder). o.gateway_order_id == entity.order_id) db.orders)) [
          | inl e ↦ rw (e, ◌>>=◌) v
          | inr (o, e) ↦
              let read = found-Read _ db o e v in
              rw (e, ◌>>=◌)
                (handle_event-PayValid gateway.accepts o entity payload.refund payload.event
                  (log_audit o.id (webhook payload.event) db).1
                  (record { current = read.current; old = read.old })
                  (audit-PayValid o.id (webhook payload.event) db v))
        ]

  -- A webhook keeps the invariant, whatever it says and whether or not it is signed.
  pub handle_webhook-PayValid :
      (body : Body) (signature : ℕ) (db : PayDb)
      → PayValid db
      → PayValid (handle_webhook gateway body signature db).1
  unfolding handle_webhook
  handle_webhook-PayValid body signature db v =
      elim (Bool-cases (gateway.valid_webhook body signature)) [
        | inr e ↦ rw (e, handle_webhook) v
        | inl e ↦ elim (Result-cases (gateway.parse body)) [
          | inr (f, c) ↦ rw (e, c, handle_webhook) v
          | inl (payload, c) ↦ elim (Option-cases payload.payment) [
            | inl d ↦ rw (e, c, d, handle_webhook) v
            | inr (entity, d) ↦
                rw (e, c, d, handle_webhook) (handle_entity-PayValid payload entity db v)
          ]
        ]
      ]

  reject_signature-PayValid :
      (o : PaymentOrder) (db : PayDb)
      → Read o db
      → is_paid o.status ≡ false
      → PayValid db
      → PayValid (reject_signature gateway o db).1
  unfolding reject_signature write_order
  reject_signature-PayValid o db r unpaid v =
      failure-PayValid gateway.accepts o.id o.booking_id signature_verification_failed _ (
        failed_write-PayValid o _ db (record { same_id = λ o. refl; same_amount = λ o. refl }) r
          unpaid v)

  capture_verified-PayValid :
      (o : PaymentOrder) (payment_id signature : ℕ) (db : PayDb)
      → Read o db
      → is_paid o.status ≡ false
      → PayValid db
      → PayValid (capture_verified gateway o payment_id signature db).1
  unfolding capture_verified
  capture_verified-PayValid o payment_id signature db r unpaid v =
      paid_write-PayValid o payment_id (capture payment_id (some signature))
        (log_audit o.id captured_via_verify
          >> publish gateway.accepts (success_of o payment_id)
          >> pure (some payment_id))
        db v
        (captured_db-PayValid gateway.accepts o payment_id (some signature)
          (log_audit o.id captured_via_verify db).1 (record { current = r.current; old = r.old })
          unpaid (audit-PayValid o.id captured_via_verify db v))

  verify_order-PayValid :
      (o : PaymentOrder) (payment_id signature : ℕ) (db : PayDb)
      → Read o db
      → PayValid db
      → PayValid (verify_order gateway o payment_id signature db).1
  unfolding verify_order verify_signature
  verify_order-PayValid o payment_id signature db r v =
      elim (Bool-cases (same_order_status o.status captured)) [
        | inl a ↦ rw a v
        | inr a ↦ elim (Bool-cases (same_order_status o.status created)) [
          | inr b ↦ rw (a, b) v
          | inl b ↦
              elim (Bool-cases (gateway.valid_payment o.gateway_order_id payment_id signature)) [
                | inl c ↦
                    rw (a, b, c)
                      (capture_verified-PayValid o payment_id signature
                        (log_audit o.id signature_verified db).1
                        (record { current = r.current; old = r.old }) (created-unpaid o.status b)
                        (audit-PayValid o.id signature_verified db v))
                | inr c ↦
                    rw (a, b, c)
                      (reject_signature-PayValid o (log_audit o.id signature_rejected db).1
                        (record { current = r.current; old = r.old }) (created-unpaid o.status b)
                        (audit-PayValid o.id signature_rejected db v))
              ]
        ]
      ]

  -- So does the verification by the client, on every path.
  pub verify_and_capture_payment-PayValid :
      (payment_order_id payment_id signature : ℕ) (db : PayDb)
      → PayValid db
      → PayValid (verify_and_capture_payment gateway payment_order_id payment_id signature db).1
  unfolding verify_and_capture_payment
  verify_and_capture_payment-PayValid payment_order_id payment_id signature db v =
      past_guard PayValid (payment_order_id == 0 || payment_id == 0 || signature == 0)
        (bad_request_error bad_request)
        (gets (λ db. find_first (is_order payment_order_id) db.orders) >>= λ found.
          or_fail found not_found_error >>= λ o. verify_order gateway o payment_id signature)
        db v
        λ _.
          past_lookup PayValid (find_first (is_order payment_order_id) db.orders) not_found_error
            (λ o. verify_order gateway o payment_id signature) db v
            λ o b. verify_order-PayValid o payment_id signature db (found-Read _ db o b v) v
