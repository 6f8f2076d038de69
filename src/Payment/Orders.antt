-- ===== src/Payment/Orders.antt =====
-- `withIdempotency` and `createPaymentOrder` of payment-service/src/services/payment.service.js. A
-- request runs without others in between.
use railway_booking_system.Base.{
  ℕ, suc, Bool, false, ◌||◌, Option, none, some, [], ◌∷◌, ◌++◌, find_first, any, update_where, ◌==◌,
  if◌then◌else◌,
}
use railway_booking_system.Errors.{bad_request, database, unique_violation, bad_request_error}
use railway_booking_system.Effects.{Act, pure, gets, fail, fail_if, modify, answer, ◌>>=◌, ◌>>◌}
use railway_booking_system.Payment.Rows.{
  created, PaymentOrder, order_created, AuditAction, Published, IdempotencyKey, order_key,
  refund_key, Response, order_response, Record, PayDb, Gateway,
}

unfoldable pub same_key : IdempotencyKey → IdempotencyKey → Bool
same_key (order_key a) (order_key b) = a == b
same_key (refund_key a) (refund_key b) = a == b
same_key _ _ = false

unfoldable pub recorded : IdempotencyKey → PayDb → Option Record
unfolding same_key
recorded key db = find_first (λ (r : Record). same_key key r.key) db.records

-- The answer that is on record, else that of `fn`, which is put on record.
unfoldable pub with_idempotency : IdempotencyKey → Act PayDb Response → Act PayDb Response
unfolding recorded
with_idempotency key fn = do
  existing ← gets (recorded key)
  elim existing [
    | some r ↦ pure r.response
    | none ↦ do
      result ← fn
      taken ← gets (recorded key)
      elim taken [
        | some _ ↦ fail (database unique_violation)
        | none ↦ do
          modify (λ db. record db {
            records = db.records ++ record { key = key; response = result } ∷ [];
          })
          pure result
      ]
  ]

abbrev pub log_audit : ℕ → AuditAction → Act PayDb (Unit {0})
log_audit payment_order_id action = modify (λ db. record db {
  audits = db.audits ++ record { payment_order_id = payment_order_id; action = action } ∷ [];
})

-- A publication that fails is logged and forgotten.
unfoldable pub publish : (Published → Bool) → Published → Act PayDb (Unit {0})
publish accepts e =
    modify (λ db. if accepts e then record db { events = db.events ++ e ∷ [] } else db)

unfoldable pub is_order : ℕ → PaymentOrder → Bool
is_order id o = o.id == id

-- `paymentOrder.update`
unfoldable pub write_order : ℕ → (PaymentOrder → PaymentOrder) → Act PayDb (Unit {0})
unfolding is_order
write_order id f = modify (λ db. record db { orders = update_where (is_order id) f db.orders })

unfoldable pub new_order : (id booking_id user_id amount key gateway_order_id : ℕ) → PaymentOrder
new_order id booking_id user_id amount key gateway_order_id = record {
  id = id;
  booking_id = booking_id;
  user_id = user_id;
  amount = amount;
  status = created;
  idempotency_key = key;
  gateway_order_id = gateway_order_id;
  gateway_payment_id = none;
  gateway_signature = none;
  failure_reason = none;
  version = 0;
}

-- The unique columns that a new order fills.
unfoldable pub order_clashes : (key gateway_order_id : ℕ) → PaymentOrder → Bool
order_clashes key gateway_order_id o =
    o.idempotency_key == key || o.gateway_order_id == gateway_order_id

unfoldable pub insert_order : PaymentOrder → Act PayDb (Unit {0})
unfolding order_clashes
insert_order o = do
  clash ← gets (λ db. any (order_clashes o.idempotency_key o.gateway_order_id) db.orders)
  fail_if clash (database unique_violation)
  modify (λ db. record db { orders = db.orders ++ o ∷ []; next_id = suc db.next_id })

module _ {Body Payload : Type 0} (gateway : Gateway Body Payload) where
  unfoldable pub place_order : (booking_id amount user_id key : ℕ) → Act PayDb Response
  unfolding new_order insert_order
  place_order booking_id amount user_id key = do
    gateway_order_id ← answer (gateway.create_order amount booking_id)
    id ← gets (λ db. db.next_id)
    insert_order (new_order id booking_id user_id amount key gateway_order_id)
    log_audit id order_created
    pure (
        order_response (record {
          payment_order_id = id;
          gateway_order_id = gateway_order_id;
          amount = amount;
          status = created;
        }))

  -- A missing argument is 0.
  unfoldable pub create_payment_order : (booking_id amount user_id key : ℕ) → Act PayDb Response
  unfolding with_idempotency place_order
  create_payment_order booking_id amount user_id key = do
    fail_if (booking_id == 0 || amount == 0 || user_id == 0 || key == 0)
        (bad_request_error bad_request)
    with_idempotency (order_key key) (place_order booking_id amount user_id key)
