-- ===== src/Payment/Refunds.antt =====
-- `initiateRefund` of payment-service/src/services/payment.service.js.
use railway_booking_system.Base.{
  ℕ, suc, ◌+◌, Bool, ◌&&◌, ◌||◌, not, Option, [], ◌∷◌, ◌++◌, find_first, any, ltb, ◌==◌,
}
use railway_booking_system.Errors.{
  conflict, bad_request, not_found_error, conflict_error, bad_request_error, database,
  unique_violation,
}
use railway_booking_system.Effects.{Act, pure, gets, fail_if, or_fail, modify, answer, ◌>>=◌, ◌>>◌}
use railway_booking_system.Payment.Rows.{
  captured, partially_refunded, refund_initiated, same_order_status, initiated, refund_failed,
  same_refund_status, PaymentOrder, Refund, refund_requested, refund_key, Response, refund_response,
  PayDb, Gateway,
}
use railway_booking_system.Payment.Orders.{with_idempotency, is_order, write_order, log_audit}
use railway_booking_system.Payment.Capture.{total_of, set_status}

-- The refunds of an order that have not failed.
unfoldable pub is_live_refund : ℕ → Refund → Bool
unfolding same_refund_status
is_live_refund order_id r =
    r.payment_order_id == order_id && not (same_refund_status r.status refund_failed)

unfoldable pub is_refundable : PaymentOrder → Bool
unfolding same_order_status
is_refundable o =
    same_order_status o.status captured || same_order_status o.status partially_refunded

unfoldable pub new_refund :
    (id payment_order_id amount : ℕ) (reason : Option ℕ) (key gateway_refund_id : ℕ) → Refund
new_refund id payment_order_id amount reason key gateway_refund_id = record {
  id = id;
  payment_order_id = payment_order_id;
  amount = amount;
  reason = reason;
  status = initiated;
  idempotency_key = key;
  gateway_refund_id = gateway_refund_id;
}

unfoldable pub refund_clashes : (key gateway_refund_id : ℕ) → Refund → Bool
refund_clashes key gateway_refund_id r =
    r.idempotency_key == key || r.gateway_refund_id == gateway_refund_id

unfoldable pub insert_refund : Refund → Act PayDb (Unit {0})
unfolding refund_clashes
insert_refund r = do
  clash ← gets (λ db. any (refund_clashes r.idempotency_key r.gateway_refund_id) db.refunds)
  fail_if clash (database unique_violation)
  modify (λ db. record db { refunds = db.refunds ++ r ∷ []; next_id = suc db.next_id })

module _ {Body Payload : Type 0} (gateway : Gateway Body Payload) where
  unfoldable pub request_refund :
      PaymentOrder → (payment_id amount : ℕ) → Option ℕ → (key : ℕ) → Act PayDb Response
  unfolding new_refund insert_refund set_status write_order
  request_refund o payment_id amount reason key = do
    gateway_refund_id ← answer (gateway.initiate_refund payment_id amount)
    id ← gets (λ db. db.next_id)
    insert_refund (new_refund id o.id amount reason key gateway_refund_id)
    write_order o.id (set_status refund_initiated)
    log_audit o.id refund_requested
    pure (
        refund_response (record {
          refund_id = id;
          payment_order_id = o.id;
          status = initiated;
          amount = amount;
          gateway_refund_id = gateway_refund_id;
        }))

  -- Not more than is left of the order's amount.
  unfoldable pub refund_payment :
      PaymentOrder → (payment_id amount : ℕ) → Option ℕ → (key : ℕ) → Act PayDb Response
  unfolding is_live_refund total_of request_refund
  refund_payment o payment_id amount reason key = do
    total ← gets (λ db. total_of (is_live_refund o.id) db.refunds)
    fail_if (ltb o.amount (total + amount)) (bad_request_error bad_request)
    request_refund o payment_id amount reason key

  unfoldable pub refund_found :
      PaymentOrder → (amount : ℕ) → Option ℕ → (key : ℕ) → Act PayDb Response
  unfolding is_refundable refund_payment
  refund_found o amount reason key = do
    fail_if (not (is_refundable o)) (conflict_error conflict)
    payment_id ← or_fail o.gateway_payment_id (conflict_error conflict)
    refund_payment o payment_id amount reason key

  unfoldable pub refund_order :
      (payment_order_id amount : ℕ) → Option ℕ → (key : ℕ) → Act PayDb Response
  unfolding is_order refund_found
  refund_order payment_order_id amount reason key = do
    found ← gets (λ db. find_first (is_order payment_order_id) db.orders)
    o ← or_fail found not_found_error
    refund_found o amount reason key

  unfoldable pub initiate_refund :
      (payment_order_id amount : ℕ) → Option ℕ → (key : ℕ) → Act PayDb Response
  unfolding with_idempotency refund_order
  initiate_refund payment_order_id amount reason key = do
    fail_if (payment_order_id == 0 || amount == 0 || key == 0) (bad_request_error bad_request)
    with_idempotency (refund_key key) (refund_order payment_order_id amount reason key)
