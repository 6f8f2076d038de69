-- ===== src/Payment/Reachable.antt =====
-- payment-service over time: the tables that its requests and webhooks reach from empty ones, whether
-- they succeed or fail. The gateway may answer each of them differently.
use railway_booking_system.Base.{ℕ, ◌≡◌, subst, Option, []}
use railway_booking_system.Payment.Rows.{PayDb, Gateway}
use railway_booking_system.Payment.Orders.{create_payment_order}
use railway_booking_system.Payment.Capture.{
  WebhookPayload, handle_webhook, verify_and_capture_payment,
}
use railway_booking_system.Payment.Refunds.{initiate_refund}
use railway_booking_system.Payment.Invariant.{PayValid}
use railway_booking_system.Payment.Invariant.Settling.{
  handle_webhook-PayValid, verify_and_capture_payment-PayValid,
}
use railway_booking_system.Payment.Invariant.Placing.{
  create_payment_order-PayValid, initiate_refund-PayValid,
}

-- Ids start at 1, since 0 stands for a missing argument.
abbrev pub empty_pay_db : PayDb
empty_pay_db = record {
  orders = [];
  refunds = [];
  audits = [];
  records = [];
  events = [];
  next_id = 1;
}

-- One request, with the gateway of that moment.
pub data PayStep (db db' : PayDb) : Type 0 where
  create_order :
      (g : Gateway ℕ WebhookPayload) (booking_id amount user_id key : ℕ)
      → (create_payment_order g booking_id amount user_id key db).1 ≡ db'
      → PayStep db db'
  receive_webhook :
      (g : Gateway ℕ WebhookPayload) (body signature : ℕ)
      → (handle_webhook g body signature db).1 ≡ db'
      → PayStep db db'
  verify :
      (g : Gateway ℕ WebhookPayload) (payment_order_id payment_id signature : ℕ)
      → (verify_and_capture_payment g payment_order_id payment_id signature db).1 ≡ db'
      → PayStep db db'
  refund :
      (g : Gateway ℕ WebhookPayload) (payment_order_id amount : ℕ) (reason : Option ℕ) (key : ℕ)
      → (initiate_refund g payment_order_id amount reason key db).1 ≡ db'
      → PayStep db db'

pub data PayReachable : PayDb → Type 0 where
  start : PayReachable empty_pay_db
  next : {db db' : PayDb} → PayReachable db → PayStep db db' → PayReachable db'

PayStep-PayValid : {db db' : PayDb} → PayStep db db' → PayValid db → PayValid db'
PayStep-PayValid {db} {db'} (create_order g b a u k q) v =
    subst PayValid q (create_payment_order-PayValid g b a u k db v)
PayStep-PayValid {db} {db'} (receive_webhook g body s q) v =
    subst PayValid q (handle_webhook-PayValid g body s db v)
PayStep-PayValid {db} {db'} (verify g id p s q) v =
    subst PayValid q (verify_and_capture_payment-PayValid g id p s db v)
PayStep-PayValid {db} {db'} (refund g id a r k q) v =
    subst PayValid q (initiate_refund-PayValid g id a r k db v)

-- Whatever requests and webhooks come, in whatever order, and whatever the gateway answers: each payment
-- order's refunds add up to no more than its amount, its success is published once at most and only when
-- it was paid, and ids are distinct.
pub PayReachable-PayValid : (db : PayDb) → PayReachable db → PayValid db
PayReachable-PayValid _ start = record {
  keys = tt;
  fresh = tt;
  known = tt;
  live = tt;
  published = tt;
  sound = tt;
}
PayReachable-PayValid _ (next {db} {db'} r s) = PayStep-PayValid s (PayReachable-PayValid db r)
