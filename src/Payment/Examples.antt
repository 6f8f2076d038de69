-- ===== src/Payment/Examples.antt =====
-- Concrete payments on which the theorems about payment-service are applied.
use railway_booking_system.Base.{ℕ, ◌≡◌, refl, true, none}
use railway_booking_system.Errors.{ok}
use railway_booking_system.Payment.Rows.{created, payment_captured, order_response, PayDb, Gateway}
use railway_booking_system.Payment.Orders.{create_payment_order}
use railway_booking_system.Payment.Capture.{WebhookPayload, verify_and_capture_payment}
use railway_booking_system.Payment.Invariant.{PayValid}
use railway_booking_system.Payment.Reachable.{
  empty_pay_db, create_order, verify, start, next, PayReachable-PayValid,
}
use railway_booking_system.Payment.Replay.{create_payment_order-replay}

-- A gateway that numbers orders and refunds, and accepts every signature.
abbrev gateway : Gateway ℕ WebhookPayload
gateway = record {
  create_order = λ amount booking_id. ok 500;
  initiate_refund = λ payment_id amount. ok 600;
  valid_payment = λ order_id payment_id signature. true;
  valid_webhook = λ body signature. true;
  parse = λ body. ok (record { event = payment_captured; payment = none; refund = none });
  accepts = λ e. true;
}

-- The tables after an order and its verification.
abbrev ordered : PayDb
ordered = (create_payment_order gateway 11 1200 42 9 empty_pay_db).1

abbrev paid : PayDb
paid = (verify_and_capture_payment gateway 1 77 88 ordered).1

PayReachable-PayValid_example : PayValid paid
PayReachable-PayValid_example =
    PayReachable-PayValid paid
      (next (next start (create_order gateway 11 1200 42 9 refl)) (verify gateway 1 77 88 refl))

create_payment_order-replay_example : create_payment_order gateway 11 1200 42 9 ordered ≡ (
  ok (
      order_response
        (record { payment_order_id = 1; gateway_order_id = 500; amount = 1200; status = created })),
  ordered,
)
unfolding create_payment_order
create_payment_order-replay_example =
    create_payment_order-replay gateway gateway 11 1200 42 9
      (order_response
        (record { payment_order_id = 1; gateway_order_id = 500; amount = 1200; status = created }))
      empty_pay_db refl
