-- ===== src/Payment/Invariant.antt =====
-- The invariant of payment-service's tables.
pub mod Writes
pub mod Captures
pub mod Settling
pub mod Placing
use railway_booking_system.Base.{
  ℕ, ◌≤◌, ◌<◌, ◌≡◌, Bool, true, false, ◌==◌, count_where, List, All, DistinctKeys, if◌then◌else◌,
}
use railway_booking_system.Payment.Rows.{
  OrderStatus, created, failed, refund_failed, same_refund_status, PaymentOrder, Refund, Published,
  payment_success, payment_failure, PayDb,
}
use railway_booking_system.Payment.Capture.{total_of}
use railway_booking_system.Payment.Refunds.{is_live_refund}

-- Money was taken, whatever was given back of it.
unfoldable pub is_paid : OrderStatus → Bool
is_paid created = false
is_paid failed = false
is_paid _ = true

unfoldable pub is_success : ℕ → Published → Bool
is_success id (payment_success k b p a) = k == id
is_success id (payment_failure k b r) = false

-- An order id that was given out.
abbrev pub OldEvent : ℕ → Published → Type 0
OldEvent n e = (id : ℕ) → is_success id e ≡ true → id < n

-- What was refunded or is being refunded is covered by the order, and its success was published once at
-- most, and not before it was paid.
pub record IsSound (refunds : List Refund) (events : List Published) (o : PaymentOrder)
    : Type 0 where
  pub within : total_of (is_live_refund o.id) refunds ≤ o.amount
  pub once : count_where (is_success o.id) events ≤ (if is_paid o.status then 1 else 0)

pub record PayValid (db : PayDb) : Type 0 where
  pub keys : DistinctKeys (λ (o : PaymentOrder). o.id) db.orders
  pub fresh : All (λ (o : PaymentOrder). o.id < db.next_id) db.orders
  pub known : All (λ (r : Refund). r.payment_order_id < db.next_id) db.refunds
  pub live : All (λ (r : Refund). same_refund_status r.status refund_failed ≡ false) db.refunds
  pub published : All (OldEvent db.next_id) db.events
  pub sound : All (IsSound db.refunds db.events) db.orders
