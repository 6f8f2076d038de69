-- ===== src/Booking/Rows.antt =====
-- The tables of booking-service (booking-service/prisma/schema.prisma), the calls of its clients
-- (booking-service/src/services/inventoryClient.js and paymentClient.js), and its reads and writes of
-- bookings. A booking has its rows of booking_seats and passengers with it, without their own ids and
-- without createdAt and updatedAt. The database answers.
use railway_booking_system.Base.{
  ℕ, suc, Bool, true, false, ◌&&◌, not, Option, some, List, [], ◌∷◌, ◌++◌, length, any,
  update_where, ◌==◌, holds,
}
use railway_booking_system.Errors.{Result, ok, Failure, conflict_error, stale_state}
use railway_booking_system.Effects.{Act, fail_if, ◌>>=◌}
use railway_booking_system.SeatLocks.{Store}

pub data BookingStatus : Type 0 where
  pending seats_held payment_pending confirming confirmed cancelling : BookingStatus
  failed cancelled expired : BookingStatus

unfoldable pub same_status : BookingStatus → BookingStatus → Bool
same_status pending pending = true
same_status seats_held seats_held = true
same_status payment_pending payment_pending = true
same_status confirming confirming = true
same_status confirmed confirmed = true
same_status cancelling cancelling = true
same_status failed failed = true
same_status cancelled cancelled = true
same_status expired expired = true
same_status _ _ = false

unfoldable pub is_one_of : List BookingStatus → BookingStatus → Bool
unfolding same_status
is_one_of statuses st = any (same_status st) statuses

-- `given` stands for a text that the payment's event or an error carries.
pub data Reason : Type 0 where
  given : ℕ → Reason
  confirm_failed : Failure → Reason
  creation_failed : Failure → Reason
  payment_failed booking_timeout schedule_cancelled : Reason

pub record BookingSeat : Type 0 where
  pub seat_id : ℕ
  pub seat_number : ℕ
  pub seat_type : ℕ
  pub price : ℕ

pub record Person : Type 0 where
  pub name : ℕ
  pub age : ℕ
  pub gender : ℕ

pub record Passenger : Type 0 where
  pub person : Person
  pub seat_id : Option ℕ

pub record Booking : Type 0 where
  pub id : ℕ
  pub user_id : ℕ
  pub schedule_id : ℕ
  pub train_id : ℕ
  pub train_number : ℕ
  pub train_name : ℕ
  pub departure_date : ℕ
  pub status : BookingStatus
  pub total_amount : ℕ
  pub seat_count : ℕ
  pub from_station_id : Option ℕ
  pub to_station_id : Option ℕ
  pub from_seq : Option ℕ
  pub to_seq : Option ℕ
  pub idempotency_key : ℕ
  pub payment_order_id : Option ℕ
  pub lock_expires_at : Option ℕ
  pub failure_reason : Option Reason
  pub version : ℕ
  pub seats : List BookingSeat
  pub passengers : List Passenger

pub data SagaStep : Type 0 where
  hold_seats create_payment confirm_seats complete : SagaStep

pub data SagaStepStatus : Type 0 where
  step_pending completed compensating compensated step_failed : SagaStepStatus

pub record SagaLog : Type 0 where
  pub id : ℕ
  pub booking_id : ℕ
  pub step : SagaStep
  pub status : SagaStepStatus

pub data RefundReason : Type 0 where
  booking_compensation schedule_cancelled_refund : RefundReason

-- What is sent to inventory-service and payment-service; an idempotency key is the booking's id with
-- the word that follows it.
pub data Call : Type 0 where
  hold :
      (schedule_id : ℕ) (seat_ids : List ℕ) (user_id ttl_seconds : ℕ) (from_seq to_seq : Option ℕ)
      → Call
  confirm :
      (schedule_id : ℕ) (seat_ids : List ℕ) (user_id booking_id : ℕ) (from_seq to_seq : Option ℕ)
      → Call
  release : (schedule_id : ℕ) (seat_ids : List ℕ) (user_id : ℕ) (from_seq to_seq : Option ℕ) → Call
  cancel : (schedule_id booking_id user_id : ℕ) → Call
  order : (booking_id amount user_id : ℕ) → Call
  refund : (payment_order_id amount booking_id : ℕ) → RefundReason → Call

-- The answer of payment-service on an order; the answers to other calls are not read.
pub record Answer : Type 0 where
  pub payment_order_id : ℕ
  pub gateway_order_id : ℕ
  pub amount : ℕ
  pub currency : ℕ
  pub key_id : ℕ

-- What createBooking returns, and puts on record.
pub record BookingResponse : Type 0 where
  pub booking_id : ℕ
  pub status : BookingStatus
  pub total_amount : ℕ
  pub lock_expires_at : Option ℕ
  pub seats : List BookingSeat
  pub passengers : List Person
  pub payment_order : Answer

-- A record under the key booking:{idempotencyKey}.
pub record Record : Type 0 where
  pub key : ℕ
  pub response : BookingResponse

-- The tables, the locks in Redis and the calls that were sent, the oldest first. Bookings and saga logs
-- are appended, so that the order of their lists is that of `createdAt`.
pub record World : Type 0 where
  pub bookings : List Booking
  pub saga_logs : List SagaLog
  pub records : List Record
  pub next_id : ℕ
  pub store : Store
  pub sent : List Call

-- What the other services answer to the call that is sent after so many others.
abbrev pub Reply : Type 0
Reply = ℕ → Call → Result Answer

unfoldable pub post : Reply → Call → Act World Answer
post reply call w = (reply (length w.sent) call, record w { sent = w.sent ++ call ∷ [] })

unfoldable pub has_id : ℕ → Booking → Bool
has_id id b = b.id == id

unfoldable pub has_order : ℕ → Booking → Bool
has_order order_id b = holds b.payment_order_id order_id

-- Where `id` and `version` are the ones that were read.
unfoldable pub at_version : ℕ → ℕ → Booking → Bool
unfolding has_id
at_version id version b = has_id id b && b.version == version

unfoldable pub moved_to : BookingStatus → Booking → Booking
moved_to st b = record b { status = st; version = suc b.version }

unfoldable pub closed_as : BookingStatus → Reason → Booking → Booking
closed_as st reason b = record b {
  status = st;
  failure_reason = some reason;
  version = suc b.version;
}

-- `updateMany`, and the number of its rows as far as it is compared with 0.
unfoldable pub update_many : (Booking → Bool) → (Booking → Booking) → Act World Bool
update_many p f w = (ok (any p w.bookings), record w { bookings = update_where p f w.bookings })

unfoldable pub cas_update_booking : ℕ → ℕ → (Booking → Booking) → Act World (Unit {0})
unfolding update_many at_version
cas_update_booking id version f = update_many (at_version id version) f >>= λ found.
    fail_if (not found) (conflict_error stale_state)
