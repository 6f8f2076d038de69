-- ===== src/Booking/Compensation.antt =====
-- `compensateAll` of booking-service/src/services/saga.service.js: the calls that it sends.
use railway_booking_system.Base.{ℕ, ◌≡◌, Option, none, some, List, [], ◌∷◌, ◌++◌}
use railway_booking_system.Errors.{ok}
use railway_booking_system.Effects.{Act}
use railway_booking_system.Booking.Rows.{
  Booking, SagaStep, hold_seats, create_payment, confirm_seats, complete, SagaLog,
  booking_compensation, Call, release, cancel, refund, World,
}

-- The call that undoes a step of a booking: an order that the booking does not know is not refunded.
abbrev pub undo_order : Booking → Option ℕ → List Call
undo_order b none = []
undo_order b (some order_id) = refund order_id b.total_amount b.id booking_compensation ∷ []

abbrev pub undo : Booking → List ℕ → SagaStep → List Call
undo b seat_ids hold_seats = release b.schedule_id seat_ids b.user_id b.from_seq b.to_seq ∷ []
undo b seat_ids create_payment = undo_order b b.payment_order_id
undo b seat_ids confirm_seats = cancel b.schedule_id b.id b.user_id ∷ []
undo b seat_ids complete = []

abbrev pub undo_all : Booking → List ℕ → List SagaLog → List Call
undo_all b seat_ids [] = []
undo_all b seat_ids (l ∷ logs) = undo b seat_ids l.step ++ undo_all b seat_ids logs

-- An action that returns, having sent these calls.
abbrev Sends : Act World (Unit {0}) → List Call → World → Type 0
Sends m calls w = ((m w).0 ≡ ok tt) × ((m w).1.sent ≡ w.sent ++ calls)
