-- ===== src/Booking/Examples.antt =====
-- Bookings at concrete inputs.
use railway_booking_system.Base.{ℕ, ◌≡◌, refl, true, none, some, [], ◌∷◌}
use railway_booking_system.Errors.{ok, err, type_error}
use railway_booking_system.Booking.Rows.{
  payment_pending, expired, confirmed, BookingSeat, Answer, Booking, hold_seats, create_payment,
  completed, booking_timeout, refund, World, Reply, at_version, same_status, is_one_of, moved_to,
  closed_as,
}
use railway_booking_system.Booking.Events.{
  unchanged_in, handle_payment_success, clean_expired_bookings,
}
use railway_booking_system.Booking.Interleaving.{
  newest, older, Trace, created, next, claim_expired, claim_confirming, Trace-ended_stays,
  Trace-version_current,
}

abbrev pub seat : ℕ → BookingSeat
seat n = record { seat_id = n; seat_number = n; seat_type = 0; price = 250 }

abbrev pub order_made : Answer
order_made = record {
  payment_order_id = 40;
  gateway_order_id = 41;
  amount = 500;
  currency = 1;
  key_id = 2;
}

abbrev pub paid : Booking
paid = record {
  id = 1;
  user_id = 7;
  schedule_id = 3;
  train_id = 5;
  train_number = 12951;
  train_name = 6;
  departure_date = 9;
  status = payment_pending;
  total_amount = 500;
  seat_count = 2;
  from_station_id = none;
  to_station_id = none;
  from_seq = none;
  to_seq = none;
  idempotency_key = 8;
  payment_order_id = some 40;
  lock_expires_at = some 100;
  failure_reason = none;
  version = 0;
  seats = seat 12 ∷ seat 11 ∷ [];
  passengers = [];
}

abbrev timed_out : Booking
timed_out = record paid { status = expired; failure_reason = some booking_timeout; version = 1 }

abbrev pub world : World
world = record {
  bookings = paid ∷ [];
  saga_logs =
      record { id = 1; booking_id = 1; step = hold_seats; status = completed }
      ∷ record { id = 2; booking_id = 1; step = create_payment; status = completed }
      ∷ [];
  records = [];
  next_id = 3;
  store = λ _. none;
  sent = [];
}

-- Inventory-service is down, and payment-service answers.
abbrev no_inventory : Reply
no_inventory _ (refund _ _ _ _) = ok order_made
no_inventory _ _ = err type_error

expires : (clean_expired_bookings true true no_inventory 101 world).1.bookings ≡ timed_out ∷ []
unfolding clean_expired_bookings
expires = refl

confirms :
    (handle_payment_success true (λ _ _. ok order_made) 40 world).1.bookings
    ≡ record paid { status = confirmed; version = 2 } ∷ []
unfolding handle_payment_success
confirms = refl

-- The payment's success was read before the job expired the booking, and is written after it.
late_success : Trace (timed_out ∷ timed_out ∷ paid ∷ []) timed_out
unfolding at_version unchanged_in moved_to closed_as same_status
late_success =
    next (next (created paid) (claim_expired paid newest))
      (claim_confirming paid (older newest) refl)

Trace-ended_stays_example : timed_out ≡ timed_out
unfolding is_one_of
Trace-ended_stays_example =
    Trace-ended_stays (timed_out ∷ timed_out ∷ paid ∷ []) timed_out timed_out late_success
      (older newest) refl

Trace-version_current_example : timed_out ≡ timed_out
Trace-version_current_example =
    Trace-version_current (timed_out ∷ timed_out ∷ paid ∷ []) timed_out timed_out late_success
      (older newest) refl
