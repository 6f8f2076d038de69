-- ===== src/Booking/Events.antt =====
-- What happens to a booking after it was created: the payment's events and the cancellation of its
-- schedule (booking-service/src/services/booking.service.js), and the expiry job
-- (booking-service/src/utils/bookingExpiry.js). `up` says whether Redis answers.
use railway_booking_system.Base.{
  ℕ, Bool, true, false, ◌&&◌, not, Option, none, some, List, [], ◌∷◌, map, find_first, select, ltb,
  ◌==◌, sort_by, if◌then◌else◌,
}
use railway_booking_system.Errors.{Failure, app, ErrorCode, stale_state}
use railway_booking_system.Effects.{Act, pure, gets, fail, modify, catching, ◌>>=◌, ◌>>◌}
use railway_booking_system.SeatLocks.{force_release_seat_locks}
use railway_booking_system.Booking.Rows.{
  BookingStatus, pending, seats_held, payment_pending, confirming, confirmed, failed, cancelled,
  expired, same_status, is_one_of, Reason, given, confirm_failed, payment_failed, booking_timeout,
  schedule_cancelled, BookingSeat, Booking, schedule_cancelled_refund, refund, World, Reply, post,
  has_id, has_order, at_version, moved_to, closed_as, update_many, cas_update_booking,
}
use railway_booking_system.Booking.Saga.{
  execute_confirm_seats, compensate_hold_seats, compensate_all,
}

abbrev pub sorted_seats : Booking → List ℕ
sorted_seats b = sort_by (λ (n : ℕ). n) (map (λ (s : BookingSeat). s.seat_id) b.seats)

unfoldable pub free_locks : (up : Bool) → Booking → World → World
unfolding force_release_seat_locks
free_locks up b w = record w {
  store = force_release_seat_locks up b.schedule_id (sorted_seats b) b.from_seq b.to_seq w.store;
}

-- error.code === 'STALE_STATE'
unfoldable pub is_stale_code : ErrorCode → Bool
is_stale_code stale_state = true
is_stale_code _ = false

unfoldable pub is_stale : Failure → Bool
unfolding is_stale_code
is_stale (app e) = is_stale_code e.code
is_stale _ = false

-- The rows that the unversioned updates after a claim are for.
unfoldable pub in_status : ℕ → List BookingStatus → Booking → Bool
unfolding has_id is_one_of
in_status id statuses b = has_id id b && is_one_of statuses b.status

-- The row as it was read, if its status is still among these.
unfoldable pub unchanged_in : Booking → List BookingStatus → Booking → Bool
unfolding at_version is_one_of
unchanged_in b statuses r = at_version b.id b.version r && is_one_of statuses r.status

unfoldable pub finish_confirm : Booking → Act World Bool
unfolding update_many in_status moved_to
finish_confirm b = update_many (in_status b.id (confirming ∷ [])) (moved_to confirmed)

unfoldable pub give_up_confirm : (up : Bool) → Reply → Booking → Failure → Act World (Unit {0})
unfolding compensate_all update_many in_status closed_as free_locks
give_up_confirm up reply b e =
    compensate_all reply b (sorted_seats b)
    >> (update_many (in_status b.id (payment_pending ∷ confirming ∷ []))
          (closed_as failed (confirm_failed e))
        >>= λ _. modify (free_locks up b))

unfoldable pub confirm_booking : (up : Bool) → Reply → Booking → Act World (Unit {0})
unfolding cas_update_booking moved_to execute_confirm_seats finish_confirm free_locks is_stale
    give_up_confirm
confirm_booking up reply b =
    catching
      (cas_update_booking b.id b.version (moved_to confirming)
        >> (execute_confirm_seats reply b (sorted_seats b) b.from_seq b.to_seq >>= λ _.
            finish_confirm b >>= λ _. modify (free_locks up b)))
      (λ e. if is_stale e then pure tt else give_up_confirm up reply b e)

unfoldable pub handle_payment_success :
    (up : Bool) → Reply → (payment_order_id : ℕ) → Act World (Unit {0})
unfolding has_order same_status confirm_booking
handle_payment_success up reply payment_order_id =
    gets (λ (w : World). find_first (has_order payment_order_id) w.bookings) >>= λ o. elim o [
      | none ↦ pure tt
      | some b ↦
          if same_status b.status confirmed
          then pure tt
          else if not (same_status b.status payment_pending)
          then pure tt
          else confirm_booking up reply b
    ]

unfoldable pub or_payment_failed : Option ℕ → Reason
or_payment_failed none = payment_failed
or_payment_failed (some r) = given r

unfoldable pub fail_booking : (up : Bool) → Reply → Option ℕ → Booking → Act World (Unit {0})
unfolding cas_update_booking closed_as or_payment_failed is_stale compensate_hold_seats free_locks
fail_booking up reply reason b =
    catching
      (cas_update_booking b.id b.version (closed_as failed (or_payment_failed reason)) >> pure true)
      (λ e. if is_stale e then pure false else fail e)
    >>= λ claimed.
        if claimed
        then compensate_hold_seats reply b (sorted_seats b) >> modify (free_locks up b)
        else pure tt

unfoldable pub handle_payment_failure :
    (up : Bool) → Reply → (payment_order_id : ℕ) (reason : Option ℕ) → Act World (Unit {0})
unfolding has_order is_one_of same_status fail_booking
handle_payment_failure up reply payment_order_id reason =
    gets (λ (w : World). find_first (has_order payment_order_id) w.bookings) >>= λ o. elim o [
      | none ↦ pure tt
      | some b ↦
          if is_one_of (failed ∷ cancelled ∷ expired ∷ []) b.status
          then pure tt
          else if not (same_status b.status payment_pending)
          then pure tt
          else fail_booking up reply reason b
    ]

abbrev pub unpaid : List BookingStatus
unpaid = pending ∷ seats_held ∷ payment_pending ∷ []

abbrev pub active : List BookingStatus
active = pending ∷ seats_held ∷ payment_pending ∷ confirmed ∷ []

unfoldable pub refund_cancelled : Reply → Booking → Act World (Unit {0})
unfolding same_status post
refund_cancelled reply b = elim b.payment_order_id [
  | none ↦ pure tt
  | some order_id ↦
      if same_status b.status confirmed
      then catching
          (post reply (refund order_id b.total_amount b.id schedule_cancelled_refund) >>= λ _.
            pure tt)
          (λ _. pure tt)
      else pure tt
]

unfoldable pub cancel_for_schedule : (up : Bool) → Reply → Booking → Act World (Unit {0})
unfolding update_many unchanged_in closed_as free_locks refund_cancelled
cancel_for_schedule up reply b =
    update_many (unchanged_in b active) (closed_as cancelled schedule_cancelled) >>= λ claimed.
    if claimed then modify (free_locks up b) >> refund_cancelled reply b else pure tt

unfoldable pub each : (Booking → Act World (Unit {0})) → List Booking → Act World (Unit {0})
each act [] = pure tt
each act (b ∷ rest) = catching (act b) (λ _. pure tt) >> each act rest

unfoldable pub is_active_on : ℕ → Booking → Bool
unfolding is_one_of
is_active_on schedule_id b = b.schedule_id == schedule_id && is_one_of active b.status

unfoldable pub handle_schedule_cancelled :
    (up : Bool) → Reply → (schedule_id : Option ℕ) → Act World (Unit {0})
unfolding is_active_on each cancel_for_schedule
handle_schedule_cancelled up reply none = pure tt
handle_schedule_cancelled up reply (some schedule_id) =
    gets (λ (w : World). select (is_active_on schedule_id) w.bookings)
    >>= each (cancel_for_schedule up reply)

-- lockExpiresAt < now, which no row without the date satisfies
unfoldable pub is_overdue : ℕ → Booking → Bool
unfolding is_one_of
is_overdue now b =
    is_one_of unpaid b.status && elim b.lock_expires_at [ none ↦ false | some t ↦ ltb t now ]

unfoldable pub expire_booking : (up : Bool) → Reply → Booking → Act World (Unit {0})
unfolding update_many unchanged_in closed_as compensate_all free_locks
expire_booking up reply b =
    update_many (unchanged_in b unpaid) (closed_as expired booking_timeout) >>= λ claimed.
    if claimed then compensate_all reply b (sorted_seats b) >> modify (free_locks up b) else pure tt

-- The answer of the leader election is an argument.
unfoldable pub clean_expired_bookings :
    (is_leader up : Bool) → Reply → (now : ℕ) → Act World (Unit {0})
unfolding is_overdue each expire_booking
clean_expired_bookings false up reply now = pure tt
clean_expired_bookings true up reply now =
    gets (λ (w : World). select (is_overdue now) w.bookings) >>= each (expire_booking up reply)
