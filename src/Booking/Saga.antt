-- ===== src/Booking/Saga.antt =====
-- The saga: booking-service/src/services/saga.service.js. Every forward step writes a log row, calls
-- another service and completes the row, or fails it and throws; a compensation that fails is logged
-- and dropped. Requests, answers and messages in the log rows are left out.
use railway_booking_system.Base.{
  newest_first, ℕ, suc, Bool, true, false, ◌&&◌, Option, none, some, List, [], ◌∷◌, ◌++◌, select,
  update_where, ◌==◌,
}
use railway_booking_system.Errors.{ok}
use railway_booking_system.Effects.{Act, pure, gets, fail, modify, catching, ◌>>=◌, ◌>>◌}
use railway_booking_system.Booking.Rows.{
  seats_held, payment_pending, Booking, SagaStep, hold_seats, create_payment, confirm_seats,
  complete, SagaStepStatus, step_pending, completed, compensating, compensated, step_failed,
  SagaLog, booking_compensation, Call, hold, confirm, release, cancel, order, refund, World, Reply,
  Answer, post, has_id,
}

unfoldable pub same_step : SagaStep → SagaStep → Bool
same_step hold_seats hold_seats = true
same_step create_payment create_payment = true
same_step confirm_seats confirm_seats = true
same_step complete complete = true
same_step _ _ = false

unfoldable pub same_step_status : SagaStepStatus → SagaStepStatus → Bool
same_step_status step_pending step_pending = true
same_step_status completed completed = true
same_step_status compensating compensating = true
same_step_status compensated compensated = true
same_step_status step_failed step_failed = true
same_step_status _ _ = false

unfoldable pub create_log : ℕ → SagaStep → Act World ℕ
create_log booking_id step w = (
  ok w.next_id,
  record w {
    saga_logs =
        w.saga_logs
        ++ record { id = w.next_id; booking_id = booking_id; step = step; status = step_pending }
          ∷ [];
    next_id = suc w.next_id;
  },
)

unfoldable pub set_log : ℕ → SagaStepStatus → World → World
set_log id st w = record w {
  saga_logs =
      update_where (λ (l : SagaLog). l.id == id) (λ l. record l { status = st }) w.saga_logs;
}

unfoldable pub update_booking : ℕ → (Booking → Booking) → World → World
unfolding has_id
update_booking id f w = record w { bookings = update_where (has_id id) f w.bookings }

-- The part that the three forward steps share.
unfoldable pub execute_step :
    Reply → ℕ → SagaStep → Call → (Answer → World → World) → Act World Answer
unfolding create_log set_log post
execute_step reply booking_id step call done = create_log booking_id step >>= λ log.
    catching
      (post reply call >>= λ answer.
        modify (set_log log completed) >> modify (done answer) >> pure answer)
      (λ e. modify (set_log log step_failed) >> fail e)

unfoldable pub execute_hold_seats :
    Reply → Booking → List ℕ → (ttl_seconds : ℕ) (from_seq to_seq : Option ℕ) → Act World Answer
unfolding execute_step update_booking
execute_hold_seats reply b seat_ids ttl_seconds from_seq to_seq =
    execute_step reply b.id hold_seats
      (hold b.schedule_id seat_ids b.user_id ttl_seconds from_seq to_seq)
      (λ _. update_booking b.id (λ r. record r { status = seats_held }))

unfoldable pub execute_create_payment : Reply → Booking → Act World Answer
unfolding execute_step update_booking
execute_create_payment reply b =
    execute_step reply b.id create_payment (order b.id b.total_amount b.user_id) (λ answer.
      update_booking b.id (λ r. record r {
        status = payment_pending;
        payment_order_id = some answer.payment_order_id;
      }))

unfoldable pub execute_confirm_seats :
    Reply → Booking → List ℕ → (from_seq to_seq : Option ℕ) → Act World Answer
unfolding execute_step
execute_confirm_seats reply b seat_ids from_seq to_seq =
    execute_step reply b.id confirm_seats
      (confirm b.schedule_id seat_ids b.user_id b.id from_seq to_seq) (λ _ w. w)

unfoldable pub is_completed : ℕ → SagaLog → Bool
unfolding same_step_status
is_completed booking_id l = l.booking_id == booking_id && same_step_status l.status completed

unfoldable pub mark_compensated : ℕ → SagaStep → World → World
unfolding is_completed same_step
mark_compensated booking_id step w = record w {
  saga_logs =
      update_where (λ (l : SagaLog). is_completed booking_id l && same_step l.step step)
        (λ l. record l { status = compensated }) w.saga_logs;
}

-- The part that the three compensations share.
unfoldable pub compensate : Reply → ℕ → SagaStep → Call → Act World (Unit {0})
unfolding post mark_compensated
compensate reply booking_id step call =
    catching (post reply call >>= λ _. modify (mark_compensated booking_id step)) (λ _. pure tt)

unfoldable pub compensate_hold_seats : Reply → Booking → List ℕ → Act World (Unit {0})
unfolding compensate
compensate_hold_seats reply b seat_ids =
    compensate reply b.id hold_seats (release b.schedule_id seat_ids b.user_id b.from_seq b.to_seq)

unfoldable pub refund_order : Reply → Booking → Option ℕ → Act World (Unit {0})
unfolding compensate
refund_order reply b none = pure tt
refund_order reply b (some order_id) =
    compensate reply b.id create_payment (refund order_id b.total_amount b.id booking_compensation)

unfoldable pub compensate_create_payment : Reply → Booking → Act World (Unit {0})
unfolding refund_order
compensate_create_payment reply b = refund_order reply b b.payment_order_id

unfoldable pub compensate_confirm_seats : Reply → Booking → Act World (Unit {0})
unfolding compensate
compensate_confirm_seats reply b =
    compensate reply b.id confirm_seats (cancel b.schedule_id b.id b.user_id)

unfoldable pub compensate_step : Reply → Booking → List ℕ → SagaStep → Act World (Unit {0})
unfolding compensate_hold_seats compensate_create_payment compensate_confirm_seats
compensate_step reply b seat_ids confirm_seats = compensate_confirm_seats reply b
compensate_step reply b seat_ids create_payment = compensate_create_payment reply b
compensate_step reply b seat_ids hold_seats = compensate_hold_seats reply b seat_ids
compensate_step reply b seat_ids complete = pure tt

unfoldable pub compensate_steps : Reply → Booking → List ℕ → List SagaLog → Act World (Unit {0})
unfolding compensate_step
compensate_steps reply b seat_ids [] = pure tt
compensate_steps reply b seat_ids (l ∷ logs) =
    compensate_step reply b seat_ids l.step >> compensate_steps reply b seat_ids logs

unfoldable pub compensate_all : Reply → Booking → List ℕ → Act World (Unit {0})
unfolding is_completed newest_first compensate_steps
compensate_all reply b seat_ids =
    gets (λ (w : World). newest_first (select (is_completed b.id) w.saga_logs))
    >>= compensate_steps reply b seat_ids
