-- ===== src/Booking/Frames.antt =====
-- What the calls of booking-service/src/services/saga.service.js leave alone in the tables.
use railway_booking_system.Base.{
  update_where-last, newest_first, ℕ, ◌<◌, ◌≡◌, refl, ap, ◌∙◌, ◌⊎◌, inl, inr, true, false, Option,
  none, some, List, [], ◌∷◌, ◌++◌, length, update_where, select, All, All-mono, arith,
}
use railway_booking_system.Errors.{ok, err, Failure, Result-cases}
use railway_booking_system.Effects.{Act, pure, ◌>>=◌, ◌>>◌}
use railway_booking_system.Booking.Rows.{
  failed, creation_failed, Booking, SagaStep, hold_seats, create_payment, confirm_seats, complete,
  completed, step_failed, SagaLog, Answer, Call, World, Reply, has_id, post,
}
use railway_booking_system.Booking.Create.{abandon}
use railway_booking_system.Booking.Picked.{seat_ids}
use railway_booking_system.Booking.Saga.{
  create_log, set_log, update_booking, execute_step, compensate, mark_compensated, compensate_step,
  compensate_steps, compensate_all, compensate_hold_seats, refund_order, compensate_create_payment,
  compensate_confirm_seats, is_completed,
}

-- What the saga's calls and logs leave alone.
pub record Frame (w v : World) : Type 0 where
  pub same_bookings : v.bookings ≡ w.bookings
  pub same_records : v.records ≡ w.records
  pub same_store : v.store ≡ w.store

Frame-refl : (w : World) → Frame w w
Frame-refl w = record { same_bookings = refl; same_records = refl; same_store = refl }

Frame-trans : {u v w : World} → Frame u v → Frame v w → Frame u w
Frame-trans f g = record {
  same_bookings = g.same_bookings ∙ f.same_bookings;
  same_records = g.same_records ∙ f.same_records;
  same_store = g.same_store ∙ f.same_store;
}

-- A step of the saga ends with the call's answer, having written its log alone but for what follows a
-- success.
pub execute_step_cases :
    (reply : Reply) (id : ℕ) (step : SagaStep) (call : Call) (done : Answer → World → World)
    (w : World)
    → ((a : Answer) × (v : World) × (execute_step reply id step call done w ≡ (ok a, done a v))
        × Frame w v)
      ⊎ ((e : Failure) × (v : World) × (execute_step reply id step call done w ≡ (err e, v))
          × Frame w v)
unfolding execute_step create_log set_log post
execute_step_cases reply id step call done w = elim (Result-cases (reply (length w.sent) call)) [
  | inl (a, e) ↦ inl (
    a,
    set_log w.next_id completed sent,
    rw (e, e) refl,
    record { same_bookings = refl; same_records = refl; same_store = refl },
  )
  | inr (f, e) ↦ inr (
    f,
    set_log w.next_id step_failed sent,
    rw (e, e) refl,
    record { same_bookings = refl; same_records = refl; same_store = refl },
  )
]
  where
    sent : World
    sent = (post reply call (create_log id step w).1).1

abbrev pub Quiet : Act World (Unit {0}) → World → Type 0
Quiet m w = ((m w).0 ≡ ok tt) × Frame w (m w).1

pure-Quiet : (w : World) → Quiet (pure tt) w
pure-Quiet w = (refl, Frame-refl w)

compensate-Quiet :
    (reply : Reply) (id : ℕ) (step : SagaStep) (call : Call) (w : World)
    → Quiet (compensate reply id step call) w
unfolding compensate post mark_compensated
compensate-Quiet reply id step call w = elim (Result-cases (reply (length w.sent) call)) [
  | inl (a, e) ↦ (
    rw e refl,
    record {
      same_bookings = rw (e, e) refl;
      same_records = rw (e, e) refl;
      same_store = rw (e, e) refl;
    },
  )
  | inr (f, e) ↦ (
    rw e refl,
    record {
      same_bookings = rw (e, e) refl;
      same_records = rw (e, e) refl;
      same_store = rw (e, e) refl;
    },
  )
]

refund_order-Quiet :
    (reply : Reply) (b : Booking) (o : Option ℕ) (w : World) → Quiet (refund_order reply b o) w
unfolding refund_order
refund_order-Quiet reply b none w = pure-Quiet w
refund_order-Quiet reply b (some order_id) w = compensate-Quiet reply b.id create_payment _ w

compensate_step-Quiet :
    (reply : Reply) (b : Booking) (seat_ids : List ℕ) (step : SagaStep) (w : World)
    → Quiet (compensate_step reply b seat_ids step) w
unfolding compensate_step compensate_confirm_seats compensate_create_payment compensate_hold_seats
compensate_step-Quiet reply b seat_ids hold_seats w = compensate-Quiet reply b.id hold_seats _ w
compensate_step-Quiet reply b seat_ids create_payment w =
    refund_order-Quiet reply b b.payment_order_id w
compensate_step-Quiet reply b seat_ids confirm_seats w =
    compensate-Quiet reply b.id confirm_seats _ w
compensate_step-Quiet reply b seat_ids complete w = pure-Quiet w

compensate_steps-Quiet :
    (reply : Reply) (b : Booking) (seat_ids : List ℕ) (logs : List SagaLog) (w : World)
    → Quiet (compensate_steps reply b seat_ids logs) w
unfolding compensate_steps
compensate_steps-Quiet reply b seat_ids [] w = pure-Quiet w
compensate_steps-Quiet reply b seat_ids (l ∷ logs) w =
    let one = compensate_step-Quiet reply b seat_ids l.step w in
    let rest =
      compensate_steps-Quiet reply b seat_ids logs (compensate_step reply b seat_ids l.step w).1 in
    (rw (one.0, ◌>>◌, ◌>>=◌) (rest.0), rw (one.0, ◌>>◌, ◌>>=◌) (Frame-trans one.1 rest.1))

pub compensate_all-Quiet :
    (reply : Reply) (b : Booking) (seat_ids : List ℕ) (w : World)
    → Quiet (compensate_all reply b seat_ids) w
unfolding compensate_all
compensate_all-Quiet reply b seat_ids w =
    compensate_steps-Quiet reply b seat_ids (newest_first (select (is_completed b.id) w.saga_logs))
      w

-- The rows of `old` do not have the id, and the row behind them does.
abbrev pub AllOther : ℕ → List Booking → Type 0
AllOther id old = All (λ b. has_id id b ≡ false) old

pub fresh-AllOther :
    (n : ℕ) (old : List Booking) → All (λ (b : Booking). b.id < n) old → AllOther n old
unfolding has_id
fresh-AllOther n old h = All-mono _ _ old (λ b lt. ground arith) h

-- Abandoning marks the row.
pub abandon_lem :
    {A : Type 0} (reply : Reply) (b : Booking) (seat_ids : List ℕ) (e : Failure)
    (old : List Booking) (x : Booking) (w : World)
    → w.bookings ≡ old ++ x ∷ []
    → AllOther b.id old
    → has_id b.id x ≡ true
    → ((abandon {A = A} reply b seat_ids e w).0 ≡ err e)
      × ((abandon {A = A} reply b seat_ids e w).1.bookings
          ≡ old ++ record x { status = failed; failure_reason = some (creation_failed e) } ∷ [])
unfolding abandon update_booking
abandon_lem reply b seat_ids e old x w h other same =
    let quiet = compensate_all-Quiet reply b seat_ids w in
    (
      rw (quiet.0, ◌>>◌, ◌>>=◌) refl,
      rw (quiet.0, ◌>>◌, ◌>>=◌)
          (ap
              (update_where (has_id b.id)
                (λ r. record r { status = failed; failure_reason = some (creation_failed e) }))
              (quiet.1.same_bookings ∙ h)
            ∙ update_where-last (has_id b.id)
                (λ r. record r { status = failed; failure_reason = some (creation_failed e) }) old x
                other same),
    )
