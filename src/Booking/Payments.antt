-- ===== src/Booking/Payments.antt =====
-- The two steps of the saga of booking-service/src/services/saga.service.js that `createBooking` runs on a
-- new row.
use railway_booking_system.Base.{
  update_where-last, ℕ, ◌≡◌, ap, ◌∙◌, ◌⊎◌, inl, inr, true, some, List, [], ◌∷◌, ◌++◌, update_where,
}
use railway_booking_system.Errors.{ok, err, Failure}
use railway_booking_system.Effects.{Act, bind-ok, bind-err}
use railway_booking_system.Booking.Rows.{
  seats_held, payment_pending, Booking, hold_seats, create_payment, Answer, Call, order, hold,
  World, Reply, has_id,
}
use railway_booking_system.Booking.Checks.{Request, Surroundings}
use railway_booking_system.Booking.Create.{run_saga, sorted_ids}
use railway_booking_system.Booking.Saga.{update_booking, execute_hold_seats, execute_create_payment}
use railway_booking_system.Booking.Frames.{AllOther, execute_step_cases}

-- What the two steps of the saga make of a new row.
abbrev pub held : Booking → Booking
held r = record r { status = seats_held }

abbrev pub paying : Answer → Booking → Booking
paying a r = record r { status = payment_pending; payment_order_id = some a.payment_order_id }

-- The row behind `old` is one with the id.
abbrev pub LastRow : ℕ → List Booking → World → Type 0
LastRow id old w = (x : Booking) × (w.bookings ≡ old ++ x ∷ []) × (has_id id x ≡ true)

module _ (reply : Reply) (r : Request) (s : Surroundings) (b : Booking) (old : List Booking)
    (other : AllOther b.id old) (same : has_id b.id b ≡ true) where
  abbrev hold_call : Call
  hold_call = hold b.schedule_id (sorted_ids r) b.user_id s.lock_ttl r.from_seq r.to_seq

  abbrev order_call : Call
  order_call = order b.id b.total_amount b.user_id

  abbrev pub SagaDone : World → Type 0
  SagaDone w =
      (a : Answer) × (v : World) × (run_saga reply r s b w ≡ (ok a, v))
      × (v.bookings ≡ old ++ paying a b ∷ [])
      × (v.records ≡ w.records)

  abbrev pub SagaFailed : World → Type 0
  SagaFailed w =
      (e : Failure) × (v : World) × (run_saga reply r s b w ≡ (err e, v)) × LastRow b.id old v

  abbrev holding : Act World Answer
  holding = execute_hold_seats reply b (sorted_ids r) s.lock_ttl r.from_seq r.to_seq

  pub run_saga_cases : (w : World) → w.bookings ≡ old ++ b ∷ [] → SagaDone w ⊎ SagaFailed w
  unfolding run_saga execute_hold_seats execute_create_payment update_booking
  run_saga_cases w h =
      elim (execute_step_cases reply b.id hold_seats hold_call (λ _. update_booking b.id held) w) [
        | inr (e, v, q, f) ↦ inr (
          e,
          v,
          bind-err holding (λ _. execute_create_payment reply b) w q,
          (b, f.same_bookings ∙ h, same),
        )
        | inl (a, v, q, f) ↦
            let v' = update_booking b.id held v in
            let row : v'.bookings ≡ old ++ held b ∷ [] =
              ap (update_where (has_id b.id) held) (f.same_bookings ∙ h)
              ∙ update_where-last (has_id b.id) held old b other same in
            let first = bind-ok holding (λ _. execute_create_payment reply b) w q in
            elim (execute_step_cases reply b.id create_payment order_call
              (λ c. update_booking b.id (paying c)) v') [
                | inr (e, u, q', g) ↦ inr (e, u, first ∙ q', (held b, g.same_bookings ∙ row, same))
                | inl (c, u, q', g) ↦ inl (
                  c,
                  update_booking b.id (paying c) u,
                  first ∙ q',
                  ap (update_where (has_id b.id) (paying c)) (g.same_bookings ∙ row)
                      ∙ update_where-last (has_id b.id) (paying c) old (held b) other same,
                  g.same_records ∙ f.same_records,
                )
              ]
      ]
