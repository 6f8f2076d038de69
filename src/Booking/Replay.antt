-- ===== src/Booking/Replay.antt =====
-- `createBooking` of booking-service/src/services/booking.service.js with an idempotency key that was
-- used before.
use railway_booking_system.Base.{ℕ, ◌≡◌, refl, sym, subst, false, some, inl, inr}
use railway_booking_system.Errors.{ok}
use railway_booking_system.Booking.Rows.{BookingResponse, Record, World, Reply}
use railway_booking_system.Booking.Checks.{Request, Surroundings, is_malformed, validate}
use railway_booking_system.Booking.Create.{recorded, replay_or_book, create_booking}
use railway_booking_system.Booking.Outcome.{IsFresh, Outcome, create_booking-Outcome}

abbrev Remembers : ℕ → BookingResponse → World → Type 0
Remembers key resp w = (old : Record) × (recorded key w ≡ some old) × (old.response ≡ resp)

Outcome-Remembers :
    (r : Request) (resp : BookingResponse) (w v : World)
    → Outcome r w (ok resp, v)
    → Remembers r.idempotency_key resp v
Outcome-Remembers r resp w v (inl (old, e, h, q)) =
    subst (Remembers r.idempotency_key resp) (sym q) (old, e, h)
Outcome-Remembers r resp w v (inr h) =
    (record { key = r.idempotency_key; response = resp }, h.7, refl)

remembered :
    (reply : Reply) (r : Request) (s : Surroundings) (resp : BookingResponse) (w : World)
    → is_malformed r ≡ false
    → Remembers r.idempotency_key resp w
    → create_booking reply r s w ≡ (ok resp, w)
unfolding create_booking validate replay_or_book
remembered reply r s resp w good (old, e, h) = rw (good, e, h) refl

-- A booking that was made is not made again: any later request that passes the checks and has its
-- idempotency key, whoever sends it and whatever else it asks for, is answered as the first was, with no
-- call and no write.
pub create_booking-replay :
    (reply reply' : Reply) (r r' : Request) (s s' : Surroundings) (resp : BookingResponse)
    (w v : World)
    → IsFresh w
    → create_booking reply r s w ≡ (ok resp, v)
    → r'.idempotency_key ≡ r.idempotency_key
    → is_malformed r' ≡ false
    → create_booking reply' r' s' v ≡ (ok resp, v)
create_booking-replay reply reply' r r' s s' resp w v fresh q same good =
    remembered reply' r' s' resp v good (
      subst (λ k. Remembers k resp v) (sym same)
        (Outcome-Remembers r resp w v
          (subst (Outcome r w) q (create_booking-Outcome reply r s w fresh))))
