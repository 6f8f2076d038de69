-- ===== src/Booking/Outcome.antt =====
-- What `createBooking` of booking-service/src/services/booking.service.js leaves in the table of
-- bookings.
use railway_booking_system.Base.{
  find_first-last, ℕ, suc, ◌<◌, ◌≡◌, refl, sym, ap, ◌∙◌, subst, ◌⊎◌, inl, inr, Bool, true, false,
  ◌||◌, Option, none, some, List, [], ◌∷◌, ◌++◌, map, any, find_first, find_first-append, All,
  Bool-cases, Option-cases, ◌==◌, ==_refl,
}
use railway_booking_system.Errors.{
  Result, ok, err, Failure, database, unique_violation, bad_request, bad_request_error,
}
use railway_booking_system.Effects.{
  Act, gets, fail, fail_if, modify, catching, ◌>>=◌, ◌>>◌, bind-ok, bind-err, catching-ok,
  catching-err,
}
use railway_booking_system.SeatLocks.{acquire_seat_locks}
use railway_booking_system.Booking.Rows.{
  payment_pending, failed, creation_failed, Booking, Answer, BookingResponse, Record, World, Reply,
  has_id,
}
use railway_booking_system.Booking.Checks.{
  Request, Surroundings, check_seats, is_malformed, validate, Availability,
}
use railway_booking_system.Booking.Create.{
  abandon, run_saga, sorted_ids, respond, recorded, save_idempotency, finish_row, finish_booking,
  pay_booking, write_booking, insert_booking, replay_or_book, create_booking, new_booking, has_key,
  has_duplicates, release_locks, reserve, with_locks, acquire_locks, book_seats, booked_seat,
}
use railway_booking_system.Booking.Picked.{
  seat_ids, charge, total_price-charge, Checked, check_seats-Checked,
}
use railway_booking_system.Inventory.Query.{SeatView}
use railway_booking_system.Booking.Frames.{AllOther, fresh-AllOther, abandon_lem}
use railway_booking_system.Booking.Payments.{paying, run_saga_cases}

-- A booking that was granted: one row more, which waits for its payment and has the seats of the request
-- at their price, and is what the answer shows.
abbrev pub Granted : Request → List Booking → BookingResponse → World → Type 0
Granted r old resp v =
    (x : Booking) × (v.bookings ≡ old ++ x ∷ [])
    × (x.status ≡ payment_pending)
    × (x.payment_order_id ≡ some resp.payment_order.payment_order_id)
    × (seat_ids x.seats ≡ r.seat_ids)
    × (x.total_amount ≡ charge x.seats)
    × (respond x resp.payment_order ≡ resp)
    × (recorded r.idempotency_key v ≡ some (record { key = r.idempotency_key; response = resp }))

abbrev pub FailedRow : List Booking → World → Type 0
FailedRow old v = (x : Booking) × (v.bookings ≡ old ++ x ∷ []) × (x.status ≡ failed)

err_pair : {A : Type 0} (x : Result A × World) (e : Failure) → x.0 ≡ err e → x ≡ (err e, x.1)
err_pair x e h = ap (λ y. (y, x.1)) h

module _ (reply : Reply) (r : Request) (old : List Booking) where
  -- The same for the table that the run began with.
  abbrev Ends : Result BookingResponse × World → Type 0
  Ends (ok resp, v) = Granted r old resp v
  Ends (err e, v) = (v.bookings ≡ old) ⊎ FailedRow old v

  -- A row that was written is abandoned as failed.
  abandoned :
      (b x : Booking) (e : Failure) (v : World)
      → v.bookings ≡ old ++ x ∷ []
      → AllOther b.id old
      → has_id b.id x ≡ true
      → Ends (abandon reply b (sorted_ids r) e v)
  abandoned b x e v h other same =
      let q = abandon_lem {A = BookingResponse} reply b (sorted_ids r) e old x v h other same in
      subst Ends (sym (err_pair (abandon reply b (sorted_ids r) e v) e q.0))
        (inr (record x { status = failed; failure_reason = some (creation_failed e) }, q.1, refl))

  module _ (a : Answer) (x : Booking) (v : World) (h : v.bookings ≡ old ++ x ∷ [])
      (other : AllOther x.id old) (same : has_id x.id x ≡ true)
      (status : x.status ≡ payment_pending) (paid : x.payment_order_id ≡ some a.payment_order_id)
      (seats : seat_ids x.seats ≡ r.seat_ids) (total : x.total_amount ≡ charge x.seats) where
    abbrev response : BookingResponse
    response = respond x a

    abbrev saving : Act World BookingResponse
    saving = save_idempotency r.idempotency_key response

    saved : World
    saved = record v {
      records = v.records ++ record { key = r.idempotency_key; response = response } ∷ [];
    }

    granted : recorded r.idempotency_key v ≡ none → Granted r old response saved
    unfolding respond saved recorded
    granted e = (
      x,
      h,
      status,
      paid,
      seats,
      total,
      refl,
      find_first-append (λ (o : Record). o.key == r.idempotency_key) v.records
          (record { key = r.idempotency_key; response = response }) e (==_refl r.idempotency_key),
    )

    finished_row : Ends (finish_row reply r a (some x) v)
    unfolding finish_row save_idempotency saved
    finished_row = elim (Option-cases (recorded r.idempotency_key v)) [
      | inl e ↦
          let q : saving v ≡ (ok response, saved) = rw (e, save_idempotency) refl in
          subst Ends (sym (catching-ok saving (abandon reply x (sorted_ids r)) v q)) (granted e)
      | inr (old_record, e) ↦
          let q : saving v ≡ (err (database unique_violation), v) = rw (e, save_idempotency) refl in
          subst Ends (sym (catching-err saving (abandon reply x (sorted_ids r)) v q))
            (abandoned x x (database unique_violation) v h other same)
    ]

    finished : Ends (finish_booking reply r x.id a v)
    unfolding finish_booking
    finished =
        let row : find_first (has_id x.id) v.bookings ≡ some x =
          ap (find_first (has_id x.id)) h ∙ find_first-last (has_id x.id) old x other same in
        rw row finished_row

  module _ (s : Surroundings) (b : Booking) (w : World) (h : w.bookings ≡ old ++ b ∷ [])
      (other : AllOther b.id old) (same : has_id b.id b ≡ true)
      (seats : seat_ids b.seats ≡ r.seat_ids) (total : b.total_amount ≡ charge b.seats) where
    abbrev undo : Failure → Act World Answer
    undo = abandon reply b (sorted_ids r)

    abbrev finishing : Answer → Act World BookingResponse
    finishing = finish_booking reply r b.id

    paid_booking : Ends (pay_booking reply r s b w)
    unfolding pay_booking
    paid_booking = elim (run_saga_cases reply r s b old other same w h) [
      | inl (a, v, q, row, _) ↦
          subst Ends
            (sym (
              bind-ok (catching (run_saga reply r s b) undo) finishing w
                (catching-ok (run_saga reply r s b) undo w q)))
            (finished a (paying a b) v row other same refl refl seats total)
      | inr (e, v, q, (x, row, same')) ↦
          let gone = abandon_lem {A = Answer} reply b (sorted_ids r) e old x v row other same' in
          subst Ends
            (sym (
              bind-err (catching (run_saga reply r s b) undo) finishing w
                (catching-err (run_saga reply r s b) undo w q ∙ err_pair (undo e v) e gone.0)))
            (inr (
              record x { status = failed; failure_reason = some (creation_failed e) },
              gone.1,
              refl,
            ))
    ]

-- The ids of the bookings are below the next one.
abbrev pub IsFresh : World → Type 0
IsFresh w = All (λ (b : Booking). b.id < w.next_id) w.bookings

module _ (reply : Reply) (r : Request) (s : Surroundings) where
  module _ (a : Availability) (vs : List SeatView)
      (picked : seat_ids (map booked_seat vs) ≡ r.seat_ids) where
    inserted : World → World
    inserted w = record w {
      bookings = w.bookings ++ new_booking w.next_id r s a vs ∷ [];
      next_id = suc w.next_id;
    }

    written : (w : World) → IsFresh w → Ends reply r w.bookings (write_booking reply r s a vs w)
    unfolding write_booking insert_booking inserted new_booking has_id
    written w fresh =
        elim (Bool-cases
          (any (has_key r.idempotency_key) w.bookings || has_duplicates r.seat_ids)) [
            | inl e ↦
                let q : insert_booking r s a vs w ≡ (err (database unique_violation), w) =
                  rw e refl in
                subst (Ends reply r w.bookings)
                  (sym (bind-err (insert_booking r s a vs) (pay_booking reply r s) w q)) (inl refl)
            | inr e ↦
                let q : insert_booking r s a vs w
                    ≡ (ok (new_booking w.next_id r s a vs), inserted w) =
                  rw e refl in
                subst (Ends reply r w.bookings)
                  (sym (bind-ok (insert_booking r s a vs) (pay_booking reply r s) w q))
                  (paid_booking reply r w.bookings s (new_booking w.next_id r s a vs) (inserted w)
                    refl (fresh-AllOther w.next_id w.bookings fresh) (==_refl w.next_id) picked
                    (total_price-charge vs))
          ]

  module _ (old : List Booking) where
    releasing : ℕ → Failure → Act World BookingResponse
    releasing value e = modify (release_locks r s value) >> fail e

    released :
        (value : ℕ) (m : Act World BookingResponse) (w : World) (x : Result BookingResponse × World)
        → m w ≡ x
        → Ends reply r old x
        → Ends reply r old (catching m (releasing value) w)
    unfolding release_locks releasing
    released value m w (ok resp, v) q h =
        subst (Ends reply r old) (sym (catching-ok m (releasing value) w q)) h
    released value m w (err e, v) q h =
        subst (Ends reply r old) (sym (catching-err m (releasing value) w q)) h

  locked :
      (a : Availability) (vs : List SeatView) (o : Option ℕ) (w : World)
      → seat_ids (map booked_seat vs) ≡ r.seat_ids
      → IsFresh w
      → Ends reply r w.bookings (with_locks reply r s a vs o w)
  unfolding with_locks reserve releasing
  locked a vs none w picked fresh = inl refl
  locked a vs (some value) w picked fresh =
      released w.bookings value (write_booking reply r s a vs) w (write_booking reply r s a vs w)
        refl (written a vs picked w fresh)

  abbrev after_check : Availability × List SeatView → Act World BookingResponse
  after_check found = acquire_locks r s >>= with_locks reply r s found.0 found.1

  checked :
      (w : World) (x : Result (Availability × List SeatView) × World)
      → check_seats r s w ≡ x
      → Checked r w x
      → IsFresh w
      → Ends reply r w.bookings (book_seats reply r s w)
  unfolding book_seats acquire_locks
  checked w (err e, v) q c fresh =
      subst (Ends reply r w.bookings) (sym (bind-err (check_seats r s) after_check w q))
        (inl (ap (λ (u : World). u.bookings) c))
  checked w (ok (a, vs), v) q c fresh =
      subst (Ends reply r w.bookings) (sym (bind-ok (check_seats r s) after_check w q)) (
        subst (λ l. Ends reply r l (after_check (a, vs) v)) (ap (λ (u : World). u.bookings) c.0)
          (locked a vs
            (acquire_seat_locks s.up s.locked_at s.lock_value s.booking_ttl r.schedule_id
              (sorted_ids r) r.from_seq r.to_seq v.store).0
            (acquire_locks r s v).1 c.1 (subst IsFresh (sym c.0) fresh)))

-- Guards that write nothing.
abbrev Guard : Act World (Unit {0}) → World → Type 0
Guard m w = (m w ≡ (ok tt, w)) ⊎ ((e : Failure) × (m w ≡ (err e, w)))

fail_if-Guard : (b : Bool) (e : Failure) (w : World) → Guard (fail_if b e) w
fail_if-Guard true e w = inr (e, refl)
fail_if-Guard false e w = inl refl

validate-Guard : (r : Request) (w : World) → Guard (validate r) w
unfolding validate
validate-Guard r w = fail_if-Guard (is_malformed r) (bad_request_error bad_request) w

-- How createBooking ends: with the response on record, and nothing written; or as described.
abbrev pub Outcome : Request → World → Result BookingResponse × World → Type 0
Outcome r w (ok resp, v) =
    ((old : Record) × (recorded r.idempotency_key w ≡ some old) × (old.response ≡ resp) × (v ≡ w))
    ⊎ Granted r w.bookings resp v
Outcome r w (err e, v) = (v.bookings ≡ w.bookings) ⊎ FailedRow w.bookings v

Ends-Outcome :
    (reply : Reply) (r : Request) (w : World) (x : Result BookingResponse × World)
    → Ends reply r w.bookings x
    → Outcome r w x
Ends-Outcome reply r w (ok resp, v) h = inr h
Ends-Outcome reply r w (err e, v) h = h

replayed_or_booked :
    (reply : Reply) (r : Request) (s : Surroundings) (w : World) (o : Option Record)
    → recorded r.idempotency_key w ≡ o
    → IsFresh w
    → Outcome r w (replay_or_book reply r s o w)
unfolding replay_or_book
replayed_or_booked reply r s w (some old) q fresh = inl (old, q, refl, refl)
replayed_or_booked reply r s w none q fresh =
    Ends-Outcome reply r w (book_seats reply r s w)
      (checked reply r s w (check_seats r s w) refl (check_seats-Checked r s w) fresh)

-- Where the ids of the bookings are below the next one: a createBooking that returns either answers
-- from the record of its idempotency key and changes nothing, or adds one booking, which waits for its
-- payment with the order's id, has the seats of the request in their order, costs what these cost, and
-- is what the response shows. One that throws leaves the bookings as they were, or adds one that is
-- FAILED.
pub create_booking-Outcome :
    (reply : Reply) (r : Request) (s : Surroundings) (w : World)
    → IsFresh w
    → Outcome r w (create_booking reply r s w)
unfolding create_booking
create_booking-Outcome reply r s w fresh = elim (validate-Guard r w) [
  | inr (e, q) ↦ subst (Outcome r w) (sym (bind-err (validate r) (λ _. rest) w q)) (inl refl)
  | inl q ↦
      subst (Outcome r w) (sym (bind-ok (validate r) (λ _. rest) w q))
        (replayed_or_booked reply r s w (recorded r.idempotency_key w) refl fresh)
]
  where
    rest : Act World BookingResponse
    rest = gets (recorded r.idempotency_key) >>= replay_or_book reply r s
