-- ===== src/Booking/Create.antt =====
-- `createBooking` of booking-service/src/services/booking.service.js.
use railway_booking_system.Base.{
  ℕ, suc, ◌+◌, ◌*◌, Bool, false, ◌||◌, Option, none, some, List, [], ◌∷◌, ◌++◌, map, length, elem,
  find_first, any, ◌==◌, sort_by, if◌then◌else◌,
}
use railway_booking_system.Errors.{
  ok, err, Failure, database, unique_violation, type_error, seats_locked, conflict_error,
}
use railway_booking_system.Effects.{Act, pure, gets, fail, modify, catching, ◌>>=◌, ◌>>◌}
use railway_booking_system.Inventory.Query.{SeatView}
use railway_booking_system.SeatLocks.{acquire_seat_locks, release_seat_locks}
use railway_booking_system.Booking.Rows.{
  pending, failed, creation_failed, BookingSeat, Person, Passenger, Booking, Answer,
  BookingResponse, Record, World, Reply, has_id,
}
use railway_booking_system.Booking.Saga.{
  update_booking, execute_hold_seats, execute_create_payment, compensate_all,
}
use railway_booking_system.Booking.Checks.{
  Request, Availability, Surroundings, validate, check_seats,
}

unfoldable pub recorded : ℕ → World → Option Record
recorded key w = find_first (λ (r : Record). r.key == key) w.records

unfoldable pub total_price : List SeatView → ℕ
total_price [] = 0
total_price (v ∷ vs) = v.price + total_price vs

abbrev pub booked_seat : SeatView → BookingSeat
booked_seat v = record {
  seat_id = v.seat_id;
  seat_number = v.seat_number;
  seat_type = v.seat_type;
  price = v.price;
}

-- Passengers take the seats in the order of the request.
unfoldable pub seated : List Person → List ℕ → List Passenger
seated [] ids = []
seated (p ∷ ps) [] = record { person = p; seat_id = none } ∷ seated ps []
seated (p ∷ ps) (id ∷ ids) = record { person = p; seat_id = some id } ∷ seated ps ids

-- `x || null`, where 0 is falsy.
abbrev pub or_null : Option ℕ → Option ℕ
or_null none = none
or_null (some n) = if n == 0 then none else some n

unfoldable pub new_booking : ℕ → Request → Surroundings → Availability → List SeatView → Booking
unfolding total_price seated
new_booking id r s a vs = record {
  id = id;
  user_id = r.user_id;
  schedule_id = r.schedule_id;
  train_id = a.train_id;
  train_number = a.train_number;
  train_name = a.train_name;
  departure_date = a.departure_date;
  status = pending;
  total_amount = total_price vs;
  seat_count = length r.seat_ids;
  from_station_id = or_null r.from_station_id;
  to_station_id = or_null r.to_station_id;
  from_seq = or_null r.from_seq;
  to_seq = or_null r.to_seq;
  idempotency_key = r.idempotency_key;
  payment_order_id = none;
  lock_expires_at = some (s.created_at + s.booking_ttl * 1000);
  failure_reason = none;
  version = 0;
  seats = map booked_seat vs;
  passengers = seated r.passengers r.seat_ids;
}

unfoldable pub has_duplicates : List ℕ → Bool
has_duplicates [] = false
has_duplicates (n ∷ ns) = elem n ns || has_duplicates ns

abbrev pub has_key : ℕ → Booking → Bool
has_key key b = b.idempotency_key == key

-- `booking.create`: the idempotency key is unique, and so are the seats of a booking.
unfoldable pub insert_booking :
    Request → Surroundings → Availability → List SeatView → Act World Booking
unfolding new_booking has_duplicates
insert_booking r s a vs w =
    if any (has_key r.idempotency_key) w.bookings || has_duplicates r.seat_ids
    then (err (database unique_violation), w)
    else (
      ok (new_booking w.next_id r s a vs),
      record w {
        bookings = w.bookings ++ new_booking w.next_id r s a vs ∷ [];
        next_id = suc w.next_id;
      },
    )

unfoldable pub respond : Booking → Answer → BookingResponse
respond b order = record {
  booking_id = b.id;
  status = b.status;
  total_amount = b.total_amount;
  lock_expires_at = b.lock_expires_at;
  seats = b.seats;
  passengers = map (λ (p : Passenger). p.person) b.passengers;
  payment_order = order;
}

unfoldable pub save_idempotency : ℕ → BookingResponse → Act World BookingResponse
unfolding recorded
save_idempotency key response w = elim (recorded key w) [
  | some _ ↦ (err (database unique_violation), w)
  | none ↦ (
    ok response,
    record w { records = w.records ++ record { key = key; response = response } ∷ [] },
  )
]

abbrev pub sorted_ids : Request → List ℕ
sorted_ids r = sort_by (λ (n : ℕ). n) r.seat_ids

-- The compensation of a booking that was written.
unfoldable pub abandon : {A : Type 0} → Reply → Booking → List ℕ → Failure → Act World A
unfolding compensate_all update_booking
abandon reply b seat_ids e =
    compensate_all reply b seat_ids
    >> (modify (
          update_booking b.id
            (λ r. record r { status = failed; failure_reason = some (creation_failed e) }))
        >> fail e)

-- Both steps of the saga, and the row as they leave it. Without the row there is nothing to undo.
unfoldable pub run_saga : Reply → Request → Surroundings → Booking → Act World Answer
unfolding execute_hold_seats execute_create_payment
run_saga reply r s b =
    execute_hold_seats reply b (sorted_ids r) s.lock_ttl r.from_seq r.to_seq >>= λ _.
    execute_create_payment reply b

unfoldable pub finish_row : Reply → Request → Answer → Option Booking → Act World BookingResponse
unfolding respond save_idempotency abandon
finish_row reply r order none = fail type_error
finish_row reply r order (some b) =
    catching (save_idempotency r.idempotency_key (respond b order)) (abandon reply b (sorted_ids r))

unfoldable pub finish_booking : Reply → Request → ℕ → Answer → Act World BookingResponse
unfolding has_id finish_row
finish_booking reply r id order =
    gets (λ (w : World). find_first (has_id id) w.bookings) >>= finish_row reply r order

-- With the locks held. `value` is theirs.
unfoldable pub release_locks : Request → Surroundings → (value : ℕ) → World → World
unfolding release_seat_locks
release_locks r s value w = record w {
  store =
      release_seat_locks s.up s.released_at r.schedule_id (sorted_ids r) (some value) r.from_seq
        r.to_seq w.store;
}

unfoldable pub pay_booking : Reply → Request → Surroundings → Booking → Act World BookingResponse
unfolding run_saga abandon finish_booking
pay_booking reply r s b =
    catching (run_saga reply r s b) (abandon reply b (sorted_ids r)) >>= finish_booking reply r b.id

unfoldable pub write_booking :
    Reply → Request → Surroundings → Availability → List SeatView → Act World BookingResponse
unfolding insert_booking pay_booking
write_booking reply r s a vs = insert_booking r s a vs >>= pay_booking reply r s

unfoldable pub reserve :
    Reply
    → Request
    → Surroundings
    → Availability
    → List SeatView
    → (value : ℕ) → Act World BookingResponse
unfolding write_booking release_locks
reserve reply r s a vs value =
    catching (write_booking reply r s a vs) (λ e. modify (release_locks r s value) >> fail e)

unfoldable pub acquire_locks : Request → Surroundings → Act World (Option ℕ)
unfolding acquire_seat_locks
acquire_locks r s w =
    let x =
      acquire_seat_locks s.up s.locked_at s.lock_value s.booking_ttl r.schedule_id (sorted_ids r)
        r.from_seq r.to_seq w.store in
    (ok x.0, record w { store = x.1 })

unfoldable pub with_locks :
    Reply
    → Request
    → Surroundings
    → Availability
    → List SeatView
    → Option ℕ
    → Act World BookingResponse
unfolding reserve
with_locks reply r s a vs none = fail (conflict_error seats_locked)
with_locks reply r s a vs (some value) = reserve reply r s a vs value

unfoldable pub book_seats : Reply → Request → Surroundings → Act World BookingResponse
unfolding check_seats acquire_locks with_locks
book_seats reply r s =
    check_seats r s >>= λ found. acquire_locks r s >>= with_locks reply r s found.0 found.1

unfoldable pub replay_or_book :
    Reply → Request → Surroundings → Option Record → Act World BookingResponse
unfolding book_seats
replay_or_book reply r s (some old) = pure old.response
replay_or_book reply r s none = book_seats reply r s

unfoldable pub create_booking : Reply → Request → Surroundings → Act World BookingResponse
unfolding validate recorded replay_or_book
create_booking reply r s =
    validate r >> (gets (recorded r.idempotency_key) >>= replay_or_book reply r s)
