-- ===== src/Booking/CreateExamples.antt =====
-- Requests to booking-service at concrete inputs.
use railway_booking_system.Base.{
  ℕ, arith, ◌≡◌, refl, true, none, some, List, [], ◌∷◌, map, ◌==◌, if◌then◌else◌,
}
use railway_booking_system.Errors.{Result, ok, err, type_error}
use railway_booking_system.Inventory.Rows.{available}
use railway_booking_system.Inventory.Query.{SeatView}
use railway_booking_system.Booking.Rows.{
  payment_pending, failed, Person, Booking, Answer, BookingResponse, hold, order, World, Reply,
}
use railway_booking_system.Booking.Checks.{Request, Surroundings, Availability}
use railway_booking_system.Booking.Create.{create_booking, new_booking}
use railway_booking_system.Booking.Clients.{
  CallOutcome, threw, with_retry, IsBounded, with_retry-IsBounded,
}
use railway_booking_system.Booking.Reads.{BookingItem, Page, get_user_bookings}
use railway_booking_system.Booking.Listing.{Shows, Tells, pages, get_user_bookings_complete}
use railway_booking_system.Booking.Outcome.{create_booking-Outcome}
use railway_booking_system.Booking.Outcome
use railway_booking_system.Booking.Replay.{create_booking-replay}

abbrev empty_world : World
empty_world = record {
  bookings = [];
  saga_logs = [];
  records = [];
  next_id = 1;
  store = λ _. none;
  sent = [];
}

abbrev free_seat : ℕ → SeatView
free_seat n = record {
  seat_id = n;
  seat_number = n;
  seat_type = 0;
  price = 250;
  status = available;
  locked_by = none;
  lock_expires_at = none;
  booking_id = none;
  segment_status = none;
}

abbrev ann : Person
ann = record { name = 1; age = 30; gender = 0 }

abbrev request : Request
request = record {
  user_id = 7;
  schedule_id = 3;
  seat_ids = 12 ∷ 11 ∷ [];
  passengers = ann ∷ ann ∷ [];
  idempotency_key = 8;
  from_station_id = none;
  to_station_id = none;
  from_seq = none;
  to_seq = none;
}

abbrev surroundings : Surroundings
surroundings = record {
  availability = ok (record {
    is_active = true;
    departure_date = 86400000;
    train_id = 5;
    train_number = 12951;
    train_name = 6;
  });
  seats = ok (free_seat 11 ∷ free_seat 12 ∷ []);
  up = true;
  now = 86400007;
  lock_value = 9;
  locked_at = 86400008;
  created_at = 86400009;
  released_at = 86400010;
  booking_ttl = 600;
  lock_ttl = 600;
}

abbrev order_made : Answer
order_made = record {
  payment_order_id = 40;
  gateway_order_id = 41;
  amount = 500;
  currency = 1;
  key_id = 2;
}

abbrev all_answer : Reply
all_answer _ _ = ok order_made

-- Payment-service is down.
abbrev no_payment : Reply
no_payment _ (order _ _ _) = err type_error
no_payment _ _ = ok order_made

abbrev granted : Result BookingResponse × World
granted = create_booking all_answer request surroundings empty_world

abbrev response : BookingResponse
response = record {
  booking_id = 1;
  status = payment_pending;
  total_amount = 500;
  lock_expires_at = some 87000009;
  seats =
      record { seat_id = 12; seat_number = 12; seat_type = 0; price = 250 }
      ∷ record { seat_id = 11; seat_number = 11; seat_type = 0; price = 250 }
      ∷ [];
  passengers = ann ∷ ann ∷ [];
  payment_order = order_made;
}

grants : granted.0 ≡ ok response
unfolding create_booking
grants = refl

calls : granted.1.sent ≡ hold 3 (11 ∷ 12 ∷ []) 7 600 none none ∷ order 1 500 7 ∷ []
unfolding create_booking
calls = refl

fails :
    map
      (λ (b : Booking). b.status)
      (create_booking no_payment request surroundings empty_world).1.bookings
    ≡ failed ∷ []
unfolding create_booking
fails = refl

create_booking-Outcome_example :
    Outcome.Outcome request empty_world (create_booking no_payment request surroundings empty_world)
create_booking-Outcome_example =
    create_booking-Outcome no_payment request surroundings empty_world tt

-- Another user's request with the same key, to services that are down.
abbrev stolen : Request
stolen = record request { user_id = 66; seat_ids = 13 ∷ []; passengers = ann ∷ [] }

create_booking-replay_example :
    create_booking (λ _ _. err type_error) stolen surroundings granted.1 ≡ (ok response, granted.1)
unfolding create_booking
create_booking-replay_example =
    create_booking-replay all_answer (λ _ _. err type_error) request stolen surroundings
      surroundings response empty_world granted.1 tt refl refl refl

-- The first call meets no server and the second a 404.
abbrev lost_then_missing : ℕ → CallOutcome ℕ
lost_then_missing n = if n == 1 then threw none else threw (some 404)

two_calls : (with_retry lost_then_missing).calls ≡ 2
unfolding with_retry
two_calls = refl

with_retry-IsBounded_example : IsBounded lost_then_missing (with_retry lost_then_missing)
with_retry-IsBounded_example = with_retry-IsBounded lost_then_missing

abbrev first_day : Availability
first_day = record {
  is_active = true;
  departure_date = 0;
  train_id = 5;
  train_number = 1;
  train_name = 6;
}

abbrev numbered : ℕ → Booking
numbered n = new_booking n request surroundings first_day (free_seat n ∷ [])

-- Two bookings of the user 7 and, between them, one of another user.
abbrev three_bookings : World
three_bookings = record empty_world {
  bookings = numbered 1 ∷ record (numbered 2) { user_id = 8 } ∷ numbered 3 ∷ [];
}

one_a_page : map (λ (b : BookingItem). b.id) (pages 7 none 1 2 three_bookings) ≡ 3 ∷ 1 ∷ []
unfolding get_user_bookings new_booking
one_a_page = refl

get_user_bookings_complete_example :
    (items : List BookingItem) × Shows 7 none three_bookings.bookings items
    × ((n : ℕ) × ((p : Page) × Tells 7 none 1 three_bookings n items p)
        × (pages 7 none 1 n three_bookings ≡ items))
get_user_bookings_complete_example =
    get_user_bookings_complete 7 none 1 three_bookings (omega arith)
