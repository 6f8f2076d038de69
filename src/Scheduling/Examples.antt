-- ===== src/Scheduling/Examples.antt =====
-- A concrete schedule of a train with two seats and two stops.
use railway_booking_system.Base.{
  ℕ, ◌≡◌, refl, Option, none, some, List, [], ◌∷◌, ◌++◌, map, All, AllPairs, ◌≤◌, arith,
}
use railway_booking_system.Errors.{ok}
use railway_booking_system.Inventory.Rows.{available, Seat, Db}
use railway_booking_system.Inventory.Lifecycle.{
  applied, initialize_inventory, was_processed, clashes, clashing_stops,
}
use railway_booking_system.Inventory.Filling.{DistinctSeats, DistinctStops, IsUnknown}
use railway_booking_system.Admin.Rows.{
  Station, lower, upper, Route, Train, StopPayload, SchedulePayload, schedule_created, World,
  has_train_id,
}
use railway_booking_system.Admin.Trains.{ordered_train}
use railway_booking_system.Admin.Schedules.{
  runs_on, has_no_seats, stop_payloads, schedule_payload, new_schedule, add_schedule, publish,
  create_schedule,
}
use railway_booking_system.Scheduling.{
  received, seat_id_of, train_seat_id, scheduled, payload, IsSchedulable, create_schedule-fills,
}

abbrev station : ℕ → Station
station n = record { id = n; name = n; code = n; city = n; state = none }

abbrev route : Route
route = record {
  id = 9;
  route_stations =
      record {
        station_id = 1;
        sequence_number = 1;
        arrival_time = none;
        departure_time = some 5;
        distance_from_origin = 0;
      }
      ∷ record {
        station_id = 2;
        sequence_number = 2;
        arrival_time = some 8;
        departure_time = none;
        distance_from_origin = 40;
      }
      ∷ [];
}

abbrev train : Train
train = record {
  id = 7;
  train_number = 12301;
  train_name = 70;
  coach_name = 1;
  total_seats = 2;
  seats =
      record { id = 31; seat_number = 2; seat_type = lower; price = 500 }
      ∷ record { id = 30; seat_number = 1; seat_type = upper; price = 400 }
      ∷ [];
  route = some route;
}

abbrev world : World
world = record {
  stations = station 1 ∷ station 2 ∷ [];
  trains = train ∷ [];
  schedules = [];
  events = [];
  next_id = 50;
}

abbrev stop : (n : ℕ) → (arrival departure : Option ℕ) → (distance : ℕ) → StopPayload
stop n arrival departure distance = record {
  station_id = n;
  station_name = n;
  station_code = n;
  city = n;
  sequence_number = n;
  arrival_time = arrival;
  departure_time = departure;
  distance_from_origin = distance;
}

abbrev both_stops : List StopPayload
both_stops = stop 1 none (some 5) 0 ∷ stop 2 (some 8) none 40 ∷ []

abbrev empty_tables : Db
empty_tables = record {
  schedules = [];
  seats = [];
  segment_locks = [];
  route_stops = [];
  processed = [];
  next_id = 1;
}

abbrev reads_date : ℕ → Option ℕ
reads_date text = some text

abbrev sent : SchedulePayload
sent = payload reads_date 7 20 20 train route both_stops world

schedulable : IsSchedulable reads_date 7 20 20 train route both_stops world
unfolding has_train_id ordered_train has_no_seats runs_on stop_payloads add_schedule new_schedule
schedulable = record {
  train_found = refl;
  routed = refl;
  seated = refl;
  dated = refl;
  is_first = refl;
  stops_found = refl;
}

seats_differ : DistinctSeats (received sent).seats
unfolding DistinctSeats received payload schedule_payload ordered_train
seats_differ = ((((λ e. omega arith), (λ e. omega arith)), tt), (tt, tt))

stops_differ : DistinctStops (received sent).route
unfolding DistinctStops received payload schedule_payload
stops_differ = ((((λ e. omega arith), (λ e. omega arith)), tt), (tt, tt))

unknown : IsUnknown 50 (received sent) empty_tables
unfolding was_processed clashes clashing_stops received payload schedule_payload ordered_train
unknown = record {
  no_record = refl;
  no_schedule = refl;
  no_seats = (refl, (refl, tt));
  no_stops = (refl, (refl, tt));
}

create_schedule-fills_example :
    (let e = received sent in
      let s = scheduled reads_date 7 20 20 train route both_stops world in
      (create_schedule reads_date 7 20 world
        ≡ (ok s, publish (schedule_created sent) (add_schedule s world)))
      × ((rows : List Seat) × (db' : Db) × (initialize_inventory e empty_tables ≡ ok (applied, db'))
          × (db'.seats ≡ [] ++ rows)
          × (map seat_id_of rows ≡ map train_seat_id (ordered_train train).seats)
          × AllPairs (λ s t. s.seat_number ≤ t.seat_number) rows
          × All (λ s. s.status ≡ available) rows))
create_schedule-fills_example =
    create_schedule-fills reads_date 7 20 20 train route both_stops world schedulable empty_tables
      seats_differ stops_differ unknown
