-- ===== src/Admin/Examples.antt =====
-- Concrete trains, routes and searches.
use railway_booking_system.Base.{
  ℕ, ◌≡◌, refl, false, none, some, List, [], ◌∷◌, map, length, select, sort_by, arith,
}
use railway_booking_system.Errors.{ok}
use railway_booking_system.Admin.Rows.{Station, RouteStation, Route, lower, Train, World}
use railway_booking_system.Admin.Trains.{StopInput, ordered_train, create_route, get_train_by_id}
use railway_booking_system.Admin.Search.{
  Texts, FoundTrain, found, stops_of, resolve_station, search_trains,
}
use railway_booking_system.Admin.Way.{InSequence}
use railway_booking_system.Admin.Direction.{goes, HasSequence, id_of, found_id, search_trains-exact}
use railway_booking_system.Admin.Numbering.{sequence_number_of, numbers_from, create_route-numbered}

abbrev station : ℕ → Station
station n = record { id = n; name = n; code = n; city = n; state = none }

abbrev express : Train
express = record {
  id = 7;
  train_number = 12301;
  train_name = 70;
  coach_name = 1;
  total_seats = 1;
  seats = record { id = 8; seat_number = 1; seat_type = lower; price = 500 } ∷ [];
  route = none;
}

abbrev plain_world : World
plain_world = record {
  stations = station 1 ∷ station 2 ∷ station 3 ∷ [];
  trains = express ∷ [];
  schedules = [];
  events = [];
  next_id = 10;
}

abbrev stop : (station_id sequence_number : ℕ) → StopInput
stop station_id sequence_number = record {
  station_id = station_id;
  sequence_number = sequence_number;
  arrival_time = 0;
  departure_time = 5;
  distance_from_origin = 0;
}

abbrev stops : List StopInput
stops = stop 2 2 ∷ stop 3 3 ∷ stop 1 1 ∷ []

abbrev made_stop : ℕ → RouteStation
made_stop n = record {
  station_id = n;
  sequence_number = n;
  arrival_time = none;
  departure_time = some 5;
  distance_from_origin = 0;
}

abbrev made : Route
made = record { id = 10; route_stations = made_stop 1 ∷ made_stop 2 ∷ made_stop 3 ∷ [] }

create_route-numbered_example :
    (map sequence_number_of made.route_stations ≡ numbers_from 1 3)
    × ((t : Train) × ((get_train_by_id 7 (create_route 7 stops plain_world).1).0 ≡ ok t)
        × (t.route ≡ some made))
unfolding create_route
create_route-numbered_example =
    create_route-numbered 7 stops plain_world (create_route 7 stops plain_world).1 made refl

abbrev with_route : ℕ → Train
with_route n = record express { id = n; train_number = n; route = some made }

abbrev three_trains : World
three_trains = record plain_world { trains = with_route 22 ∷ express ∷ with_route 21 ∷ [] }

abbrev plain_texts : Texts
plain_texts = record {
  upper_case = λ t. t;
  contains = λ t part. false;
  parse_date = λ date. some date;
}

rising : InSequence made.route_stations
unfolding InSequence
rising = (
  (((omega arith), (λ e. omega arith)), (((omega arith), (λ e. omega arith)), tt)),
  ((((omega arith), (λ e. omega arith)), tt), (tt, tt)),
)

search_trains-exact_example :
    (trains : List FoundTrain) × (search_trains plain_texts 1 3 20 three_trains
      ≡ (ok (found (station 1) (station 3) (length trains) trains), three_trains))
    × (map found_id trains
        ≡ map id_of
            (sort_by (λ (t : Train). t.train_number) (select (goes 1 3) three_trains.trains)))
unfolding resolve_station HasSequence InSequence ordered_train stops_of
search_trains-exact_example =
    search_trains-exact plain_texts 1 3 20 20 (station 1) (station 3) three_trains refl refl refl
      refl (rising, (tt, (rising, tt)))
