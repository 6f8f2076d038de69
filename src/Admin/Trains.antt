-- ===== src/Admin/Trains.antt =====
-- Trains and their routes: admin-service/src/services/train.service.js.
use railway_booking_system.Base.{
  ℕ, ◌+◌, suc, Bool, true, false, not, ◌&&◌, ◌||◌, Option, none, some, List, [], ◌∷◌, ◌++◌, map,
  length, elem, select, find_first, any, update_where, sort_by, ◌==◌, if◌then◌else◌,
}
use railway_booking_system.Errors.{
  database, unique_violation, conflict, bad_request, not_found_error, conflict_error,
  bad_request_error,
}
use railway_booking_system.Effects.{Act, pure, gets, modify, fail_if, or_fail, ◌>>=◌, ◌>>◌}
use railway_booking_system.Admin.Rows.{
  Station, SeatType, TrainSeat, RouteStation, Route, Train, World, has_train_id,
}

pub record SeatInput : Type 0 where
  pub seat_number : ℕ
  pub seat_type : SeatType
  pub price : ℕ

pub record TrainInput : Type 0 where
  pub train_number : ℕ
  pub train_name : ℕ
  pub coach_name : ℕ
  pub seats : List SeatInput

-- The text 'AC'.
abbrev pub default_coach : ℕ
default_coach = 1

unfoldable pub has_train_number : ℕ → Train → Bool
has_train_number n t = t.train_number == n

-- new Set(…).size is not the length.
unfoldable pub has_duplicates : List ℕ → Bool
has_duplicates [] = false
has_duplicates (n ∷ ns) = elem n ns || has_duplicates ns

unfoldable pub new_seats : (next_id : ℕ) → List SeatInput → List TrainSeat
new_seats id [] = []
new_seats id (s ∷ ss) =
    record { id = id; seat_number = s.seat_number; seat_type = s.seat_type; price = s.price }
    ∷ new_seats (suc id) ss

unfoldable pub new_train : (next_id : ℕ) → TrainInput → Train
unfolding new_seats
new_train id d = record {
  id = id;
  train_number = d.train_number;
  train_name = d.train_name;
  coach_name = if d.coach_name == 0 then default_coach else d.coach_name;
  total_seats = length d.seats;
  seats = new_seats (suc id) d.seats;
  route = none;
}

unfoldable pub seat_number_of : SeatInput → ℕ
seat_number_of s = s.seat_number

-- include, with the seats by their numbers and the stops by theirs.
unfoldable pub ordered_route : Route → Route
unfolding sort_by
ordered_route r = record r {
  route_stations = sort_by (λ (s : RouteStation). s.sequence_number) r.route_stations;
}

unfoldable pub ordered_train : Train → Train
unfolding sort_by ordered_route
ordered_train t = record t {
  seats = sort_by (λ (s : TrainSeat). s.seat_number) t.seats;
  route = elim t.route [ none ↦ none | some r ↦ some (ordered_route r) ];
}

-- The seats of the train that is returned are ordered; its route is not read.
unfoldable pub create_train : TrainInput → Act World Train
unfolding has_train_number has_duplicates new_train seat_number_of ordered_train
create_train d = do
  existing ← gets (λ w. any (has_train_number d.train_number) w.trains)
  fail_if existing (conflict_error conflict)
  fail_if (has_duplicates (map seat_number_of d.seats)) (bad_request_error bad_request)
  id ← gets (λ w. w.next_id)
  let t = new_train id d
  modify (λ w. record w { trains = w.trains ++ t ∷ []; next_id = id + 1 + length d.seats })
  pure (ordered_train t)

pub record StopInput : Type 0 where
  pub station_id : ℕ
  pub sequence_number : ℕ
  pub arrival_time : ℕ
  pub departure_time : ℕ
  pub distance_from_origin : ℕ

-- `text || null`
unfoldable pub or_null : ℕ → Option ℕ
or_null n = if n == 0 then none else some n

unfoldable pub new_stop : StopInput → RouteStation
unfolding or_null
new_stop s = record {
  station_id = s.station_id;
  sequence_number = s.sequence_number;
  arrival_time = or_null s.arrival_time;
  departure_time = or_null s.departure_time;
  distance_from_origin = s.distance_from_origin;
}

-- The loop over the sorted stops, from the number that is next.
unfoldable pub is_continuous : (expected : ℕ) → List StopInput → Bool
is_continuous n [] = true
is_continuous n (s ∷ ss) = s.sequence_number == n && is_continuous (n + 1) ss

unfoldable pub sequence_of : StopInput → ℕ
sequence_of s = s.sequence_number

unfoldable pub station_id_of : StopInput → ℕ
station_id_of s = s.station_id

unfoldable pub has_route : Train → Bool
has_route t = elim t.route [ none ↦ false | some _ ↦ true ]

unfoldable pub is_one_of : List ℕ → Station → Bool
is_one_of ids s = elem s.id ids

unfoldable pub set_route : (train_id : ℕ) → Route → World → World
unfolding has_train_id
set_route train_id r w = record w {
  trains = update_where (has_train_id train_id) (λ t. record t { route = some r }) w.trains;
  next_id = w.next_id + 1;
}

unfoldable pub new_route : (id : ℕ) → List StopInput → Route
unfolding new_stop
new_route id stops = record { id = id; route_stations = map new_stop stops }

unfoldable pub store_route : (train_id : ℕ) → List StopInput → Act World Route
unfolding new_route set_route ordered_route
store_route train_id stops = do
  id ← gets (λ w. w.next_id)
  modify (set_route train_id (new_route id stops))
  pure (ordered_route (new_route id stops))

-- The indexes let a station stand on a route once.
unfoldable pub store_distinct : (train_id : ℕ) → List StopInput → Act World Route
unfolding has_duplicates station_id_of store_route
store_distinct train_id stops =
    fail_if (has_duplicates (map station_id_of stops)) (database unique_violation)
    >> store_route train_id stops

unfoldable pub store_numbered : (train_id : ℕ) → List StopInput → Act World Route
unfolding is_continuous sequence_of sort_by store_distinct
store_numbered train_id stops =
    fail_if (not (is_continuous 1 (sort_by sequence_of stops))) (bad_request_error bad_request)
    >> store_distinct train_id stops

unfoldable pub unknown_stations : List StopInput → World → Bool
unfolding station_id_of is_one_of
unknown_stations stops w =
    let ids = map station_id_of stops in
    not (length (select (is_one_of ids) w.stations) == length ids)

unfoldable pub check_stations : (train_id : ℕ) → List StopInput → Bool → Act World Route
unfolding store_numbered
check_stations train_id stops unknown =
    fail_if unknown (bad_request_error bad_request) >> store_numbered train_id stops

unfoldable pub find_stations : (train_id : ℕ) → List StopInput → Act World Route
unfolding unknown_stations check_stations
find_stations train_id stops = do
  unknown ← gets (unknown_stations stops)
  check_stations train_id stops unknown

unfoldable pub route_for : (train_id : ℕ) → List StopInput → Train → Act World Route
unfolding has_route find_stations
route_for train_id stops t =
    fail_if (has_route t) (conflict_error conflict) >> find_stations train_id stops

unfoldable pub create_route : (train_id : ℕ) → List StopInput → Act World Route
unfolding has_train_id route_for
create_route train_id stops = do
  found ← gets (λ w. find_first (has_train_id train_id) w.trains)
  t ← or_fail found not_found_error
  route_for train_id stops t

unfoldable pub get_all_trains : World → List Train
unfolding sort_by ordered_train
get_all_trains w = map ordered_train (sort_by (λ (t : Train). t.train_number) w.trains)

unfoldable pub get_train_by_id : (id : ℕ) → Act World Train
unfolding has_train_id ordered_train
get_train_by_id id = do
  found ← gets (λ w. find_first (has_train_id id) w.trains)
  t ← or_fail found not_found_error
  pure (ordered_train t)
