-- ===== src/Admin/Schedules.antt =====
-- Schedules and their events: admin-service/src/services/schedule.service.js and
-- admin-service/src/events/producer/admin.producer.js. Reading a date is an argument, and the stream takes
-- every event.
use railway_booking_system.Base.{
  ℕ, ◌+◌, Bool, true, false, ◌&&◌, Option, none, some, List, [], ◌∷◌, ◌++◌, map, select, find_first,
  any, update_where, sort_by, ◌==◌,
}
use railway_booking_system.Errors.{
  database, invalid_argument, conflict, bad_request, not_found_error, conflict_error,
  bad_request_error,
}
use railway_booking_system.Effects.{Act, pure, gets, modify, fail, fail_if, or_fail, ◌>>=◌, ◌>>◌}
use railway_booking_system.Admin.Rows.{
  Station, TrainSeat, RouteStation, Route, Train, ScheduleStatus, active, cancelled,
  same_schedule_status, Schedule, SeatPayload, StopPayload, SchedulePayload, schedule_created,
  schedule_cancelled, AdminEvent, World, has_train_id, station_of,
}
use railway_booking_system.Admin.Trains.{ordered_train}

unfoldable pub runs_on : (train_id date : ℕ) → Schedule → Bool
runs_on train_id date s = s.train_id == train_id && s.departure_date == date

unfoldable pub has_schedule_id : ℕ → Schedule → Bool
has_schedule_id id s = s.id == id

unfoldable pub seat_payload : TrainSeat → SeatPayload
seat_payload s = record {
  seat_id = s.id;
  seat_number = s.seat_number;
  seat_type = s.seat_type;
  price = s.price;
}

unfoldable pub stop_payload : RouteStation → Station → StopPayload
stop_payload rs s = record {
  station_id = s.id;
  station_name = s.name;
  station_code = s.code;
  city = s.city;
  sequence_number = rs.sequence_number;
  arrival_time = rs.arrival_time;
  departure_time = rs.departure_time;
  distance_from_origin = rs.distance_from_origin;
}

unfoldable pub stop_payloads : List RouteStation → Act World (List StopPayload)
unfolding station_of stop_payload
stop_payloads [] = pure []
stop_payloads (rs ∷ rest) = do
  s ← station_of rs
  payloads ← stop_payloads rest
  pure (stop_payload rs s ∷ payloads)

unfoldable pub schedule_payload : Train → Schedule → (date : ℕ) → List StopPayload → SchedulePayload
unfolding seat_payload
schedule_payload t s date stops = record {
  schedule_id = s.id;
  train_id = t.id;
  train_number = t.train_number;
  train_name = t.train_name;
  coach_name = t.coach_name;
  total_seats = t.total_seats;
  departure_date = date;
  status = s.status;
  seats = map seat_payload t.seats;
  route = stops;
}

unfoldable pub new_schedule : (id train_id date : ℕ) → Schedule
new_schedule id train_id date = record {
  id = id;
  train_id = train_id;
  departure_date = date;
  status = active;
}

unfoldable pub add_schedule : Schedule → World → World
add_schedule s w = record w { schedules = w.schedules ++ s ∷ []; next_id = w.next_id + 1 }

unfoldable pub publish : AdminEvent → World → World
publish e w = record w { events = w.events ++ e ∷ [] }

unfoldable pub has_no_seats : List TrainSeat → Bool
has_no_seats [] = true
has_no_seats (_ ∷ _) = false

unfoldable pub publish_created :
    Train → Schedule → (departure_date : ℕ) → List StopPayload → Act World Schedule
unfolding schedule_payload publish
publish_created t s departure_date stops =
    modify (publish (schedule_created (schedule_payload t s departure_date stops))) >> pure s

unfoldable pub store_schedule : Train → Route → (departure_date date : ℕ) → Act World Schedule
unfolding new_schedule add_schedule stop_payloads publish_created
store_schedule t route departure_date date = do
  id ← gets (λ w. w.next_id)
  let s = new_schedule id t.id date
  modify (add_schedule s)
  stops ← stop_payloads route.route_stations
  publish_created t s departure_date stops

unfoldable pub store_once : Train → Route → (departure_date date : ℕ) → Bool → Act World Schedule
unfolding store_schedule
store_once t route departure_date date existing =
    fail_if existing (conflict_error conflict) >> store_schedule t route departure_date date

unfoldable pub schedule_on_date : Train → Route → (departure_date date : ℕ) → Act World Schedule
unfolding runs_on store_once
schedule_on_date t route departure_date date = do
  existing ← gets (λ w. any (runs_on t.id date) w.schedules)
  store_once t route departure_date date existing

module _ (parse_date : ℕ → Option ℕ) where
  unfoldable pub schedule_dated : Train → (departure_date : ℕ) → Route → Act World Schedule
  unfolding schedule_on_date
  schedule_dated t departure_date route = do
    date ← or_fail (parse_date departure_date) (bad_request_error bad_request)
    schedule_on_date t route departure_date date

  unfoldable pub schedule_seated : Train → (departure_date : ℕ) → Route → Act World Schedule
  unfolding has_no_seats schedule_dated
  schedule_seated t departure_date route =
      fail_if (has_no_seats t.seats) (bad_request_error bad_request)
      >> schedule_dated t departure_date route

  unfoldable pub schedule_train : (departure_date : ℕ) → Train → Act World Schedule
  unfolding schedule_seated
  schedule_train departure_date t = do
    route ← or_fail t.route (bad_request_error bad_request)
    schedule_seated t departure_date route

  -- The train that was found has the id that was asked for.
  unfoldable pub create_schedule : (train_id departure_date : ℕ) → Act World Schedule
  unfolding has_train_id ordered_train schedule_train
  create_schedule train_id departure_date = do
    found ← gets (λ w. find_first (has_train_id train_id) w.trains)
    row ← or_fail found not_found_error
    schedule_train departure_date (ordered_train row)

  pub record Query : Type 0 where
    pub train_id : Option ℕ
    pub status : Option ScheduleStatus
    pub date : Option ℕ

  unfoldable pub has_train : Option ℕ → Schedule → Bool
  has_train none s = true
  has_train (some id) s = s.train_id == id

  unfoldable pub in_state : Option ScheduleStatus → Schedule → Bool
  unfolding same_schedule_status
  in_state none s = true
  in_state (some status) s = same_schedule_status s.status status

  unfoldable pub departs_on : Option ℕ → Schedule → Bool
  departs_on none s = true
  departs_on (some date) s = s.departure_date == date

  -- new Date(query.date); Prisma refuses an invalid date.
  unfoldable pub query_date : Option ℕ → Act World (Option ℕ)
  query_date none = pure none
  query_date (some text) = elim (parse_date text) [
    | none ↦ fail (database invalid_argument)
    | some date ↦ pure (some date)
  ]

  -- The schedules; the train that is included with each is left out.
  unfoldable pub get_all_schedules : Query → Act World (List Schedule)
  unfolding has_train in_state departs_on query_date sort_by
  get_all_schedules q = do
    date ← query_date q.date
    rows ← gets (λ w.
        select (λ s. has_train q.train_id s && in_state q.status s && departs_on date s)
          w.schedules)
    pure (sort_by (λ (s : Schedule). s.departure_date) rows)

unfoldable pub cancel_row : Schedule → Schedule
cancel_row s = record s { status = cancelled }

unfoldable pub cancel_schedule : (schedule_id : ℕ) → Act World Schedule
unfolding has_schedule_id cancel_row publish
cancel_schedule schedule_id = do
  found ← gets (λ w. find_first (has_schedule_id schedule_id) w.schedules)
  s ← or_fail found not_found_error
  modify (λ w. record w {
    schedules = update_where (has_schedule_id schedule_id) cancel_row w.schedules;
  })
  modify (publish (schedule_cancelled s.id s.train_id))
  pure (cancel_row s)
