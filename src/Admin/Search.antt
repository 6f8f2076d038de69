-- ===== src/Admin/Search.antt =====
-- The search for trains: admin-service/src/services/search.service.js. What is done to texts and dates is
-- an argument; 0 is the empty text.
use railway_booking_system.Base.{
  ℕ, ◌+◌, Bool, ◌&&◌, ◌||◌, Option, none, some, List, [], ◌∷◌, ◌++◌, map, length, select,
  find_first, any, take, sort_by, ltb, ◌==◌, if◌then◌else◌,
}
use railway_booking_system.Errors.{database, invalid_argument}
use railway_booking_system.Effects.{Act, pure, gets, fail, ◌>>=◌}
use railway_booking_system.Admin.Rows.{
  Station, SeatType, lower, middle, upper, side_lower, side_upper, TrainSeat, RouteStation, Train,
  ScheduleStatus, active, same_schedule_status, Schedule, World,
}
use railway_booking_system.Admin.Trains.{ordered_train}
use railway_booking_system.Admin.Stations.{has_code}
use railway_booking_system.Admin.Schedules.{runs_on}

-- toUpperCase, `contains` in any case, and new Date.
pub record Texts : Type 0 where
  pub upper_case : ℕ → ℕ
  pub contains : (text part : ℕ) → Bool
  pub parse_date : ℕ → Option ℕ

pub record SeatSummary : Type 0 where
  pub total : ℕ
  pub n_lower : ℕ
  pub n_middle : ℕ
  pub n_upper : ℕ
  pub n_side_lower : ℕ
  pub n_side_upper : ℕ

abbrev pub no_seats : SeatSummary
no_seats = record {
  total = 0;
  n_lower = 0;
  n_middle = 0;
  n_upper = 0;
  n_side_lower = 0;
  n_side_upper = 0;
}

unfoldable pub add_seat : SeatType → SeatSummary → SeatSummary
add_seat lower s = record s { total = s.total + 1; n_lower = s.n_lower + 1 }
add_seat middle s = record s { total = s.total + 1; n_middle = s.n_middle + 1 }
add_seat upper s = record s { total = s.total + 1; n_upper = s.n_upper + 1 }
add_seat side_lower s = record s { total = s.total + 1; n_side_lower = s.n_side_lower + 1 }
add_seat side_upper s = record s { total = s.total + 1; n_side_upper = s.n_side_upper + 1 }

unfoldable pub count_seats : List TrainSeat → SeatSummary → SeatSummary
unfolding add_seat
count_seats [] summary = summary
count_seats (s ∷ ss) summary = count_seats ss (add_seat s.seat_type summary)

unfoldable pub build_seat_summary : List TrainSeat → SeatSummary
unfolding count_seats
build_seat_summary seats = count_seats seats no_seats

pub record StopView : Type 0 where
  pub name : ℕ
  pub code : ℕ
  pub time : Option ℕ
  pub station_id : ℕ
  pub sequence_number : ℕ

pub record ScheduleInfo : Type 0 where
  pub schedule_id : ℕ
  pub departure_date : ℕ
  pub status : ScheduleStatus

pub record FoundTrain : Type 0 where
  pub train_id : ℕ
  pub train_number : ℕ
  pub train_name : ℕ
  pub from_stop : StopView
  pub to_stop : StopView
  pub seat_summary : SeatSummary
  pub schedule : Option ScheduleInfo

pub data SearchResult : Type 0 where
  unknown_station : (input : ℕ) → SearchResult
  found : (from_station to_station : Station) (count : ℕ) (trains : List FoundTrain) → SearchResult

unfoldable pub stops_at : (station_id : ℕ) → RouteStation → Bool
stops_at id rs = rs.station_id == id

unfoldable pub stops_of : Train → List RouteStation
stops_of t = elim t.route [ none ↦ [] | some r ↦ r.route_stations ]

-- A candidate: its route has both stations.
unfoldable pub has_both : (from_id to_id : ℕ) → Train → Bool
unfolding stops_of stops_at
has_both from_id to_id t = any (stops_at from_id) (stops_of t) && any (stops_at to_id) (stops_of t)

unfoldable pub is_active_on : (train_id date : ℕ) → Schedule → Bool
unfolding runs_on same_schedule_status
is_active_on train_id date s = runs_on train_id date s && same_schedule_status s.status active

unfoldable pub schedule_info : Schedule → ScheduleInfo
schedule_info s = record {
  schedule_id = s.id;
  departure_date = s.departure_date;
  status = s.status;
}

-- The first schedule of the train on the date, where one is asked for.
unfoldable pub schedule_on :
    (date : Option ℕ) → (train_id : ℕ) → List Schedule → Option ScheduleInfo
unfolding is_active_on schedule_info
schedule_on none train_id schedules = none
schedule_on (some date) train_id schedules =
    elim (find_first (is_active_on train_id date) schedules) [
      | none ↦ none
      | some s ↦ some (schedule_info s)
    ]

unfoldable pub stop_view : Station → RouteStation → (time : Option ℕ) → StopView
stop_view s rs time = record {
  name = s.name;
  code = s.code;
  time = time;
  station_id = rs.station_id;
  sequence_number = rs.sequence_number;
}

module _ (from_station to_station : Station) (date : Option ℕ) (schedules : List Schedule) where
  -- A stop's station is the one that it was found by.
  unfoldable pub train_view : Train → (from_stop to_stop : RouteStation) → FoundTrain
  unfolding stop_view build_seat_summary schedule_on
  train_view t from_stop to_stop = record {
    train_id = t.id;
    train_number = t.train_number;
    train_name = t.train_name;
    from_stop = stop_view from_station from_stop from_stop.departure_time;
    to_stop = stop_view to_station to_stop to_stop.arrival_time;
    seat_summary = build_seat_summary t.seats;
    schedule = schedule_on date t.id schedules;
  }

  unfoldable pub view_stops : Train → (from_stop to_stop : Option RouteStation) → List FoundTrain
  unfolding train_view
  view_stops t (some f) (some g) =
      if ltb f.sequence_number g.sequence_number then train_view t f g ∷ [] else []
  view_stops t _ _ = []

  -- The train's entry, or none where the filter drops it.
  unfoldable pub view_train : Train → List FoundTrain
  unfolding view_stops stops_at stops_of
  view_train t =
      view_stops t (find_first (stops_at from_station.id) (stops_of t))
        (find_first (stops_at to_station.id) (stops_of t))

  unfoldable pub view_trains : List Train → List FoundTrain
  unfolding view_train
  view_trains [] = []
  view_trains (t ∷ ts) = view_train t ++ view_trains ts

module _ (texts : Texts) where
  unfoldable pub is_named : (input : ℕ) → Station → Bool
  is_named input s = texts.contains s.name input || texts.contains s.city input

  unfoldable pub by_name : (input : ℕ) → List Station → Option Station
  unfolding is_named sort_by
  by_name input stations = find_first (is_named input) (sort_by (λ (s : Station). s.name) stations)

  unfoldable pub resolve_station : (input : ℕ) → List Station → Option Station
  unfolding has_code by_name
  resolve_station input stations =
      if input == 0 then none else (elim (find_first (has_code (texts.upper_case input)) stations) [
        | some s ↦ some s
        | none ↦ by_name input stations
      ])

  unfoldable pub candidates : (from_id to_id : ℕ) → List Train → List Train
  unfolding has_both ordered_train sort_by
  candidates from_id to_id trains =
      map ordered_train
        (sort_by (λ (t : Train). t.train_number) (select (has_both from_id to_id) trains))

  unfoldable pub search_between :
      (from_station to_station : Station) → (date : Option ℕ) → World → SearchResult
  unfolding candidates view_trains
  search_between from_station to_station date w =
      let trains =
        view_trains from_station to_station date w.schedules
          (candidates from_station.id to_station.id w.trains) in
      found from_station to_station (length trains) trains

  -- The date, where one is given; Prisma refuses an invalid one.
  unfoldable pub search_on :
      (from_station to_station : Station) → (date : ℕ) → Act World SearchResult
  unfolding search_between
  search_on from_station to_station date =
      if date == 0
      then gets (search_between from_station to_station none)
      else (elim (texts.parse_date date) [
        | none ↦ fail (database invalid_argument)
        | some d ↦ gets (search_between from_station to_station (some d))
      ])

  unfoldable pub search_resolved :
      (from to date : ℕ) → (from_station to_station : Option Station) → Act World SearchResult
  unfolding search_on
  search_resolved from to date none to_station = pure (unknown_station from)
  search_resolved from to date (some f) none = pure (unknown_station to)
  search_resolved from to date (some f) (some g) = search_on f g date

  unfoldable pub search_trains : (from to date : ℕ) → Act World SearchResult
  unfolding resolve_station search_resolved
  search_trains from to date = do
    f ← gets (λ w. resolve_station from w.stations)
    g ← gets (λ w. resolve_station to w.stations)
    search_resolved from to date f g

  pub record Suggestion : Type 0 where
    pub name : ℕ
    pub code : ℕ
    pub station_id : ℕ

  unfoldable pub suggest : Station → Suggestion
  suggest s = record { name = s.name; code = s.code; station_id = s.id }

  unfoldable pub is_match : (prefix : ℕ) → Station → Bool
  is_match prefix s =
      texts.contains s.name prefix || texts.contains s.code prefix || texts.contains s.city prefix

  unfoldable pub autocomplete_station : (prefix : ℕ) → World → List Suggestion
  unfolding is_match suggest sort_by
  autocomplete_station prefix w =
      map suggest
        (take 10 (sort_by (λ (s : Station). s.name) (select (is_match prefix) w.stations)))
