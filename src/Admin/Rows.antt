-- ===== src/Admin/Rows.antt =====
-- The tables of admin-service/prisma/schema.prisma, and the events that are published. A train's route and
-- seats stand with the train, which they belong to. Texts and dates are numbers that are compared, and
-- what is done to a text is an argument; 0 is the empty text.
use railway_booking_system.Base.{ℕ, Bool, true, false, Option, List, find_first, ◌==◌}
use railway_booking_system.Errors.{type_error}
use railway_booking_system.Effects.{Act, gets, or_fail, ◌>>=◌}

pub record Station : Type 0 where
  pub id : ℕ
  pub name : ℕ
  pub code : ℕ
  pub city : ℕ
  pub state : Option ℕ

pub data SeatType : Type 0 where
  lower middle upper side_lower side_upper : SeatType

pub record TrainSeat : Type 0 where
  pub id : ℕ
  pub seat_number : ℕ
  pub seat_type : SeatType
  pub price : ℕ

pub record RouteStation : Type 0 where
  pub station_id : ℕ
  pub sequence_number : ℕ
  pub arrival_time : Option ℕ
  pub departure_time : Option ℕ
  pub distance_from_origin : ℕ

pub record Route : Type 0 where
  pub id : ℕ
  pub route_stations : List RouteStation

pub record Train : Type 0 where
  pub id : ℕ
  pub train_number : ℕ
  pub train_name : ℕ
  pub coach_name : ℕ
  pub total_seats : ℕ
  pub seats : List TrainSeat
  pub route : Option Route

pub data ScheduleStatus : Type 0 where
  active cancelled : ScheduleStatus

unfoldable pub same_schedule_status : ScheduleStatus → ScheduleStatus → Bool
same_schedule_status active active = true
same_schedule_status cancelled cancelled = true
same_schedule_status _ _ = false

pub record Schedule : Type 0 where
  pub id : ℕ
  pub train_id : ℕ
  pub departure_date : ℕ
  pub status : ScheduleStatus

pub record SeatPayload : Type 0 where
  pub seat_id : ℕ
  pub seat_number : ℕ
  pub seat_type : SeatType
  pub price : ℕ

pub record StopPayload : Type 0 where
  pub station_id : ℕ
  pub station_name : ℕ
  pub station_code : ℕ
  pub city : ℕ
  pub sequence_number : ℕ
  pub arrival_time : Option ℕ
  pub departure_time : Option ℕ
  pub distance_from_origin : ℕ

pub record SchedulePayload : Type 0 where
  pub schedule_id : ℕ
  pub train_id : ℕ
  pub train_number : ℕ
  pub train_name : ℕ
  pub coach_name : ℕ
  pub total_seats : ℕ
  pub departure_date : ℕ
  pub status : ScheduleStatus
  pub seats : List SeatPayload
  pub route : List StopPayload

pub data AdminEvent : Type 0 where
  schedule_created : SchedulePayload → AdminEvent
  schedule_cancelled : (schedule_id train_id : ℕ) → AdminEvent

pub record World : Type 0 where
  pub stations : List Station
  pub trains : List Train
  pub schedules : List Schedule
  pub events : List AdminEvent
  pub next_id : ℕ

unfoldable pub has_station_id : ℕ → Station → Bool
has_station_id id s = s.id == id

unfoldable pub has_train_id : ℕ → Train → Bool
has_train_id id t = t.id == id

-- include: {station: true}, which a foreign key keeps there.
unfoldable pub station_of : RouteStation → Act World Station
unfolding has_station_id
station_of rs = do
  s ← gets (λ w. find_first (has_station_id rs.station_id) w.stations)
  or_fail s type_error
