-- ===== src/Scheduling.antt =====
-- How a new schedule reaches the seats: admin-service/src/services/schedule.service.js publishes it, and
-- inventory-service/src/services/inventory.service.js fills its tables with what it reads of the message.
mod Examples
use railway_booking_system.Base.{
  ℕ, suc, ◌≡◌, refl, ap, ◌∙◌, Bool, true, false, Option, none, some, List, [], ◌∷◌, ◌++◌, map,
  length, find_first, any, All, AllPairs, ◌≤◌, sort_by-AllPairs, ◌==◌,
}
use railway_booking_system.Errors.{ok, bad_request, bad_request_error, not_found_error}
use railway_booking_system.Effects.{bind-ok, through_fail_if, through_or_fail}
use railway_booking_system.Inventory.Rows.{available, Seat, Db}
use railway_booking_system.Inventory.Lifecycle.{
  SeatData, StopData, CreatedEvent, applied, initialize_inventory, is_empty, new_seat,
}
use railway_booking_system.Inventory.Filling.{
  DistinctSeats, DistinctStops, new_rows, filled, IsUnknown, initialize_inventory-filled,
}
use railway_booking_system.Admin.Rows.{
  SeatType, lower, middle, upper, side_lower, side_upper, TrainSeat, Route, Train, SeatPayload,
  StopPayload, SchedulePayload, Schedule, schedule_created, World, has_train_id,
}
use railway_booking_system.Admin.Trains.{ordered_train}
use railway_booking_system.Admin.Schedules.{
  runs_on, seat_payload, stop_payloads, schedule_payload, publish_created, store_schedule,
  store_once, schedule_on_date, schedule_dated, schedule_seated, schedule_train, new_schedule,
  add_schedule, publish, has_no_seats, create_schedule,
}

-- A seat type as inventory-service keeps it: a text that is only compared.
unfoldable pub seat_type_text : SeatType → ℕ
seat_type_text lower = 0
seat_type_text middle = 1
seat_type_text upper = 2
seat_type_text side_lower = 3
seat_type_text side_upper = 4

unfoldable pub received_seat : SeatPayload → SeatData
unfolding seat_type_text
received_seat s = record {
  seat_id = s.seat_id;
  seat_number = s.seat_number;
  seat_type = seat_type_text s.seat_type;
  price = s.price;
}

unfoldable pub received_stop : StopPayload → StopData
received_stop s = record {
  station_id = s.station_id;
  station_name = s.station_name;
  station_code = s.station_code;
  sequence_number = s.sequence_number;
}

-- What initializeInventory reads of the message.
unfoldable pub received : SchedulePayload → CreatedEvent
unfolding received_seat received_stop
received p = record {
  schedule_id = some p.schedule_id;
  train_id = p.train_id;
  train_number = p.train_number;
  train_name = p.train_name;
  departure_date = p.departure_date;
  seats = map received_seat p.seats;
  route = map received_stop p.route;
}

unfoldable pub seat_id_of : Seat → ℕ
seat_id_of s = s.seat_id

unfoldable pub train_seat_id : TrainSeat → ℕ
train_seat_id s = s.id

received-some :
    (seats : List TrainSeat)
    → has_no_seats seats ≡ false
    → is_empty (map received_seat (map seat_payload seats)) ≡ false
unfolding has_no_seats
received-some [] h = absurd cc
received-some (s ∷ seats) h = refl

rows-ids :
    (next schedule_id : ℕ) (seats : List TrainSeat)
    → map seat_id_of (new_rows next schedule_id (map received_seat (map seat_payload seats)))
      ≡ map train_seat_id seats
unfolding new_rows new_seat received_seat seat_payload seat_id_of train_seat_id
rows-ids next schedule_id [] = refl
rows-ids next schedule_id (s ∷ seats) = ap (λ r. s.id ∷ r) (rows-ids (suc next) schedule_id seats)

rows-available :
    (next schedule_id : ℕ) (ds : List SeatData)
    → All (λ s. s.status ≡ available) (new_rows next schedule_id ds)
unfolding new_rows new_seat
rows-available next schedule_id [] = tt
rows-available next schedule_id (d ∷ ds) = (refl, rows-available (suc next) schedule_id ds)

rows-from :
    (number next schedule_id : ℕ) (seats : List TrainSeat)
    → All (λ t. number ≤ t.seat_number) seats
    → All
        (λ s. number ≤ s.seat_number)
        (new_rows next schedule_id (map received_seat (map seat_payload seats)))
unfolding new_rows new_seat received_seat seat_payload
rows-from number next schedule_id [] h = tt
rows-from number next schedule_id (t ∷ seats) (a, h) =
    (a, rows-from number (suc next) schedule_id seats h)

rows-ordered :
    (next schedule_id : ℕ) (seats : List TrainSeat)
    → AllPairs (λ t u. t.seat_number ≤ u.seat_number) seats
    → AllPairs
        (λ s t. s.seat_number ≤ t.seat_number)
        (new_rows next schedule_id (map received_seat (map seat_payload seats)))
unfolding new_rows new_seat received_seat seat_payload
rows-ordered next schedule_id [] h = tt
rows-ordered next schedule_id (t ∷ seats) (a, h) = (
  rows-from t.seat_number (suc next) schedule_id seats a,
  rows-ordered (suc next) schedule_id seats h,
)

module _ (parse_date : ℕ → Option ℕ) (train_id date day : ℕ) (row : Train) (r : Route)
    (stops : List StopPayload) (w : World) where
  unfoldable pub scheduled : Schedule
  scheduled = new_schedule w.next_id row.id day

  unfoldable pub payload : SchedulePayload
  unfolding scheduled
  payload = schedule_payload (ordered_train row) scheduled date stops

  -- What createSchedule asks for, and the stops' stations as it finds them.
  pub record IsSchedulable : Type 0 where
    pub train_found : find_first (has_train_id train_id) w.trains ≡ some row
    pub routed : (ordered_train row).route ≡ some r
    pub seated : has_no_seats (ordered_train row).seats ≡ false
    pub dated : parse_date date ≡ some day
    pub is_first : any (runs_on row.id day) w.schedules ≡ false
    pub stops_found :
        stop_payloads r.route_stations (add_schedule (new_schedule w.next_id row.id day) w)
        ≡ (ok stops, add_schedule (new_schedule w.next_id row.id day) w)

  schedule_on_date-result :
      IsSchedulable
      → schedule_on_date (ordered_train row) r date day w
        ≡ (ok scheduled, publish (schedule_created payload) (add_schedule scheduled w))
  unfolding schedule_on_date store_once store_schedule publish_created scheduled payload
      ordered_train
  schedule_on_date-result h =
      let s = new_schedule w.next_id row.id day in
      let q =
        bind-ok (stop_payloads r.route_stations) (publish_created (ordered_train row) s date)
          (add_schedule s w) h.stops_found in
      rw h.is_first q

  create_schedule-result :
      IsSchedulable
      → create_schedule parse_date train_id date w
        ≡ (ok scheduled, publish (schedule_created payload) (add_schedule scheduled w))
  unfolding create_schedule schedule_train schedule_seated schedule_dated
  create_schedule-result h =
      let t = ordered_train row in
      through_or_fail (find_first (has_train_id train_id) w.trains) not_found_error
        (λ found. schedule_train parse_date date (ordered_train found)) w h.train_found
      ∙ through_or_fail t.route (bad_request_error bad_request) (schedule_seated parse_date t date)
          w h.routed
      ∙ through_fail_if (has_no_seats t.seats) (bad_request_error bad_request)
          (schedule_dated parse_date t date r) w h.seated
      ∙ through_or_fail (parse_date date) (bad_request_error bad_request)
          (schedule_on_date t r date) w h.dated
      ∙ schedule_on_date-result h

  -- A schedule that can be created is created, and its event is published; an inventory that knows
  -- nothing of the schedule and is handed the event, whose seats and stops differ, is filled with one
  -- row for each seat of the train, in ascending order of the seat numbers, and every row is available.
  pub create_schedule-fills :
      IsSchedulable
      → (db : Db) → DistinctSeats (received payload).seats
      → DistinctStops (received payload).route
      → IsUnknown w.next_id (received payload) db
      → (create_schedule parse_date train_id date w
          ≡ (ok scheduled, publish (schedule_created payload) (add_schedule scheduled w)))
        × ((rows : List Seat) × (db' : Db) × (initialize_inventory (received payload) db
              ≡ ok (applied, db'))
            × (db'.seats ≡ db.seats ++ rows)
            × (map seat_id_of rows ≡ map train_seat_id (ordered_train row).seats)
            × AllPairs (λ s t. s.seat_number ≤ t.seat_number) rows
            × All (λ s. s.status ≡ available) rows)
  unfolding filled payload scheduled schedule_payload received new_schedule ordered_train
  create_schedule-fills h db seats stops_apart unknown =
      let e = received payload in
      (
        create_schedule-result h,
        (
          new_rows db.next_id w.next_id e.seats,
          filled w.next_id e db,
          initialize_inventory-filled w.next_id e db refl
              (received-some (ordered_train row).seats h.seated) seats stops_apart unknown,
          refl,
          rows-ids db.next_id w.next_id (ordered_train row).seats,
          rows-ordered db.next_id w.next_id (ordered_train row).seats
              (sort_by-AllPairs (λ (t : TrainSeat). t.seat_number) row.seats),
          rows-available db.next_id w.next_id e.seats,
        ),
      )
