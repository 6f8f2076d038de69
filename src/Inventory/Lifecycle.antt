-- ===== src/Inventory/Lifecycle.antt =====
-- `initializeInventory` and `cancelScheduleInventory` of
-- inventory-service/src/services/inventory.service.js: what the schedule events do to the tables.
use railway_booking_system.Base.{
  ℕ, suc, ◌+◌, pos, Bool, true, false, ◌&&◌, ◌||◌, Option, none, some, List, [], ◌∷◌, ◌++◌, length,
  any, update_where, ◌==◌, if◌then◌else◌,
}
use railway_booking_system.Errors.{database, unique_violation}
use railway_booking_system.Inventory.Rows.{
  available, cancelled, schedule_active, schedule_cancelled, Schedule, Seat, RouteStop, EventKey,
  created_event, cancelled_event, Db,
}
use railway_booking_system.Inventory.Transaction.{Tx, pure, gets, modify, throw_if, ◌>>=◌, ◌>>◌}
use railway_booking_system.Inventory.Aggregates.{is_schedule}

pub record SeatData : Type 0 where
  pub seat_id : ℕ
  pub seat_number : ℕ
  pub seat_type : ℕ
  pub price : ℕ

pub record StopData : Type 0 where
  pub station_id : ℕ
  pub station_name : ℕ
  pub station_code : ℕ
  pub sequence_number : ℕ

-- SCHEDULE_CREATED; a field that is missing is `none`, or the empty list.
pub record CreatedEvent : Type 0 where
  pub schedule_id : Option ℕ
  pub train_id : ℕ
  pub train_number : ℕ
  pub train_name : ℕ
  pub departure_date : ℕ
  pub seats : List SeatData
  pub route : List StopData

-- How a handler ended that did not throw.
pub data Handled : Type 0 where
  invalid_event duplicate_event unknown_schedule applied : Handled

unfoldable pub same_event : EventKey → EventKey → Bool
same_event (created_event a) (created_event b) = a == b
same_event (cancelled_event a) (cancelled_event b) = a == b
same_event _ _ = false

unfoldable pub was_processed : EventKey → Db → Bool
unfolding same_event
was_processed k db = any (same_event k) db.processed

unfoldable pub new_seat : ℕ → ℕ → SeatData → Seat
new_seat id schedule_id d = record {
  id = id;
  schedule_id = schedule_id;
  seat_id = d.seat_id;
  seat_number = d.seat_number;
  seat_type = d.seat_type;
  price = d.price;
  status = available;
  locked_by = none;
  locked_at = none;
  lock_expires_at = none;
  booking_id = none;
  version = 0;
}

-- The two unique indexes of seat_inventories.
unfoldable pub clashes : Seat → Seat → Bool
clashes s t =
    s.schedule_id == t.schedule_id && (s.seat_id == t.seat_id || s.seat_number == t.seat_number)

-- `createMany`: each row gets a fresh primary key, and a clash with a row that is there fails.
unfoldable pub create_seats : ℕ → List SeatData → Tx (Unit {0})
unfolding new_seat clashes
create_seats schedule_id [] = pure tt
create_seats schedule_id (d ∷ ds) = do
  id ← gets (λ db. db.next_id)
  let s = new_seat id schedule_id d
  clash ← gets (λ db. any (clashes s) db.seats)
  throw_if clash (database unique_violation)
  modify (λ db. record db { seats = db.seats ++ s ∷ []; next_id = suc db.next_id })
  create_seats schedule_id ds

unfoldable pub new_stop : ℕ → StopData → RouteStop
new_stop schedule_id d = record {
  schedule_id = schedule_id;
  station_id = d.station_id;
  station_name = d.station_name;
  station_code = d.station_code;
  sequence_number = d.sequence_number;
}

unfoldable pub clashing_stops : RouteStop → RouteStop → Bool
clashing_stops a b =
    a.schedule_id == b.schedule_id
    && (a.station_id == b.station_id || a.sequence_number == b.sequence_number)

unfoldable pub create_stops : ℕ → List StopData → Tx (Unit {0})
unfolding new_stop clashing_stops
create_stops schedule_id [] = pure tt
create_stops schedule_id (d ∷ ds) = do
  let stop = new_stop schedule_id d
  clash ← gets (λ db. any (clashing_stops stop) db.route_stops)
  throw_if clash (database unique_violation)
  modify (λ db. record db { route_stops = db.route_stops ++ stop ∷ [] })
  create_stops schedule_id ds

unfoldable pub new_schedule : ℕ → CreatedEvent → Schedule
new_schedule schedule_id e = record {
  schedule_id = schedule_id;
  train_id = e.train_id;
  train_number = e.train_number;
  train_name = e.train_name;
  departure_date = e.departure_date;
  total_seats = length e.seats;
  n_available = pos (length e.seats);
  n_locked = pos 0;
  n_booked = pos 0;
  status = schedule_active;
  version = 0;
}

unfoldable pub record_created : ℕ → Tx Handled
record_created schedule_id = do
  modify (λ db. record db { processed = db.processed ++ created_event schedule_id ∷ [] })
  pure applied

-- The transaction of `initializeInventory`.
unfoldable pub create_inventory : ℕ → CreatedEvent → Tx Handled
unfolding is_schedule new_schedule create_seats create_stops record_created
create_inventory schedule_id e = do
  taken ← gets (λ db. any (is_schedule schedule_id) db.schedules)
  throw_if taken (database unique_violation)
  modify (λ db. record db { schedules = db.schedules ++ new_schedule schedule_id e ∷ [] })
  create_seats schedule_id e.seats
  create_stops schedule_id e.route
  record_created schedule_id

abbrev pub is_empty : List SeatData → Bool
is_empty [] = true
is_empty (_ ∷ _) = false

-- The event of a schedule whose id is there.
unfoldable pub initialize_schedule : ℕ → CreatedEvent → Tx Handled
unfolding was_processed create_inventory
initialize_schedule schedule_id e = do
  seen ← gets (was_processed (created_event schedule_id))
  if is_empty e.seats
      then pure invalid_event
      else if seen
      then pure duplicate_event
      else create_inventory schedule_id e

abbrev pub with_id : Option ℕ → (ℕ → Tx Handled) → Tx Handled
with_id none f = pure invalid_event
with_id (some id) f = f id

unfoldable pub initialize_inventory : CreatedEvent → Tx Handled
unfolding initialize_schedule
initialize_inventory e = with_id e.schedule_id (λ id. initialize_schedule id e)

-- SCHEDULE_CANCELLED, whose fields may stand under `data`.
pub record CancelFields : Type 0 where
  pub schedule_id : Option ℕ
  pub id : Option ℕ

pub record CancelledEvent : Type 0 where
  pub nested : Option CancelFields
  pub fields : CancelFields

abbrev or_else {ℓ} : {A : Type ℓ} → Option A → A → A
or_else none d = d
or_else (some a) d = a

abbrev first_of_ids : Option ℕ → Option ℕ → Option ℕ
first_of_ids none b = b
first_of_ids (some a) b = some a

unfoldable pub event_schedule_id : CancelledEvent → Option ℕ
event_schedule_id e = let f = or_else e.nested e.fields in first_of_ids f.schedule_id f.id

unfoldable pub close_schedule : Schedule → Schedule
close_schedule s = record s {
  status = schedule_cancelled;
  n_available = pos 0;
  n_locked = pos 0;
  n_booked = pos 0;
  version = s.version + 1;
}

unfoldable pub in_schedule : ℕ → Seat → Bool
in_schedule schedule_id s = s.schedule_id == schedule_id

unfoldable pub close_seat : Seat → Seat
close_seat s = record s { status = cancelled }

-- The transaction of `cancelScheduleInventory`.
unfoldable pub close_inventory : ℕ → Db → Db
unfolding is_schedule close_schedule in_schedule close_seat
close_inventory schedule_id db = record db {
  schedules = update_where (is_schedule schedule_id) close_schedule db.schedules;
  seats = update_where (in_schedule schedule_id) close_seat db.seats;
  processed = db.processed ++ cancelled_event schedule_id ∷ [];
}

unfoldable pub cancel_schedule : ℕ → Tx Handled
unfolding was_processed close_inventory is_schedule
cancel_schedule schedule_id = do
  seen ← gets (was_processed (cancelled_event schedule_id))
  known ← gets (λ db. any (is_schedule schedule_id) db.schedules)
  if seen
      then pure duplicate_event
      else if known
      then (do modify (close_inventory schedule_id); pure applied)
      else pure unknown_schedule

unfoldable pub cancel_schedule_inventory : CancelledEvent → Tx Handled
unfolding event_schedule_id cancel_schedule
cancel_schedule_inventory e = with_id (event_schedule_id e) cancel_schedule
