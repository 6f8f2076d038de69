-- ===== src/Inventory/Query.antt =====
-- `getAvailability` and `getSeats` of inventory-service/src/services/inventory.service.js.
use railway_booking_system.Base.{
  ℕ, ℤ, Bool, true, ◌&&◌, not, Option, none, some, List, map, elem, select, find_first, ltb,
  sort_by, ◌==◌, if◌then◌else◌,
}
use railway_booking_system.Errors.{not_found_error}
use railway_booking_system.Inventory.Rows.{
  SeatStatus, same_status, is_active, ScheduleStatus, Seat, SegmentLock,
}
use railway_booking_system.Inventory.Transaction.{Tx, pure, gets, or_throw, ◌>>=◌}
use railway_booking_system.Inventory.Aggregates.{is_schedule}

pub record Availability : Type 0 where
  pub schedule_id : ℕ
  pub train_id : ℕ
  pub train_number : ℕ
  pub train_name : ℕ
  pub departure_date : ℕ
  pub status : ScheduleStatus
  pub total_seats : ℕ
  pub n_available : ℤ
  pub n_locked : ℤ
  pub n_booked : ℤ

unfoldable pub get_availability : ℕ → Tx Availability
unfolding is_schedule
get_availability schedule_id = do
  found ← gets (λ db. find_first (is_schedule schedule_id) db.schedules)
  s ← or_throw found not_found_error
  pure (record {
    schedule_id = s.schedule_id;
    train_id = s.train_id;
    train_number = s.train_number;
    train_name = s.train_name;
    departure_date = s.departure_date;
    status = s.status;
    total_seats = s.total_seats;
    n_available = s.n_available;
    n_locked = s.n_locked;
    n_booked = s.n_booked;
  })

-- A sequence number that is given is the integer that its text denotes.
pub record Filters : Type 0 where
  pub status : Option SeatStatus
  pub seat_type : Option ℕ
  pub from_seq : Option ℕ
  pub to_seq : Option ℕ

pub data SegmentStatus : Type 0 where
  seg_available seg_unavailable : SegmentStatus

pub record SeatView : Type 0 where
  pub seat_id : ℕ
  pub seat_number : ℕ
  pub seat_type : ℕ
  pub price : ℕ
  pub status : SeatStatus
  pub locked_by : Option ℕ
  pub lock_expires_at : Option ℕ
  pub booking_id : Option ℕ
  pub segment_status : Option SegmentStatus

unfoldable pub matches_filters : ℕ → Filters → Seat → Bool
unfolding same_status
matches_filters schedule_id f s =
    s.schedule_id == schedule_id
    && elim f.status [ none ↦ true | some st ↦ same_status s.status st ]
    && elim f.seat_type [ none ↦ true | some t ↦ s.seat_type == t ]

-- Active locks of the schedule that overlap the segment.
unfoldable pub overlaps_segment : ℕ → ℕ → ℕ → SegmentLock → Bool
unfolding is_active
overlaps_segment schedule_id from_seq to_seq l =
    l.schedule_id == schedule_id
    && is_active l.status
    && ltb l.from_seq to_seq
    && ltb from_seq l.to_seq

unfoldable pub is_schedule_lock : ℕ → SegmentLock → Bool
unfolding is_active
is_schedule_lock schedule_id l = l.schedule_id == schedule_id && is_active l.status

abbrev pub seat_ids_of : List SegmentLock → List ℕ
seat_ids_of = map (λ (l : SegmentLock). l.seat_id)

unfoldable pub segment_status : List ℕ → List ℕ → Seat → SegmentStatus
unfolding is_active
segment_status blocked with_locks s =
    if elem s.seat_id blocked
    then seg_unavailable
    else if is_active s.status && not (elem s.seat_id with_locks)
    then seg_unavailable
    else seg_available

unfoldable pub view_seat : Option SegmentStatus → Seat → SeatView
view_seat seg s = record {
  seat_id = s.seat_id;
  seat_number = s.seat_number;
  seat_type = s.seat_type;
  price = s.price;
  status = s.status;
  locked_by = s.locked_by;
  lock_expires_at = s.lock_expires_at;
  booking_id = s.booking_id;
  segment_status = seg;
}

unfoldable pub view_in_segment : ℕ → ℕ → ℕ → List SegmentLock → Seat → SeatView
unfolding view_seat segment_status overlaps_segment is_schedule_lock
view_in_segment schedule_id from_seq to_seq locks s =
    view_seat
      (some (
        segment_status (seat_ids_of (select (overlaps_segment schedule_id from_seq to_seq) locks))
          (seat_ids_of (select (is_schedule_lock schedule_id) locks)) s))
      s

abbrev given_segment : Option ℕ → Option ℕ → Option (ℕ × ℕ)
given_segment (some f) (some t) = some (f, t)
given_segment _ _ = none

pub record SeatList : Type 0 where
  pub schedule_id : ℕ
  pub total_seats : ℕ
  pub seats : List SeatView

unfoldable pub get_seats : ℕ → Filters → Tx SeatList
unfolding is_schedule matches_filters sort_by view_seat view_in_segment
get_seats schedule_id f = do
  found ← gets (λ db. find_first (is_schedule schedule_id) db.schedules)
  schedule ← or_throw found not_found_error
  rows ← gets (λ db.
      sort_by (λ (s : Seat). s.seat_number) (select (matches_filters schedule_id f) db.seats))
  locks ← gets (λ db. db.segment_locks)
  pure (record {
    schedule_id = schedule_id;
    total_seats = schedule.total_seats;
    seats = elim (given_segment f.from_seq f.to_seq) [
      | none ↦ map (view_seat none) rows
      | some (a, b) ↦ map (view_in_segment schedule_id a b locks) rows
    ];
  })
