-- ===== src/Inventory/Selection.antt =====
-- What the four seat operations of inventory-service/src/services/inventory.service.js share: the
-- rows they read FOR UPDATE, and the writes of a whole journey.
use railway_booking_system.Base.{
  ℕ, Bool, ◌&&◌, ◌||◌, not, Option, none, some, List, map, length, elem, select, find_first,
  update_where, ltb, holds, ◌==◌, if◌then◌else◌,
}
use railway_booking_system.Errors.{type_error, not_found_error}
use railway_booking_system.Inventory.Rows.{
  locked, same_status, is_active, Schedule, Seat, SegmentLock,
}
use railway_booking_system.Inventory.Transaction.{
  Tx, pure, gets, or_throw, modify, throw_if, ◌>>=◌, ◌>>◌,
}
use railway_booking_system.Inventory.Aggregates.{
  Counts, is_schedule, recompute_segment_seat_statuses, recount_schedule_aggregates, no_changes,
}

-- The test `fromSeq && toSeq`, and both values where it passes.
unfoldable pub segment_of : Option ℕ → Option ℕ → Option (ℕ × ℕ)
segment_of (some f) (some t) = if f == 0 || t == 0 then none else some (f, t)
segment_of _ _ = none

-- WHERE "scheduleId" = … AND "seatId" = ANY(…)
unfoldable pub is_requested : ℕ → List ℕ → Seat → Bool
is_requested schedule_id seat_ids s = s.schedule_id == schedule_id && elem s.seat_id seat_ids

-- WHERE id = ANY(seatPkIds)
abbrev pub has_pk : List Seat → Seat → Bool
has_pk rows s = elem s.id (map (λ (r : Seat). r.id) rows)

-- The rows FOR UPDATE; every requested seat must exist.
unfoldable pub read_seats : ℕ → List ℕ → Tx (List Seat)
unfolding is_requested
read_seats schedule_id seat_ids = do
  seats ← gets (λ db. select (is_requested schedule_id seat_ids) db.seats)
  throw_if (not (length seats == length seat_ids)) not_found_error
  pure seats

-- `findUnique`, then a property of the result: a TypeError where it is null.
unfoldable pub find_schedule : ℕ → Tx Schedule
unfolding is_schedule
find_schedule schedule_id = do
  or_throw (← gets (λ db. find_first (is_schedule schedule_id) db.schedules)) type_error

unfoldable pub update_seats : List Seat → (Seat → Seat) → Tx (Unit {0})
update_seats rows f = modify (λ db. record db { seats = update_where (has_pk rows) f db.seats })

unfoldable pub update_schedule : ℕ → (Schedule → Schedule) → Tx (Unit {0})
unfolding is_schedule
update_schedule schedule_id f =
    modify (λ db. record db { schedules = update_where (is_schedule schedule_id) f db.schedules })

-- After a write to the segment locks: the seats' summary rows and the schedule's counters again.
unfoldable pub refresh : ℕ → List Seat → Tx Counts
unfolding recompute_segment_seat_statuses recount_schedule_aggregates
refresh schedule_id rows = do
  modify (λ db.
      (recompute_segment_seat_statuses schedule_id (map (λ (r : Seat). r.seat_id) rows)
        (no_changes, db)).1)
  r ← gets (recount_schedule_aggregates schedule_id)
  modify (λ _. r.1)
  pure r.0

-- The segment locks of one user on exactly this segment that are not confirmed.
unfoldable pub is_held_segment : ℕ → List ℕ → ℕ → ℕ × ℕ → SegmentLock → Bool
unfolding same_status
is_held_segment schedule_id seat_ids user_id (from_seq, to_seq) l =
    l.schedule_id == schedule_id
    && elem l.seat_id seat_ids
    && holds l.locked_by user_id
    && l.from_seq == from_seq
    && l.to_seq == to_seq
    && same_status l.status locked

-- Active locks of the seats that overlap the segment.
unfoldable pub is_overlapping : ℕ → List ℕ → ℕ × ℕ → SegmentLock → Bool
unfolding is_active
is_overlapping schedule_id seat_ids (from_seq, to_seq) l =
    l.schedule_id == schedule_id
    && elem l.seat_id seat_ids
    && is_active l.status
    && ltb l.from_seq to_seq
    && ltb from_seq l.to_seq

pub record LockedSeat : Type 0 where
  pub seat_id : ℕ
  pub seat_number : ℕ
  pub lock_expires_at : ℕ
