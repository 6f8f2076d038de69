-- ===== src/Inventory/Aggregates.antt =====
-- `recomputeSegmentSeatStatuses` and `recountScheduleAggregates` of
-- inventory-service/src/services/inventory.service.js, and `recountAndPublish`, which writes the same
-- counts outside a transaction.
use railway_booking_system.Base.{
  ℕ, ◌+◌, ℤ, pos, Bool, false, ◌&&◌, not, Option, none, some, List, [], ◌∷◌, any, select,
  find_first, update_where, count_where, ◌==◌, if◌then◌else◌,
}
use railway_booking_system.Errors.{database, record_not_found}
use railway_booking_system.Inventory.Rows.{
  SeatStatus, available, locked, booked, same_status, is_active, Schedule, Seat, SegmentLock, Db,
}
use railway_booking_system.Inventory.Transaction.{Tx, pure, gets, or_throw, modify, ◌>>=◌, ◌>>◌}

-- WHERE "scheduleId" = … AND "seatId" = …
unfoldable pub is_seat : ℕ → ℕ → Seat → Bool
is_seat schedule_id seat_id s = s.schedule_id == schedule_id && s.seat_id == seat_id

unfoldable pub is_active_lock : ℕ → ℕ → SegmentLock → Bool
unfolding is_active
is_active_lock schedule_id seat_id l =
    l.schedule_id == schedule_id && l.seat_id == seat_id && is_active l.status

unfoldable pub summary_status : List SegmentLock → SeatStatus
unfolding same_status
summary_status [] = available
summary_status (l ∷ ls) = if any (λ k. same_status k.status locked) (l ∷ ls) then locked else booked

pub record StatusChanges : Type 0 where
  pub now_available : ℕ
  pub now_occupied : ℕ
  pub locked_to_booked : ℕ
  pub booked_to_locked : ℕ

abbrev pub no_changes : StatusChanges
no_changes = record {
  now_available = 0;
  now_occupied = 0;
  locked_to_booked = 0;
  booked_to_locked = 0;
}

-- `oldStatus` is undefined where no seat row was read.
abbrev pub is_status : Option SeatStatus → SeatStatus → Bool
is_status none b = false
is_status (some a) b = same_status a b

unfoldable pub track : Option SeatStatus → SeatStatus → StatusChanges → StatusChanges
unfolding same_status
track old new c = record {
  now_available =
      c.now_available
      + (if not (is_status old available) && same_status new available then 1 else 0);
  now_occupied =
      c.now_occupied
      + (if is_status old available && not (same_status new available) then 1 else 0);
  locked_to_booked =
      c.locked_to_booked + (if is_status old locked && same_status new booked then 1 else 0);
  booked_to_locked =
      c.booked_to_locked + (if is_status old booked && same_status new locked then 1 else 0);
}

-- The summary row's UPDATE, with its CASE on the new status.
unfoldable pub set_summary : SeatStatus → Seat → Seat
unfolding same_status
set_summary new s = record s {
  status = new;
  locked_by = if same_status new available then none else s.locked_by;
  locked_at = if same_status new available then none else s.locked_at;
  lock_expires_at = if same_status new available then none else s.lock_expires_at;
  booking_id = if same_status new available then none else s.booking_id;
  version = s.version + 1;
}

-- `newStatus`: what the seat's active segment locks say.
unfoldable pub new_status : ℕ → ℕ → Db → SeatStatus
unfolding summary_status is_active_lock
new_status schedule_id seat_id db =
    summary_status (select (is_active_lock schedule_id seat_id) db.segment_locks)

-- `current[0]?.status`
unfoldable pub old_status : ℕ → ℕ → Db → Option SeatStatus
unfolding is_seat
old_status schedule_id seat_id db = elim (find_first (is_seat schedule_id seat_id) db.seats) [
  | none ↦ none
  | some s ↦ some s.status
]

-- One round of the loop: a seat whose status is right already is left alone.
unfoldable pub recompute_seat : ℕ → ℕ → StatusChanges × Db → StatusChanges × Db
unfolding new_status old_status track set_summary
recompute_seat schedule_id seat_id (changes, db) =
    let new = new_status schedule_id seat_id db in
    let old = old_status schedule_id seat_id db in
    if is_status old new then (changes, db) else (
      track old new changes,
      record db { seats = update_where (is_seat schedule_id seat_id) (set_summary new) db.seats },
    )

unfoldable pub recompute_segment_seat_statuses :
    ℕ → List ℕ → StatusChanges × Db → StatusChanges × Db
unfolding recompute_seat
recompute_segment_seat_statuses schedule_id [] acc = acc
recompute_segment_seat_statuses schedule_id (seat_id ∷ rest) acc =
    recompute_segment_seat_statuses schedule_id rest (recompute_seat schedule_id seat_id acc)

unfoldable pub has_status : ℕ → SeatStatus → Seat → Bool
unfolding same_status
has_status schedule_id status s = s.schedule_id == schedule_id && same_status s.status status

pub record Counts : Type 0 where
  pub n_available : ℤ
  pub n_locked : ℤ
  pub n_booked : ℤ

unfoldable pub count_seats : ℕ → List Seat → Counts
unfolding has_status
count_seats schedule_id seats = record {
  n_available = pos (count_where (has_status schedule_id available) seats);
  n_locked = pos (count_where (has_status schedule_id locked) seats);
  n_booked = pos (count_where (has_status schedule_id booked) seats);
}

unfoldable pub is_schedule : ℕ → Schedule → Bool
is_schedule schedule_id s = s.schedule_id == schedule_id

unfoldable pub set_counts : Counts → Schedule → Schedule
set_counts c s = record s {
  n_available = c.n_available;
  n_locked = c.n_locked;
  n_booked = c.n_booked;
  version = s.version + 1;
}

unfoldable pub recount_schedule_aggregates : ℕ → Db → Counts × Db
unfolding count_seats is_schedule set_counts
recount_schedule_aggregates schedule_id db =
    let counts = count_seats schedule_id db.seats in
    (
      counts,
      record db {
        schedules = update_where (is_schedule schedule_id) (set_counts counts) db.schedules;
      },
    )

-- The same recount, run by the expiry job: the update fails where there is no schedule row.
unfoldable pub recount_and_publish : ℕ → Tx Counts
unfolding recount_schedule_aggregates
recount_and_publish schedule_id = do
  found ← gets (λ db. find_first (is_schedule schedule_id) db.schedules)
  _ ← or_throw found (database record_not_found)
  r ← gets (recount_schedule_aggregates schedule_id)
  modify (λ _. r.1)
  pure r.0
