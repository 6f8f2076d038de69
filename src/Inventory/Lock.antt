-- ===== src/Inventory/Lock.antt =====
-- `lockSeats` of inventory-service/src/services/inventory.service.js, as one attempt of its
-- transaction. `now` is the time of the call, `default_ttl` the configured LOCK_TTL_SECONDS.
use railway_booking_system.Base.{
  ℕ, ◌+◌, ◌*◌, pos, ◌+ℤ◌, ◌-ℤ◌, not, Option, none, some, List, [], ◌∷◌, ◌++◌, map, length, select,
  find_first, min, max, ◌==◌, if◌then◌else◌, ltb,
}
use railway_booking_system.Errors.{
  bad_request, seats_unavailable, bad_request_error, not_found_error, conflict_error,
}
use railway_booking_system.Inventory.Rows.{
  available, locked, same_status, is_running, Schedule, Seat, SegmentLock, Db,
}
use railway_booking_system.Inventory.Transaction.{
  Tx, pure, gets, or_throw, modify, throw_if, ◌>>=◌, ◌>>◌,
}
use railway_booking_system.Inventory.Aggregates.{Counts, is_schedule}
use railway_booking_system.Inventory.Selection.{
  segment_of, read_seats, update_seats, update_schedule, refresh, is_overlapping, LockedSeat,
}

-- `ttlSeconds || default`, then between one and ten minutes.
unfoldable pub clamp_ttl : ℕ → Option ℕ → ℕ
clamp_ttl default_ttl none = min (max default_ttl 60) 600
clamp_ttl default_ttl (some t) = min (max (if t == 0 then default_ttl else t) 60) 600

unfoldable pub expiry_time : ℕ → ℕ → Option ℕ → ℕ
unfolding clamp_ttl
expiry_time default_ttl now ttl_seconds = now + clamp_ttl default_ttl ttl_seconds * 1000

pub record LockResult : Type 0 where
  pub schedule_id : ℕ
  pub train_id : ℕ
  pub locked_seats : List LockedSeat
  pub lock_expires_at : ℕ
  pub counts : Counts

unfoldable pub lock_result : ℕ → Schedule → List Seat → ℕ → Counts → LockResult
lock_result schedule_id schedule seats expires counts = record {
  schedule_id = schedule_id;
  train_id = schedule.train_id;
  locked_seats =
      map
        (λ (s : Seat). record {
          seat_id = s.seat_id;
          seat_number = s.seat_number;
          lock_expires_at = expires;
        })
        seats;
  lock_expires_at = expires;
  counts = counts;
}

-- `seatSegmentLock.create` for one seat.
unfoldable pub new_lock : ℕ → ℕ → ℕ × ℕ → ℕ → ℕ → Seat → ℕ → SegmentLock
new_lock schedule_id user_id segment now expires s id = record {
  id = id;
  schedule_id = schedule_id;
  seat_id = s.seat_id;
  from_seq = segment.0;
  to_seq = segment.1;
  status = locked;
  locked_by = some user_id;
  locked_at = some now;
  lock_expires_at = some expires;
  booking_id = none;
  version = 0;
}

-- One for each seat, in the order of the rows.
unfoldable pub create_segment_locks : ℕ → List Seat → ℕ → ℕ × ℕ → ℕ → ℕ → ℕ → List SegmentLock
unfolding new_lock
create_segment_locks schedule_id [] user_id segment now expires next_id = []
create_segment_locks schedule_id (s ∷ rest) user_id segment now expires next_id =
    new_lock schedule_id user_id segment now expires s next_id
    ∷ create_segment_locks schedule_id rest user_id segment now expires (next_id + 1)

-- COALESCE(column, value)
unfoldable pub coalesce : Option ℕ → ℕ → Option ℕ
coalesce none v = some v
coalesce (some w) v = some w

unfoldable pub touch_seat : ℕ → ℕ → ℕ → Seat → Seat
unfolding coalesce
touch_seat user_id now expires s = record s {
  locked_by = coalesce s.locked_by user_id;
  locked_at = coalesce s.locked_at now;
  lock_expires_at = some expires;
}

unfoldable pub insert_segment_locks : ℕ → List Seat → ℕ → ℕ × ℕ → ℕ → ℕ → Db → Db
unfolding create_segment_locks
insert_segment_locks schedule_id seats user_id segment now expires db = record db {
  segment_locks =
      db.segment_locks
      ++ create_segment_locks schedule_id seats user_id segment now expires db.next_id;
  next_id = db.next_id + length seats;
}

-- The branch of a segment.
unfoldable pub lock_segment : ℕ → List ℕ → ℕ → ℕ × ℕ → ℕ → ℕ → Schedule → List Seat → Tx LockResult
unfolding is_overlapping insert_segment_locks touch_seat update_seats refresh lock_result
lock_segment schedule_id seat_ids user_id segment now expires schedule seats = do
  overlapping ← gets (λ db. select (is_overlapping schedule_id seat_ids segment) db.segment_locks)
  throw_if (ltb 0 (length overlapping)) (conflict_error seats_unavailable)
  modify (insert_segment_locks schedule_id seats user_id segment now expires)
  update_seats seats (touch_seat user_id now expires)
  counts ← refresh schedule_id seats
  pure (lock_result schedule_id schedule seats expires counts)

unfoldable pub lock_seat : ℕ → ℕ → ℕ → Seat → Seat
lock_seat user_id now expires s = record s {
  status = locked;
  locked_by = some user_id;
  locked_at = some now;
  lock_expires_at = some expires;
  version = s.version + 1;
}

unfoldable pub count_locked : ℕ → Schedule → Schedule
unfolding ◌+ℤ◌ ◌-ℤ◌
count_locked n s = record s {
  n_available = s.n_available -ℤ pos n;
  n_locked = s.n_locked +ℤ pos n;
  version = s.version + 1;
}

-- The branch of the whole journey.
unfoldable pub lock_journey : ℕ → ℕ → ℕ → ℕ → Schedule → List Seat → Tx LockResult
unfolding same_status lock_seat count_locked update_seats update_schedule lock_result
lock_journey schedule_id user_id now expires schedule seats = do
  let unavailable = select (λ (s : Seat). not (same_status s.status available)) seats
  throw_if (ltb 0 (length unavailable)) (conflict_error seats_unavailable)
  update_seats seats (lock_seat user_id now expires)
  update_schedule schedule_id (count_locked (length seats))
  pure (
      lock_result schedule_id schedule seats expires (record {
        n_available = schedule.n_available -ℤ pos (length seats);
        n_locked = schedule.n_locked +ℤ pos (length seats);
        n_booked = schedule.n_booked;
      }))

unfoldable pub lock_seats :
    (default_ttl now schedule_id : ℕ) (seat_ids : List ℕ) (user_id : ℕ)
    → (ttl_seconds from_seq to_seq : Option ℕ) → Tx LockResult
unfolding expiry_time is_running is_schedule read_seats lock_segment lock_journey segment_of
lock_seats default_ttl now schedule_id seat_ids user_id ttl_seconds from_seq to_seq = do
  let expires = expiry_time default_ttl now ttl_seconds
  found ← gets (λ db. find_first (is_schedule schedule_id) db.schedules)
  schedule ← or_throw found not_found_error
  throw_if (not (is_running schedule.status)) (bad_request_error bad_request)
  seats ← read_seats schedule_id seat_ids
  elim (segment_of from_seq to_seq) [
    | some segment ↦ lock_segment schedule_id seat_ids user_id segment now expires schedule seats
    | none ↦ lock_journey schedule_id user_id now expires schedule seats
  ]
