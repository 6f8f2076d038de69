-- ===== src/Inventory/Unlock.antt =====
-- `unlockSeats` of inventory-service/src/services/inventory.service.js, as one attempt of its
-- transaction.
use railway_booking_system.Base.{
  ℕ, ◌+◌, pos, ◌+ℤ◌, ◌-ℤ◌, not, Option, none, some, List, map, length, select, delete_where, holds,
  ltb,
}
use railway_booking_system.Errors.{conflict, forbidden, conflict_error, forbidden_error}
use railway_booking_system.Inventory.Rows.{available, locked, same_status, Schedule, Seat}
use railway_booking_system.Inventory.Transaction.{Tx, pure, modify, throw_if, ◌>>=◌, ◌>>◌}
use railway_booking_system.Inventory.Aggregates.{Counts}
use railway_booking_system.Inventory.Selection.{
  segment_of, read_seats, find_schedule, update_seats, update_schedule, refresh, is_held_segment,
}

pub record UnlockResult : Type 0 where
  pub schedule_id : ℕ
  pub train_id : ℕ
  pub unlocked_seats : List ℕ
  pub counts : Counts

unfoldable pub unlock_result : ℕ → Schedule → List Seat → Counts → UnlockResult
unlock_result schedule_id schedule seats counts = record {
  schedule_id = schedule_id;
  train_id = schedule.train_id;
  unlocked_seats = map (λ (s : Seat). s.seat_id) seats;
  counts = counts;
}

unfoldable pub unlock_segment : ℕ → List ℕ → ℕ → ℕ × ℕ → List Seat → Tx UnlockResult
unfolding is_held_segment refresh find_schedule unlock_result
unlock_segment schedule_id seat_ids user_id segment seats = do
  modify (λ db. record db {
    segment_locks =
        delete_where (is_held_segment schedule_id seat_ids user_id segment) db.segment_locks;
  })
  counts ← refresh schedule_id seats
  schedule ← find_schedule schedule_id
  pure (unlock_result schedule_id schedule seats counts)

unfoldable pub release_seat : Seat → Seat
release_seat s = record s {
  status = available;
  locked_by = none;
  locked_at = none;
  lock_expires_at = none;
  version = s.version + 1;
}

unfoldable pub count_unlocked : ℕ → Schedule → Schedule
unfolding ◌+ℤ◌ ◌-ℤ◌
count_unlocked n s = record s {
  n_available = s.n_available +ℤ pos n;
  n_locked = s.n_locked -ℤ pos n;
  version = s.version + 1;
}

unfoldable pub unlock_journey : ℕ → ℕ → List Seat → Tx UnlockResult
unfolding same_status release_seat count_unlocked update_seats find_schedule update_schedule
    unlock_result
unlock_journey schedule_id user_id seats = do
  let not_locked = select (λ (s : Seat). not (same_status s.status locked)) seats
  throw_if (ltb 0 (length not_locked)) (conflict_error conflict)
  let not_owned = select (λ (s : Seat). not (holds s.locked_by user_id)) seats
  throw_if (ltb 0 (length not_owned)) (forbidden_error forbidden)
  update_seats seats release_seat
  schedule ← find_schedule schedule_id
  update_schedule schedule_id (count_unlocked (length seats))
  pure (
      unlock_result schedule_id schedule seats (record {
        n_available = schedule.n_available +ℤ pos (length seats);
        n_locked = schedule.n_locked -ℤ pos (length seats);
        n_booked = schedule.n_booked;
      }))

unfoldable pub unlock_seats :
    (schedule_id : ℕ) (seat_ids : List ℕ) (user_id : ℕ) (from_seq to_seq : Option ℕ)
    → Tx UnlockResult
unfolding read_seats unlock_segment unlock_journey segment_of
unlock_seats schedule_id seat_ids user_id from_seq to_seq = do
  seats ← read_seats schedule_id seat_ids
  elim (segment_of from_seq to_seq) [
    | some segment ↦ unlock_segment schedule_id seat_ids user_id segment seats
    | none ↦ unlock_journey schedule_id user_id seats
  ]
