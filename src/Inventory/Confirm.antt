-- ===== src/Inventory/Confirm.antt =====
-- `confirmSeats` of inventory-service/src/services/inventory.service.js, as one attempt of its
-- transaction.
use railway_booking_system.Base.{
  ℕ, ◌+◌, pos, ◌+ℤ◌, ◌-ℤ◌, not, Option, none, some, List, map, length, select, update_where,
  count_where, holds, ltb, ◌==◌,
}
use railway_booking_system.Errors.{lock_expired, forbidden, conflict_error, forbidden_error}
use railway_booking_system.Inventory.Rows.{
  SeatStatus, locked, booked, same_status, Schedule, Seat, SegmentLock,
}
use railway_booking_system.Inventory.Transaction.{Tx, pure, gets, modify, throw_if, ◌>>=◌, ◌>>◌}
use railway_booking_system.Inventory.Aggregates.{Counts}
use railway_booking_system.Inventory.Selection.{
  segment_of, read_seats, find_schedule, update_seats, update_schedule, refresh, is_held_segment,
}

pub record ConfirmedSeat : Type 0 where
  pub seat_id : ℕ
  pub seat_number : ℕ
  pub status : SeatStatus

pub record ConfirmResult : Type 0 where
  pub schedule_id : ℕ
  pub train_id : ℕ
  pub booking_id : ℕ
  pub confirmed_seats : List ConfirmedSeat
  pub counts : Counts

unfoldable pub confirm_result : ℕ → Schedule → ℕ → List Seat → Counts → ConfirmResult
confirm_result schedule_id schedule booking_id seats counts = record {
  schedule_id = schedule_id;
  train_id = schedule.train_id;
  booking_id = booking_id;
  confirmed_seats =
      map
        (λ (s : Seat). record { seat_id = s.seat_id; seat_number = s.seat_number; status = booked })
        seats;
  counts = counts;
}

unfoldable pub book_segment : ℕ → SegmentLock → SegmentLock
book_segment booking_id l = record l {
  status = booked;
  lock_expires_at = none;
  booking_id = some booking_id;
  version = l.version + 1;
}

unfoldable pub confirm_segment : ℕ → List ℕ → ℕ → ℕ → ℕ × ℕ → List Seat → Tx ConfirmResult
unfolding is_held_segment book_segment refresh find_schedule confirm_result
confirm_segment schedule_id seat_ids user_id booking_id segment seats = do
  updated ←
      gets
        (λ db. count_where (is_held_segment schedule_id seat_ids user_id segment) db.segment_locks)
  modify (λ db. record db {
    segment_locks =
        update_where (is_held_segment schedule_id seat_ids user_id segment)
          (book_segment booking_id) db.segment_locks;
  })
  throw_if (updated == 0) (conflict_error lock_expired)
  counts ← refresh schedule_id seats
  schedule ← find_schedule schedule_id
  pure (confirm_result schedule_id schedule booking_id seats counts)

unfoldable pub book_seat : ℕ → Seat → Seat
book_seat booking_id s = record s {
  status = booked;
  lock_expires_at = none;
  booking_id = some booking_id;
  version = s.version + 1;
}

unfoldable pub count_booked : ℕ → Schedule → Schedule
unfolding ◌+ℤ◌ ◌-ℤ◌
count_booked n s = record s {
  n_locked = s.n_locked -ℤ pos n;
  n_booked = s.n_booked +ℤ pos n;
  version = s.version + 1;
}

unfoldable pub confirm_journey : ℕ → ℕ → ℕ → List Seat → Tx ConfirmResult
unfolding same_status book_seat count_booked update_seats find_schedule update_schedule
    confirm_result
confirm_journey schedule_id user_id booking_id seats = do
  let not_locked = select (λ (s : Seat). not (same_status s.status locked)) seats
  throw_if (ltb 0 (length not_locked)) (conflict_error lock_expired)
  let not_owned = select (λ (s : Seat). not (holds s.locked_by user_id)) seats
  throw_if (ltb 0 (length not_owned)) (forbidden_error forbidden)
  update_seats seats (book_seat booking_id)
  schedule ← find_schedule schedule_id
  update_schedule schedule_id (count_booked (length seats))
  pure (
      confirm_result schedule_id schedule booking_id seats (record {
        n_available = schedule.n_available;
        n_locked = schedule.n_locked -ℤ pos (length seats);
        n_booked = schedule.n_booked +ℤ pos (length seats);
      }))

unfoldable pub confirm_seats :
    (schedule_id : ℕ) (seat_ids : List ℕ) (user_id booking_id : ℕ) (from_seq to_seq : Option ℕ)
    → Tx ConfirmResult
unfolding read_seats confirm_segment confirm_journey segment_of
confirm_seats schedule_id seat_ids user_id booking_id from_seq to_seq = do
  seats ← read_seats schedule_id seat_ids
  elim (segment_of from_seq to_seq) [
    | some segment ↦ confirm_segment schedule_id seat_ids user_id booking_id segment seats
    | none ↦ confirm_journey schedule_id user_id booking_id seats
  ]
