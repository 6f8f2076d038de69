-- ===== src/Inventory/Cancel.antt =====
-- `cancelBooking` of inventory-service/src/services/inventory.service.js, as one attempt of its
-- transaction. The user is an argument that the function does not use.
use railway_booking_system.Base.{
  ℕ, ◌+◌, pos, ◌+ℤ◌, ◌-ℤ◌, Bool, true, false, ◌&&◌, none, List, [], ◌∷◌, map, length, elem, select,
  delete_where, holds, ltb, ◌==◌, if◌then◌else◌,
}
use railway_booking_system.Errors.{not_found_error}
use railway_booking_system.Inventory.Rows.{
  available, booked, same_status, Schedule, Seat, SegmentLock,
}
use railway_booking_system.Inventory.Transaction.{Tx, pure, gets, modify, throw_if, ◌>>=◌, ◌>>◌}
use railway_booking_system.Inventory.Aggregates.{
  Counts, no_changes, recompute_segment_seat_statuses, recount_schedule_aggregates,
}
use railway_booking_system.Inventory.Selection.{find_schedule, update_seats, update_schedule}

pub record CancelResult : Type 0 where
  pub schedule_id : ℕ
  pub train_id : ℕ
  pub booking_id : ℕ
  pub released_seats : List ℕ
  pub counts : Counts

-- `[...new Set(ids)]`: the first of each value, in order.
unfoldable pub unique_from : List ℕ → List ℕ → List ℕ
unique_from seen [] = []
unique_from seen (x ∷ xs) = elim (elem x seen) [
  | true ↦ unique_from seen xs
  | false ↦ x ∷ unique_from (x ∷ seen) xs
]

unfoldable pub unique : List ℕ → List ℕ
unfolding unique_from
unique = unique_from []

unfoldable pub is_booking_lock : ℕ → ℕ → SegmentLock → Bool
is_booking_lock schedule_id booking_id l =
    l.schedule_id == schedule_id && holds l.booking_id booking_id

unfoldable pub is_booked_lock : ℕ → ℕ → SegmentLock → Bool
unfolding is_booking_lock same_status
is_booked_lock schedule_id booking_id l =
    is_booking_lock schedule_id booking_id l && same_status l.status booked

unfoldable pub is_booked_seat : ℕ → ℕ → Seat → Bool
unfolding same_status
is_booked_seat schedule_id booking_id s =
    s.schedule_id == schedule_id && holds s.booking_id booking_id && same_status s.status booked

unfoldable pub cancel_segment : ℕ → ℕ → List SegmentLock → Tx CancelResult
unfolding is_booking_lock recompute_segment_seat_statuses recount_schedule_aggregates find_schedule
    unique
cancel_segment schedule_id booking_id segment_locks = do
  modify (λ db. record db {
    segment_locks = delete_where (is_booking_lock schedule_id booking_id) db.segment_locks;
  })
  let affected = unique (map (λ (l : SegmentLock). l.seat_id) segment_locks)
  modify (λ db. (recompute_segment_seat_statuses schedule_id affected (no_changes, db)).1)
  r ← gets (recount_schedule_aggregates schedule_id)
  modify (λ _. r.1)
  schedule ← find_schedule schedule_id
  pure (record {
    schedule_id = schedule_id;
    train_id = schedule.train_id;
    booking_id = booking_id;
    released_seats = affected;
    counts = r.0;
  })

unfoldable pub free_seat : Seat → Seat
free_seat s = record s {
  status = available;
  locked_by = none;
  locked_at = none;
  lock_expires_at = none;
  booking_id = none;
  version = s.version + 1;
}

unfoldable pub count_freed : ℕ → Schedule → Schedule
unfolding ◌+ℤ◌ ◌-ℤ◌
count_freed n s = record s {
  n_available = s.n_available +ℤ pos n;
  n_booked = s.n_booked -ℤ pos n;
  version = s.version + 1;
}

unfoldable pub cancel_journey : ℕ → ℕ → Tx CancelResult
unfolding is_booked_seat free_seat count_freed update_seats find_schedule update_schedule
cancel_journey schedule_id booking_id = do
  seats ← gets (λ db. select (is_booked_seat schedule_id booking_id) db.seats)
  throw_if (length seats == 0) not_found_error
  update_seats seats free_seat
  schedule ← find_schedule schedule_id
  update_schedule schedule_id (count_freed (length seats))
  pure (record {
    schedule_id = schedule_id;
    train_id = schedule.train_id;
    booking_id = booking_id;
    released_seats = map (λ (s : Seat). s.seat_id) seats;
    counts = record {
      n_available = schedule.n_available +ℤ pos (length seats);
      n_locked = schedule.n_locked;
      n_booked = schedule.n_booked -ℤ pos (length seats);
    };
  })

unfoldable pub cancel_booking : (schedule_id booking_id user_id : ℕ) → Tx CancelResult
unfolding is_booked_lock cancel_segment cancel_journey
cancel_booking schedule_id booking_id user_id = do
  segment_locks ← gets (λ db. select (is_booked_lock schedule_id booking_id) db.segment_locks)
  if ltb 0 (length segment_locks)
      then cancel_segment schedule_id booking_id segment_locks
      else cancel_journey schedule_id booking_id
