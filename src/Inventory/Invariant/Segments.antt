-- ===== src/Inventory/Invariant/Segments.antt =====
-- `unlockSeats`, `confirmSeats` and `cancelBooking` of a segment keep the invariant.
use railway_booking_system.Base.{
  ℕ, ◌≡◌, refl, ◌∙◌, Bool, List, map, arith, ◌==◌, AllPairs-update_where, AllPairs-delete_where,
  delete_where, update_where, update_row, count_where, Bool-cases, inl, inr,
}
use railway_booking_system.Inventory.Rows.{same_status, is_active, Seat, SegmentLock, Db}
use railway_booking_system.Inventory.Transaction.{Commits-ok, Commits-err}
use railway_booking_system.Inventory.Selection.{is_held_segment}
use railway_booking_system.Inventory.Unlock.{unlock_segment}
use railway_booking_system.Inventory.Confirm.{book_segment, confirm_segment}
use railway_booking_system.Inventory.Cancel.{unique, is_booking_lock, cancel_segment}
use railway_booking_system.Inventory.Invariant.{IsValid, conflicts}
use railway_booking_system.Inventory.Invariant.Reading.{StaysValid, find_schedule-StaysValid}
use railway_booking_system.Inventory.Invariant.Keys.{delete_where-HasKeys, update_where-HasKeys}
use railway_booking_system.Inventory.Invariant.Recompute.{
  refreshed, refreshed-IsValid, IsValid-OthersCounted,
}

delete_locks-IsValid :
    (schedule_id : ℕ) (seat_ids : List ℕ) (p : SegmentLock → Bool) (db : Db)
    → IsValid db
    → IsValid
        (refreshed schedule_id seat_ids
          (record db { segment_locks = delete_where p db.segment_locks })).1
delete_locks-IsValid schedule_id seat_ids p db v =
    refreshed-IsValid schedule_id seat_ids
      (record db { segment_locks = delete_where p db.segment_locks }) v.keyed
      (delete_where-HasKeys p v.lock_keys) (AllPairs-delete_where _ p db.segment_locks v.exclusive)
      v.owned (IsValid-OthersCounted schedule_id v)

module _ (schedule_id : ℕ) (seat_ids : List ℕ) (user_id : ℕ) (segment : ℕ × ℕ)
    (booking_id : ℕ) where
  confirm : SegmentLock → SegmentLock
  confirm =
      update_row (is_held_segment schedule_id seat_ids user_id segment) (book_segment booking_id)

  -- A confirmed lock covers what it covered before.
  confirm-active : (l : SegmentLock) → is_active (confirm l).status ≡ is_active l.status
  unfolding confirm is_held_segment book_segment is_active same_status
  confirm-active l = ground arith

  confirm-place :
      (l : SegmentLock)
      → ((confirm l).schedule_id ≡ l.schedule_id)
        × ((confirm l).seat_id ≡ l.seat_id)
        × ((confirm l).from_seq ≡ l.from_seq)
        × ((confirm l).to_seq ≡ l.to_seq)
  unfolding confirm book_segment
  confirm-place l = ground arith

  confirm-conflicts : (k l : SegmentLock) → conflicts (confirm k) (confirm l) ≡ conflicts k l
  unfolding conflicts
  confirm-conflicts k l =
      let a = confirm-place k in
      let b = confirm-place l in
      cc (confirm-active k, confirm-active l, a.0, a.1, a.2, a.3, b.0, b.1, b.2, b.3)

  confirm_locks-IsValid :
      (ids : List ℕ) (db : Db)
      → IsValid db
      → IsValid
          (refreshed schedule_id ids (record db {
            segment_locks =
                update_where
                  (is_held_segment schedule_id seat_ids user_id segment)
                  (book_segment booking_id)
                  db.segment_locks;
          })).1
  unfolding book_segment
  confirm_locks-IsValid ids db v =
      refreshed-IsValid schedule_id ids
        (record db {
          segment_locks =
              update_where (is_held_segment schedule_id seat_ids user_id segment)
                (book_segment booking_id) db.segment_locks;
        })
        v.keyed (update_where-HasKeys _ (book_segment booking_id) (λ l. refl) v.lock_keys)
        (AllPairs-update_where _ _ (book_segment booking_id) db.segment_locks
          (λ k l h. unfold confirm in (confirm-conflicts k l ∙ h)) v.exclusive)
        v.owned (IsValid-OthersCounted schedule_id v)

  pub confirm_segment-StaysValid :
      (seats : List Seat) (db : Db)
      → IsValid db
      → StaysValid (confirm_segment schedule_id seat_ids user_id booking_id segment seats) db
  unfolding confirm_segment refreshed
  confirm_segment-StaysValid seats db v =
      elim (Bool-cases (
        count_where (is_held_segment schedule_id seat_ids user_id segment) db.segment_locks == 0)) [
          | inl e ↦ rw e (Commits-err _ _)
          | inr e ↦ rw e (
              find_schedule-StaysValid schedule_id _ _ λ s.
                Commits-ok _ _ _ (confirm_locks-IsValid (map (λ (s : Seat). s.seat_id) seats) db v))
        ]

  pub unlock_segment-StaysValid :
      (seats : List Seat) (db : Db)
      → IsValid db
      → StaysValid (unlock_segment schedule_id seat_ids user_id segment seats) db
  unfolding unlock_segment refreshed
  unlock_segment-StaysValid seats db v = find_schedule-StaysValid schedule_id _ _ λ s.
      Commits-ok _ _ _ (
        delete_locks-IsValid schedule_id (map (λ (s : Seat). s.seat_id) seats)
          (is_held_segment schedule_id seat_ids user_id segment) db v)

pub cancel_segment-StaysValid :
    (schedule_id booking_id : ℕ) (locks : List SegmentLock) (db : Db)
    → IsValid db
    → StaysValid (cancel_segment schedule_id booking_id locks) db
unfolding cancel_segment refreshed
cancel_segment-StaysValid schedule_id booking_id locks db v =
    find_schedule-StaysValid schedule_id _ _ λ s. Commits-ok _ _ _ (
      delete_locks-IsValid schedule_id (unique (map (λ (l : SegmentLock). l.seat_id) locks))
        (is_booking_lock schedule_id booking_id) db v)
