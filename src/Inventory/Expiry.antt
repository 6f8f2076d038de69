-- ===== src/Inventory/Expiry.antt =====
-- `cleanExpiredLocks` of inventory-service/src/utils/lockExpiry.js. Leadership is an argument: what
-- `pg_try_advisory_lock` answered. Its statements do not stand in one transaction: what others commit in
-- between is an argument too.
use railway_booking_system.Base.{
  ℕ, Bool, false, ◌&&◌, Option, none, some, List, [], ◌∷◌, map, elem, select, update_where,
  delete_where, ltb, ◌==◌, if◌then◌else◌,
}
use railway_booking_system.Errors.{ok, err}
use railway_booking_system.Inventory.Rows.{locked, same_status, Seat, SegmentLock, Db}
use railway_booking_system.Inventory.Aggregates.{
  no_changes, recompute_segment_seat_statuses, recount_and_publish,
}
use railway_booking_system.Inventory.Cancel.{unique}
use railway_booking_system.Inventory.Unlock.{release_seat}

-- `lockExpiresAt < now`, false where the column is null
unfoldable pub has_expired : ℕ → Option ℕ → Bool
has_expired now none = false
has_expired now (some t) = ltb t now

unfoldable pub is_expired_lock : ℕ → SegmentLock → Bool
unfolding same_status has_expired
is_expired_lock now l = same_status l.status locked && has_expired now l.lock_expires_at

unfoldable pub is_expired_seat : ℕ → Seat → Bool
unfolding same_status has_expired
is_expired_seat now s = same_status s.status locked && has_expired now s.lock_expires_at

abbrev pub lock_ids : List SegmentLock → List ℕ
lock_ids = map (λ (l : SegmentLock). l.id)

unfoldable pub remove_locks : List SegmentLock → Db → Db
remove_locks expired db = record db {
  segment_locks = delete_where (λ (l : SegmentLock). elem l.id (lock_ids expired)) db.segment_locks;
}

-- The entry of one schedule in `affectedScheduleSeats`.
unfoldable pub affected_seats : ℕ → List SegmentLock → List ℕ
unfolding unique
affected_seats schedule_id expired = unique (
    map (λ (l : SegmentLock). l.seat_id)
      (select (λ (l : SegmentLock). l.schedule_id == schedule_id) expired))

-- The moments between two statements of the job, with the schedule that the next one is about.
pub data Moment : Type 0 where
  before_delete before_seats : Moment
  before_recompute before_recount : (schedule_id : ℕ) → Moment
  before_release before_release_recount : (schedule_id : ℕ) → Moment

-- What the transactions of others make of the tables at each of them.
abbrev pub Others : Type 0
Others = Moment → Db → Db

abbrev pub undisturbed : Others
undisturbed m db = db

-- `findMany`
unfoldable pub expired_locks : ℕ → Db → List SegmentLock
unfolding is_expired_lock
expired_locks now db = select (is_expired_lock now) db.segment_locks

-- The loop over `affectedScheduleSeats`: a transaction that recomputes, then the recount outside it. The
-- error of one recount ends the loop, and what was committed before stays.
unfoldable pub recompute_schedules : Others → List SegmentLock → List ℕ → Db → Db
unfolding affected_seats recompute_segment_seat_statuses recount_and_publish
recompute_schedules others expired [] db = db
recompute_schedules others expired (schedule_id ∷ rest) db =
    let recomputed =
      (recompute_segment_seat_statuses schedule_id (affected_seats schedule_id expired)
        (no_changes, others (before_recompute schedule_id) db)).1 in
    let db' = others (before_recount schedule_id) recomputed in
    elim (recount_and_publish schedule_id db') [
      | ok (_, db'') ↦ recompute_schedules others expired rest db''
      | err _ ↦ db'
    ]

-- The DELETE is by the primary keys that were found, whatever has become of the rows since.
unfoldable pub clean_segment_locks : Others → ℕ → Db → Db
unfolding expired_locks remove_locks recompute_schedules unique
clean_segment_locks others now db =
    let expired = expired_locks now db in
    recompute_schedules others expired (unique (map (λ (l : SegmentLock). l.schedule_id) expired))
      (remove_locks expired (others before_delete db))

-- The UPDATE of one schedule's expired seats, by primary key and while the row is still LOCKED.
unfoldable pub release_expired : List Seat → Db → Db
unfolding same_status release_seat
release_expired rows db = record db {
  seats =
      update_where
        (λ (s : Seat). elem s.id (map (λ (r : Seat). r.id) rows) && same_status s.status locked)
        release_seat db.seats;
}

-- The loop over `bySchedule`; an error of one schedule is logged and the loop goes on.
unfoldable pub release_schedules : Others → List Seat → List ℕ → Db → Db
unfolding release_expired recount_and_publish
release_schedules others expired [] db = db
release_schedules others expired (schedule_id ∷ rest) db =
    let released =
      release_expired (select (λ (s : Seat). s.schedule_id == schedule_id) expired)
        (others (before_release schedule_id) db) in
    let db' = others (before_release_recount schedule_id) released in
    release_schedules others expired rest
      (elim (recount_and_publish schedule_id db') [ ok (_, db'') ↦ db'' | err _ ↦ db' ])

unfoldable pub clean_seats : Others → ℕ → Db → Db
unfolding is_expired_seat release_schedules unique
clean_seats others now db =
    let expired = select (is_expired_seat now) db.seats in
    release_schedules others expired (unique (map (λ (s : Seat). s.schedule_id) expired)) db

unfoldable pub clean_expired_locks : (is_leader : Bool) → Others → (now : ℕ) → Db → Db
unfolding clean_segment_locks clean_seats
clean_expired_locks is_leader others now db =
    if is_leader
    then clean_seats others now (others before_seats (clean_segment_locks others now db))
    else db
