-- ===== src/Inventory/Examples.antt =====
-- Concrete schedules on which the theorems about inventory-service are applied.
use railway_booking_system.Base.{
  ℕ, ◌≡◌, refl, true, none, some, [], ◌∷◌, arith, All, elem, map, ◌≢◌, if◌then◌else◌, ◌==◌, pos,
}
use railway_booking_system.Errors.{Result, ok, err, database, deadlock_detected}
use railway_booking_system.Inventory.Rows.{
  available, locked, booked, schedule_active, is_running, is_active, Schedule, Seat, SegmentLock,
  created_event, Db,
}
use railway_booking_system.Inventory.Transaction.{Commits}
use railway_booking_system.Inventory.Aggregates.{
  is_schedule, no_changes, recompute_segment_seat_statuses,
}
use railway_booking_system.Inventory.Selection.{is_requested, segment_of}
use railway_booking_system.Inventory.Lifecycle.{
  CreatedEvent, CancelledEvent, applied, initialize_inventory, cancel_schedule_inventory,
}
use railway_booking_system.Inventory.Lock.{lock_seats}
use railway_booking_system.Inventory.Confirm.{confirm_seats}
use railway_booking_system.Inventory.Query.{seg_unavailable, view_in_segment}
use railway_booking_system.Inventory.Expiry.{
  Moment, before_delete, before_seats, before_recompute, before_recount, before_release,
  before_release_recount, Others, clean_expired_locks,
}
use railway_booking_system.Inventory.Retry.{retry_transaction}
use railway_booking_system.Inventory.Invariant.{HasKeys, IsValid}
use railway_booking_system.Inventory.Reachable.{empty_db, create, start, next, Reachable-IsValid}
use railway_booking_system.Inventory.RoundTrip.{UnlocksTo, lock-unlock}
use railway_booking_system.Inventory.Granting.{
  Succeeds, shown_available-granted, whole_journey-granted,
}
use railway_booking_system.Inventory.Summary.{recompute-IsSummary}
use railway_booking_system.Inventory.Activity.{IsSummary}
use railway_booking_system.Inventory.Expiring.{WasOver, Without, clean_expired_locks-removes}
use railway_booking_system.Inventory.Lasting.{Lasts, lock_seats-Lasts}
use railway_booking_system.Inventory.Delivery.{
  again, initialize_inventory-again, cancel_schedule_inventory-again,
}
use railway_booking_system.Inventory.Retrying.{Decided, retry_transaction-Decided}

abbrev event : CreatedEvent
event = record {
  schedule_id = some 7;
  train_id = 3;
  train_number = 12951;
  train_name = 1;
  departure_date = 20260101;
  seats =
      record { seat_id = 1; seat_number = 1; seat_type = 0; price = 500 }
      ∷ record { seat_id = 2; seat_number = 2; seat_type = 1; price = 700 }
      ∷ [];
  route = [];
}

abbrev seat : (id seat_id seat_type price : ℕ) → Seat
seat id seat_id seat_type price = record {
  id = id;
  schedule_id = 7;
  seat_id = seat_id;
  seat_number = seat_id;
  seat_type = seat_type;
  price = price;
  status = available;
  locked_by = none;
  locked_at = none;
  lock_expires_at = none;
  booking_id = none;
  version = 0;
}

abbrev schedule : Schedule
schedule = record {
  schedule_id = 7;
  train_id = 3;
  train_number = 12951;
  train_name = 1;
  departure_date = 20260101;
  total_seats = 2;
  n_available = pos 2;
  n_locked = pos 0;
  n_booked = pos 0;
  status = schedule_active;
  version = 0;
}

-- The tables after SCHEDULE_CREATED.
abbrev opened : Db
opened = record {
  schedules = schedule ∷ [];
  seats = seat 0 1 0 500 ∷ seat 1 2 1 700 ∷ [];
  segment_locks = [];
  route_stops = [];
  processed = created_event 7 ∷ [];
  next_id = 2;
}

opens : initialize_inventory event empty_db ≡ ok (applied, opened)
unfolding initialize_inventory
opens = refl

opened-IsValid : IsValid opened
opened-IsValid = Reachable-IsValid opened (next start (create event applied opens))

-- Seat 1 is booked for the whole journey.
abbrev taken : Seat
taken = record (seat 0 1 0 500) { status = booked; booking_id = some 90 }

abbrev half_booked : Db
half_booked = record opened { seats = taken ∷ seat 1 2 1 700 ∷ [] }

-- A segment lock of seat 1 that ends at the given time.
abbrev held_until : (id from_seq to_seq until : ℕ) → SegmentLock
held_until id from_seq to_seq until = record {
  id = id;
  schedule_id = 7;
  seat_id = 1;
  from_seq = from_seq;
  to_seq = to_seq;
  status = locked;
  locked_by = some 42;
  locked_at = some 1000;
  lock_expires_at = some until;
  booking_id = none;
  version = 0;
}

abbrev held : Db
held = record opened {
  segment_locks = held_until 2 1 3 5000 ∷ held_until 3 3 4 9000 ∷ [];
  next_id = 4;
}

held-HasKeys : HasKeys 4 held.segment_locks
held-HasKeys = record {
  distinct = (((λ e. omega arith), tt), (tt, tt));
  fresh = (omega arith, (omega arith, tt));
}

Reachable-IsValid_example : IsValid opened
Reachable-IsValid_example = Reachable-IsValid opened (next start (create event applied opens))

lock-unlock_example :
    Commits
      (λ _. UnlocksTo 7 (1 ∷ []) 42 2 5 [])
      (lock_seats 300 1000 7 (1 ∷ []) 42 none (some 2) (some 5) opened)
lock-unlock_example = lock-unlock 300 1000 7 (1 ∷ []) 42 none 2 5 opened (omega arith) (omega arith)

shown_available-granted_example :
    Succeeds (lock_seats 300 1000 7 (1 ∷ []) 42 none (some 2) (some 5) opened)
unfolding view_in_segment is_schedule is_running is_requested
shown_available-granted_example =
    shown_available-granted 300 1000 7 (seat 0 1 0 500) 42 none 2 5 schedule opened refl refl refl
      (omega arith, omega arith) refl

whole_journey-granted_example :
    ((view_in_segment 7 2 5 [] taken).segment_status ≡ some seg_unavailable)
    × Succeeds (lock_seats 300 1000 7 (1 ∷ []) 42 none (some 2) (some 5) half_booked)
unfolding is_schedule is_running is_requested is_active
whole_journey-granted_example =
    whole_journey-granted 300 1000 7 taken 42 none 2 5 schedule half_booked refl refl refl
      (omega arith, omega arith) refl refl

recompute-IsSummary_example :
    All
      (λ (s : Seat).
        s.schedule_id ≡ 7
        → elem s.seat_id (1 ∷ 2 ∷ []) ≡ true
        → IsSummary 7 s.seat_id held.segment_locks s.status)
      (recompute_segment_seat_statuses 7 (1 ∷ 2 ∷ []) (no_changes, held)).1.seats
recompute-IsSummary_example = recompute-IsSummary 2 7 (1 ∷ 2 ∷ []) held opened-IsValid.keyed

-- Seat 1 from stop 2 to stop 5, held by the user 42 until 301000.
abbrev granted : Db
granted = elim (lock_seats 300 1000 7 (1 ∷ []) 42 none (some 2) (some 5) opened) [
  | ok (_, db) ↦ db
  | err _ ↦ opened
]

-- The payment comes in at the last moment: between the job's look and its DELETE.
abbrev confirmed_then : Db → Db
confirmed_then db = elim (confirm_seats 7 (1 ∷ []) 42 90 (some 2) (some 5) db) [
  | ok (_, db') ↦ db'
  | err _ ↦ db
]

abbrev late_payment : Others
late_payment before_delete db = confirmed_then db
late_payment m db = db

late_payment-quiet :
    (m : Moment) (db : Db)
    → m ≢ before_delete
    → (late_payment m db).segment_locks ≡ db.segment_locks
late_payment-quiet before_delete db h = absurd (h refl)
late_payment-quiet before_seats db h = refl
late_payment-quiet (before_recompute k) db h = refl
late_payment-quiet (before_recount k) db h = refl
late_payment-quiet (before_release k) db h = refl
late_payment-quiet (before_release_recount k) db h = refl

clean_expired_locks-removes_example :
    Without
      (λ l. WasOver 302000 l.id granted.segment_locks)
      (confirmed_then granted).segment_locks
      (clean_expired_locks true late_payment 302000 granted).segment_locks
clean_expired_locks-removes_example =
    clean_expired_locks-removes late_payment late_payment-quiet 302000 granted

-- The seat is BOOKED before the DELETE and AVAILABLE after the round.
is_booked : map (λ (l : SegmentLock). l.status) (confirmed_then granted).segment_locks ≡ booked ∷ []
unfolding lock_seats confirm_seats
is_booked = refl

booking_lost :
    (let db = clean_expired_locks true late_payment 302000 granted in
      (db.segment_locks ≡ [])
      × (map (λ (s : Seat). s.status) db.seats ≡ available ∷ available ∷ []))
unfolding lock_seats confirm_seats clean_expired_locks
booking_lost = (refl, refl)

lock_seats-Lasts_example :
    Commits
      (Lasts (segment_of (some 2) (some 5)) 1000 7 (1 ∷ []) opened)
      (lock_seats 300 1000 7 (1 ∷ []) 42 (some 9999) (some 2) (some 5) opened)
lock_seats-Lasts_example =
    lock_seats-Lasts 300 1000 7 (1 ∷ []) 42 (some 9999) (some 2) (some 5) opened

initialize_inventory-again_example :
    Commits
      (λ h db'. initialize_inventory event db' ≡ ok (again h, db'))
      (initialize_inventory event empty_db)
initialize_inventory-again_example = initialize_inventory-again event empty_db

abbrev closing : CancelledEvent
closing = record { nested = none; fields = record { schedule_id = some 7; id = none } }

cancel_schedule_inventory-again_example :
    Commits
      (λ h db'. cancel_schedule_inventory closing db' ≡ ok (again h, db'))
      (cancel_schedule_inventory closing opened)
cancel_schedule_inventory-again_example = cancel_schedule_inventory-again closing opened

-- A deadlock, and then a value.
abbrev outcomes : ℕ → Result ℕ
outcomes n = if n == 1 then err (database deadlock_detected) else ok n

retry_transaction-Decided_example : Decided outcomes 1 3 (retry_transaction outcomes)
retry_transaction-Decided_example = retry_transaction-Decided outcomes
