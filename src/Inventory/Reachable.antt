-- ===== src/Inventory/Reachable.antt =====
-- inventory-service over time: the tables that committed transactions and rounds of the expiry job
-- reach from empty ones. A transaction that fails is rolled back and is no step.
use railway_booking_system.Base.{ℕ, ◌≡◌, subst, Bool, Option, List, []}
use railway_booking_system.Errors.{ok}
use railway_booking_system.Inventory.Rows.{Db}
use railway_booking_system.Inventory.Lifecycle.{
  CreatedEvent, CancelledEvent, Handled, initialize_inventory, cancel_schedule_inventory,
}
use railway_booking_system.Inventory.Lock.{LockResult, lock_seats}
use railway_booking_system.Inventory.Unlock.{UnlockResult, unlock_seats}
use railway_booking_system.Inventory.Confirm.{ConfirmResult, confirm_seats}
use railway_booking_system.Inventory.Cancel.{CancelResult, cancel_booking}
use railway_booking_system.Inventory.Expiry.{undisturbed, clean_expired_locks}
use railway_booking_system.Inventory.Invariant.{IsValid}
use railway_booking_system.Inventory.Invariant.Locking.{lock_seats-IsValid}
use railway_booking_system.Inventory.Invariant.Journeys.{
  unlock_seats-IsValid, confirm_seats-IsValid, cancel_booking-IsValid,
}
use railway_booking_system.Inventory.Invariant.Creation.{initialize_inventory-IsValid}
use railway_booking_system.Inventory.Invariant.Closing.{cancel_schedule_inventory-IsValid}
use railway_booking_system.Inventory.Invariant.Cleaning.{clean_expired_locks-IsValid}

abbrev pub empty_db : Db
empty_db = record {
  schedules = [];
  seats = [];
  segment_locks = [];
  route_stops = [];
  processed = [];
  next_id = 0;
}

-- One commit, with the arguments of the call.
pub data Step (db db' : Db) : Type 0 where
  create : (e : CreatedEvent) (h : Handled) → initialize_inventory e db ≡ ok (h, db') → Step db db'
  close :
      (e : CancelledEvent) (h : Handled)
      → cancel_schedule_inventory e db ≡ ok (h, db')
      → Step db db'
  lock :
      (default_ttl now schedule_id : ℕ) (seat_ids : List ℕ) (user_id : ℕ)
      (ttl from_seq to_seq : Option ℕ) (r : LockResult)
      → lock_seats default_ttl now schedule_id seat_ids user_id ttl from_seq to_seq db ≡ ok (r, db')
      → Step db db'
  unlock :
      (schedule_id : ℕ) (seat_ids : List ℕ) (user_id : ℕ) (from_seq to_seq : Option ℕ)
      (r : UnlockResult)
      → unlock_seats schedule_id seat_ids user_id from_seq to_seq db ≡ ok (r, db')
      → Step db db'
  confirm :
      (schedule_id : ℕ) (seat_ids : List ℕ) (user_id booking_id : ℕ) (from_seq to_seq : Option ℕ)
      (r : ConfirmResult)
      → confirm_seats schedule_id seat_ids user_id booking_id from_seq to_seq db ≡ ok (r, db')
      → Step db db'
  cancel :
      (schedule_id booking_id user_id : ℕ) (r : CancelResult)
      → cancel_booking schedule_id booking_id user_id db ≡ ok (r, db')
      → Step db db'
  expire :
      (is_leader : Bool) (now : ℕ)
      → clean_expired_locks is_leader undisturbed now db ≡ db'
      → Step db db'

pub data Reachable : Db → Type 0 where
  start : Reachable empty_db
  next : {db db' : Db} → Reachable db → Step db db' → Reachable db'

Step-IsValid : {db db' : Db} → Step db db' → IsValid db → IsValid db'
Step-IsValid {db} {db'} (create e h q) v = (initialize_inventory-IsValid e db v).at h db' q
Step-IsValid {db} {db'} (close e h q) v = (cancel_schedule_inventory-IsValid e db v).at h db' q
Step-IsValid {db} {db'} (lock d now k ids u ttl f t r q) v =
    (lock_seats-IsValid d now k ids u ttl f t db v).at r db' q
Step-IsValid {db} {db'} (unlock k ids u f t r q) v =
    (unlock_seats-IsValid k ids u f t db v).at r db' q
Step-IsValid {db} {db'} (confirm k ids u b f t r q) v =
    (confirm_seats-IsValid k ids u b f t db v).at r db' q
Step-IsValid {db} {db'} (cancel k b u r q) v = (cancel_booking-IsValid k b u db v).at r db' q
Step-IsValid {db} {db'} (expire leader now q) v =
    subst IsValid q (clean_expired_locks-IsValid leader now db v)

empty-IsValid : IsValid empty_db
empty-IsValid = record {
  keyed = record { distinct = tt; fresh = tt; places = tt };
  lock_keys = record { distinct = tt; fresh = tt };
  exclusive = tt;
  owned = tt;
  counted = tt;
}

-- Whatever calls are made one after another, in whatever order, and rounds of the expiry job without
-- others in between: in tables reached from empty ones keys are distinct, no two active segment locks of
-- a seat overlap, every seat has its schedule, and each schedule's three counters are the numbers of its
-- available, locked and booked seats.
pub Reachable-IsValid : (db : Db) → Reachable db → IsValid db
Reachable-IsValid _ start = empty-IsValid
Reachable-IsValid _ (next {db} {db'} r s) = Step-IsValid s (Reachable-IsValid db r)
