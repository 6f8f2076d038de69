-- ===== src/Inventory/Invariant.antt =====
-- The invariants of inventory-service's tables.
pub mod Keys
pub mod Recompute
pub mod Overlap
pub mod Reading
pub mod Locking
pub mod Segments
pub mod Journeys
pub mod Adding
pub mod Creation
pub mod Closing
pub mod Cleaning
pub mod Journey
use railway_booking_system.Base.{
  ℕ, ◌<◌, pos, ◌≡◌, ◌≢◌, ◌⊎◌, Bool, true, false, ◌&&◌, List, All, AllPairs, DistinctKeys, ltb, ◌==◌,
  count_where, map, elem,
}
use railway_booking_system.Inventory.Rows.{
  available, locked, booked, is_active, Schedule, Seat, SegmentLock, Db,
}
use railway_booking_system.Inventory.Aggregates.{has_status}

abbrev pub SamePlace : Seat → Seat → Type 0
SamePlace s t = (s.schedule_id ≡ t.schedule_id) × (s.seat_id ≡ t.seat_id)

-- Primary keys are distinct and below the next one, and a schedule has a seat once.
pub record IsKeyed (n : ℕ) (seats : List Seat) : Type 0 where
  pub distinct : DistinctKeys (λ (s : Seat). s.id) seats
  pub fresh : All (λ (s : Seat). s.id < n) seats
  pub places : AllPairs (λ s t. ¬ SamePlace s t) seats

pub record HasKeys (n : ℕ) (locks : List SegmentLock) : Type 0 where
  pub distinct : DistinctKeys (λ (l : SegmentLock). l.id) locks
  pub fresh : All (λ (l : SegmentLock). l.id < n) locks

-- Two locks that hold one seat for overlapping parts of the route.
unfoldable pub conflicts : SegmentLock → SegmentLock → Bool
unfolding is_active
conflicts k l =
    k.schedule_id == l.schedule_id
    && k.seat_id == l.seat_id
    && is_active k.status
    && is_active l.status
    && ltb k.from_seq l.to_seq
    && ltb l.from_seq k.to_seq

abbrev pub NoDoubleBooking : List SegmentLock → Type 0
NoDoubleBooking = AllPairs (λ k l. conflicts k l ≡ false)

-- The counters of a schedule are the numbers of its seats in each status.
abbrev pub IsCounted : List Seat → Schedule → Type 0
IsCounted seats s =
    (s.n_available ≡ pos (count_where (has_status s.schedule_id available) seats))
    × (s.n_locked ≡ pos (count_where (has_status s.schedule_id locked) seats))
    × (s.n_booked ≡ pos (count_where (has_status s.schedule_id booked) seats))

abbrev pub schedule_ids : List Schedule → List ℕ
schedule_ids = map (λ (s : Schedule). s.schedule_id)

abbrev pub homes : List Seat → List ℕ
homes = map (λ (s : Seat). s.schedule_id)

pub record IsValid (db : Db) : Type 0 where
  pub keyed : IsKeyed db.next_id db.seats
  pub lock_keys : HasKeys db.next_id db.segment_locks
  pub exclusive : NoDoubleBooking db.segment_locks
  pub owned : All (λ k. elem k (schedule_ids db.schedules) ≡ true) (homes db.seats)
  pub counted : All (IsCounted db.seats) db.schedules
