-- ===== src/Inventory/Invariant/Overlap.antt =====
-- The segment locks that `lockSeats` creates conflict with none that is there, and with none of each
-- other.
use railway_booking_system.Base.{
  ℕ, ◌+◌, ◌≤◌, ◌≡◌, true, false, List, [], ◌∷◌, ◌++◌, arith, All, AllPairs, All-mono, All-zip,
  All-append, AllPairs-append, length, ==_iff,
}
use railway_booking_system.Inventory.Rows.{Seat, SegmentLock}
use railway_booking_system.Inventory.Selection.{is_requested, is_overlapping}
use railway_booking_system.Inventory.Lock.{new_lock, create_segment_locks}
use railway_booking_system.Inventory.Invariant.{HasKeys, SamePlace, conflicts, NoDoubleBooking}

module _ (schedule_id user_id : ℕ) (segment : ℕ × ℕ) (now expires : ℕ) where
  abbrev pub created : List Seat → ℕ → List SegmentLock
  created seats = create_segment_locks schedule_id seats user_id segment now expires

  new_against_old :
      (seat_ids : List ℕ) (l : SegmentLock) (seats : List Seat) (n : ℕ)
      → is_overlapping schedule_id seat_ids segment l ≡ false
      → All (λ s. is_requested schedule_id seat_ids s ≡ true) seats
      → All (λ k. conflicts l k ≡ false) (created seats n)
  unfolding create_segment_locks conflicts is_overlapping is_requested
  new_against_old seat_ids l [] n h r = tt
  new_against_old seat_ids l (s ∷ rest) n h r = (
    ground (arith, h, r.0, ==_iff l.seat_id s.seat_id),
    new_against_old seat_ids l rest (n + 1) h r.1,
  )

  first_against_rest :
      (s : Seat) (rest : List Seat) (m n : ℕ)
      → s.schedule_id ≡ schedule_id
      → All (λ t. (t.schedule_id ≡ schedule_id) × ¬ SamePlace s t) rest
      → All
          (λ k. conflicts (new_lock schedule_id user_id segment now expires s m) k ≡ false)
          (created rest n)
  unfolding create_segment_locks conflicts
  first_against_rest s [] m n e d = tt
  first_against_rest s (t ∷ rest) m n e d = (
    ground (arith, d.0.0, d.0.1, ==_iff s.seat_id t.seat_id),
    first_against_rest s rest m (n + 1) e d.1,
  )

  new_against_new :
      (seats : List Seat) (n : ℕ)
      → All (λ s. s.schedule_id ≡ schedule_id) seats
      → AllPairs (λ s t. ¬ SamePlace s t) seats
      → NoDoubleBooking (created seats n)
  unfolding create_segment_locks
  new_against_new [] n e d = tt
  new_against_new (s ∷ rest) n e d = (
    first_against_rest s rest n (n + 1) e.0 (All-zip _ _ _ rest (λ t p q. (p, q)) e.1 d.0),
    new_against_new rest (n + 1) e.1 d.1,
  )

  created_above : (seats : List Seat) (n : ℕ) → All (λ l. n ≤ l.id) (created seats n)
  unfolding create_segment_locks
  created_above [] n = tt
  created_above (s ∷ rest) n = (
    omega arith,
    All-mono _ _ (created rest (n + 1)) (λ l h. omega arith) (created_above rest (n + 1)),
  )

  created-HasKeys : (seats : List Seat) (n : ℕ) → HasKeys (n + length seats) (created seats n)
  unfolding create_segment_locks
  created-HasKeys [] n = record { distinct = tt; fresh = tt }
  created-HasKeys (s ∷ rest) n =
      let later = created-HasKeys rest (n + 1) in
      record {
        distinct = (
          All-mono _ _ (created rest (n + 1)) (λ l h e. omega arith) (created_above rest (n + 1)),
          later.distinct,
        );
        fresh = (omega arith, All-mono _ _ (created rest (n + 1)) (λ l h. omega arith) later.fresh);
      }

  -- The table with the new rows: still no two locks of one seat overlap.
  pub append-NoDoubleBooking :
      (seat_ids : List ℕ) (locks : List SegmentLock) (seats : List Seat) (n : ℕ)
      → NoDoubleBooking locks
      → All (λ l. is_overlapping schedule_id seat_ids segment l ≡ false) locks
      → All (λ s. is_requested schedule_id seat_ids s ≡ true) seats
      → AllPairs (λ s t. ¬ SamePlace s t) seats
      → NoDoubleBooking (locks ++ created seats n)
  unfolding is_requested
  append-NoDoubleBooking seat_ids locks seats n old free requested places =
      AllPairs-append _ locks (created seats n) old
        (new_against_new seats n (All-mono _ _ seats (λ s h. ground (arith, h)) requested) places)
        (All-mono _ _ locks (λ l h. new_against_old seat_ids l seats n h requested) free)

  pub append-HasKeys :
      (locks : List SegmentLock) (seats : List Seat) (n : ℕ)
      → HasKeys n locks
      → HasKeys (n + length seats) (locks ++ created seats n)
  append-HasKeys locks seats n v =
      let new = created-HasKeys seats n in
      record {
        distinct = AllPairs-append _ locks (created seats n) v.distinct new.distinct (
            All-mono _ _ locks
              (λ l h. All-mono _ _ (created seats n) (λ k b e. omega arith) (created_above seats n))
              v.fresh);
        fresh =
            All-append _ locks (created seats n) (All-mono _ _ locks (λ l h. omega arith) v.fresh)
              new.fresh;
      }
