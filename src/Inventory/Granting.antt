-- ===== src/Inventory/Granting.antt =====
-- When `lockSeats` grants a segment, and what `getSeats` shows of it.
use railway_booking_system.Base.{
  ℕ, ◌<◌, ◌≡◌, refl, ◌∙◌, true, false, Option, none, some, List, [], ◌∷◌, arith, elem, length,
  select, find_first, count_where, length-select, ltb, ◌==◌, Bool-cases, inl, inr, ==_iff,
}
use railway_booking_system.Errors.{Result, ok, err, seats_unavailable, conflict_error}
use railway_booking_system.Inventory.Rows.{is_running, is_active, Schedule, Seat, SegmentLock, Db}
use railway_booking_system.Inventory.Transaction.{bind_ok}
use railway_booking_system.Inventory.Aggregates.{is_schedule}
use railway_booking_system.Inventory.Selection.{
  segment_of, is_requested, is_overlapping, read_seats,
}
use railway_booking_system.Inventory.Lock.{
  LockResult, expiry_time, lock_segment, lock_journey, lock_seats,
}
use railway_booking_system.Inventory.Query.{
  SeatView, seg_available, seg_unavailable, overlaps_segment, is_schedule_lock, seat_ids_of,
  segment_status, view_seat, view_in_segment,
}
use railway_booking_system.Inventory.Invariant.Reading.{read_seats-ok}

-- The call returns a value, whatever it is.
abbrev pub Succeeds {ℓ} : {A : Type ℓ} → Result A → Type ℓ
Succeeds {A} r = (a : A) × (r ≡ ok a)

module _ (default_ttl now schedule_id : ℕ) (seat_ids : List ℕ) (user_id : ℕ) (ttl : Option ℕ)
    (from_seq to_seq : ℕ) (schedule : Schedule) (db : Db)
    (found : find_first (is_schedule schedule_id) db.schedules ≡ some schedule)
    (running : is_running schedule.status ≡ true)
    (there : count_where (is_requested schedule_id seat_ids) db.seats ≡ length seat_ids)
    (positive : (0 < from_seq) × (0 < to_seq)) where
  abbrev pub n_overlapping : ℕ
  n_overlapping =
      count_where (is_overlapping schedule_id seat_ids (from_seq, to_seq)) db.segment_locks

  abbrev pub request : Result (LockResult × Db)
  request =
      lock_seats default_ttl now schedule_id seat_ids user_id ttl (some from_seq) (some to_seq) db

  present : (length (select (is_requested schedule_id seat_ids) db.seats) == length seat_ids) ≡ true
  present = ground (arith, there, length-select (is_requested schedule_id seat_ids) db.seats)

  given : segment_of (some from_seq) (some to_seq) ≡ some (from_seq, to_seq)
  unfolding segment_of
  given = ground (arith, positive)

  abbrev expires : ℕ
  expires = expiry_time default_ttl now ttl

  abbrev rows : List Seat
  rows = select (is_requested schedule_id seat_ids) db.seats

  reduces :
      request
      ≡ lock_segment schedule_id seat_ids user_id (from_seq, to_seq) now expires schedule rows db
  unfolding lock_seats
  reduces =
      rw (found, running)
        (bind_ok (read_seats schedule_id seat_ids) db
            (λ rows. elim (segment_of (some from_seq) (some to_seq)) [
              | some segment ↦
                  lock_segment schedule_id seat_ids user_id segment now expires schedule rows
              | none ↦ lock_journey schedule_id user_id now expires schedule rows
            ])
            (read_seats-ok schedule_id seat_ids db there)
          ∙ rw given refl)

  abbrev n_selected : ℕ
  n_selected =
      length (select (is_overlapping schedule_id seat_ids (from_seq, to_seq)) db.segment_locks)

  same_number : n_selected ≡ n_overlapping
  same_number =
      length-select (is_overlapping schedule_id seat_ids (from_seq, to_seq)) db.segment_locks

  pub granted : n_overlapping ≡ 0 → Succeeds request
  unfolding lock_segment
  granted h =
      let free : ltb 0 n_selected ≡ false = ground (arith, h, same_number) in
      rw reduces (rw (free, lock_segment) (_, refl))

  pub refused : 0 < n_overlapping → request ≡ err (conflict_error seats_unavailable)
  unfolding lock_segment
  refused h =
      let taken : ltb 0 n_selected ≡ true = ground (arith, h, same_number) in
      rw reduces (rw (taken, lock_segment) refl)

-- The request's test and the view's agree on every lock of one seat.
unblocked :
    (schedule_id seat_id from_seq to_seq : ℕ) (locks : List SegmentLock)
    → elem seat_id (seat_ids_of (select (overlaps_segment schedule_id from_seq to_seq) locks))
      ≡ false
    → count_where (is_overlapping schedule_id (seat_id ∷ []) (from_seq, to_seq)) locks ≡ 0
unfolding overlaps_segment is_overlapping
unblocked schedule_id seat_id from_seq to_seq [] h = refl
unblocked schedule_id seat_id from_seq to_seq (l ∷ rest) h =
    elim (Bool-cases (overlaps_segment schedule_id from_seq to_seq l)) [
      | inl e ↦ ground (
        arith,
        h,
        e,
        ==_iff l.seat_id seat_id,
        unblocked schedule_id seat_id from_seq to_seq rest (ground (arith, e, h)),
      )
      | inr e ↦
          ground
            (arith, h, e, unblocked schedule_id seat_id from_seq to_seq rest (ground (arith, e, h)))
    ]

-- Without a lock in the schedule, a seat has none that overlaps.
within :
    (schedule_id seat_id from_seq to_seq : ℕ) (locks : List SegmentLock)
    → elem seat_id (seat_ids_of (select (is_schedule_lock schedule_id) locks)) ≡ false
    → elem seat_id (seat_ids_of (select (overlaps_segment schedule_id from_seq to_seq) locks))
      ≡ false
unfolding overlaps_segment is_schedule_lock
within schedule_id seat_id from_seq to_seq [] h = refl
within schedule_id seat_id from_seq to_seq (l ∷ rest) h =
    elim (Bool-cases (is_schedule_lock schedule_id l)) [
      | inl e ↦
          ground
            (arith, h, e, within schedule_id seat_id from_seq to_seq rest (ground (arith, e, h)))
      | inr e ↦
          ground
            (arith, h, e, within schedule_id seat_id from_seq to_seq rest (ground (arith, e, h)))
    ]

some-inj : {A : Type 0} {a b : A} → some a ≡ some b → a ≡ b
some-inj h = cc

segment_status-unblocked :
    (blocked with_locks : List ℕ) (s : Seat)
    → segment_status blocked with_locks s ≡ seg_available
    → elem s.seat_id blocked ≡ false
unfolding segment_status
segment_status-unblocked blocked with_locks s h = ground (arith, h)

module _ (default_ttl now schedule_id : ℕ) (s : Seat) (user_id : ℕ) (ttl : Option ℕ)
    (from_seq to_seq : ℕ) (schedule : Schedule) (db : Db)
    (found : find_first (is_schedule schedule_id) db.schedules ≡ some schedule)
    (running : is_running schedule.status ≡ true)
    (there : count_where (is_requested schedule_id (s.seat_id ∷ [])) db.seats ≡ 1)
    (positive : (0 < from_seq) × (0 < to_seq)) where
  abbrev pub shown : SeatView
  shown = view_in_segment schedule_id from_seq to_seq db.segment_locks s

  abbrev pub lock_one : Result (LockResult × Db)
  lock_one =
      lock_seats default_ttl now schedule_id (s.seat_id ∷ []) user_id ttl (some from_seq)
        (some to_seq) db

  -- A seat that `getSeats` shows as available for a segment of a running schedule is locked for it by
  -- whoever asks next.
  pub shown_available-granted : shown.segment_status ≡ some seg_available → Succeeds lock_one
  unfolding view_in_segment view_seat
  shown_available-granted h =
      granted default_ttl now schedule_id (s.seat_id ∷ []) user_id ttl from_seq to_seq schedule db
        found running there positive
        (unblocked schedule_id s.seat_id from_seq to_seq db.segment_locks
          (segment_status-unblocked _ _ s (some-inj h)))

  -- A seat that is held for the whole journey, and so without segment locks, is shown as unavailable for
  -- every segment, and yet `lockSeats` grants it to whoever asks.
  pub whole_journey-granted :
      is_active s.status ≡ true
      → elem s.seat_id (seat_ids_of (select (is_schedule_lock schedule_id) db.segment_locks))
        ≡ false
      → (shown.segment_status ≡ some seg_unavailable) × Succeeds lock_one
  unfolding view_in_segment view_seat segment_status
  whole_journey-granted held free =
      let no_lock = within schedule_id s.seat_id from_seq to_seq db.segment_locks free in
      (
        rw (no_lock, held, free) refl,
        granted default_ttl now schedule_id (s.seat_id ∷ []) user_id ttl from_seq to_seq schedule db
            found running there positive
            (unblocked schedule_id s.seat_id from_seq to_seq db.segment_locks no_lock),
      )
