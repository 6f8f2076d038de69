-- ===== src/Inventory/Invariant/Locking.antt =====
-- `lockSeats` keeps the invariant, with a segment and without one.
use railway_booking_system.Base.{
  ℕ, ◌≡◌, refl, Bool, true, false, not, Option, List, map, arith, ltb, ◌==◌, All, map-update_where,
  All-all, find_first, All-select_holds, AllPairs-select, length, select, select-empty, count_where,
  update_where, count_where-update_same, Bool-cases, Option-cases, inl, inr,
}
use railway_booking_system.Inventory.Rows.{
  is_running, SeatStatus, available, locked, booked, same_status, Schedule, Seat, Db,
}
use railway_booking_system.Inventory.Transaction.{Commits-ok, Commits-err}
use railway_booking_system.Inventory.Aggregates.{has_status, is_schedule}
use railway_booking_system.Inventory.Selection.{segment_of, is_requested, has_pk, is_overlapping}
use railway_booking_system.Inventory.Lock.{
  touch_seat, insert_segment_locks, lock_segment, lock_seat, count_locked, lock_journey, lock_seats,
}
use railway_booking_system.Inventory.Invariant.{IsCounted, IsValid}
use railway_booking_system.Inventory.Invariant.Keys.{KeepsPlace, update_where-IsKeyed, IsKeyed-mono}
use railway_booking_system.Inventory.Invariant.Reading.{StaysValid, read_seats-StaysValid}
use railway_booking_system.Inventory.Invariant.Journey.{
  not_positive, requested_all, journey-IsValid, from_counter, to_counter, other_counter,
  elsewhere-IsCounted,
}
use railway_booking_system.Inventory.Invariant.Recompute.{
  refreshed, refreshed-IsValid, others-IsCounted, IsValid-OthersCounted,
}
use railway_booking_system.Inventory.Invariant.Overlap.{append-NoDoubleBooking, append-HasKeys}

touch_seat-KeepsPlace : (u n e : ℕ) → KeepsPlace (touch_seat u n e)
unfolding touch_seat
touch_seat-KeepsPlace u n e s = (refl, refl, refl)

-- Touching a row leaves its status.
touched_counts :
    (u n e k : ℕ) (st : SeatStatus) (p : Seat → Bool) (seats : List Seat)
    → count_where (has_status k st) (update_where p (touch_seat u n e) seats)
      ≡ count_where (has_status k st) seats
unfolding touch_seat has_status
touched_counts u n e k st p seats =
    count_where-update_same _ p _ seats (All-all _ seats (λ s h. refl))

module _ (schedule_id : ℕ) (seat_ids : List ℕ) (user_id : ℕ) (now expires : ℕ) (schedule : Schedule)
    (db : Db) (v : IsValid db) where
  seats : List Seat
  seats = select (is_requested schedule_id seat_ids) db.seats

  requested_rows : All (λ (s : Seat). is_requested schedule_id seat_ids s ≡ true) seats
  unfolding seats
  requested_rows = All-select_holds (is_requested schedule_id seat_ids) db.seats

  -- The tables when the segment locks and the touched seats are written.
  written : ℕ × ℕ → Db
  unfolding seats insert_segment_locks
  written segment =
      let db' = insert_segment_locks schedule_id seats user_id segment now expires db in
      record db' { seats = update_where (has_pk seats) (touch_seat user_id now expires) db.seats }

  written-IsValid :
      (segment : ℕ × ℕ)
      → All (λ l. is_overlapping schedule_id seat_ids segment l ≡ false) db.segment_locks
      → IsValid (refreshed schedule_id (map (λ (s : Seat). s.seat_id) seats) (written segment)).1
  unfolding written
  written-IsValid segment free =
      refreshed-IsValid schedule_id (map (λ (s : Seat). s.seat_id) seats) (written segment)
        (update_where-IsKeyed (has_pk seats) _ (touch_seat-KeepsPlace user_id now expires)
          (IsKeyed-mono (omega arith) v.keyed))
        (append-HasKeys schedule_id user_id segment now expires db.segment_locks seats db.next_id
          v.lock_keys)
        (append-NoDoubleBooking schedule_id user_id segment now expires seat_ids db.segment_locks
          seats db.next_id v.exclusive free requested_rows
          (AllPairs-select _ (is_requested schedule_id seat_ids) db.seats v.keyed.places))
        (rw
          (map-update_where (λ (s : Seat). s.schedule_id) (has_pk seats)
            (touch_seat user_id now expires) db.seats
            (λ s. (touch_seat-KeepsPlace user_id now expires s).1))
          v.owned)
        (others-IsCounted schedule_id db.seats _ db.schedules
          (λ k st _. touched_counts user_id now expires k st (has_pk seats) db.seats)
          (IsValid-OthersCounted schedule_id v))

  lock_segment-StaysValid :
      (segment : ℕ × ℕ)
      → StaysValid (lock_segment schedule_id seat_ids user_id segment now expires schedule seats) db
  unfolding lock_segment refreshed written
  lock_segment-StaysValid segment =
      elim (Bool-cases
        (ltb 0 (length (select (is_overlapping schedule_id seat_ids segment) db.segment_locks)))) [
          | inl e ↦ rw e (Commits-err _ _)
          | inr e ↦ rw e (
              Commits-ok _ _ _
                (written-IsValid segment (select-empty _ db.segment_locks (not_positive _ e))))
        ]

  lock_inside :
      (here : All
        (λ (s : Seat).
          is_requested schedule_id seat_ids s ≡ true
          → ((s.schedule_id == schedule_id) ≡ true) × (s.status ≡ available))
        db.seats)
      (s : Schedule)
      → s.schedule_id ≡ schedule_id
      → IsCounted db.seats s
      → IsCounted
          (update_where
            (is_requested schedule_id seat_ids)
            (lock_seat user_id now expires)
            db.seats)
          (count_locked (count_where (is_requested schedule_id seat_ids) db.seats) s)
  unfolding lock_seat count_locked same_status
  lock_inside here s same c =
      let c' : IsCounted db.seats (record s { schedule_id = schedule_id }) = (rw same at c) in
      let q : Seat → Bool = is_requested schedule_id seat_ids in
      let f : Seat → Seat = lock_seat user_id now expires in
      let place : KeepsPlace (lock_seat user_id now expires) = λ t. (refl, refl, refl) in
      let becomes : (t : Seat) → (lock_seat user_id now expires t).status ≡ locked = λ t. refl in
      rw same (
        from_counter schedule_id q f available locked db.seats refl refl place becomes here _
            s.n_available refl c'.0,
        to_counter schedule_id q f available locked db.seats refl refl place becomes here _
            s.n_locked refl c'.1,
        other_counter schedule_id q f available locked db.seats refl refl place becomes here booked
            s.n_booked refl refl c'.2,
      )

  lock_journey-StaysValid :
      StaysValid (lock_journey schedule_id user_id now expires schedule seats) db
  unfolding lock_journey lock_seat count_locked same_status seats
  lock_journey-StaysValid =
      elim (Bool-cases
        (ltb 0 (length (select (λ (s : Seat). not (same_status s.status available)) seats)))) [
          | inl e ↦ rw e (Commits-err _ _)
          | inr e ↦
              let here = requested_all schedule_id seat_ids available db.seats (not_positive _ e) in
              rw e (
                Commits-ok _ _ _ (
                  journey-IsValid schedule_id (is_requested schedule_id seat_ids)
                    (lock_seat user_id now expires) count_locked db (λ t. (refl, refl, refl))
                    (λ n s. refl) v
                    (elsewhere-IsCounted schedule_id _ _ available locked db.seats refl refl
                      (λ t. (refl, refl, refl)) (λ t. refl) here)
                    (lock_inside here)))
        ]

-- A lock that is granted, for a segment or for the whole journey, keeps the invariant.
pub lock_seats-IsValid :
    (default_ttl now schedule_id : ℕ) (seat_ids : List ℕ) (user_id : ℕ)
    (ttl from_seq to_seq : Option ℕ) (db : Db)
    → IsValid db
    → StaysValid (lock_seats default_ttl now schedule_id seat_ids user_id ttl from_seq to_seq) db
unfolding lock_seats seats
lock_seats-IsValid default_ttl now schedule_id seat_ids user_id ttl from_seq to_seq db v =
    elim (Option-cases (find_first (is_schedule schedule_id) db.schedules)) [
      | inl e ↦ rw e (Commits-err _ _)
      | inr (schedule, e) ↦ rw e (elim (Bool-cases (not (is_running schedule.status))) [
        | inl c ↦ rw c (Commits-err _ _)
        | inr c ↦ rw c (
            read_seats-StaysValid schedule_id seat_ids _ db
              (elim (Option-cases (segment_of from_seq to_seq)) [
                | inl w ↦
                    rw w (lock_journey-StaysValid schedule_id seat_ids user_id now _ schedule db v)
                | inr (segment, w) ↦ rw w (
                    lock_segment-StaysValid schedule_id seat_ids user_id now _ schedule db v
                      segment)
              ]))
      ])
    ]
