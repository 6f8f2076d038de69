-- ===== src/Inventory/Invariant/Journeys.antt =====
-- `unlockSeats`, `confirmSeats` and `cancelBooking` of a whole journey keep the invariant.
use railway_booking_system.Base.{
  ℕ, ◌≡◌, refl, Bool, true, not, Option, List, arith, ltb, ◌==◌, holds, All, All-all, length,
  select, update_where, count_where, Bool-cases, Option-cases, inl, inr,
}
use railway_booking_system.Inventory.Rows.{
  available, locked, booked, same_status, Schedule, Seat, Db,
}
use railway_booking_system.Inventory.Transaction.{Commits-ok, Commits-err}
use railway_booking_system.Inventory.Selection.{segment_of, is_requested}
use railway_booking_system.Inventory.Unlock.{
  release_seat, count_unlocked, unlock_journey, unlock_seats,
}
use railway_booking_system.Inventory.Confirm.{
  book_seat, count_booked, confirm_journey, confirm_seats,
}
use railway_booking_system.Inventory.Cancel.{
  is_booked_seat, free_seat, count_freed, cancel_journey, is_booked_lock, cancel_booking,
}
use railway_booking_system.Inventory.Invariant.{IsCounted, IsValid}
use railway_booking_system.Inventory.Invariant.Reading.{
  StaysValid, read_seats-StaysValid, find_schedule-StaysValid,
}
use railway_booking_system.Inventory.Invariant.Keys.{KeepsPlace}
use railway_booking_system.Inventory.Invariant.Journey.{
  not_positive, eq_of_same_status, requested_all, journey-IsValid, from_counter, to_counter,
  other_counter, elsewhere-IsCounted,
}
use railway_booking_system.Inventory.Invariant.Segments.{
  confirm_segment-StaysValid, unlock_segment-StaysValid, cancel_segment-StaysValid,
}

module _ (schedule_id : ℕ) (seat_ids : List ℕ) (user_id : ℕ) (db : Db) (v : IsValid db) where
  unlock_inside :
      (here : All
        (λ (s : Seat).
          is_requested schedule_id seat_ids s ≡ true
          → ((s.schedule_id == schedule_id) ≡ true) × (s.status ≡ locked))
        db.seats)
      (s : Schedule)
      → s.schedule_id ≡ schedule_id
      → IsCounted db.seats s
      → IsCounted
          (update_where (is_requested schedule_id seat_ids) release_seat db.seats)
          (count_unlocked (count_where (is_requested schedule_id seat_ids) db.seats) s)
  unfolding count_unlocked release_seat same_status
  unlock_inside here s same c =
      let c' : IsCounted db.seats (record s { schedule_id = schedule_id }) = (rw same at c) in
      let q : Seat → Bool = is_requested schedule_id seat_ids in
      let place : KeepsPlace release_seat = λ t. (refl, refl, refl) in
      let becomes : (t : Seat) → (release_seat t).status ≡ available = λ t. refl in
      rw same (
        to_counter schedule_id q release_seat locked available db.seats refl refl place becomes here
            _ s.n_available refl c'.0,
        from_counter schedule_id q release_seat locked available db.seats refl refl place becomes
            here _ s.n_locked refl c'.1,
        other_counter schedule_id q release_seat locked available db.seats refl refl place becomes
            here booked s.n_booked refl refl c'.2,
      )

  unlock_journey-StaysValid :
      StaysValid
        (unlock_journey schedule_id user_id (select (is_requested schedule_id seat_ids) db.seats))
        db
  unfolding unlock_journey release_seat count_unlocked same_status
  unlock_journey-StaysValid =
      let rows : List Seat = select (is_requested schedule_id seat_ids) db.seats in
      elim (Bool-cases
        (ltb 0 (length (select (λ (s : Seat). not (same_status s.status locked)) rows)))) [
          | inl e ↦ rw e (Commits-err _ _)
          | inr e ↦
              let here = requested_all schedule_id seat_ids locked db.seats (not_positive _ e) in
              rw e
                (elim (Bool-cases
                  (ltb 0 (length (select (λ (s : Seat). not (holds s.locked_by user_id)) rows)))) [
                    | inl d ↦ rw d (Commits-err _ _)
                    | inr d ↦ rw d (
                        find_schedule-StaysValid schedule_id _ _ λ s. Commits-ok _ _ _ (
                          journey-IsValid schedule_id (is_requested schedule_id seat_ids)
                            release_seat count_unlocked db (λ t. (refl, refl, refl)) (λ n s. refl) v
                            (elsewhere-IsCounted schedule_id _ release_seat locked available
                              db.seats refl refl (λ t. (refl, refl, refl)) (λ t. refl) here)
                            (unlock_inside here)))
                  ])
        ]

  confirm_inside :
      (booking_id : ℕ)
      (here : All
        (λ (s : Seat).
          is_requested schedule_id seat_ids s ≡ true
          → ((s.schedule_id == schedule_id) ≡ true) × (s.status ≡ locked))
        db.seats)
      (s : Schedule)
      → s.schedule_id ≡ schedule_id
      → IsCounted db.seats s
      → IsCounted
          (update_where (is_requested schedule_id seat_ids) (book_seat booking_id) db.seats)
          (count_booked (count_where (is_requested schedule_id seat_ids) db.seats) s)
  unfolding count_booked book_seat same_status
  confirm_inside booking_id here s same c =
      let c' : IsCounted db.seats (record s { schedule_id = schedule_id }) = (rw same at c) in
      let q : Seat → Bool = is_requested schedule_id seat_ids in
      let f : Seat → Seat = book_seat booking_id in
      let place : KeepsPlace (book_seat booking_id) = λ t. (refl, refl, refl) in
      let becomes : (t : Seat) → (book_seat booking_id t).status ≡ booked = λ t. refl in
      rw same (
        other_counter schedule_id q f locked booked db.seats refl refl place becomes here available
            s.n_available refl refl c'.0,
        from_counter schedule_id q f locked booked db.seats refl refl place becomes here _
            s.n_locked refl c'.1,
        to_counter schedule_id q f locked booked db.seats refl refl place becomes here _ s.n_booked
            refl c'.2,
      )

  confirm_journey-StaysValid :
      (booking_id : ℕ)
      → StaysValid
          (confirm_journey schedule_id user_id booking_id
            (select (is_requested schedule_id seat_ids) db.seats))
          db
  unfolding confirm_journey book_seat count_booked same_status
  confirm_journey-StaysValid booking_id =
      let rows : List Seat = select (is_requested schedule_id seat_ids) db.seats in
      elim (Bool-cases
        (ltb 0 (length (select (λ (s : Seat). not (same_status s.status locked)) rows)))) [
          | inl e ↦ rw e (Commits-err _ _)
          | inr e ↦
              let here = requested_all schedule_id seat_ids locked db.seats (not_positive _ e) in
              rw e
                (elim (Bool-cases
                  (ltb 0 (length (select (λ (s : Seat). not (holds s.locked_by user_id)) rows)))) [
                    | inl d ↦ rw d (Commits-err _ _)
                    | inr d ↦ rw d (
                        find_schedule-StaysValid schedule_id _ _ λ s. Commits-ok _ _ _ (
                          journey-IsValid schedule_id (is_requested schedule_id seat_ids)
                            (book_seat booking_id) count_booked db (λ t. (refl, refl, refl))
                            (λ n s. refl) v
                            (elsewhere-IsCounted schedule_id _ (book_seat booking_id) locked booked
                              db.seats refl refl (λ t. (refl, refl, refl)) (λ t. refl) here)
                            (confirm_inside booking_id here)))
                  ])
        ]

module _ (schedule_id booking_id : ℕ) (db : Db) (v : IsValid db) where
  booked_here :
      All
        (λ (s : Seat).
          is_booked_seat schedule_id booking_id s ≡ true
          → ((s.schedule_id == schedule_id) ≡ true) × (s.status ≡ booked))
        db.seats
  unfolding is_booked_seat
  booked_here =
      All-all _ db.seats
        (λ s e. (ground (arith, e), eq_of_same_status s.status booked (ground (arith, e))))

  cancel_inside :
      (s : Schedule)
      → s.schedule_id ≡ schedule_id
      → IsCounted db.seats s
      → IsCounted
          (update_where (is_booked_seat schedule_id booking_id) free_seat db.seats)
          (count_freed (count_where (is_booked_seat schedule_id booking_id) db.seats) s)
  unfolding count_freed free_seat same_status
  cancel_inside s same c =
      let c' : IsCounted db.seats (record s { schedule_id = schedule_id }) = (rw same at c) in
      let q : Seat → Bool = is_booked_seat schedule_id booking_id in
      let place : KeepsPlace free_seat = λ t. (refl, refl, refl) in
      let becomes : (t : Seat) → (free_seat t).status ≡ available = λ t. refl in
      rw same (
        to_counter schedule_id q free_seat booked available db.seats refl refl place becomes
            booked_here _ s.n_available refl c'.0,
        other_counter schedule_id q free_seat booked available db.seats refl refl place becomes
            booked_here locked s.n_locked refl refl c'.1,
        from_counter schedule_id q free_seat booked available db.seats refl refl place becomes
            booked_here _ s.n_booked refl c'.2,
      )

  cancel_journey-StaysValid : StaysValid (cancel_journey schedule_id booking_id) db
  unfolding cancel_journey free_seat count_freed same_status
  cancel_journey-StaysValid =
      elim (Bool-cases (length (select (is_booked_seat schedule_id booking_id) db.seats) == 0)) [
        | inl e ↦ rw e (Commits-err _ _)
        | inr e ↦ rw e (
            find_schedule-StaysValid schedule_id _ _ λ s. Commits-ok _ _ _ (
              journey-IsValid schedule_id (is_booked_seat schedule_id booking_id) free_seat
                count_freed db (λ t. (refl, refl, refl)) (λ n s. refl) v
                (elsewhere-IsCounted schedule_id _ free_seat booked available db.seats refl refl
                  (λ t. (refl, refl, refl)) (λ t. refl) booked_here)
                cancel_inside))
      ]

-- A release keeps the invariant.
pub unlock_seats-IsValid :
    (schedule_id : ℕ) (seat_ids : List ℕ) (user_id : ℕ) (from_seq to_seq : Option ℕ) (db : Db)
    → IsValid db
    → StaysValid (unlock_seats schedule_id seat_ids user_id from_seq to_seq) db
unfolding unlock_seats
unlock_seats-IsValid schedule_id seat_ids user_id from_seq to_seq db v =
    read_seats-StaysValid schedule_id seat_ids _ db
      (elim (Option-cases (segment_of from_seq to_seq)) [
        | inl w ↦ rw w (unlock_journey-StaysValid schedule_id seat_ids user_id db v)
        | inr (segment, w) ↦ rw w (
            unlock_segment-StaysValid schedule_id seat_ids user_id segment 0
              (select (is_requested schedule_id seat_ids) db.seats) db v)
      ])

-- A confirmation keeps the invariant.
pub confirm_seats-IsValid :
    (schedule_id : ℕ) (seat_ids : List ℕ) (user_id booking_id : ℕ) (from_seq to_seq : Option ℕ)
    (db : Db)
    → IsValid db
    → StaysValid (confirm_seats schedule_id seat_ids user_id booking_id from_seq to_seq) db
unfolding confirm_seats
confirm_seats-IsValid schedule_id seat_ids user_id booking_id from_seq to_seq db v =
    read_seats-StaysValid schedule_id seat_ids _ db
      (elim (Option-cases (segment_of from_seq to_seq)) [
        | inl w ↦ rw w (confirm_journey-StaysValid schedule_id seat_ids user_id db v booking_id)
        | inr (segment, w) ↦ rw w (
            confirm_segment-StaysValid schedule_id seat_ids user_id segment booking_id
              (select (is_requested schedule_id seat_ids) db.seats) db v)
      ])

-- The cancellation of a booking keeps the invariant.
pub cancel_booking-IsValid :
    (schedule_id booking_id user_id : ℕ) (db : Db)
    → IsValid db
    → StaysValid (cancel_booking schedule_id booking_id user_id) db
unfolding cancel_booking
cancel_booking-IsValid schedule_id booking_id user_id db v =
    elim (Bool-cases
      (ltb 0 (length (select (is_booked_lock schedule_id booking_id) db.segment_locks)))) [
        | inl e ↦ rw e (
            cancel_segment-StaysValid schedule_id booking_id
              (select (is_booked_lock schedule_id booking_id) db.segment_locks) db v)
        | inr e ↦ rw e (cancel_journey-StaysValid schedule_id booking_id db v)
      ]
