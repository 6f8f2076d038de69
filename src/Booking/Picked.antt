-- ===== src/Booking/Picked.antt =====
-- The checks of `createBooking` of booking-service/src/services/booking.service.js before it takes
-- locks, and the seats that they find.
use railway_booking_system.Base.{
  ℕ, ◌+◌, ◌≡◌, refl, ◌∙◌, subst, Bool, true, false, not, Option, some, List, [], ◌∷◌, map, ltb,
  ==_iff, Bool-cases, Option-cases, inl, inr, arith,
}
use railway_booking_system.Errors.{
  Result, ok, err, Failure, Result-cases, bad_request, bad_request_error, not_found_error,
  conflict_error, seats_unavailable,
}
use railway_booking_system.Effects.{Act, pure, answer, fail_if, ◌>>=◌, ◌>>◌}
use railway_booking_system.Inventory.Query.{SeatView}
use railway_booking_system.Booking.Rows.{BookingSeat, World}
use railway_booking_system.Booking.Checks.{
  Request, Surroundings, Availability, is_free, find_seat, pick_seats, check_seats, check_schedule,
  find_seats, start_of_day,
}
use railway_booking_system.Booking.Create.{total_price, booked_seat}

abbrev pub seat_ids : List BookingSeat → List ℕ
seat_ids = map (λ (s : BookingSeat). s.seat_id)

-- What the seats cost together.
abbrev pub charge : List BookingSeat → ℕ
charge [] = 0
charge (s ∷ seats) = s.price + charge seats

pub total_price-charge : (vs : List SeatView) → total_price vs ≡ charge (map booked_seat vs)
unfolding total_price
total_price-charge [] = refl
total_price-charge (v ∷ vs) = rw (total_price-charge vs) refl

find_seat-id :
    (id : ℕ) (views : List SeatView) (v : SeatView) → find_seat id views ≡ some v → v.seat_id ≡ id
unfolding find_seat
find_seat-id id [] v h = absurd cc
find_seat-id id (u ∷ views) v h = elim (Option-cases (find_seat id views)) [
  | inr (t, e) ↦ find_seat-id id views v (e ∙ (rw e at h))
  | inl e ↦ ground (arith, e, h, ==_iff u.seat_id id)
]

pick_seats-ids :
    (from_seq to_seq : Option ℕ) (views : List SeatView) (ids : List ℕ) (vs : List SeatView)
    → pick_seats from_seq to_seq views ids ≡ ok vs
    → seat_ids (map booked_seat vs) ≡ ids
unfolding pick_seats
pick_seats-ids f t views [] vs h =
    let e : [] ≡ vs = cc in subst (λ l. seat_ids (map booked_seat l) ≡ []) e refl
pick_seats-ids f t views (id ∷ ids) vs h = elim (Option-cases (find_seat id views)) [
  | inl e ↦ absurd (let h' : err not_found_error ≡ ok vs = (rw (pick_seats, e) at h) in cc)
  | inr (v, e) ↦ elim (Bool-cases (is_free f t v)) [
    | inr c ↦ absurd (
        let h' : err (conflict_error seats_unavailable) ≡ ok vs = (rw (pick_seats, e, c) at h) in
        cc)
    | inl c ↦ elim (Result-cases (pick_seats f t views ids)) [
      | inr (x, d) ↦ absurd (let h' : err x ≡ ok vs = (rw (pick_seats, e, c, d) at h) in cc)
      | inl (us, d) ↦
          let h' : ok (v ∷ us) ≡ ok vs = (rw (pick_seats, e, c, d) at h) in
          let q : v ∷ us ≡ vs = cc in
          subst (λ l. seat_ids (map booked_seat l) ≡ id ∷ ids) q
            (let head = find_seat-id id views v e in
              let tail = pick_seats-ids f t views ids us d in rw (head, tail) refl)
    ]
  ]
]

abbrev pub Checked : Request → World → Result (Availability × List SeatView) × World → Type 0
Checked r w (ok found, v) = (v ≡ w) × (seat_ids (map booked_seat found.1) ≡ r.seat_ids)
Checked r w (err e, v) = v ≡ w

module _ (r : Request) (s : Surroundings) (w : World) where
  guarded :
      (k : Act World (Availability × List SeatView)) (b : Bool) (e : Failure)
      → Checked r w (k w)
      → Checked r w ((fail_if b e >> k) w)
  guarded k true e h = refl
  guarded k false e h = h

  picked :
      (a : Availability) (views : List SeatView) (x : Result (List SeatView))
      → pick_seats r.from_seq r.to_seq views r.seat_ids ≡ x
      → Checked r w ((answer x >>= λ vs. pure (a, vs)) w)
  picked a views (ok vs) h = (refl, pick_seats-ids r.from_seq r.to_seq views r.seat_ids vs h)
  picked a views (err e) h = refl

  found :
      (a : Availability) (x : Result (List SeatView))
      → Checked r w (
          (answer x >>= λ views.
          answer (pick_seats r.from_seq r.to_seq views r.seat_ids) >>= λ vs. pure (a, vs))
            w)
  found a (err e) = refl
  found a (ok views) = picked a views (pick_seats r.from_seq r.to_seq views r.seat_ids) refl

  check_schedule-Checked : (a : Availability) → Checked r w (check_schedule r s a w)
  unfolding check_schedule find_seats
  check_schedule-Checked a =
      guarded
        (fail_if (ltb a.departure_date (start_of_day s.now)) (bad_request_error bad_request)
          >> find_seats r s a)
        (not a.is_active) (bad_request_error bad_request)
        (guarded (find_seats r s a) (ltb a.departure_date (start_of_day s.now))
          (bad_request_error bad_request) (found a s.seats))

  answered : (x : Result Availability) → Checked r w ((answer x >>= check_schedule r s) w)
  answered (err e) = refl
  answered (ok a) = check_schedule-Checked a

-- The checks write nothing, and the seats that they find are those of the request, in its order.
pub check_seats-Checked :
    (r : Request) (s : Surroundings) (w : World) → Checked r w (check_seats r s w)
unfolding check_seats
check_seats-Checked r s w = answered r s w s.availability
