-- ===== src/Booking/Checks.antt =====
-- What `createBooking` of booking-service/src/services/booking.service.js checks before it takes locks.
-- What inventory-service answers on the schedule and its seats comes as an argument, as do the times;
-- `up` says whether Redis answers.
use railway_booking_system.Base.{
  ℕ, ◌*◌, ◌/◌, Bool, true, false, ◌&&◌, ◌||◌, not, Option, none, some, List, [], ◌∷◌, length, ltb,
  leb, ◌==◌, truthy, if◌then◌else◌,
}
use railway_booking_system.Errors.{
  Result, ok, err, bad_request, seats_unavailable, bad_request_error, not_found_error,
  conflict_error,
}
use railway_booking_system.Effects.{Act, pure, fail_if, answer, ◌>>=◌, ◌>>◌}
use railway_booking_system.Inventory.Rows.{SeatStatus, available, same_status}
use railway_booking_system.Inventory.Query.{SegmentStatus, seg_available, seg_unavailable, SeatView}
use railway_booking_system.Booking.Rows.{Person, World}

-- A missing id or key is 0, and a missing list is empty: the code rejects both.
pub record Request : Type 0 where
  pub user_id : ℕ
  pub schedule_id : ℕ
  pub seat_ids : List ℕ
  pub passengers : List Person
  pub idempotency_key : ℕ
  pub from_station_id : Option ℕ
  pub to_station_id : Option ℕ
  pub from_seq : Option ℕ
  pub to_seq : Option ℕ

-- The answer of getAvailability; the status is whether it is ACTIVE, the date in milliseconds.
pub record Availability : Type 0 where
  pub is_active : Bool
  pub departure_date : ℕ
  pub train_id : ℕ
  pub train_number : ℕ
  pub train_name : ℕ

-- What a request meets: the answers on its schedule, the times of its steps, whether Redis answers, and
-- the value of the locks that it takes.
pub record Surroundings : Type 0 where
  pub availability : Result Availability
  pub seats : Result (List SeatView)
  pub up : Bool
  pub now : ℕ
  pub lock_value : ℕ
  pub locked_at : ℕ
  pub created_at : ℕ
  pub released_at : ℕ
  pub booking_ttl : ℕ
  pub lock_ttl : ℕ

unfoldable pub is_given : Option ℕ → Option ℕ → Bool
is_given from_seq to_seq = truthy from_seq && truthy to_seq

abbrev pub at_or_after : Option ℕ → Option ℕ → Bool
at_or_after (some f) (some t) = leb t f
at_or_after _ _ = false

-- The five checks of the arguments, which throw the same error.
unfoldable pub is_malformed : Request → Bool
unfolding is_given
is_malformed r =
    r.schedule_id == 0
    || length r.seat_ids == 0
    || length r.passengers == 0
    || not (length r.seat_ids == length r.passengers)
    || r.idempotency_key == 0
    || is_given r.from_seq r.to_seq && at_or_after r.from_seq r.to_seq

unfoldable pub validate : Request → Act World (Unit {0})
unfolding is_malformed
validate r = fail_if (is_malformed r) (bad_request_error bad_request)

abbrev pub day : ℕ
day = 86400000

-- Midnight UTC of the day of a time.
unfoldable pub start_of_day : ℕ → ℕ
start_of_day now = now / day * day

unfoldable pub is_free_segment : Option SegmentStatus → SeatStatus → Bool
unfolding same_status
is_free_segment none st = same_status st available
is_free_segment (some seg_available) st = true
is_free_segment (some seg_unavailable) st = false

unfoldable pub is_free : Option ℕ → Option ℕ → SeatView → Bool
unfolding is_given is_free_segment same_status
is_free from_seq to_seq v =
    if is_given from_seq to_seq
    then is_free_segment v.segment_status v.status
    else same_status v.status available

-- The seats in the order of the request; of two rows with one id the map keeps the later.
unfoldable pub find_seat : ℕ → List SeatView → Option SeatView
find_seat id [] = none
find_seat id (v ∷ vs) = elim (find_seat id vs) [
  | some u ↦ some u
  | none ↦ if v.seat_id == id then some v else none
]

unfoldable pub pick_seats :
    (from_seq to_seq : Option ℕ) → List SeatView → List ℕ → Result (List SeatView)
unfolding find_seat is_free
pick_seats from_seq to_seq views [] = ok []
pick_seats from_seq to_seq views (id ∷ ids) =
    let rest = pick_seats from_seq to_seq views ids in
    elim (find_seat id views) [
      | none ↦ err not_found_error
      | some v ↦
          if is_free from_seq to_seq v
          then elim rest [ ok vs ↦ ok (v ∷ vs) | err e ↦ err e ]
          else err (conflict_error seats_unavailable)
    ]

unfoldable pub find_seats :
    Request → Surroundings → Availability → Act World (Availability × List SeatView)
unfolding pick_seats
find_seats r s a = answer s.seats >>= λ views.
    answer (pick_seats r.from_seq r.to_seq views r.seat_ids) >>= λ vs. pure (a, vs)

unfoldable pub check_schedule :
    Request → Surroundings → Availability → Act World (Availability × List SeatView)
unfolding start_of_day find_seats
check_schedule r s a =
    fail_if (not a.is_active) (bad_request_error bad_request)
    >> (fail_if (ltb a.departure_date (start_of_day s.now)) (bad_request_error bad_request)
        >> find_seats r s a)

unfoldable pub check_seats : Request → Surroundings → Act World (Availability × List SeatView)
unfolding check_schedule
check_seats r s = answer s.availability >>= check_schedule r s
