-- ===== src/Booking/Reads.antt =====
-- `getBooking`, `getUserBookings` and `verifyPayment` of
-- booking-service/src/services/booking.service.js. `getBooking` shows a booking whole but for its version
-- and its idempotency key; an item of `getUserBookings` shows less. The passengers' own ids and the
-- times of creation and of the last update are left out; rows stand in the order of their creation.
use railway_booking_system.Base.{
  newest_first, ℕ, ◌+◌, ◌-◌, ◌*◌, ◌/◌, Bool, true, ◌&&◌, not, Option, none, some, List, map, length,
  select, find_first, take, drop, sort_by, ◌==◌, if◌then◌else◌,
}
use railway_booking_system.Errors.{
  Result, ok, err, database, invalid_argument, bad_request, conflict, not_found_error,
  bad_request_error, conflict_error,
}
use railway_booking_system.Effects.{Act, pure, fail, answer, ◌>>=◌}
use railway_booking_system.Booking.Rows.{
  BookingStatus, payment_pending, confirmed, same_status, Reason, BookingSeat, Person, Passenger,
  Booking, World, has_id,
}

pub record BookingView : Type 0 where
  pub id : ℕ
  pub status : BookingStatus
  pub schedule_id : ℕ
  pub train_id : ℕ
  pub train_number : ℕ
  pub train_name : ℕ
  pub departure_date : ℕ
  pub total_amount : ℕ
  pub seat_count : ℕ
  pub from_station_id : Option ℕ
  pub to_station_id : Option ℕ
  pub from_seq : Option ℕ
  pub to_seq : Option ℕ
  pub payment_order_id : Option ℕ
  pub lock_expires_at : Option ℕ
  pub failure_reason : Option Reason
  pub seats : List BookingSeat
  pub passengers : List Passenger

unfoldable pub view_booking : Booking → BookingView
unfolding sort_by
view_booking b = record {
  id = b.id;
  status = b.status;
  schedule_id = b.schedule_id;
  train_id = b.train_id;
  train_number = b.train_number;
  train_name = b.train_name;
  departure_date = b.departure_date;
  total_amount = b.total_amount;
  seat_count = b.seat_count;
  from_station_id = b.from_station_id;
  to_station_id = b.to_station_id;
  from_seq = b.from_seq;
  to_seq = b.to_seq;
  payment_order_id = b.payment_order_id;
  lock_expires_at = b.lock_expires_at;
  failure_reason = b.failure_reason;
  seats = sort_by (λ (s : BookingSeat). s.seat_number) b.seats;
  passengers = b.passengers;
}

-- An item of the list, which shows less.
pub record BookingItem : Type 0 where
  pub id : ℕ
  pub status : BookingStatus
  pub schedule_id : ℕ
  pub train_number : ℕ
  pub train_name : ℕ
  pub departure_date : ℕ
  pub total_amount : ℕ
  pub seat_count : ℕ
  pub from_station_id : Option ℕ
  pub to_station_id : Option ℕ
  pub from_seq : Option ℕ
  pub to_seq : Option ℕ
  pub seats : List BookingSeat
  pub passengers : List Person

unfoldable pub list_item : Booking → BookingItem
unfolding sort_by
list_item b = record {
  id = b.id;
  status = b.status;
  schedule_id = b.schedule_id;
  train_number = b.train_number;
  train_name = b.train_name;
  departure_date = b.departure_date;
  total_amount = b.total_amount;
  seat_count = b.seat_count;
  from_station_id = b.from_station_id;
  to_station_id = b.to_station_id;
  from_seq = b.from_seq;
  to_seq = b.to_seq;
  seats = sort_by (λ (s : BookingSeat). s.seat_number) b.seats;
  passengers = map (λ (p : Passenger). p.person) b.passengers;
}

-- The booking, if it is the user's: both failures answer 404.
unfoldable pub own_booking : (booking_id user_id : ℕ) → World → Result Booking
unfolding has_id
own_booking booking_id user_id w = elim (find_first (has_id booking_id) w.bookings) [
  | none ↦ err not_found_error
  | some b ↦ if b.user_id == user_id then ok b else err not_found_error
]

unfoldable pub get_booking : (booking_id user_id : ℕ) → Act World BookingView
unfolding own_booking view_booking
get_booking booking_id user_id w =
    (answer (own_booking booking_id user_id w) >>= λ b. pure (view_booking b)) w

unfoldable pub is_listed : ℕ → Option BookingStatus → Booking → Bool
unfolding same_status
is_listed user_id status b =
    b.user_id == user_id && elim status [ none ↦ true | some st ↦ same_status b.status st ]

-- The rows that `where` and `orderBy` select.
unfoldable pub listed : ℕ → Option BookingStatus → World → List Booking
unfolding is_listed newest_first
listed user_id status w = newest_first (select (is_listed user_id status) w.bookings)

-- Math.ceil(total / limit), which is not a number of pages where the limit is 0.
unfoldable pub page_count : (total limit : ℕ) → Option ℕ
page_count total limit = if limit == 0 then none else some ((total + limit - 1) / limit)

pub record Page : Type 0 where
  pub bookings : List BookingItem
  pub page : ℕ
  pub limit : ℕ
  pub total : ℕ
  pub total_pages : Option ℕ

-- A page number is 1 or more, or its `skip` is negative and refused.
unfoldable pub get_user_bookings :
    (user_id : ℕ) → Option BookingStatus → (page limit : ℕ) → Act World Page
unfolding listed page_count list_item
get_user_bookings user_id status page limit w =
    let rows = listed user_id status w in
    if page == 0 && not (limit == 0) then (err (database invalid_argument), w) else (
      ok (record {
        bookings = map list_item (take limit (drop ((page - 1) * limit) rows));
        page = page;
        limit = limit;
        total = length rows;
        total_pages = page_count (length rows) limit;
      }),
      w,
    )

pub data Verified : Type 0 where
  already_confirmed : (booking_id : ℕ) → Verified
  verified : (booking_id payment_status : ℕ) → Verified

-- `result` is what payment-service answers to the signature.
unfoldable pub verify_payment : (booking_id user_id : ℕ) → Result ℕ → Act World Verified
unfolding own_booking same_status
verify_payment booking_id user_id result w =
    (answer (own_booking booking_id user_id w) >>= λ b. elim b.payment_order_id [
      | none ↦ fail (bad_request_error bad_request)
      | some _ ↦
          if same_status b.status confirmed
          then pure (already_confirmed b.id)
          else if same_status b.status payment_pending
          then (answer result >>= λ status. pure (verified b.id status))
          else fail (conflict_error conflict)
    ])
      w
