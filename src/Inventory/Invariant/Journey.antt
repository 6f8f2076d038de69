-- ===== src/Inventory/Invariant/Journey.antt =====
-- A write that takes some seats of a schedule from one status to another, and the counts of seats.
use railway_booking_system.Base.{
  ℕ, ◌+◌, pos, ℤ, ◌+ℤ◌, ◌-ℤ◌, int_laws, ◌≡◌, refl, sym, ◌∙◌, ap, Bool, true, false, not, List,
  arith, ◌==◌, map-update_where, All, All-mono, All-update_where, Bool-cases, inl, inr, length,
  length-select, select, select-select-empty, update_row, count_where, update_where,
  count_where-update_same, count_where-update_out, count_where-update_in, ==_iff, ltb,
}
use railway_booking_system.Inventory.Rows.{
  SeatStatus, available, locked, booked, cancelled, same_status, Schedule, Seat, Db,
}
use railway_booking_system.Inventory.Aggregates.{has_status, is_schedule}
use railway_booking_system.Inventory.Selection.{is_requested, has_pk}
use railway_booking_system.Inventory.Invariant.{IsCounted, IsValid}
use railway_booking_system.Inventory.Invariant.Keys.{
  KeepsPlace, update_where-IsKeyed, update_selected,
}

pub not_positive : (n : ℕ) → ltb 0 n ≡ false → n ≡ 0
not_positive n h = ground arith

pub same_status_refl : (st : SeatStatus) → same_status st st ≡ true
unfolding same_status
same_status_refl available = refl
same_status_refl locked = refl
same_status_refl booked = refl
same_status_refl cancelled = refl

pub eq_of_same_status : (a b : SeatStatus) → same_status a b ≡ true → a ≡ b
unfolding same_status
eq_of_same_status a b h = ground arith

-- The counter columns follow the counts.
pub minus_counted : (c c' n : ℕ) (z : ℤ) → z ≡ pos c → c' + n ≡ c → z -ℤ pos n ≡ pos c'
minus_counted c c' n z h e = rw h (omega int_laws)

pub plus_counted : (c c' n : ℕ) (z : ℤ) → z ≡ pos c → c' ≡ c + n → z +ℤ pos n ≡ pos c'
plus_counted c c' n z h e = rw h (omega int_laws)

requested_here :
    (schedule_id : ℕ) (seat_ids : List ℕ) (s : Seat)
    → is_requested schedule_id seat_ids s ≡ true
    → (s.schedule_id == schedule_id) ≡ true
unfolding is_requested
requested_here schedule_id seat_ids s h = ground arith

-- Where no requested row has another status, all have this one.
pub requested_all :
    (schedule_id : ℕ) (seat_ids : List ℕ) (st : SeatStatus) (seats : List Seat)
    → length (
        select
          (λ (s : Seat). not (same_status s.status st))
          (select (is_requested schedule_id seat_ids) seats))
      ≡ 0
    → All
        (λ (s : Seat).
          is_requested schedule_id seat_ids s ≡ true
          → ((s.schedule_id == schedule_id) ≡ true) × (s.status ≡ st))
        seats
requested_all schedule_id seat_ids st seats h =
    All-mono _ _ seats
      (λ s d e. (
        requested_here schedule_id seat_ids s e,
        eq_of_same_status s.status st (ground (arith, d e)),
      ))
      (select-select-empty _ (is_requested schedule_id seat_ids) seats h)

-- The rows `q` of one schedule are read, written by `f` and counted by `g`.
module _ (schedule_id : ℕ) (q : Seat → Bool) (f : Seat → Seat) (g : ℕ → Schedule → Schedule)
    (db : Db) (place : KeepsPlace f)
    (stays : (n : ℕ) (s : Schedule) → (g n s).schedule_id ≡ s.schedule_id) (v : IsValid db)
    (outside : (s : Schedule)
      → (s.schedule_id == schedule_id) ≡ false
      → IsCounted db.seats s
      → IsCounted (update_where q f db.seats) s)
    (inside : (s : Schedule)
      → s.schedule_id ≡ schedule_id
      → IsCounted db.seats s
      → IsCounted (update_where q f db.seats) (g (count_where q db.seats) s)) where
  IsCounted-row :
      (s : Schedule)
      → IsCounted db.seats s
      → IsCounted
          (update_where q f db.seats)
          (update_row (is_schedule schedule_id) (g (count_where q db.seats)) s)
  unfolding is_schedule
  IsCounted-row s c = elim (Bool-cases (s.schedule_id == schedule_id)) [
    | inl e ↦ rw e (inside s ((==_iff _ _).0 e) c)
    | inr e ↦ rw e (outside s e c)
  ]

  pub journey-IsValid : IsValid (record db {
    seats = update_where (has_pk (select q db.seats)) f db.seats;
    schedules =
        update_where (is_schedule schedule_id) (g (length (select q db.seats))) db.schedules;
  })
  journey-IsValid = record {
    keyed = update_where-IsKeyed _ f place v.keyed;
    lock_keys = v.lock_keys;
    exclusive = v.exclusive;
    owned =
        rw
          (
            map-update_where (λ (s : Schedule). s.schedule_id) (is_schedule schedule_id)
                (g (length (select q db.seats))) db.schedules (stays (length (select q db.seats))),
            map-update_where (λ (s : Seat). s.schedule_id) (has_pk (select q db.seats)) f db.seats
                (λ s. (place s).1),
          )
          v.owned;
    counted =
        rw (update_selected q f v.keyed, length-select q db.seats)
          (All-update_where _ _ (is_schedule schedule_id) _ db.schedules IsCounted-row v.counted);
  }

module _ (schedule_id : ℕ) (q : Seat → Bool) (f : Seat → Seat) (from to : SeatStatus)
    (seats : List Seat) (differ : same_status from to ≡ false)
    (differ' : same_status to from ≡ false) (place : KeepsPlace f)
    (becomes : (s : Seat) → (f s).status ≡ to)
    (here : All
      (λ s. q s ≡ true → ((s.schedule_id == schedule_id) ≡ true) × (s.status ≡ from))
      seats) where
  pub count_from :
      count_where (has_status schedule_id from) (update_where q f seats) + count_where q seats
      ≡ count_where (has_status schedule_id from) seats
  unfolding has_status
  count_from = count_where-update_out _ q f seats (
      All-mono _ _ seats (λ s h e. ground (arith, h e, becomes s, place s, same_status_refl from))
        here)

  pub count_to :
      count_where (has_status schedule_id to) (update_where q f seats)
      ≡ count_where (has_status schedule_id to) seats + count_where q seats
  unfolding has_status
  count_to = count_where-update_in _ q f seats (
      All-mono _ _ seats (λ s h e. ground (arith, h e, becomes s, place s, same_status_refl to))
        here)

  pub count_other :
      (st : SeatStatus)
      → same_status from st ≡ false
      → same_status to st ≡ false
      → count_where (has_status schedule_id st) (update_where q f seats)
        ≡ count_where (has_status schedule_id st) seats
  unfolding has_status
  count_other st a b =
      count_where-update_same _ q f seats
        (All-mono _ _ seats (λ s h e. ground (arith, h e, becomes s, place s)) here)

  pub count_elsewhere :
      (k : ℕ) (st : SeatStatus)
      → (k == schedule_id) ≡ false
      → count_where (has_status k st) (update_where q f seats) ≡ count_where (has_status k st) seats
  unfolding has_status
  count_elsewhere k st ne =
      count_where-update_same _ q f seats
        (All-mono _ _ seats (λ s h e. ground (arith, h e, place s)) here)

  pub from_counter :
      (n : ℕ) (z : ℤ)
      → n ≡ count_where q seats
      → z ≡ pos (count_where (has_status schedule_id from) seats)
      → z -ℤ pos n ≡ pos (count_where (has_status schedule_id from) (update_where q f seats))
  from_counter n z e h = minus_counted _ _ n z h (rw e count_from)

  pub to_counter :
      (n : ℕ) (z : ℤ)
      → n ≡ count_where q seats
      → z ≡ pos (count_where (has_status schedule_id to) seats)
      → z +ℤ pos n ≡ pos (count_where (has_status schedule_id to) (update_where q f seats))
  to_counter n z e h = plus_counted _ _ n z h (rw e count_to)

  pub other_counter :
      (st : SeatStatus) (z : ℤ)
      → same_status from st ≡ false
      → same_status to st ≡ false
      → z ≡ pos (count_where (has_status schedule_id st) seats)
      → z ≡ pos (count_where (has_status schedule_id st) (update_where q f seats))
  other_counter st z a b h = h ∙ ap pos (sym (count_other st a b))

  pub elsewhere-IsCounted :
      (s : Schedule)
      → (s.schedule_id == schedule_id) ≡ false
      → IsCounted seats s
      → IsCounted (update_where q f seats) s
  elsewhere-IsCounted s ne c = (
    c.0 ∙ ap pos (sym (count_elsewhere s.schedule_id available ne)),
    c.1 ∙ ap pos (sym (count_elsewhere s.schedule_id locked ne)),
    c.2 ∙ ap pos (sym (count_elsewhere s.schedule_id booked ne)),
  )
