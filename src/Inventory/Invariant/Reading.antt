-- ===== src/Inventory/Invariant/Reading.antt =====
-- The steps that the seat operations begin and end with, in proofs that the invariant stays.
use railway_booking_system.Base.{
  ℕ, ◌≡◌, refl, some, arith, count_where, length-select, update_where, [], ◌∷◌, Bool, true, not,
  ◌==◌, List, length, select, find_first, Bool-cases, Option-cases, inl, inr,
}
use railway_booking_system.Errors.{ok}
use railway_booking_system.Inventory.Rows.{Schedule, Seat, Db}
use railway_booking_system.Inventory.Transaction.{Tx, Commits, Commits-err, ◌>>=◌}
use railway_booking_system.Inventory.Aggregates.{is_schedule}
use railway_booking_system.Inventory.Selection.{is_requested, read_seats, find_schedule}
use railway_booking_system.Inventory.Invariant.{IsValid}

abbrev pub StaysValid {ℓ} : {A : Type ℓ} → Tx A → Db → Type ℓ
StaysValid m db = Commits (λ _ db'. IsValid db') (m db)

pub read_seats-Commits {ℓ} :
    {A : Type ℓ} (Q : A → Db → Type 0) (schedule_id : ℕ) (seat_ids : List ℕ) (k : List Seat → Tx A)
    (db : Db)
    → (count_where (is_requested schedule_id seat_ids) db.seats ≡ length seat_ids
        → Commits Q (k (select (is_requested schedule_id seat_ids) db.seats) db))
    → Commits Q ((read_seats schedule_id seat_ids >>= k) db)
unfolding read_seats
read_seats-Commits Q schedule_id seat_ids k db h =
    elim (Bool-cases
      (not (length (select (is_requested schedule_id seat_ids) db.seats) == length seat_ids))) [
        | inl e ↦ rw (e, ◌>>=◌) (Commits-err _ _)
        | inr e ↦
            rw (e, ◌>>=◌)
              (h (ground (arith, e, length-select (is_requested schedule_id seat_ids) db.seats)))
      ]

pub read_seats-StaysValid {ℓ} :
    {A : Type ℓ} (schedule_id : ℕ) (seat_ids : List ℕ) (k : List Seat → Tx A) (db : Db)
    → StaysValid (k (select (is_requested schedule_id seat_ids) db.seats)) db
    → StaysValid (read_seats schedule_id seat_ids >>= k) db
read_seats-StaysValid schedule_id seat_ids k db h =
    read_seats-Commits _ schedule_id seat_ids k db (λ _. h)

pub find_schedule-StaysValid {ℓ} :
    {A : Type ℓ} (schedule_id : ℕ) (k : Schedule → Tx A) (db : Db)
    → ((s : Schedule) → StaysValid (k s) db)
    → StaysValid (find_schedule schedule_id >>= k) db
unfolding find_schedule
find_schedule-StaysValid schedule_id k db h =
    elim (Option-cases (find_first (is_schedule schedule_id) db.schedules)) [
      | inl e ↦ rw (e, ◌>>=◌) (Commits-err _ _)
      | inr (s, e) ↦ rw (e, ◌>>=◌) (h s)
    ]

-- The same steps, when they succeed.
pub read_seats-ok :
    (schedule_id : ℕ) (seat_ids : List ℕ) (db : Db)
    → count_where (is_requested schedule_id seat_ids) db.seats ≡ length seat_ids
    → read_seats schedule_id seat_ids db
      ≡ ok (select (is_requested schedule_id seat_ids) db.seats, db)
unfolding read_seats
read_seats-ok schedule_id seat_ids db h =
    let e : (length (select (is_requested schedule_id seat_ids) db.seats) == length seat_ids)
        ≡ true =
      ground (arith, h, length-select (is_requested schedule_id seat_ids) db.seats) in
    rw e refl

pub find_schedule-ok :
    (schedule_id : ℕ) (s : Schedule) (db : Db)
    → find_first (is_schedule schedule_id) db.schedules ≡ some s
    → find_schedule schedule_id db ≡ ok (s, db)
unfolding find_schedule
find_schedule-ok schedule_id s db h = rw h refl

-- A schedule is still found when rows of its id are written with their id kept.
pub find_first-update_where :
    {A : Type 0} (p : A → Bool) (f : A → A) (xs : List A) (x : A)
    → ((y : A) → p (f y) ≡ p y)
    → find_first p xs ≡ some x
    → find_first p (update_where p f xs) ≡ some (f x)
find_first-update_where p f [] x keeps h = absurd cc
find_first-update_where p f (y ∷ ys) x keeps h = elim (Bool-cases (p y)) [
  | inl e ↦ let same : some y ≡ some x = (rw e at h) in rw (e, keeps y, e) (cc same)
  | inr e ↦ rw (e, e) (find_first-update_where p f ys x keeps (rw e at h))
]
