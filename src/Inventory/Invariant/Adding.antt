-- ===== src/Inventory/Invariant/Adding.antt =====
-- Creating seats and stops adds rows and changes no other.
use railway_booking_system.Base.{
  ℕ, suc, ◌+◌, ◌≤◌, ◌≡◌, refl, ◌∙◌, true, false, ◌&&◌, List, [], ◌∷◌, ◌++◌, map, arith, ◌==◌, elem,
  any, any-false, All, All-mono, All-append, AllPairs-append, length, count_where,
  count_where-append, Bool-cases, ==_iff, inl, inr, if◌then◌else◌,
}
use railway_booking_system.Inventory.Rows.{SeatStatus, available, same_status, Schedule, Seat, Db}
use railway_booking_system.Inventory.Transaction.{Commits, Commits-ok, Commits-err, Commits-mono}
use railway_booking_system.Inventory.Aggregates.{is_schedule, has_status}
use railway_booking_system.Inventory.Lifecycle.{
  SeatData, StopData, new_seat, clashes, create_seats, create_stops, clashing_stops, new_stop,
}
use railway_booking_system.Inventory.Invariant.{IsKeyed, schedule_ids, homes}

-- Seats that were added to a schedule: `n` of them, all AVAILABLE, and nothing else changed.
pub record Added (schedule_id n : ℕ) (db db' : Db) : Type 0 where
  pub same_schedules : db'.schedules ≡ db.schedules
  pub same_locks : db'.segment_locks ≡ db.segment_locks
  pub grows : db.next_id ≤ db'.next_id
  pub keyed : IsKeyed db.next_id db.seats → IsKeyed db'.next_id db'.seats
  pub owned :
      (ids : List ℕ)
      → elem schedule_id ids ≡ true
      → All (λ k. elem k ids ≡ true) (homes db.seats)
      → All (λ k. elem k ids ≡ true) (homes db'.seats)
  pub counts :
      (k : ℕ) (st : SeatStatus)
      → count_where (has_status k st) db'.seats
        ≡ count_where (has_status k st) db.seats
          + (if k == schedule_id && same_status available st then n else 0)

append-IsKeyed :
    (schedule_id : ℕ) (d : SeatData) (n : ℕ) (seats : List Seat)
    → any (clashes (new_seat n schedule_id d)) seats ≡ false
    → IsKeyed n seats
    → IsKeyed (suc n) (seats ++ new_seat n schedule_id d ∷ [])
unfolding new_seat clashes
append-IsKeyed schedule_id d n seats free v = record {
  distinct =
      AllPairs-append _ seats _ v.distinct (tt, tt)
        (All-mono _ _ seats (λ s h. ((λ e. omega arith), tt)) v.fresh);
  fresh = All-append _ seats _ (All-mono _ _ seats (λ s h. omega arith) v.fresh) (omega arith, tt);
  places =
      AllPairs-append _ seats _ v.places (tt, tt)
        (All-mono _ _ seats (λ s h. ((λ e. ground (arith, h, e.0, e.1)), tt))
          (any-false _ seats free));
}

map-append_one :
    (f : Seat → ℕ) (seats : List Seat) (s : Seat)
    → map f (seats ++ s ∷ []) ≡ map f seats ++ f s ∷ []
map-append_one f [] s = refl
map-append_one f (x ∷ xs) s = rw (map-append_one f xs s)

add_one :
    (schedule_id : ℕ) (d : SeatData) (db : Db)
    → any (clashes (new_seat db.next_id schedule_id d)) db.seats ≡ false
    → Added schedule_id 1 db (record db {
      seats = db.seats ++ new_seat db.next_id schedule_id d ∷ [];
      next_id = suc db.next_id;
    })
add_one schedule_id d db free = record {
  same_schedules = refl;
  same_locks = refl;
  grows = omega arith;
  keyed = append-IsKeyed schedule_id d db.next_id db.seats free;
  owned = λ ids here old.
      unfold new_seat in
      rw map-append_one (All-append _ (homes db.seats) (schedule_id ∷ []) old (here, tt));
  counts = λ k st.
      unfold new_seat has_status in rw count_where-append (ground (arith, ==_iff k schedule_id));
}

Added-trans :
    {schedule_id m n t : ℕ} {a b c : Db}
    → t ≡ n + m
    → Added schedule_id m a b
    → Added schedule_id n b c
    → Added schedule_id t a c
Added-trans {schedule_id} {m} {n} {t} {a} {b} {c} e f g = record {
  same_schedules = g.same_schedules ∙ f.same_schedules;
  same_locks = g.same_locks ∙ f.same_locks;
  grows = omega arith;
  keyed = λ v. g.keyed (f.keyed v);
  owned = λ ids here old. g.owned ids here (f.owned ids here old);
  counts = λ k st. ground (arith, f.counts k st, g.counts k st);
}

pub create_seats-Added :
    (schedule_id : ℕ) (ds : List SeatData) (db : Db)
    → Commits (λ _ db'. Added schedule_id (length ds) db db') (create_seats schedule_id ds db)
unfolding create_seats
create_seats-Added schedule_id [] db = Commits-ok _ _ _ (record {
  same_schedules = refl;
  same_locks = refl;
  grows = omega arith;
  keyed = λ v. v;
  owned = λ ids here old. old;
  counts = λ k st. ground arith;
})
create_seats-Added schedule_id (d ∷ ds) db =
    elim (Bool-cases (any (clashes (new_seat db.next_id schedule_id d)) db.seats)) [
      | inl e ↦ rw e (Commits-err _ _)
      | inr e ↦ rw e (
          Commits-mono _ _ _ (λ _ db' h. Added-trans (omega arith) (add_one schedule_id d db e) h)
            (create_seats-Added schedule_id ds _))
    ]

-- Stops are written to their own table.
abbrev pub OnlyStops : Db → Db → Type 0
OnlyStops db db' = db' ≡ record db { route_stops = db'.route_stops }

pub create_stops-OnlyStops :
    (schedule_id : ℕ) (ds : List StopData) (db : Db)
    → Commits (λ _ db'. OnlyStops db db') (create_stops schedule_id ds db)
unfolding create_stops
create_stops-OnlyStops schedule_id [] db = Commits-ok _ _ _ refl
create_stops-OnlyStops schedule_id (d ∷ ds) db =
    elim (Bool-cases (any (clashing_stops (new_stop schedule_id d)) db.route_stops)) [
      | inl e ↦ rw e (Commits-err _ _)
      | inr e ↦ rw e (Commits-mono _ _ _ (λ _ db' h. cc) (create_stops-OnlyStops schedule_id ds _))
    ]

pub elem-schedule_ids :
    (schedule_id : ℕ) (schedules : List Schedule)
    → any (is_schedule schedule_id) schedules ≡ false
    → elem schedule_id (schedule_ids schedules) ≡ false
unfolding is_schedule
elem-schedule_ids schedule_id [] h = refl
elem-schedule_ids schedule_id (s ∷ rest) h =
    ground (arith, h, ==_iff schedule_id s.schedule_id, elem-schedule_ids schedule_id rest)

pub elem_last : (k : ℕ) (ks : List ℕ) → elem k (ks ++ k ∷ []) ≡ true
elem_last k [] = ground arith
elem_last k (j ∷ ks) = ground (arith, elem_last k ks)

pub elem-append_left : (k n : ℕ) (ks : List ℕ) → elem k ks ≡ true → elem k (ks ++ n ∷ []) ≡ true
elem-append_left k n [] h = cc
elem-append_left k n (j ∷ ks) h = ground (arith, elem-append_left k n ks)

pub schedule_ids-append :
    (schedules : List Schedule) (s : Schedule)
    → schedule_ids (schedules ++ s ∷ []) ≡ schedule_ids schedules ++ s.schedule_id ∷ []
schedule_ids-append [] s = refl
schedule_ids-append (x ∷ xs) s = rw (schedule_ids-append xs s)
