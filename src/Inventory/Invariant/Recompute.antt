-- ===== src/Inventory/Invariant/Recompute.antt =====
-- The two recomputations rewrite only the seats and the counters of one schedule, and leave its
-- counters right.
use railway_booking_system.Base.{
  ℕ, ◌≡◌, refl, ◌∙◌, Bool, true, false, List, [], ◌∷◌, map, arith, pos, ap, sym, ==_iff,
  map-update_where, elem, All, All-all, All-mono, All-update_where, update_row, update_where,
  count_where, count_where-update_same, Bool-cases, inl, inr, ◌==◌,
}
use railway_booking_system.Errors.{ok}
use railway_booking_system.Inventory.Rows.{
  SeatStatus, available, locked, booked, Schedule, Seat, Db,
}
use railway_booking_system.Inventory.Aggregates.{
  Counts, StatusChanges, no_changes, is_seat, set_summary, is_status, old_status, new_status,
  recompute_seat, recompute_segment_seat_statuses, has_status, count_seats, is_schedule, set_counts,
  recount_schedule_aggregates,
}
use railway_booking_system.Inventory.Selection.{is_requested, refresh}
use railway_booking_system.Inventory.Invariant.{
  IsKeyed, HasKeys, NoDoubleBooking, IsCounted, IsValid, schedule_ids, homes,
}
use railway_booking_system.Inventory.Invariant.Keys.{KeepsPlace, update_where-IsKeyed}

-- A change of seat rows of one schedule that moves no seat.
pub record OnlySeats (schedule_id : ℕ) (db db' : Db) : Type 0 where
  pub same_locks : db'.segment_locks ≡ db.segment_locks
  pub same_schedules : db'.schedules ≡ db.schedules
  pub same_next : db'.next_id ≡ db.next_id
  pub same_stops : db'.route_stops ≡ db.route_stops
  pub same_processed : db'.processed ≡ db.processed
  pub same_homes : homes db'.seats ≡ homes db.seats
  pub keeps_keys : (n : ℕ) → IsKeyed n db.seats → IsKeyed n db'.seats
  pub same_requests :
      (k : ℕ) (ids : List ℕ)
      → count_where (is_requested k ids) db'.seats ≡ count_where (is_requested k ids) db.seats
  pub others :
      (k : ℕ) (st : SeatStatus)
      → (k == schedule_id) ≡ false
      → count_where (has_status k st) db'.seats ≡ count_where (has_status k st) db.seats

OnlySeats-refl : (schedule_id : ℕ) (db : Db) → OnlySeats schedule_id db db
OnlySeats-refl schedule_id db = record {
  same_locks = refl;
  same_schedules = refl;
  same_next = refl;
  same_stops = refl;
  same_processed = refl;
  same_homes = refl;
  keeps_keys = λ n v. v;
  same_requests = λ k ids. refl;
  others = λ k st h. refl;
}

OnlySeats-trans :
    {schedule_id : ℕ} {a b c : Db}
    → OnlySeats schedule_id a b
    → OnlySeats schedule_id b c
    → OnlySeats schedule_id a c
OnlySeats-trans f g = record {
  same_locks = g.same_locks ∙ f.same_locks;
  same_schedules = g.same_schedules ∙ f.same_schedules;
  same_next = g.same_next ∙ f.same_next;
  same_stops = g.same_stops ∙ f.same_stops;
  same_processed = g.same_processed ∙ f.same_processed;
  same_homes = g.same_homes ∙ f.same_homes;
  keeps_keys = λ n v. g.keeps_keys n (f.keeps_keys n v);
  same_requests = λ k ids. g.same_requests k ids ∙ f.same_requests k ids;
  others = λ k st h. g.others k st h ∙ f.others k st h;
}

-- An update of seats of one schedule that changes their status at most.
pub update_seats-OnlySeats :
    (schedule_id : ℕ) (p : Seat → Bool) (f : Seat → Seat) (db : Db)
    → KeepsPlace f
    → All (λ (s : Seat). p s ≡ true → (s.schedule_id == schedule_id) ≡ true) db.seats
    → OnlySeats schedule_id db (record db { seats = update_where p f db.seats })
unfolding has_status is_requested
update_seats-OnlySeats schedule_id p f db k here = record {
  same_locks = refl;
  same_schedules = refl;
  same_next = refl;
  same_stops = refl;
  same_processed = refl;
  same_homes = map-update_where _ p f db.seats (λ s. (k s).1);
  keeps_keys = λ n v. update_where-IsKeyed p f k v;
  same_requests = λ j ids.
      count_where-update_same (is_requested j ids) p f db.seats
        (All-all _ db.seats (λ s _. cc ((k s).1, (k s).2)));
  others = λ j st h.
      count_where-update_same (has_status j st) p f db.seats
        (All-mono _ _ db.seats (λ s inside q. ground (arith, k s, inside q)) here);
}

set_summary-KeepsPlace : (st : SeatStatus) → KeepsPlace (set_summary st)
unfolding set_summary
set_summary-KeepsPlace st s = (refl, refl, refl)

is_seat-here :
    (schedule_id seat_id : ℕ) (s : Seat)
    → is_seat schedule_id seat_id s ≡ true
    → (s.schedule_id == schedule_id) ≡ true
unfolding is_seat
is_seat-here schedule_id seat_id s h = ground arith

pub recompute_seat-OnlySeats :
    (schedule_id seat_id : ℕ) (acc : StatusChanges × Db)
    → OnlySeats schedule_id acc.1 (recompute_seat schedule_id seat_id acc).1
unfolding recompute_seat
recompute_seat-OnlySeats schedule_id seat_id (c, db) =
    elim (Bool-cases
      (is_status (old_status schedule_id seat_id db) (new_status schedule_id seat_id db))) [
        | inl e ↦ rw (e, recompute_seat) (OnlySeats-refl schedule_id db)
        | inr e ↦
            rw (e, recompute_seat)
              (update_seats-OnlySeats schedule_id (is_seat schedule_id seat_id)
                (set_summary (new_status schedule_id seat_id db)) db
                (set_summary-KeepsPlace (new_status schedule_id seat_id db))
                (All-all _ db.seats (is_seat-here schedule_id seat_id)))
      ]

pub recompute-OnlySeats :
    (schedule_id : ℕ) (seat_ids : List ℕ) (acc : StatusChanges × Db)
    → OnlySeats schedule_id acc.1 (recompute_segment_seat_statuses schedule_id seat_ids acc).1
unfolding recompute_segment_seat_statuses
recompute-OnlySeats schedule_id [] acc = OnlySeats-refl schedule_id acc.1
recompute-OnlySeats schedule_id (seat_id ∷ rest) acc =
    OnlySeats-trans (recompute_seat-OnlySeats schedule_id seat_id acc)
      (recompute-OnlySeats schedule_id rest (recompute_seat schedule_id seat_id acc))

-- The counters of every other schedule.
abbrev pub OthersCounted : ℕ → Db → Type 0
OthersCounted schedule_id db =
    All (λ (s : Schedule). (s.schedule_id == schedule_id) ≡ false → IsCounted db.seats s)
      db.schedules

pub recount-IsCounted :
    (schedule_id : ℕ) (db : Db)
    → OthersCounted schedule_id db
    → All (IsCounted db.seats) (recount_schedule_aggregates schedule_id db).1.schedules
unfolding recount_schedule_aggregates count_seats is_schedule set_counts
recount-IsCounted schedule_id db others =
    All-update_where _ (IsCounted db.seats) (is_schedule schedule_id) _ db.schedules row others
  where
    row :
        (s : Schedule)
        → ((s.schedule_id == schedule_id) ≡ false → IsCounted db.seats s)
        → IsCounted db.seats
            (update_row (is_schedule schedule_id) (set_counts (count_seats schedule_id db.seats)) s)
    row s h = elim (Bool-cases (s.schedule_id == schedule_id)) [
      | inl e ↦
          let same : s.schedule_id ≡ schedule_id = (==_iff _ _).0 e in
          rw (e, same) (refl, refl, refl)
      | inr e ↦ rw e (h e)
    ]

-- The recomputation of some seats and of the counters, as one function of the tables.
unfoldable pub refreshed : ℕ → List ℕ → Db → Counts × Db
unfolding recompute_segment_seat_statuses recount_schedule_aggregates
refreshed schedule_id seat_ids db =
    recount_schedule_aggregates schedule_id
      (recompute_segment_seat_statuses schedule_id seat_ids (no_changes, db)).1

-- Seats that count alike outside a schedule keep the other schedules' counters right.
pub others-IsCounted :
    (schedule_id : ℕ) (seats seats' : List Seat) (schedules : List Schedule)
    → ((k : ℕ) (st : SeatStatus)
        → (k == schedule_id) ≡ false
        → count_where (has_status k st) seats' ≡ count_where (has_status k st) seats)
    → All (λ (s : Schedule). (s.schedule_id == schedule_id) ≡ false → IsCounted seats s) schedules
    → All (λ (s : Schedule). (s.schedule_id == schedule_id) ≡ false → IsCounted seats' s) schedules
others-IsCounted schedule_id seats seats' schedules moved others =
    All-mono _ _ schedules
      (λ s h e.
        let old = h e in
        (
          old.0 ∙ ap pos (sym (moved s.schedule_id available e)),
          old.1 ∙ ap pos (sym (moved s.schedule_id locked e)),
          old.2 ∙ ap pos (sym (moved s.schedule_id booked e)),
        ))
      others

pub OnlySeats-OthersCounted :
    {schedule_id : ℕ} {db db' : Db}
    → OnlySeats schedule_id db db'
    → OthersCounted schedule_id db
    → OthersCounted schedule_id db'
OnlySeats-OthersCounted {schedule_id} {db} {db'} f others =
    rw f.same_schedules
      (others-IsCounted schedule_id db.seats db'.seats db.schedules f.others others)

pub IsValid-OthersCounted : {db : Db} (schedule_id : ℕ) → IsValid db → OthersCounted schedule_id db
IsValid-OthersCounted {db} schedule_id v = All-mono _ _ db.schedules (λ s h e. h) v.counted

-- Whatever the segment locks have become, the recomputation restores the invariant.
pub refreshed-IsValid :
    (schedule_id : ℕ) (seat_ids : List ℕ) (db : Db)
    → IsKeyed db.next_id db.seats
    → HasKeys db.next_id db.segment_locks
    → NoDoubleBooking db.segment_locks
    → All (λ k. elem k (schedule_ids db.schedules) ≡ true) (homes db.seats)
    → OthersCounted schedule_id db
    → IsValid (refreshed schedule_id seat_ids db).1
unfolding refreshed recount_schedule_aggregates set_counts
refreshed-IsValid schedule_id seat_ids db keyed lock_keys exclusive owned others =
    let only = recompute-OnlySeats schedule_id seat_ids (no_changes, db) in
    record {
      keyed = rw only.same_next (only.keeps_keys db.next_id keyed);
      lock_keys = rw (only.same_next, only.same_locks) lock_keys;
      exclusive = rw only.same_locks exclusive;
      owned =
          rw
            (
              map-update_where (λ (s : Schedule). s.schedule_id) (is_schedule schedule_id)
                  (set_counts (count_seats schedule_id _)) _ (λ s. refl),
              only.same_schedules,
              only.same_homes,
            )
            owned;
      counted =
          recount-IsCounted schedule_id
            (recompute_segment_seat_statuses schedule_id seat_ids (no_changes, db)).1
            (OnlySeats-OthersCounted only others);
    }

-- `refresh` in a transaction is that function.
pub refresh-eq-refreshed :
    (schedule_id : ℕ) (rows : List Seat) (db : Db)
    → refresh schedule_id rows db
      ≡ (let r = refreshed schedule_id (map (λ (s : Seat). s.seat_id) rows) db in ok r)
unfolding refresh refreshed
refresh-eq-refreshed schedule_id rows db = refl
