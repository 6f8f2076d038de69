-- ===== src/Inventory/Invariant/Cleaning.antt =====
-- `cleanExpiredLocks` keeps the invariant of the tables.
use railway_booking_system.Base.{
  ℕ, ◌≡◌, refl, Bool, true, false, ◌&&◌, none, some, List, [], ◌∷◌, map, arith, find_first, All,
  All-mono, All-zip, All-select, All-update_where, DistinctKeys, &&-split, ==_iff, sym,
  map-update_where, select, elem, AllPairs-delete_where, Bool-cases, Option-cases, inl, inr, ◌==◌,
}
use railway_booking_system.Inventory.Rows.{locked, same_status, Schedule, Seat, SegmentLock, Db}
use railway_booking_system.Inventory.Aggregates.{
  no_changes, is_schedule, set_counts, count_seats, recompute_segment_seat_statuses,
  recount_schedule_aggregates, recount_and_publish,
}
use railway_booking_system.Inventory.Cancel.{unique}
use railway_booking_system.Inventory.Unlock.{release_seat}
use railway_booking_system.Inventory.Expiry.{
  undisturbed, expired_locks, is_expired_lock, is_expired_seat, remove_locks, affected_seats,
  recompute_schedules, clean_segment_locks, release_expired, release_schedules, clean_seats,
  clean_expired_locks,
}
use railway_booking_system.Inventory.Invariant.{
  IsKeyed, HasKeys, NoDoubleBooking, IsValid, schedule_ids, homes,
}
use railway_booking_system.Inventory.Invariant.Keys.{KeepsPlace, delete_where-HasKeys}
use railway_booking_system.Inventory.Invariant.Recompute.{
  OnlySeats, OthersCounted, OnlySeats-OthersCounted, IsValid-OthersCounted, recompute-OnlySeats,
  recount-IsCounted, update_seats-OnlySeats,
}

-- The invariant but for the counters of one schedule.
record ValidOutside (schedule_id : ℕ) (db : Db) : Type 0 where
  keyed : IsKeyed db.next_id db.seats
  lock_keys : HasKeys db.next_id db.segment_locks
  exclusive : NoDoubleBooking db.segment_locks
  owned : All (λ k. elem k (schedule_ids db.schedules) ≡ true) (homes db.seats)
  others : OthersCounted schedule_id db

OnlySeats-ValidOutside :
    {schedule_id : ℕ} {db db' : Db}
    → OnlySeats schedule_id db db'
    → IsValid db
    → ValidOutside schedule_id db'
OnlySeats-ValidOutside {schedule_id} {db} {db'} only v = record {
  keyed = rw only.same_next (only.keeps_keys db.next_id v.keyed);
  lock_keys = rw (only.same_next, only.same_locks) v.lock_keys;
  exclusive = rw only.same_locks v.exclusive;
  owned = rw (only.same_schedules, only.same_homes) v.owned;
  others = OnlySeats-OthersCounted only (IsValid-OthersCounted schedule_id v);
}

find_first-none :
    {A : Type 0} (p : A → Bool) (xs : List A) → find_first p xs ≡ none → All (λ x. p x ≡ false) xs
find_first-none p [] h = tt
find_first-none p (x ∷ xs) h = elim (Bool-cases (p x)) [
  | inl e ↦ let h' : some x ≡ none = (rw e at h) in absurd cc
  | inr e ↦ (e, find_first-none p xs (rw e at h))
]

-- A recount that fails finds no schedule whose counters could be wrong.
missing-IsValid :
    (schedule_id : ℕ) (db : Db)
    → find_first (is_schedule schedule_id) db.schedules ≡ none
    → ValidOutside schedule_id db
    → IsValid db
unfolding is_schedule
missing-IsValid schedule_id db e v = record {
  keyed = v.keyed;
  lock_keys = v.lock_keys;
  exclusive = v.exclusive;
  owned = v.owned;
  counted =
      All-zip _ _ _ db.schedules (λ s h c. c h)
        (find_first-none (is_schedule schedule_id) db.schedules e) v.others;
}

recounted-IsValid :
    (schedule_id : ℕ) (db : Db)
    → ValidOutside schedule_id db
    → IsValid (recount_schedule_aggregates schedule_id db).1
unfolding recount_schedule_aggregates set_counts
recounted-IsValid schedule_id db v = record {
  keyed = v.keyed;
  lock_keys = v.lock_keys;
  exclusive = v.exclusive;
  owned =
      rw
        (map-update_where (λ (s : Schedule). s.schedule_id) (is_schedule schedule_id)
          (set_counts (count_seats schedule_id db.seats)) db.schedules (λ s. refl))
        v.owned;
  counted = recount-IsCounted schedule_id db v.others;
}

remove_locks-IsValid :
    (expired : List SegmentLock) (db : Db) → IsValid db → IsValid (remove_locks expired db)
unfolding remove_locks
remove_locks-IsValid expired db v = record {
  keyed = v.keyed;
  lock_keys = delete_where-HasKeys _ v.lock_keys;
  exclusive = AllPairs-delete_where _ _ db.segment_locks v.exclusive;
  owned = v.owned;
  counted = v.counted;
}

recompute_schedules-IsValid :
    (expired : List SegmentLock) (ids : List ℕ) (db : Db)
    → IsValid db
    → IsValid (recompute_schedules undisturbed expired ids db)
unfolding recompute_schedules recount_and_publish
recompute_schedules-IsValid expired [] db v = v
recompute_schedules-IsValid expired (k ∷ rest) db v =
    let db' = (recompute_segment_seat_statuses k (affected_seats k expired) (no_changes, db)).1 in
    let w : ValidOutside k db' =
      OnlySeats-ValidOutside (recompute-OnlySeats k (affected_seats k expired) (no_changes, db))
        v in
    elim (Option-cases (find_first (is_schedule k) db'.schedules)) [
      | inl e ↦ rw (e, recompute_schedules) (missing-IsValid k db' e w)
      | inr (s, e) ↦
          rw (e, recompute_schedules)
            (recompute_schedules-IsValid expired rest _ (recounted-IsValid k db' w))
    ]

release_seat-KeepsPlace : KeepsPlace release_seat
unfolding release_seat
release_seat-KeepsPlace s = (refl, refl, refl)

-- Rows that carry one primary key stand in one schedule.
abbrev SameHome : Seat → Seat → Type 0
SameHome s r = s.id ≡ r.id → s.schedule_id ≡ r.schedule_id

own_row :
    (seats : List Seat)
    → DistinctKeys (λ (s : Seat). s.id) seats
    → All (λ s. All (SameHome s) seats) seats
own_row [] d = tt
own_row (s ∷ rest) d = (
  ((λ e. refl), All-mono _ _ rest (λ r ne e. absurd (ne e)) d.0),
  All-zip _ _ _ rest (λ r ne h. ((λ e. absurd (ne (sym e))), h)) d.0 (own_row rest d.1),
)

in_home :
    (k : ℕ) (s : Seat) (expired : List Seat)
    → All (SameHome s) expired
    → elem s.id (map (λ (r : Seat). r.id) (select (λ (r : Seat). r.schedule_id == k) expired))
      ≡ true
    → (s.schedule_id == k) ≡ true
in_home k s [] h e = absurd cc
in_home k s (r ∷ rest) h e = elim (Bool-cases (r.schedule_id == k)) [
  | inl c ↦ elim (Bool-cases (s.id == r.id)) [
    | inl d ↦ ground (arith, c, h.0 ((==_iff _ _).0 d))
    | inr d ↦ in_home k s rest h.1 (rw d at (rw c at e))
  ]
  | inr c ↦ in_home k s rest h.1 (rw c at e)
]

-- The seats of one schedule are released, and its counters are set again.
release_expired-OnlySeats :
    (k : ℕ) (expired : List Seat) (db : Db)
    → All (λ s. All (SameHome s) expired) db.seats
    → OnlySeats k db (release_expired (select (λ (r : Seat). r.schedule_id == k) expired) db)
unfolding release_expired
release_expired-OnlySeats k expired db same =
    update_seats-OnlySeats k _ release_seat db release_seat-KeepsPlace
      (All-mono _ _ db.seats (λ s h q. in_home k s expired h (&&-split _ _ q).0) same)

released_homes :
    (rows expired : List Seat) (db : Db)
    → All (λ s. All (SameHome s) expired) db.seats
    → All (λ s. All (SameHome s) expired) (release_expired rows db).seats
unfolding release_expired release_seat
released_homes rows expired db same =
    All-update_where _ _ p release_seat db.seats
      (λ s h. elim (Bool-cases (p s)) [ inl e ↦ rw e h | inr e ↦ rw e h ]) same
  where
    p : Seat → Bool
    p s = elem s.id (map (λ (r : Seat). r.id) rows) && same_status s.status locked

release_schedules-IsValid :
    (expired : List Seat) (ids : List ℕ) (db : Db)
    → All (λ s. All (SameHome s) expired) db.seats
    → IsValid db
    → IsValid (release_schedules undisturbed expired ids db)
unfolding release_schedules recount_and_publish recount_schedule_aggregates
release_schedules-IsValid expired [] db same v = v
release_schedules-IsValid expired (k ∷ rest) db same v =
    let rows = select (λ (r : Seat). r.schedule_id == k) expired in
    let db' = release_expired rows db in
    let w : ValidOutside k db' =
      OnlySeats-ValidOutside (release_expired-OnlySeats k expired db same) v in
    let same' = released_homes rows expired db same in
    elim (Option-cases (find_first (is_schedule k) db'.schedules)) [
      | inl e ↦
          rw (e, release_schedules)
            (release_schedules-IsValid expired rest db' same' (missing-IsValid k db' e w))
      | inr (s, e) ↦
          rw (e, release_schedules)
            (release_schedules-IsValid expired rest _ same' (recounted-IsValid k db' w))
    ]

-- A round of the expiry job without others in between keeps the invariant, on the leader and elsewhere.
pub clean_expired_locks-IsValid :
    (is_leader : Bool) (now : ℕ) (db : Db)
    → IsValid db
    → IsValid (clean_expired_locks is_leader undisturbed now db)
unfolding clean_expired_locks clean_segment_locks clean_seats expired_locks
clean_expired_locks-IsValid false now db v = v
clean_expired_locks-IsValid true now db v =
    let expired = select (is_expired_lock now) db.segment_locks in
    let w : IsValid (clean_segment_locks undisturbed now db) =
      recompute_schedules-IsValid expired _ (remove_locks expired db)
        (remove_locks-IsValid expired db v) in
    let seats = (clean_segment_locks undisturbed now db).seats in
    release_schedules-IsValid (select (is_expired_seat now) seats)
      (unique (map (λ (s : Seat). s.schedule_id) (select (is_expired_seat now) seats)))
      (clean_segment_locks undisturbed now db)
      (All-mono _ _ seats (λ s h. All-select _ (is_expired_seat now) seats h)
        (own_row seats w.keyed.distinct))
      w
