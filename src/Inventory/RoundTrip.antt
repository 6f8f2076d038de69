-- ===== src/Inventory/RoundTrip.antt =====
-- A segment that is locked and then unlocked, and one that is locked and then confirmed.
use railway_booking_system.Base.{
  ℕ, ◌<◌, ◌+◌, ◌≡◌, refl, subst, ◌∙◌, ap, Bool, true, false, not, Option, none, some, List, [], ◌∷◌,
  ◌++◌, map, arith, length, select, find_first, count_where, delete_where, update_where, ltb, All,
  All-mono, All-all, All-select_holds, delete_where-append, delete_where-none, delete_where-all,
  count_where-update_same, select-empty, Bool-cases, Option-cases, inl, inr,
}
use railway_booking_system.Errors.{ok}
use railway_booking_system.Inventory.Rows.{
  Schedule, Seat, SegmentLock, Db, same_status, is_active, is_running,
}
use railway_booking_system.Inventory.Transaction.{bind_ok, pure, Commits, Commits-ok, Commits-err}
use railway_booking_system.Inventory.Aggregates.{
  no_changes, is_schedule, set_counts, count_seats, recompute_segment_seat_statuses,
  recount_schedule_aggregates,
}
use railway_booking_system.Inventory.Selection.{
  segment_of, is_requested, read_seats, has_pk, is_overlapping, is_held_segment, find_schedule,
}
use railway_booking_system.Inventory.Lock.{
  create_segment_locks, insert_segment_locks, touch_seat, lock_segment, lock_seats,
}
use railway_booking_system.Inventory.Unlock.{
  UnlockResult, unlock_result, unlock_segment, unlock_journey, unlock_seats,
}
use railway_booking_system.Inventory.Invariant.Journey.{not_positive}
use railway_booking_system.Inventory.Invariant.Reading.{
  read_seats-Commits, read_seats-ok, find_schedule-ok, find_first-update_where,
}
use railway_booking_system.Inventory.Invariant.Recompute.{refreshed, recompute-OnlySeats}

-- What the recomputation leaves as it was.
module _ (schedule_id : ℕ) (ids : List ℕ) (db : Db) where
  pub refreshed-locks : (refreshed schedule_id ids db).1.segment_locks ≡ db.segment_locks
  unfolding refreshed recount_schedule_aggregates
  refreshed-locks = (recompute-OnlySeats schedule_id ids (no_changes, db)).same_locks

  pub refreshed-requests :
      (k : ℕ) (seat_ids : List ℕ)
      → count_where (is_requested k seat_ids) (refreshed schedule_id ids db).1.seats
        ≡ count_where (is_requested k seat_ids) db.seats
  unfolding refreshed recount_schedule_aggregates
  refreshed-requests k seat_ids =
      (recompute-OnlySeats schedule_id ids (no_changes, db)).same_requests k seat_ids

  pub refreshed-schedule :
      (s : Schedule)
      → find_first (is_schedule schedule_id) db.schedules ≡ some s
      → (s' : Schedule) × (find_first
            (is_schedule schedule_id)
            (refreshed schedule_id ids db).1.schedules
          ≡ some s')
  unfolding refreshed recount_schedule_aggregates
  refreshed-schedule s h =
      let only = recompute-OnlySeats schedule_id ids (no_changes, db) in
      let seats = (recompute_segment_seat_statuses schedule_id ids (no_changes, db)).1.seats in
      (
        set_counts (count_seats schedule_id seats) s,
        rw only.same_schedules (
            find_first-update_where (is_schedule schedule_id)
              (set_counts (count_seats schedule_id seats)) db.schedules s
              (λ y. unfold is_schedule set_counts in refl) h),
      )

append_nil : {A : Type 0} (xs : List A) → xs ++ [] ≡ xs
append_nil [] = refl
append_nil (x ∷ xs) = ap (λ r. x ∷ r) (append_nil xs)

module _ (schedule_id : ℕ) (seat_ids : List ℕ) (user_id from_seq to_seq : ℕ) where
  held : SegmentLock → Bool
  held = is_held_segment schedule_id seat_ids user_id (from_seq, to_seq)

  old_row :
      (l : SegmentLock)
      → from_seq < to_seq
      → is_overlapping schedule_id seat_ids (from_seq, to_seq) l ≡ false
      → held l ≡ false
  unfolding held is_held_segment is_overlapping is_active same_status
  old_row l h e = ground (arith, h, e)

  new_held :
      (now expires : ℕ) (seats : List Seat) (n : ℕ)
      → All (λ s. is_requested schedule_id seat_ids s ≡ true) seats
      → All
          (λ l. held l ≡ true)
          (create_segment_locks schedule_id seats user_id (from_seq, to_seq) now expires n)
  unfolding held is_held_segment create_segment_locks is_requested same_status
  new_held now expires [] n h = tt
  new_held now expires (s ∷ rest) n h = (ground (arith, h.0), new_held now expires rest (n + 1) h.1)

  -- The new rows, and they alone, go again.
  removed :
      (now expires : ℕ) (locks : List SegmentLock) (seats : List Seat) (n : ℕ)
      → from_seq < to_seq
      → All (λ l. is_overlapping schedule_id seat_ids (from_seq, to_seq) l ≡ false) locks
      → All (λ s. is_requested schedule_id seat_ids s ≡ true) seats
      → delete_where held
          (locks ++ create_segment_locks schedule_id seats user_id (from_seq, to_seq) now expires n)
        ≡ locks
  removed now expires locks seats n h free requested =
      let new = create_segment_locks schedule_id seats user_id (from_seq, to_seq) now expires n in
      rw
        (
          delete_where-append held locks new,
          delete_where-none held locks (All-mono _ _ locks (λ l e. old_row l h e) free),
          delete_where-all held new (new_held now expires seats n requested),
        )
        (append_nil locks)

  -- An unlock of requested seats that are there, and whose schedule is.
  unlock_segment-ok :
      (rows : List Seat) (s : Schedule) (db : Db)
      → find_first (is_schedule schedule_id) db.schedules ≡ some s
      → (r : UnlockResult) × (db' : Db) × (unlock_segment schedule_id seat_ids user_id
            (from_seq, to_seq)
            rows
            db
          ≡ ok (r, db'))
        × (db'.segment_locks ≡ delete_where held db.segment_locks)
  unfolding unlock_segment refreshed held
  unlock_segment-ok rows s db h =
      let db1 : Db = record db { segment_locks = delete_where held db.segment_locks } in
      let ids = map (λ (s : Seat). s.seat_id) rows in
      let found = refreshed-schedule schedule_id ids db1 s h in
      (
        unlock_result schedule_id found.0 rows (refreshed schedule_id ids db1).0,
        (refreshed schedule_id ids db1).1,
        bind_ok (find_schedule schedule_id) (refreshed schedule_id ids db1).1
            (λ s'. pure (unlock_result schedule_id s' rows (refreshed schedule_id ids db1).0))
            (find_schedule-ok schedule_id found.0 (refreshed schedule_id ids db1).1 found.1),
        refreshed-locks schedule_id ids db1,
      )

  -- An unlock by the holder succeeds and leaves these locks.
  abbrev pub UnlocksTo : List SegmentLock → Db → Type 0
  UnlocksTo locks db' =
      (r : UnlockResult) × (db'' : Db) × (unlock_seats schedule_id seat_ids user_id (some from_seq)
          (some to_seq) db'
        ≡ ok (r, db''))
      × (db''.segment_locks ≡ locks)

  unlock_seats-ok :
      (s : Schedule) (db : Db)
      → segment_of (some from_seq) (some to_seq) ≡ some (from_seq, to_seq)
      → count_where (is_requested schedule_id seat_ids) db.seats ≡ length seat_ids
      → find_first (is_schedule schedule_id) db.schedules ≡ some s
      → UnlocksTo (delete_where held db.segment_locks) db
  unfolding unlock_seats
  unlock_seats-ok s db segment found h =
      let rows = select (is_requested schedule_id seat_ids) db.seats in
      let u = unlock_segment-ok rows s db h in
      (
        u.0,
        u.1,
        bind_ok (read_seats schedule_id seat_ids) db
              (λ rows. elim (segment_of (some from_seq) (some to_seq)) [
                | some segment ↦ unlock_segment schedule_id seat_ids user_id segment rows
                | none ↦ unlock_journey schedule_id user_id rows
              ])
              (read_seats-ok schedule_id seat_ids db found)
            ∙ (rw segment u.2),
        u.3,
      )

  module _ (now expires : ℕ) (schedule : Schedule) (db : Db) where
    abbrev rows : List Seat
    rows = select (is_requested schedule_id seat_ids) db.seats

    written : Db
    written =
        let db' = insert_segment_locks schedule_id rows user_id (from_seq, to_seq) now expires db in
        record db' { seats = update_where (has_pk rows) (touch_seat user_id now expires) db.seats }

    written-UnlocksTo :
        from_seq < to_seq
        → segment_of (some from_seq) (some to_seq) ≡ some (from_seq, to_seq)
        → count_where (is_requested schedule_id seat_ids) db.seats ≡ length seat_ids
        → find_first (is_schedule schedule_id) db.schedules ≡ some schedule
        → All
            (λ l. is_overlapping schedule_id seat_ids (from_seq, to_seq) l ≡ false)
            db.segment_locks
        → UnlocksTo db.segment_locks
            (refreshed schedule_id (map (λ (s : Seat). s.seat_id) rows) written).1
    unfolding written insert_segment_locks
    written-UnlocksTo lt segment found h free =
        let ids = map (λ (s : Seat). s.seat_id) rows in
        let s' = refreshed-schedule schedule_id ids written schedule h in
        subst (λ l. UnlocksTo l (refreshed schedule_id ids written).1)
          (ap (delete_where held) (refreshed-locks schedule_id ids written)
            ∙ removed now expires db.segment_locks rows db.next_id lt free
                (All-select_holds (is_requested schedule_id seat_ids) db.seats))
          (unlock_seats-ok s'.0 (refreshed schedule_id ids written).1 segment
            (refreshed-requests schedule_id ids written schedule_id seat_ids
              ∙ count_where-update_same (is_requested schedule_id seat_ids) (has_pk rows)
                  (touch_seat user_id now expires) db.seats
                  (All-all _ db.seats (λ s _. unfold touch_seat is_requested in refl))
              ∙ found)
            s'.1)

    lock_segment-undone :
        from_seq < to_seq
        → segment_of (some from_seq) (some to_seq) ≡ some (from_seq, to_seq)
        → count_where (is_requested schedule_id seat_ids) db.seats ≡ length seat_ids
        → find_first (is_schedule schedule_id) db.schedules ≡ some schedule
        → Commits
            (λ _. UnlocksTo db.segment_locks)
            (lock_segment schedule_id seat_ids user_id
              (from_seq, to_seq)
              now
              expires
              schedule
              rows
              db)
    unfolding lock_segment refreshed written
    lock_segment-undone lt segment found h =
        elim (Bool-cases (
          ltb 0 (
            length (
              select (is_overlapping schedule_id seat_ids (from_seq, to_seq)) db.segment_locks)))) [
                | inl e ↦ rw e (Commits-err _ _)
                | inr e ↦ rw e (
                    Commits-ok _ _ _ (
                      written-UnlocksTo lt segment found h
                        (select-empty _ db.segment_locks (not_positive _ e))))
              ]

-- A segment that is locked can be unlocked by the one who holds it, and then every segment lock is as
-- it was before, where the segment is not empty and its first stop is not number 0.
pub lock-unlock :
    (default_ttl now schedule_id : ℕ) (seat_ids : List ℕ) (user_id : ℕ) (ttl : Option ℕ)
    (from_seq to_seq : ℕ) (db : Db)
    → 0 < from_seq
    → from_seq < to_seq
    → Commits
        (λ _. UnlocksTo schedule_id seat_ids user_id from_seq to_seq db.segment_locks)
        (lock_seats default_ttl now schedule_id seat_ids user_id ttl
          (some from_seq)
          (some to_seq)
          db)
unfolding lock_seats
lock-unlock default_ttl now schedule_id seat_ids user_id ttl from_seq to_seq db positive lt =
    let segment : segment_of (some from_seq) (some to_seq) ≡ some (from_seq, to_seq) =
      unfold segment_of in ground arith in
    elim (Option-cases (find_first (is_schedule schedule_id) db.schedules)) [
      | inl e ↦ rw e (Commits-err _ _)
      | inr (schedule, e) ↦ rw e (elim (Bool-cases (not (is_running schedule.status))) [
        | inl c ↦ rw c (Commits-err _ _)
        | inr c ↦ rw c (
            read_seats-Commits _ schedule_id seat_ids _ db (λ found. rw segment (
              lock_segment-undone schedule_id seat_ids user_id from_seq to_seq now _ schedule db lt
                segment found e)))
      ])
    ]
