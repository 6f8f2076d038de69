-- ===== src/Inventory/Lasting.antt =====
-- How long a lock lasts: `lockSeats` of inventory-service/src/services/inventory.service.js.
use railway_booking_system.Base.{
  ℕ, suc, if◌then◌else◌, update_where, ◌+◌, ◌≤◌, ◌≡◌, refl, ap, ◌∙◌, Bool, true, not, Option, none,
  some, List, [], ◌∷◌, ◌++◌, map, elem, arith, select, find_first, length, length-select, ltb, All,
  All-mono, All-update_where, Bool-cases, Option-cases, inl, inr, ==_refl,
}
use railway_booking_system.Inventory.Rows.{
  available, locked, same_status, is_running, Schedule, Seat, SegmentLock, Db,
}
use railway_booking_system.Inventory.Transaction.{Commits, Commits-ok, Commits-err}
use railway_booking_system.Inventory.Aggregates.{is_schedule}
use railway_booking_system.Inventory.Selection.{segment_of, is_requested, has_pk, is_overlapping}
use railway_booking_system.Inventory.Lock.{
  LockResult, clamp_ttl, expiry_time, lock_result, create_segment_locks, insert_segment_locks,
  touch_seat, lock_segment, lock_seat, lock_journey, lock_seats,
}
use railway_booking_system.Inventory.Invariant.Reading.{read_seats-Commits}
use railway_booking_system.Inventory.Invariant.Recompute.{refreshed}
use railway_booking_system.Inventory.RoundTrip.{refreshed-locks}

clamp_ttl-bounds : (d : ℕ) (ttl : Option ℕ) → (60 ≤ clamp_ttl d ttl) × (clamp_ttl d ttl ≤ 600)
unfolding clamp_ttl
clamp_ttl-bounds d none = (omega arith, omega arith)
clamp_ttl-bounds d (some t) = (omega arith, omega arith)

-- Between one and ten minutes from now.
abbrev pub WithinTtl : ℕ → ℕ → Type 0
WithinTtl now t = (now + 60000 ≤ t) × (t ≤ now + 600000)

expiry_time-WithinTtl : (d now : ℕ) (ttl : Option ℕ) → WithinTtl now (expiry_time d now ttl)
unfolding expiry_time
expiry_time-WithinTtl d now ttl =
    let b = clamp_ttl-bounds d ttl in (omega (arith, b.0), omega (arith, b.1))

-- What a granted lock has written: for a segment, behind the segment locks that were there, one for each
-- seat that was asked for, and else each row that was asked for, all LOCKED until that time.
abbrev pub LastsUntil : Option (ℕ × ℕ) → ℕ → List ℕ → ℕ → Db → Db → Type 0
LastsUntil (some _) schedule_id seat_ids until db db' =
    (new : List SegmentLock) × (db'.segment_locks ≡ db.segment_locks ++ new)
    × (length new ≡ length seat_ids)
    × All (λ (l : SegmentLock). (l.status ≡ locked) × (l.lock_expires_at ≡ some until)) new
LastsUntil none schedule_id seat_ids until db db' =
    All
      (λ (s : Seat).
        s.schedule_id ≡ schedule_id
        → elem s.seat_id seat_ids ≡ true
        → (s.status ≡ locked) × (s.lock_expires_at ≡ some until))
      db'.seats

-- The time that is answered lies in the bounds, and what was written lasts until then.
abbrev pub Lasts : Option (ℕ × ℕ) → ℕ → ℕ → List ℕ → Db → LockResult → Db → Type 0
Lasts segment now schedule_id seat_ids db r db' =
    WithinTtl now r.lock_expires_at
    × LastsUntil segment schedule_id seat_ids r.lock_expires_at db db'

module _ (schedule_id user_id : ℕ) (segment : ℕ × ℕ) (now expires : ℕ) where
  created-length :
      (rows : List Seat) (n : ℕ)
      → length (create_segment_locks schedule_id rows user_id segment now expires n) ≡ length rows
  unfolding create_segment_locks
  created-length [] n = refl
  created-length (s ∷ rows) n = ap suc (created-length rows (n + 1))

  created-LastsUntil :
      (rows : List Seat) (n : ℕ)
      → All
          (λ (l : SegmentLock). (l.status ≡ locked) × (l.lock_expires_at ≡ some expires))
          (create_segment_locks schedule_id rows user_id segment now expires n)
  unfolding create_segment_locks
  created-LastsUntil [] n = tt
  created-LastsUntil (s ∷ rows) n = ((refl, refl), created-LastsUntil rows (n + 1))

-- A row that is selected has its primary key among those of the selected rows.
selected-has_pk :
    (p : Seat → Bool) (xs : List Seat) → All (λ s. p s ≡ true → has_pk (select p xs) s ≡ true) xs
selected-has_pk p [] = tt
selected-has_pk p (x ∷ xs) = elim (Bool-cases (p x)) [
  | inl e ↦ (
    (λ _. rw (e, ==_refl x.id) refl),
    All-mono _ _ xs (λ s h q. rw (e, h q) (ground arith)) (selected-has_pk p xs),
  )
  | inr e ↦ ((λ q. absurd cc), All-mono _ _ xs (λ s h q. rw e (h q)) (selected-has_pk p xs))
]

module _ (schedule_id : ℕ) (seat_ids : List ℕ) (user_id now expires : ℕ)
    (within : WithinTtl now expires) (schedule : Schedule) (db : Db) where
  abbrev rows : List Seat
  rows = select (is_requested schedule_id seat_ids) db.seats

  -- The tables before the recomputation.
  written : ℕ × ℕ → Db
  written segment =
      let db' = insert_segment_locks schedule_id rows user_id segment now expires db in
      record db' { seats = update_where (has_pk rows) (touch_seat user_id now expires) db.seats }

  lock_segment-Lasts :
      (segment : ℕ × ℕ)
      → length rows ≡ length seat_ids
      → Commits
          (Lasts (some segment) now schedule_id seat_ids db)
          (lock_segment schedule_id seat_ids user_id segment now expires schedule rows db)
  unfolding lock_segment lock_result insert_segment_locks refreshed written
  lock_segment-Lasts segment found =
      elim (Bool-cases
        (ltb 0 (length (select (is_overlapping schedule_id seat_ids segment) db.segment_locks)))) [
          | inl e ↦ rw e (Commits-err _ _)
          | inr e ↦ rw e (
              Commits-ok _ _ _ (
                within,
                (
                  create_segment_locks schedule_id rows user_id segment now expires db.next_id,
                  refreshed-locks schedule_id (map (λ (s : Seat). s.seat_id) rows)
                      (written segment),
                  created-length schedule_id user_id segment now expires rows db.next_id ∙ found,
                  created-LastsUntil schedule_id user_id segment now expires rows db.next_id,
                ),
              ))
        ]

  locked_row :
      (s : Seat)
      → (is_requested schedule_id seat_ids s ≡ true → has_pk rows s ≡ true)
      → (let s' = if has_pk rows s then lock_seat user_id now expires s else s in
          s'.schedule_id ≡ schedule_id
          → elem s'.seat_id seat_ids ≡ true
          → (s'.status ≡ locked) × (s'.lock_expires_at ≡ some expires))
  unfolding lock_seat is_requested
  locked_row s h = elim (Bool-cases (has_pk rows s)) [
    | inl e ↦ rw e (λ _ _. (refl, refl))
    | inr e ↦
        rw e (λ own asked.
          absurd (let q : has_pk rows s ≡ true = h (ground (arith, own, asked)) in cc))
  ]

  lock_journey-Lasts :
      Commits
        (Lasts none now schedule_id seat_ids db)
        (lock_journey schedule_id user_id now expires schedule rows db)
  unfolding lock_journey lock_result
  lock_journey-Lasts =
      elim (Bool-cases
        (ltb 0 (length (select (λ (s : Seat). not (same_status s.status available)) rows)))) [
          | inl e ↦ rw e (Commits-err _ _)
          | inr e ↦ rw e (
              Commits-ok _ _ _ (
                within,
                All-update_where _ _ (has_pk rows) (lock_seat user_id now expires) db.seats
                    locked_row (selected-has_pk (is_requested schedule_id seat_ids) db.seats),
              ))
        ]

-- Whatever TTL is asked for or configured, a lock that is granted lasts between one and ten minutes: the
-- time that is answered, and with it the expiry time of what the call has written, which for a segment
-- is one more LOCKED segment lock for each seat that was asked for, and for the whole journey the row of
-- each such seat.
pub lock_seats-Lasts :
    (default_ttl now schedule_id : ℕ) (seat_ids : List ℕ) (user_id : ℕ)
    (ttl from_seq to_seq : Option ℕ) (db : Db)
    → Commits
        (Lasts (segment_of from_seq to_seq) now schedule_id seat_ids db)
        (lock_seats default_ttl now schedule_id seat_ids user_id ttl from_seq to_seq db)
unfolding lock_seats
lock_seats-Lasts default_ttl now schedule_id seat_ids user_id ttl from_seq to_seq db =
    let bounds = expiry_time-WithinTtl default_ttl now ttl in
    elim (Option-cases (find_first (is_schedule schedule_id) db.schedules)) [
      | inl e ↦ rw e (Commits-err _ _)
      | inr (schedule, e) ↦ rw e (elim (Bool-cases (not (is_running schedule.status))) [
        | inl c ↦ rw c (Commits-err _ _)
        | inr c ↦ rw c (
            read_seats-Commits _ schedule_id seat_ids _ db (λ found.
              elim (Option-cases (segment_of from_seq to_seq)) [
                | inl w ↦ rw w (
                    lock_journey-Lasts schedule_id seat_ids user_id now
                      (expiry_time default_ttl now ttl) bounds schedule db)
                | inr (segment, w) ↦ rw w (
                    lock_segment-Lasts schedule_id seat_ids user_id now
                      (expiry_time default_ttl now ttl) bounds schedule db segment
                      (length-select (is_requested schedule_id seat_ids) db.seats ∙ found))
              ]))
      ])
    ]
