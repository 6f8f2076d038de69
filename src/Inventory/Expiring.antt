-- ===== src/Inventory/Expiring.antt =====
-- What the expiry job does to the segment locks: inventory-service/src/utils/lockExpiry.js.
use railway_booking_system.Base.{
  ℕ, ◌<◌, ◌≡◌, ◌≢◌, refl, sym, ◌∙◌, true, false, some, List, [], ◌∷◌, map, elem, arith, select,
  find_first, ltb, delete_where, Bool-cases, Option-cases, inl, inr, ◌==◌, ==_iff, ==_refl,
  &&-split,
}
use railway_booking_system.Inventory.Rows.{locked, same_status, Seat, SegmentLock, Db}
use railway_booking_system.Inventory.Aggregates.{
  no_changes, is_schedule, recompute_segment_seat_statuses, recount_schedule_aggregates,
  recount_and_publish,
}
use railway_booking_system.Inventory.Cancel.{unique}
use railway_booking_system.Inventory.Activity.{same_status→eq}
use railway_booking_system.Inventory.Expiry.{
  Moment, before_delete, before_seats, before_recompute, before_recount, before_release,
  before_release_recount, Others, has_expired, is_expired_lock, is_expired_seat, lock_ids,
  expired_locks, remove_locks, affected_seats, recompute_schedules, clean_segment_locks,
  release_expired, release_schedules, clean_seats, clean_expired_locks,
}
use railway_booking_system.Inventory.Invariant.Recompute.{recompute-OnlySeats}

-- A lock that nobody confirmed in time.
pub record IsOver (now : ℕ) (l : SegmentLock) : Type 0 where
  pub still_locked : l.status ≡ locked
  pub ended : (t : ℕ) × (l.lock_expires_at ≡ some t) × (t < now)

-- A row with that primary key was over.
pub data WasOver (now : ℕ) (id : ℕ) : List SegmentLock → Type 0 where
  here :
      {l : SegmentLock} {ls : List SegmentLock} → l.id ≡ id → IsOver now l → WasOver now id (l ∷ ls)
  there : {l : SegmentLock} {ls : List SegmentLock} → WasOver now id ls → WasOver now id (l ∷ ls)

-- The rows that are left: without those of which it holds, with all others, in their order.
pub data Without (P : SegmentLock → Type 0) : List SegmentLock → List SegmentLock → Type 0 where
  no_more : Without P [] []
  gone :
      {l : SegmentLock} {before after : List SegmentLock}
      → P l
      → Without P before after
      → Without P (l ∷ before) after
  stays :
      {l : SegmentLock} {before after : List SegmentLock}
      → ¬ P l
      → Without P before after
      → Without P (l ∷ before) (l ∷ after)

expired→IsOver : (now : ℕ) (l : SegmentLock) → is_expired_lock now l ≡ true → IsOver now l
unfolding is_expired_lock has_expired
expired→IsOver now l h =
    let p = &&-split (same_status l.status locked) (has_expired now l.lock_expires_at) h in
    elim (Option-cases l.lock_expires_at) [
      | inl e ↦ absurd (let h' : false ≡ true = (rw e at p.1) in cc)
      | inr (t, e) ↦ record {
        still_locked = same_status→eq l.status locked p.0;
        ended = (t, e, (let h' : ltb t now ≡ true = (rw e at p.1) in ground (arith, h')));
      }
    ]

IsOver→expired : (now : ℕ) (l : SegmentLock) → IsOver now l → is_expired_lock now l ≡ true
unfolding is_expired_lock has_expired same_status
IsOver→expired now l h =
    let (t, e, b) = h.ended in
    let g : ltb t now ≡ true = ground (arith, b) in rw (h.still_locked, e, g) refl

module _ (now : ℕ) where
  elem→WasOver :
      (id : ℕ) (ls : List SegmentLock)
      → elem id (lock_ids (select (is_expired_lock now) ls)) ≡ true
      → WasOver now id ls
  elem→WasOver id [] h = absurd cc
  elem→WasOver id (l ∷ ls) h = elim (Bool-cases (is_expired_lock now l)) [
    | inl e ↦ elim (Bool-cases (id == l.id)) [
      | inl same ↦ here (sym ((==_iff _ _).0 same)) (expired→IsOver now l e)
      | inr other ↦ there (elem→WasOver id ls (rw other at (rw e at h)))
    ]
    | inr e ↦ there (elem→WasOver id ls (rw e at h))
  ]

  WasOver→elem :
      (id : ℕ) (ls : List SegmentLock)
      → WasOver now id ls
      → elem id (lock_ids (select (is_expired_lock now) ls)) ≡ true
  WasOver→elem id [] h = elim h [ ]
  WasOver→elem id (l ∷ ls) (here same over) = rw (IsOver→expired now l over, same, ==_refl id) refl
  WasOver→elem id (l ∷ ls) (there h) =
      let ih = WasOver→elem id ls h in
      elim (Bool-cases (is_expired_lock now l)) [
        | inl e ↦ rw (e, ih) (ground arith)
        | inr e ↦ rw (e, ih) refl
      ]

  removed :
      (found rows : List SegmentLock)
      → Without
          (λ l. WasOver now l.id found)
          rows
          (delete_where
            (λ (l : SegmentLock). elem l.id (lock_ids (select (is_expired_lock now) found)))
            rows)
  removed found [] = no_more
  removed found (l ∷ rows) =
      elim (Bool-cases (elem l.id (lock_ids (select (is_expired_lock now) found)))) [
        | inl e ↦ rw e (gone (elem→WasOver l.id found e) (removed found rows))
        | inr e ↦ rw e (stays (λ h. let g = WasOver→elem l.id found h in cc) (removed found rows))
      ]

module _ (others : Others)
    (quiet : (m : Moment) (db : Db)
      → m ≢ before_delete
      → (others m db).segment_locks ≡ db.segment_locks) where
  recompute_schedules-locks :
      (expired : List SegmentLock) (ids : List ℕ) (db : Db)
      → (recompute_schedules others expired ids db).segment_locks ≡ db.segment_locks
  unfolding recompute_schedules recount_and_publish recount_schedule_aggregates
  recompute_schedules-locks expired [] db = refl
  recompute_schedules-locks expired (k ∷ rest) db =
      let first = others (before_recompute k) db in
      let recomputed =
        (recompute_segment_seat_statuses k (affected_seats k expired) (no_changes, first)).1 in
      let db' = others (before_recount k) recomputed in
      let same : db'.segment_locks ≡ db.segment_locks =
        quiet (before_recount k) recomputed (λ e. cc)
        ∙ (recompute-OnlySeats k (affected_seats k expired) (no_changes, first)).same_locks
        ∙ quiet (before_recompute k) db (λ e. cc) in
      elim (Option-cases (find_first (is_schedule k) db'.schedules)) [
        | inl e ↦ rw (e, recompute_schedules) same
        | inr (s, e) ↦ rw (e, recompute_schedules) (recompute_schedules-locks expired rest _ ∙ same)
      ]

  release_schedules-locks :
      (expired : List Seat) (ids : List ℕ) (db : Db)
      → (release_schedules others expired ids db).segment_locks ≡ db.segment_locks
  unfolding release_schedules release_expired recount_and_publish recount_schedule_aggregates
  release_schedules-locks expired [] db = refl
  release_schedules-locks expired (k ∷ rest) db =
      let first = others (before_release k) db in
      let released = release_expired (select (λ (s : Seat). s.schedule_id == k) expired) first in
      let db' = others (before_release_recount k) released in
      let same : db'.segment_locks ≡ db.segment_locks =
        quiet (before_release_recount k) released (λ e. cc)
        ∙ quiet (before_release k) db (λ e. cc) in
      elim (Option-cases (find_first (is_schedule k) db'.schedules)) [
        | inl e ↦ rw (e, release_schedules) (release_schedules-locks expired rest db' ∙ same)
        | inr (s, e) ↦ rw (e, release_schedules) (release_schedules-locks expired rest _ ∙ same)
      ]

  -- A round of the expiry job on the leader, while others do what they like between the look and the
  -- DELETE, and after the DELETE leave the segment locks alone: of the rows that are there at the DELETE
  -- it removes those with the primary key of a row that was LOCKED with an expiry time before now when
  -- the job looked, whatever the row says at the DELETE, and keeps all others.
  pub clean_expired_locks-removes :
      (now : ℕ) (db : Db)
      → Without
          (λ l. WasOver now l.id db.segment_locks)
          (others before_delete db).segment_locks
          (clean_expired_locks true others now db).segment_locks
  unfolding clean_expired_locks clean_segment_locks clean_seats remove_locks expired_locks
  clean_expired_locks-removes now db =
      let cleaned = clean_segment_locks others now db in
      let seats = select (is_expired_seat now) (others before_seats cleaned).seats in
      let same : (clean_expired_locks true others now db).segment_locks
          ≡ (remove_locks (expired_locks now db) (others before_delete db)).segment_locks =
        release_schedules-locks seats (unique (map (λ (s : Seat). s.schedule_id) seats))
          (others before_seats cleaned)
        ∙ quiet before_seats cleaned (λ e. cc)
        ∙ recompute_schedules-locks (expired_locks now db)
            (unique (map (λ (l : SegmentLock). l.schedule_id) (expired_locks now db)))
            (remove_locks (expired_locks now db) (others before_delete db)) in
      rw same (removed now db.segment_locks (others before_delete db).segment_locks)
