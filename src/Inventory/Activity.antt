-- ===== src/Inventory/Activity.antt =====
-- What the active segment locks of a seat amount to, whichever way a status is computed:
-- inventory-service/src/services/inventory.service.js.
use railway_booking_system.Base.{
  ℕ, ◌≡◌, refl, sym, ◌∙◌, subst, inl, inr, Bool, true, false, ◌&&◌, ◌||◌, List, [], ◌∷◌, any,
  select, ◌==◌, ==_iff, ==_refl, &&-split, Bool-cases, if◌then◌else◌, arith,
}
use railway_booking_system.Inventory.Rows.{
  SeatStatus, available, locked, booked, cancelled, same_status, is_active, SegmentLock, Db,
}
use railway_booking_system.Inventory.Aggregates.{is_active_lock, summary_status, new_status}

pub same_status→eq : (a b : SeatStatus) → same_status a b ≡ true → a ≡ b
unfolding same_status
same_status→eq a b h = grind arith

-- Some lock of the seat, in that schedule, has the status.
pub data SomeLock (schedule_id seat_id : ℕ) (st : SeatStatus) : List SegmentLock → Type 0 where
  here :
      {l : SegmentLock} {ls : List SegmentLock}
      → l.schedule_id ≡ schedule_id
      → l.seat_id ≡ seat_id
      → l.status ≡ st
      → SomeLock schedule_id seat_id st (l ∷ ls)
  there :
      {l : SegmentLock} {ls : List SegmentLock}
      → SomeLock schedule_id seat_id st ls
      → SomeLock schedule_id seat_id st (l ∷ ls)

-- The status that a seat with those locks should show.
pub data IsSummary (schedule_id seat_id : ℕ) (locks : List SegmentLock) : SeatStatus → Type 0 where
  being_locked :
      SomeLock schedule_id seat_id locked locks → IsSummary schedule_id seat_id locks locked
  only_booked :
      ¬ SomeLock schedule_id seat_id locked locks
      → SomeLock schedule_id seat_id booked locks
      → IsSummary schedule_id seat_id locks booked
  nobody :
      ¬ SomeLock schedule_id seat_id locked locks
      → ¬ SomeLock schedule_id seat_id booked locks
      → IsSummary schedule_id seat_id locks available

module _ (schedule_id seat_id : ℕ) where
  is_held : SeatStatus → SegmentLock → Bool
  is_held st l = l.schedule_id == schedule_id && l.seat_id == seat_id && same_status l.status st

  held→some :
      (st : SeatStatus) (ls : List SegmentLock)
      → any (is_held st) ls ≡ true
      → SomeLock schedule_id seat_id st ls
  unfolding is_held
  held→some st [] h = absurd cc
  held→some st (l ∷ ls) h = elim (Bool-cases (is_held st l)) [
    | inl e ↦
        let p =
          &&-split (l.schedule_id == schedule_id && l.seat_id == seat_id) (same_status l.status st)
            e in
        let q = &&-split (l.schedule_id == schedule_id) (l.seat_id == seat_id) p.0 in
        here ((==_iff _ _).0 q.0) ((==_iff _ _).0 q.1) (same_status→eq l.status st p.1)
    | inr e ↦ there (held→some st ls (rw e at h))
  ]

  same_status_refl : (st : SeatStatus) → same_status st st ≡ true
  unfolding same_status
  same_status_refl st = grind arith

  some→held :
      (st : SeatStatus) (ls : List SegmentLock)
      → SomeLock schedule_id seat_id st ls
      → any (is_held st) ls ≡ true
  unfolding is_held
  some→held st [] h = elim h [ ]
  some→held st (l ∷ ls) (here a b c) =
      rw (a, b, c, ==_refl schedule_id, ==_refl seat_id, same_status_refl st) refl
  some→held st (l ∷ ls) (there h) = ground (arith, some→held st ls h)

  abbrev has_rows : List SegmentLock → Bool
  has_rows [] = false
  has_rows (_ ∷ _) = true

  abbrev active_rows : List SegmentLock → List SegmentLock
  active_rows = select (is_active_lock schedule_id seat_id)

  abbrev any_locked : List SegmentLock → Bool
  any_locked = any (λ k. same_status k.status locked)

  -- What the summary reads of the active rows is what the two statuses have among all rows.
  record Reads (ls : List SegmentLock) : Type 0 where
    locked_rows : any_locked (active_rows ls) ≡ any (is_held locked) ls
    rows : has_rows (active_rows ls) ≡ (any (is_held locked) ls || any (is_held booked) ls)

  here_row :
      (st : SeatStatus) (l : SegmentLock) (ls : List SegmentLock)
      → l.status ≡ st
      → (l.schedule_id == schedule_id && l.seat_id == seat_id) ≡ true
      → Reads ls
      → Reads (l ∷ ls)
  unfolding is_held is_active_lock is_active same_status
  here_row available l ls q e ih = record {
    locked_rows = rw (e, q, ih.locked_rows) refl;
    rows = rw (e, q, ih.rows) refl;
  }
  here_row cancelled l ls q e ih = record {
    locked_rows = rw (e, q, ih.locked_rows) refl;
    rows = rw (e, q, ih.rows) refl;
  }
  here_row locked l ls q e ih = record { locked_rows = rw (e, q) refl; rows = rw (e, q) refl }
  here_row booked l ls q e ih = record {
    locked_rows = rw (e, q, ih.locked_rows) refl;
    rows = rw (e, q) (ground arith);
  }

  other_row :
      (l : SegmentLock) (ls : List SegmentLock)
      → (l.schedule_id == schedule_id && l.seat_id == seat_id) ≡ false
      → Reads ls
      → Reads (l ∷ ls)
  unfolding is_held is_active_lock is_active
  other_row l ls e ih = record {
    locked_rows = rw (e, ih.locked_rows) refl;
    rows = rw (e, ih.rows) refl;
  }

  reads : (ls : List SegmentLock) → Reads ls
  reads [] = record { locked_rows = refl; rows = refl }
  reads (l ∷ ls) = elim (Bool-cases (l.schedule_id == schedule_id && l.seat_id == seat_id)) [
    | inl e ↦ here_row l.status l ls refl e (reads ls)
    | inr e ↦ other_row l ls e (reads ls)
  ]

  summary_lem :
      (rows : List SegmentLock)
      → summary_status rows ≡ (
          if any (λ k. same_status k.status locked) rows
          then locked
          else if has_rows rows
          then booked
          else available)
  unfolding summary_status
  summary_lem [] = refl
  summary_lem (l ∷ ls) = refl

  pub new_status-IsSummary :
      (db : Db) → IsSummary schedule_id seat_id db.segment_locks (new_status schedule_id seat_id db)
  unfolding new_status
  new_status-IsSummary db =
      let ls = db.segment_locks in
      let rows = select (is_active_lock schedule_id seat_id) ls in
      elim (Bool-cases (any (is_held locked) ls)) [
        | inl e ↦
            subst (IsSummary schedule_id seat_id ls)
              (sym (summary_lem rows ∙ rw ((reads ls).locked_rows, e) refl))
              (being_locked (held→some locked ls e))
        | inr e ↦
            let unlocked : ¬ SomeLock schedule_id seat_id locked ls =
              λ h. let g = some→held locked ls h in cc in
            elim (Bool-cases (any (is_held booked) ls)) [
              | inl d ↦
                  subst (IsSummary schedule_id seat_id ls)
                    (sym
                      (summary_lem rows ∙ rw ((reads ls).locked_rows, (reads ls).rows, e, d) refl))
                    (only_booked unlocked (held→some booked ls d))
              | inr d ↦
                  subst (IsSummary schedule_id seat_id ls)
                    (sym
                      (summary_lem rows ∙ rw ((reads ls).locked_rows, (reads ls).rows, e, d) refl))
                    (nobody unlocked (λ h. let g = some→held booked ls h in cc))
            ]
      ]
