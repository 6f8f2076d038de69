-- ===== src/Inventory/Summary.antt =====
-- What the summary rows of the seats say after a recomputation.
use railway_booking_system.Base.{
  ℕ, ◌≡◌, refl, sym, ◌∙◌, ap, subst, true, none, some, List, [], ◌∷◌, arith, elem, All, All-all,
  All-mono, All-update_where, AllPairs, find_first, update_row, Bool-cases, inl, inr, ◌==◌, ==_iff,
  &&-split,
}
use railway_booking_system.Inventory.Rows.{SeatStatus, Seat, Db}
use railway_booking_system.Inventory.Aggregates.{
  StatusChanges, no_changes, is_seat, is_status, new_status, old_status, set_summary,
  recompute_seat, recompute_segment_seat_statuses,
}
use railway_booking_system.Inventory.Selection.{is_requested}
use railway_booking_system.Inventory.Activity.{same_status→eq, IsSummary, new_status-IsSummary}
use railway_booking_system.Inventory.Invariant.{SamePlace, IsKeyed}
use railway_booking_system.Inventory.Invariant.Recompute.{recompute_seat-OnlySeats}

-- The row says what the seat's segment locks say.
abbrev pub SaysSummary : ℕ → ℕ → Db → Seat → Type 0
SaysSummary schedule_id seat_id db s =
    is_seat schedule_id seat_id s ≡ true → s.status ≡ new_status schedule_id seat_id db

module _ (schedule_id seat_id : ℕ) where
  -- A seat has one row, so that the first row found decides about every row of the seat.
  first_row :
      (st : SeatStatus) (seats : List Seat)
      → AllPairs (λ s t. ¬ SamePlace s t) seats
      → is_status
          (elim (find_first (is_seat schedule_id seat_id) seats) [
            | none ↦ none
            | some s ↦ some s.status
          ])
          st
        ≡ true
      → All (λ s. is_seat schedule_id seat_id s ≡ true → s.status ≡ st) seats
  unfolding is_seat
  first_row st [] places h = tt
  first_row st (s ∷ rest) places h = elim (Bool-cases (is_seat schedule_id seat_id s)) [
    | inl e ↦ (
      (λ _. same_status→eq s.status st (rw e at h)),
      All-mono _ _ rest (λ t ne d. absurd (ne (ground (arith, e, d), ground (arith, e, d))))
          places.0,
    )
    | inr e ↦ ((λ d. absurd cc), first_row st rest places.1 (rw e at h))
  ]

  set_row :
      (st : SeatStatus) (s : Seat)
      → is_seat schedule_id seat_id (update_row (is_seat schedule_id seat_id) (set_summary st) s)
        ≡ true
      → (update_row (is_seat schedule_id seat_id) (set_summary st) s).status ≡ st
  unfolding set_summary
  set_row st s h = elim (Bool-cases (is_seat schedule_id seat_id s)) [
    | inl e ↦ rw e refl
    | inr e ↦ absurd (let h' : is_seat schedule_id seat_id s ≡ true = (rw e at h) in cc)
  ]

  own_round :
      (acc : StatusChanges × Db)
      → AllPairs (λ s t. ¬ SamePlace s t) acc.1.seats
      → All (SaysSummary schedule_id seat_id acc.1) (recompute_seat schedule_id seat_id acc).1.seats
  unfolding recompute_seat old_status
  own_round (c, db) places =
      let new = new_status schedule_id seat_id db in
      elim (Bool-cases (is_status (old_status schedule_id seat_id db) new)) [
        | inl e ↦ rw (e, recompute_seat) (first_row new db.seats places e)
        | inr e ↦
            rw (e, recompute_seat)
              (All-update_where (λ _. Unit {0}) _ (is_seat schedule_id seat_id) (set_summary new)
                db.seats (λ s _. set_row new s) (All-all _ db.seats (λ _. tt)))
      ]

  -- A round for one seat leaves what is right of another seat.
  other_row :
      (j : ℕ) (db : Db) (s : Seat)
      → SaysSummary schedule_id j db s
      → SaysSummary schedule_id j db (
          update_row
            (is_seat schedule_id seat_id)
            (set_summary (new_status schedule_id seat_id db))
            s)
  unfolding set_summary is_seat
  other_row j db s h d = elim (Bool-cases (is_seat schedule_id seat_id s)) [
    | inl e ↦
        let same : seat_id ≡ j = ground (arith, e, d) in
        rw e (ap (λ i. new_status schedule_id i db) same)
    | inr e ↦ rw e (h (rw e at d))
  ]

  other_round :
      (j : ℕ) (acc : StatusChanges × Db)
      → All (SaysSummary schedule_id j acc.1) acc.1.seats
      → All (SaysSummary schedule_id j acc.1) (recompute_seat schedule_id seat_id acc).1.seats
  unfolding recompute_seat
  other_round j (c, db) h =
      let new = new_status schedule_id seat_id db in
      elim (Bool-cases (is_status (old_status schedule_id seat_id db) new)) [
        | inl e ↦ rw (e, recompute_seat) h
        | inr e ↦
            rw (e, recompute_seat)
              (All-update_where _ _ (is_seat schedule_id seat_id) (set_summary new) db.seats
                (other_row j db) h)
      ]

-- What the segment locks say stays as the rounds go on.
same_summary :
    (schedule_id i j : ℕ) (acc : StatusChanges × Db)
    → new_status schedule_id j (recompute_seat schedule_id i acc).1 ≡ new_status schedule_id j acc.1
unfolding new_status
same_summary schedule_id i j acc = rw (recompute_seat-OnlySeats schedule_id i acc).same_locks refl

says_after :
    (schedule_id i j : ℕ) (acc : StatusChanges × Db) (seats : List Seat)
    → All (SaysSummary schedule_id j acc.1) seats
    → All (SaysSummary schedule_id j (recompute_seat schedule_id i acc).1) seats
says_after schedule_id i j acc seats h =
    All-mono _ _ seats (λ s says d. says d ∙ sym (same_summary schedule_id i j acc)) h

says_before :
    (schedule_id i j : ℕ) (acc : StatusChanges × Db) (seats : List Seat)
    → All (SaysSummary schedule_id j (recompute_seat schedule_id i acc).1) seats
    → All (SaysSummary schedule_id j acc.1) seats
says_before schedule_id i j acc seats h =
    All-mono _ _ seats (λ s says d. says d ∙ same_summary schedule_id i j acc) h

module _ (schedule_id j : ℕ) where
  later_rounds :
      (ids : List ℕ) (acc : StatusChanges × Db)
      → All (SaysSummary schedule_id j acc.1) acc.1.seats
      → All
          (SaysSummary schedule_id j acc.1)
          (recompute_segment_seat_statuses schedule_id ids acc).1.seats
  unfolding recompute_segment_seat_statuses
  later_rounds [] acc h = h
  later_rounds (i ∷ rest) acc h = says_before schedule_id i j acc _ (
      later_rounds rest (recompute_seat schedule_id i acc)
        (says_after schedule_id i j acc _ (other_round schedule_id i j acc h)))

  all_rounds :
      (n : ℕ) (ids : List ℕ) (acc : StatusChanges × Db)
      → IsKeyed n acc.1.seats
      → elem j ids ≡ true
      → All
          (SaysSummary schedule_id j acc.1)
          (recompute_segment_seat_statuses schedule_id ids acc).1.seats
  unfolding recompute_segment_seat_statuses
  all_rounds n [] acc v h = absurd cc
  all_rounds n (i ∷ rest) acc v h = elim (Bool-cases (j == i)) [
    | inl e ↦
        let same : j ≡ i = (==_iff _ _).0 e in
        says_before schedule_id i j acc _ (
          later_rounds rest (recompute_seat schedule_id i acc)
            (says_after schedule_id i j acc _ (rw same (own_round schedule_id i acc v.places))))
    | inr e ↦ says_before schedule_id i j acc _ (
        all_rounds n rest (recompute_seat schedule_id i acc)
          ((recompute_seat-OnlySeats schedule_id i acc).keeps_keys n v) (rw e at h))
  ]

All-diagonal :
    {A : Type 0} (key : A → ℕ) (P : ℕ → A → Type 0) (xs : List A)
    → ((j : ℕ) → All (P j) xs)
    → All (λ x. P (key x) x) xs
All-diagonal key P [] h = tt
All-diagonal key P (x ∷ xs) h = ((h (key x)).0, All-diagonal key P xs (λ j. (h j).1))

recompute-computed :
    (n schedule_id : ℕ) (ids : List ℕ) (db : Db)
    → IsKeyed n db.seats
    → All
        (λ (s : Seat).
          is_requested schedule_id ids s ≡ true → s.status ≡ new_status schedule_id s.seat_id db)
        (recompute_segment_seat_statuses schedule_id ids (no_changes, db)).1.seats
unfolding is_requested is_seat
recompute-computed n schedule_id ids db v =
    All-mono _ _ rows (λ s h. h refl)
      (All-diagonal (λ (s : Seat). s.seat_id) Says rows
        (λ j. elim (Bool-cases (elem j ids)) [
          | inl e ↦
              All-mono _ _ rows (λ s says same h. says (ground (arith, same, h)))
                (all_rounds schedule_id j n ids (no_changes, db) v e)
          | inr e ↦ All-all _ rows (λ s same h. absurd (
              let in_ids : elem s.seat_id ids ≡ true =
                (&&-split (s.schedule_id == schedule_id) (elem s.seat_id ids) h).1 in
              cc (in_ids, same, e)))
        ]))
  where
    rows : List Seat
    rows = (recompute_segment_seat_statuses schedule_id ids (no_changes, db)).1.seats

    Says : ℕ → Seat → Type 0
    Says j s =
        s.seat_id ≡ j
        → is_requested schedule_id ids s ≡ true
        → s.status ≡ new_status schedule_id j db

-- After a recomputation, where a seat has one row, the row of every seat of the schedule that was asked
-- for shows LOCKED where some segment lock of the seat is LOCKED, else BOOKED where some is BOOKED, and
-- AVAILABLE where none is one or the other.
pub recompute-IsSummary :
    (n schedule_id : ℕ) (ids : List ℕ) (db : Db)
    → IsKeyed n db.seats
    → All
        (λ (s : Seat).
          s.schedule_id ≡ schedule_id
          → elem s.seat_id ids ≡ true
          → IsSummary schedule_id s.seat_id db.segment_locks s.status)
        (recompute_segment_seat_statuses schedule_id ids (no_changes, db)).1.seats
unfolding is_requested
recompute-IsSummary n schedule_id ids db v =
    All-mono _ _ (recompute_segment_seat_statuses schedule_id ids (no_changes, db)).1.seats
      (λ s says own asked.
        subst (IsSummary schedule_id s.seat_id db.segment_locks)
          (sym (says (ground (arith, own, asked)))) (new_status-IsSummary schedule_id s.seat_id db))
      (recompute-computed n schedule_id ids db v)
