-- ===== src/Inventory/Delivery.antt =====
-- Events of admin-service that are delivered more than once.
use railway_booking_system.Base.{
  ℕ, ◌≡◌, refl, true, Option, none, some, List, [], ◌∷◌, ◌++◌, any, Bool-cases, inl, inr, ==_refl,
}
use railway_booking_system.Errors.{Result, ok}
use railway_booking_system.Inventory.Rows.{EventKey, created_event, cancelled_event, Db}
use railway_booking_system.Inventory.Transaction.{
  Commits, Commits-ok, Commits-guard, Commits-mono, Commits-bind,
}
use railway_booking_system.Inventory.Aggregates.{is_schedule}
use railway_booking_system.Inventory.Lifecycle.{
  CreatedEvent, CancelledEvent, Handled, applied, duplicate_event, same_event, was_processed,
  record_created, create_inventory, create_seats, create_stops, is_empty, initialize_schedule,
  initialize_inventory, event_schedule_id, close_inventory, cancel_schedule,
  cancel_schedule_inventory,
}

-- What the second delivery of an event reports.
unfoldable pub again : Handled → Handled
again applied = duplicate_event
again h = h

same_event_refl : (k : EventKey) → same_event k k ≡ true
unfolding same_event
same_event_refl (created_event id) = ==_refl id
same_event_refl (cancelled_event id) = ==_refl id

recorded : (k : EventKey) (ks : List EventKey) → any (same_event k) (ks ++ k ∷ []) ≡ true
recorded k [] = rw (same_event_refl k) refl
recorded k (x ∷ ks) = elim (Bool-cases (same_event k x)) [
  | inl e ↦ rw e refl
  | inr e ↦ rw (e, recorded k ks) refl
]

anything : {A : Type 0} (r : Result (A × Db)) → Commits (λ _ _. Unit {0}) r
anything r = record { at = λ a db e. tt }

-- A creation that commits is recorded.
Recorded : ℕ → Handled → Db → Type 0
Recorded id h db = (h ≡ applied) × (was_processed (created_event id) db ≡ true)

create_inventory-Recorded :
    (id : ℕ) (e : CreatedEvent) (db : Db) → Commits (Recorded id) (create_inventory id e db)
unfolding create_inventory record_created Recorded was_processed
create_inventory-Recorded id e db = Commits-guard _ (any (is_schedule id) db.schedules) _ _ _ λ _.
    Commits-bind (λ _ _. Unit {0}) _ (create_seats id e.seats) _ _ (anything _)
      λ _ db1 _.
        Commits-bind (λ _ _. Unit {0}) _ (create_stops id e.route) _ _ (anything _)
          λ _ db2 _. Commits-ok _ _ _ (refl, recorded (created_event id) db2.processed)

schedule-again :
    (id : ℕ) (e : CreatedEvent) (db : Db)
    → Commits
        (λ h db'. initialize_schedule id e db' ≡ ok (again h, db'))
        (initialize_schedule id e db)
unfolding initialize_schedule again Recorded
schedule-again id e db = elim (Bool-cases (is_empty e.seats)) [
  | inl none_given ↦ rw (none_given, initialize_schedule) (Commits-ok _ _ _ refl)
  | inr given ↦ elim (Bool-cases (was_processed (created_event id) db)) [
    | inl seen ↦ rw (given, seen, initialize_schedule) (Commits-ok _ _ _ (rw seen refl))
    | inr unseen ↦
        rw (given, unseen, initialize_schedule)
          (Commits-mono _ _ _ (λ h db' (same, seen). rw (same, seen) refl)
            (create_inventory-Recorded id e db))
  ]
]

-- A second delivery of SCHEDULE_CREATED, at once after a first that committed, changes nothing, and
-- reports a duplicate where the first was applied.
pub initialize_inventory-again :
    (e : CreatedEvent) (db : Db)
    → Commits (λ h db'. initialize_inventory e db' ≡ ok (again h, db')) (initialize_inventory e db)
unfolding initialize_inventory again
initialize_inventory-again e db = by_id e.schedule_id refl
  where
    by_id :
        (o : Option ℕ)
        → e.schedule_id ≡ o
        → Commits
            (λ h db'. initialize_inventory e db' ≡ ok (again h, db'))
            (initialize_inventory e db)
    by_id none i =
        unfold initialize_inventory again in rw (i, initialize_inventory) (Commits-ok _ _ _ refl)
    by_id (some id) i =
        unfold initialize_inventory in rw (i, initialize_inventory) (schedule-again id e db)

cancel-again :
    (id : ℕ) (db : Db)
    → Commits (λ h db'. cancel_schedule id db' ≡ ok (again h, db')) (cancel_schedule id db)
unfolding cancel_schedule again
cancel-again id db = elim (Bool-cases (was_processed (cancelled_event id) db)) [
  | inl seen ↦ rw (seen, cancel_schedule) (Commits-ok _ _ _ (rw seen refl))
  | inr unseen ↦ elim (Bool-cases (any (is_schedule id) db.schedules)) [
    | inl known ↦
        rw (unseen, known, cancel_schedule)
          (Commits-ok _ _ _ (
            let seen : was_processed (cancelled_event id) (close_inventory id db) ≡ true =
              unfold was_processed close_inventory in recorded (cancelled_event id) db.processed in
            rw seen refl))
    | inr unknown ↦
        rw (unseen, unknown, cancel_schedule) (Commits-ok _ _ _ (rw (unseen, unknown) refl))
  ]
]

-- The same of SCHEDULE_CANCELLED: a second delivery after a first that committed changes nothing.
pub cancel_schedule_inventory-again :
    (e : CancelledEvent) (db : Db)
    → Commits
        (λ h db'. cancel_schedule_inventory e db' ≡ ok (again h, db'))
        (cancel_schedule_inventory e db)
unfolding cancel_schedule_inventory again
cancel_schedule_inventory-again e db = by_id (event_schedule_id e) refl
  where
    by_id :
        (o : Option ℕ)
        → event_schedule_id e ≡ o
        → Commits
            (λ h db'. cancel_schedule_inventory e db' ≡ ok (again h, db'))
            (cancel_schedule_inventory e db)
    by_id none i =
        unfold cancel_schedule_inventory again in
        rw (i, cancel_schedule_inventory) (Commits-ok _ _ _ refl)
    by_id (some id) i =
        unfold cancel_schedule_inventory in rw (i, cancel_schedule_inventory) (cancel-again id db)
