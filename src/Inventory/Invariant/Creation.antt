-- ===== src/Inventory/Invariant/Creation.antt =====
-- `initializeInventory` keeps the invariant.
use railway_booking_system.Base.{
  ℕ, pos, ◌≡◌, ◌∙◌, sym, ap, false, Option, none, some, [], ◌∷◌, ◌++◌, arith, ◌==◌, any, any-false,
  All, All-map, All-zip, All-mono, All-append, length, count_where, count_where-none, Bool-cases,
  ==_iff, inl, inr,
}
use mathlib.Core.Path.{subst⁻¹}
use railway_booking_system.Inventory.Rows.{
  SeatStatus, available, locked, booked, same_status, created_event, Db,
}
use railway_booking_system.Inventory.Transaction.{Tx, Commits-ok, Commits-err, Commits-bind, ◌>>=◌}
use railway_booking_system.Inventory.Aggregates.{is_schedule, has_status}
use railway_booking_system.Inventory.Lifecycle.{
  CreatedEvent, create_seats, create_stops, new_schedule, record_created, create_inventory,
  was_processed, Handled, with_id, initialize_schedule, is_empty, initialize_inventory,
}
use railway_booking_system.Inventory.Invariant.{IsCounted, IsValid, schedule_ids, homes}
use railway_booking_system.Inventory.Invariant.Reading.{StaysValid}
use railway_booking_system.Inventory.Invariant.Keys.{HasKeys-mono}
use railway_booking_system.Inventory.Invariant.Adding.{
  Added, OnlyStops, create_seats-Added, create_stops-OnlyStops, elem-schedule_ids, elem_last,
  elem-append_left, schedule_ids-append,
}

module _ (schedule_id : ℕ) (e : CreatedEvent) (db : Db) (v : IsValid db) where
  with_schedule : Db
  with_schedule = record db { schedules = db.schedules ++ new_schedule schedule_id e ∷ [] }

  no_seats_yet :
      (st : SeatStatus)
      → any (is_schedule schedule_id) db.schedules ≡ false
      → count_where (has_status schedule_id st) db.seats ≡ 0
  unfolding has_status
  no_seats_yet st free = count_where-none _ db.seats (
      All-mono _ _ db.seats
        (λ s h. ground (
          arith,
          h,
          ==_iff s.schedule_id schedule_id,
          elem-schedule_ids schedule_id db.schedules free,
        ))
        (All-map _ _ db.seats v.owned))

  new-IsCounted :
      (db' : Db)
      → any (is_schedule schedule_id) db.schedules ≡ false
      → Added schedule_id (length e.seats) with_schedule db'
      → IsCounted db'.seats (new_schedule schedule_id e)
  unfolding new_schedule with_schedule same_status
  new-IsCounted db' free h =
      let none_before = λ (st : SeatStatus). no_seats_yet st free in
      (
        ap pos (ground (arith, h.counts schedule_id available, none_before available)),
        ap pos (ground (arith, h.counts schedule_id locked, none_before locked)),
        ap pos (ground (arith, h.counts schedule_id booked, none_before booked)),
      )

  old-IsCounted :
      (db' : Db)
      → any (is_schedule schedule_id) db.schedules ≡ false
      → Added schedule_id (length e.seats) with_schedule db'
      → All (IsCounted db'.seats) db.schedules
  unfolding with_schedule is_schedule
  old-IsCounted db' free h =
      let same = λ (k : ℕ) (st : SeatStatus) (ne : (k == schedule_id) ≡ false).
        (let p : count_where (has_status k st) db'.seats ≡ count_where (has_status k st) db.seats =
            ground (arith, h.counts k st, ne) in
          p) in
      All-zip _ _ _ db.schedules
        (λ s c ne. (
          c.0 ∙ ap pos (sym (same s.schedule_id available ne)),
          c.1 ∙ ap pos (sym (same s.schedule_id locked ne)),
          c.2 ∙ ap pos (sym (same s.schedule_id booked ne)),
        ))
        v.counted (any-false (is_schedule schedule_id) db.schedules free)

  created-IsValid :
      (db' : Db)
      → any (is_schedule schedule_id) db.schedules ≡ false
      → Added schedule_id (length e.seats) with_schedule db'
      → IsValid db'
  unfolding with_schedule new_schedule
  created-IsValid db' free h = record {
    keyed = h.keyed v.keyed;
    lock_keys = rw h.same_locks (HasKeys-mono h.grows v.lock_keys);
    exclusive = rw h.same_locks v.exclusive;
    owned =
        rw (h.same_schedules, schedule_ids-append)
          (h.owned _ (elem_last schedule_id (schedule_ids db.schedules)) (
            All-mono _ _ (homes db.seats)
              (λ k. elem-append_left k schedule_id (schedule_ids db.schedules)) v.owned));
    counted =
        rw h.same_schedules
          (All-append _ db.schedules _ (old-IsCounted db' free h) (new-IsCounted db' free h, tt));
  }

  create_inventory-StaysValid : StaysValid (create_inventory schedule_id e) db
  unfolding create_inventory with_schedule
  create_inventory-StaysValid = elim (Bool-cases (any (is_schedule schedule_id) db.schedules)) [
    | inl taken ↦ rw taken (Commits-err _ _)
    | inr free ↦ rw free (
        Commits-bind _ _ (create_seats schedule_id e.seats)
          (λ _. create_stops schedule_id e.route >>= λ _. record_created schedule_id) with_schedule
          (create_seats-Added schedule_id e.seats with_schedule)
          λ _ db₁ added.
            Commits-bind _ _ (create_stops schedule_id e.route) (λ _. record_created schedule_id)
              db₁ (create_stops-OnlyStops schedule_id e.route db₁)
              λ _ db₂ stops.
                Commits-ok _ _ _ (finish db₁ db₂ stops (created-IsValid db₁ free added)))
  ]
    where
      -- Stops and idempotency records are not part of the invariant.
      finish :
          (db₁ db₂ : Db)
          → OnlyStops db₁ db₂
          → IsValid db₁
          → IsValid (record db₂ { processed = db₂.processed ++ created_event schedule_id ∷ [] })
      finish db₁ db₂ stops w =
          let w' = subst⁻¹ IsValid stops (record {
            keyed = w.keyed;
            lock_keys = w.lock_keys;
            exclusive = w.exclusive;
            owned = w.owned;
            counted = w.counted;
          }) in
          record {
            keyed = w'.keyed;
            lock_keys = w'.lock_keys;
            exclusive = w'.exclusive;
            owned = w'.owned;
            counted = w'.counted;
          }

initialize_schedule-StaysValid :
    (e : CreatedEvent) (db : Db) → IsValid db → (id : ℕ) → StaysValid (initialize_schedule id e) db
unfolding initialize_schedule
initialize_schedule-StaysValid e db v id = elim (Bool-cases (is_empty e.seats)) [
  | inl a ↦ rw a (Commits-ok _ _ _ v)
  | inr a ↦ rw a (elim (Bool-cases (was_processed (created_event id) db)) [
    | inl b ↦ rw b (Commits-ok _ _ _ v)
    | inr b ↦ rw b (create_inventory-StaysValid id e db v)
  ])
]

pub with_id-StaysValid :
    (o : Option ℕ) (f : ℕ → Tx Handled) (db : Db)
    → IsValid db
    → ((id : ℕ) → StaysValid (f id) db)
    → StaysValid (with_id o f) db
with_id-StaysValid none f db v h = Commits-ok _ _ _ v
with_id-StaysValid (some id) f db v h = h id

-- The first SCHEDULE_CREATED of a schedule sets its inventory up, and any other event changes
-- nothing: the invariant stays.
pub initialize_inventory-IsValid :
    (e : CreatedEvent) (db : Db) → IsValid db → StaysValid (initialize_inventory e) db
unfolding initialize_inventory
initialize_inventory-IsValid e db v =
    with_id-StaysValid e.schedule_id (λ id. initialize_schedule id e) db v
      (initialize_schedule-StaysValid e db v)
