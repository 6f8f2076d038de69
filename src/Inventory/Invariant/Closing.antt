-- ===== src/Inventory/Invariant/Closing.antt =====
-- `cancelScheduleInventory` keeps the invariant.
use railway_booking_system.Base.{
  ℕ, pos, ◌≡◌, refl, ◌∙◌, sym, ap, false, arith, ◌==◌, any, All-all, All-update_where, update_where,
  update_row, count_where, count_where-update_none, count_where-update_same, map-update_where,
  Bool-cases, ==_iff, inl, inr,
}
use railway_booking_system.Inventory.Rows.{
  SeatStatus, available, locked, booked, cancelled, same_status, Schedule, Seat, cancelled_event,
  Db,
}
use railway_booking_system.Inventory.Transaction.{Commits-ok}
use railway_booking_system.Inventory.Aggregates.{is_schedule, has_status}
use railway_booking_system.Inventory.Lifecycle.{
  was_processed, cancel_schedule, close_schedule, in_schedule, close_seat, close_inventory,
  CancelledEvent, event_schedule_id, cancel_schedule_inventory,
}
use railway_booking_system.Inventory.Invariant.{IsCounted, IsValid}
use railway_booking_system.Inventory.Invariant.Reading.{StaysValid}
use railway_booking_system.Inventory.Invariant.Keys.{update_where-IsKeyed}
use railway_booking_system.Inventory.Invariant.Creation.{with_id-StaysValid}

close_inventory-IsValid :
    (schedule_id : ℕ) (db : Db) → IsValid db → IsValid (close_inventory schedule_id db)
unfolding close_inventory close_seat close_schedule
close_inventory-IsValid schedule_id db v = record {
  keyed =
      update_where-IsKeyed (in_schedule schedule_id) close_seat (λ s. (refl, refl, refl)) v.keyed;
  lock_keys = v.lock_keys;
  exclusive = v.exclusive;
  owned =
      rw
        (
          map-update_where (λ (s : Schedule). s.schedule_id) (is_schedule schedule_id)
              close_schedule db.schedules (λ s. refl),
          map-update_where (λ (s : Seat). s.schedule_id) (in_schedule schedule_id) close_seat
              db.seats (λ s. refl),
        )
        v.owned;
  counted =
      All-update_where _ _ (is_schedule schedule_id) close_schedule db.schedules row v.counted;
}
  where
    gone :
        (st : SeatStatus)
        → same_status cancelled st ≡ false
        → count_where
            (has_status schedule_id st)
            (update_where (in_schedule schedule_id) close_seat db.seats)
          ≡ 0
    gone st ne =
        count_where-update_none (has_status schedule_id st) (in_schedule schedule_id) close_seat
          db.seats (λ s. unfold in_schedule has_status in ground (arith, ne))

    others :
        (k : ℕ) (st : SeatStatus)
        → (k == schedule_id) ≡ false
        → count_where (has_status k st) (update_where (in_schedule schedule_id) close_seat db.seats)
          ≡ count_where (has_status k st) db.seats
    others k st ne =
        count_where-update_same (has_status k st) (in_schedule schedule_id) close_seat db.seats
          (All-all _ db.seats (λ s h. unfold in_schedule has_status in ground (arith, h, ne)))

    row :
        (s : Schedule)
        → IsCounted db.seats s
        → IsCounted
            (update_where (in_schedule schedule_id) close_seat db.seats)
            (update_row (is_schedule schedule_id) close_schedule s)
    row s c = elim (Bool-cases (s.schedule_id == schedule_id)) [
      | inl e ↦
          let same : s.schedule_id ≡ schedule_id = (==_iff _ _).0 e in
          unfold is_schedule same_status in
          rw (e, same)
            (
              ap pos (sym (gone available refl)),
              ap pos (sym (gone locked refl)),
              ap pos (sym (gone booked refl)),
            )
      | inr e ↦
          unfold is_schedule in
          rw e (
            c.0 ∙ ap pos (sym (others s.schedule_id available e)),
            c.1 ∙ ap pos (sym (others s.schedule_id locked e)),
            c.2 ∙ ap pos (sym (others s.schedule_id booked e)),
          )
    ]

cancel_schedule-StaysValid : (db : Db) → IsValid db → (id : ℕ) → StaysValid (cancel_schedule id) db
unfolding cancel_schedule
cancel_schedule-StaysValid db v id = elim (Bool-cases (was_processed (cancelled_event id) db)) [
  | inl a ↦ rw a (Commits-ok _ _ _ v)
  | inr a ↦ rw a (elim (Bool-cases (any (is_schedule id) db.schedules)) [
    | inl b ↦ rw b (Commits-ok _ _ _ (close_inventory-IsValid id db v))
    | inr b ↦ rw b (Commits-ok _ _ _ v)
  ])
]

-- SCHEDULE_CANCELLED keeps the invariant.
pub cancel_schedule_inventory-IsValid :
    (e : CancelledEvent) (db : Db) → IsValid db → StaysValid (cancel_schedule_inventory e) db
unfolding cancel_schedule_inventory
cancel_schedule_inventory-IsValid e db v =
    with_id-StaysValid (event_schedule_id e) cancel_schedule db v (cancel_schedule-StaysValid db v)
