-- ===== src/Inventory/Filling.antt =====
-- What `initializeInventory` makes of an event that clashes with nothing:
-- inventory-service/src/services/inventory.service.js.
use railway_booking_system.Base.{
  ℕ, suc, ◌≡◌, ◌≢◌, refl, sym, ap, ◌∙◌, Bool, false, some, List, [], ◌∷◌, ◌++◌, map, any, All,
  AllPairs, arith,
}
use mathlib.Core.List.{append-nil, append_assoc}
use railway_booking_system.Errors.{ok}
use railway_booking_system.Inventory.Rows.{Seat, RouteStop, created_event, Db}
use railway_booking_system.Inventory.Transaction.{bind_ok, ◌>>◌}
use railway_booking_system.Inventory.Aggregates.{is_schedule}
use railway_booking_system.Inventory.Lifecycle.{
  SeatData, StopData, CreatedEvent, applied, was_processed, new_seat, clashes, create_seats,
  new_stop, clashing_stops, create_stops, new_schedule, record_created, create_inventory,
  initialize_schedule, initialize_inventory, is_empty,
}

any-snoc :
    {A : Type 0} (p : A → Bool) (xs : List A) (x : A)
    → any p xs ≡ false
    → p x ≡ false
    → any p (xs ++ x ∷ []) ≡ false
any-snoc p [] x h e = rw e refl
any-snoc p (y ∷ xs) x h e =
    let a : p y ≡ false = ground (arith, h) in
    let b : any p xs ≡ false = ground (arith, h) in rw (a, any-snoc p xs x b e) refl

-- The rows of the seats, whose keys begin with the next one.
unfoldable pub new_rows : (next schedule_id : ℕ) → List SeatData → List Seat
unfolding new_seat
new_rows next schedule_id [] = []
new_rows next schedule_id (d ∷ ds) =
    new_seat next schedule_id d ∷ new_rows (suc next) schedule_id ds

unfoldable next_after : ℕ → List SeatData → ℕ
next_after next [] = next
next_after next (_ ∷ ds) = next_after (suc next) ds

-- No two seats have one id or one number, and no two stops one station or one place.
unfoldable pub DistinctSeats : List SeatData → Type 0
DistinctSeats = AllPairs (λ a b. (a.seat_id ≢ b.seat_id) × (a.seat_number ≢ b.seat_number))

unfoldable pub DistinctStops : List StopData → Type 0
DistinctStops =
    AllPairs (λ a b. (a.station_id ≢ b.station_id) × (a.sequence_number ≢ b.sequence_number))

module _ (schedule_id : ℕ) where
  SeatsFree : List SeatData → List Seat → Type 0
  SeatsFree ds seats = All (λ d. any (clashes (new_seat 0 schedule_id d)) seats ≡ false) ds

  StopsFree : List StopData → List RouteStop → Type 0
  StopsFree ds stops = All (λ d. any (clashing_stops (new_stop schedule_id d)) stops ≡ false) ds

  next_free :
      (d : SeatData) (ds : List SeatData) (next : ℕ) (seats : List Seat)
      → All (λ b. (d.seat_id ≢ b.seat_id) × (d.seat_number ≢ b.seat_number)) ds
      → SeatsFree ds seats
      → SeatsFree ds (seats ++ new_seat next schedule_id d ∷ [])
  unfolding SeatsFree clashes new_seat
  next_free d [] next seats apart free = tt
  next_free d (b ∷ ds) next seats ((i, n), apart) (f, free) = (
    any-snoc (clashes (new_seat 0 schedule_id b)) seats (new_seat next schedule_id d) f
        (ground (arith, i, n)),
    next_free d ds next seats apart free,
  )

  create_seats-rows :
      (ds : List SeatData) (db : Db)
      → DistinctSeats ds
      → SeatsFree ds db.seats
      → create_seats schedule_id ds db
        ≡ ok (
          tt,
          record db {
            seats = db.seats ++ new_rows db.next_id schedule_id ds;
            next_id = next_after db.next_id ds;
          },
        )
  unfolding create_seats DistinctSeats SeatsFree new_rows next_after clashes new_seat
  create_seats-rows [] db distinct free =
      ap (λ l. ok (tt, record db { seats = l })) (sym (append-nil db.seats))
  create_seats-rows (d ∷ ds) db (apart, distinct) (f, free) =
      let s = new_seat db.next_id schedule_id d in
      let db1 = record db { seats = db.seats ++ s ∷ []; next_id = suc db.next_id } in
      let rows = new_rows (suc db.next_id) schedule_id ds in
      let ih = create_seats-rows ds db1 distinct (next_free d ds db.next_id db.seats apart free) in
      let f' : any (clashes (new_seat db.next_id schedule_id d)) db.seats ≡ false = f in
      rw f' (
        ih
        ∙ ap (λ l. ok (tt, record db { seats = l; next_id = next_after (suc db.next_id) ds }))
            (append_assoc db.seats (s ∷ []) rows))

  next_stop_free :
      (d : StopData) (ds : List StopData) (stops : List RouteStop)
      → All (λ b. (d.station_id ≢ b.station_id) × (d.sequence_number ≢ b.sequence_number)) ds
      → StopsFree ds stops
      → StopsFree ds (stops ++ new_stop schedule_id d ∷ [])
  unfolding StopsFree clashing_stops new_stop
  next_stop_free d [] stops apart free = tt
  next_stop_free d (b ∷ ds) stops ((i, n), apart) (f, free) = (
    any-snoc (clashing_stops (new_stop schedule_id b)) stops (new_stop schedule_id d) f
        (ground (arith, i, n)),
    next_stop_free d ds stops apart free,
  )

  create_stops-rows :
      (ds : List StopData) (db : Db)
      → DistinctStops ds
      → StopsFree ds db.route_stops
      → create_stops schedule_id ds db
        ≡ ok (tt, record db { route_stops = db.route_stops ++ map (new_stop schedule_id) ds })
  unfolding create_stops DistinctStops StopsFree
  create_stops-rows [] db distinct free =
      ap (λ l. ok (tt, record db { route_stops = l })) (sym (append-nil db.route_stops))
  create_stops-rows (d ∷ ds) db (apart, distinct) (f, free) =
      let s = new_stop schedule_id d in
      let db1 = record db { route_stops = db.route_stops ++ s ∷ [] } in
      let ih = create_stops-rows ds db1 distinct (next_stop_free d ds db.route_stops apart free) in
      rw f (
        ih
        ∙ ap (λ l. ok (tt, record db { route_stops = l }))
            (append_assoc db.route_stops (s ∷ []) (map (new_stop schedule_id) ds)))

  -- The tables after an event that is new to them.
  unfoldable pub filled : CreatedEvent → Db → Db
  unfolding next_after
  filled e db = record db {
    schedules = db.schedules ++ new_schedule schedule_id e ∷ [];
    seats = db.seats ++ new_rows db.next_id schedule_id e.seats;
    route_stops = db.route_stops ++ map (new_stop schedule_id) e.route;
    processed = db.processed ++ created_event schedule_id ∷ [];
    next_id = next_after db.next_id e.seats;
  }

  -- Nothing in the tables is of the schedule.
  pub record IsUnknown (e : CreatedEvent) (db : Db) : Type 0 where
    pub no_record : was_processed (created_event schedule_id) db ≡ false
    pub no_schedule : any (is_schedule schedule_id) db.schedules ≡ false
    pub no_seats : All (λ d. any (clashes (new_seat 0 schedule_id d)) db.seats ≡ false) e.seats
    pub no_stops :
        All (λ d. any (clashing_stops (new_stop schedule_id d)) db.route_stops ≡ false) e.route

  create_inventory-filled :
      (e : CreatedEvent) (db : Db)
      → DistinctSeats e.seats
      → DistinctStops e.route
      → IsUnknown e db
      → create_inventory schedule_id e db ≡ ok (applied, filled e db)
  unfolding create_inventory record_created filled SeatsFree StopsFree
  create_inventory-filled e db seats stops u =
      let db1 = record db { schedules = db.schedules ++ new_schedule schedule_id e ∷ [] } in
      let db2 = record db1 {
        seats = db.seats ++ new_rows db.next_id schedule_id e.seats;
        next_id = next_after db.next_id e.seats;
      } in
      let q =
        bind_ok (create_seats schedule_id e.seats) db1
          (λ _. create_stops schedule_id e.route >> record_created schedule_id)
          (create_seats-rows e.seats db1 seats u.no_seats) in
      let r =
        bind_ok (create_stops schedule_id e.route) db2 (λ _. record_created schedule_id)
          (create_stops-rows e.route db2 stops u.no_stops) in
      rw u.no_schedule (q ∙ r)

  pub initialize_inventory-filled :
      (e : CreatedEvent) (db : Db)
      → e.schedule_id ≡ some schedule_id
      → is_empty e.seats ≡ false
      → DistinctSeats e.seats
      → DistinctStops e.route
      → IsUnknown e db
      → initialize_inventory e db ≡ ok (applied, filled e db)
  unfolding initialize_inventory initialize_schedule filled
  initialize_inventory-filled e db id some_seats seats stops u =
      let c = create_inventory-filled e db seats stops u in rw (id, some_seats, u.no_record) c
