-- ===== src/Consumers.antt =====
-- The handlers behind the streams: inventory-service/src/events/consumer/inventory.consumer.js and
-- booking-service/src/events/consumer/booking.consumer.js over shared/utils/streamBus.js.
mod Examples
use railway_booking_system.Base.{
  ℕ, ◌≡◌, refl, sym, ap, ◌∙◌, subst, inl, inr, Bool, true, false, Bool-cases, Option, none, some,
  List, leb, if◌then◌else◌,
}
use railway_booking_system.Errors.{Result, ok, err, Failure}
use railway_booking_system.Effects.{Act}
use railway_booking_system.Bus.{
  stream_max_retries, data_name, fields_to_object, Entry, Group, acknowledge, deliveries_of, bury,
  handle_failure, after_handler, handle_message, parsed, handle_fields, handle_entry,
}
use railway_booking_system.Inventory.Rows.{Db}
use railway_booking_system.Inventory.Transaction.{Tx, Commits}
use railway_booking_system.Inventory.Lifecycle.{
  CreatedEvent, CancelledEvent, Handled, initialize_inventory, cancel_schedule_inventory,
}
use railway_booking_system.Inventory.Delivery.{
  again, initialize_inventory-again, cancel_schedule_inventory-again,
}
use railway_booking_system.Booking.Events.{
  handle_payment_success, handle_payment_failure, handle_schedule_cancelled,
}
use railway_booking_system.Booking.Rows.{World, Reply}

-- A transaction as a handler: what it has written is there once it commits.
unfoldable pub settled : Db → Result (Handled × Db) → Result (Unit {0}) × Db
settled db (ok (h, db')) = (ok tt, db')
settled db (err e) = (err e, db)

unfoldable pub committed : Tx Handled → Act Db (Unit {0})
unfolding settled
committed m db = settled db (m db)

-- The messages of the two streams of inventory-service.
pub data InventoryMessage : Type 0 where
  created_message : CreatedEvent → InventoryMessage
  cancelled_message : CancelledEvent → InventoryMessage

unfoldable pub inventory_handler : InventoryMessage → Act Db (Unit {0})
unfolding committed
inventory_handler (created_message e) = committed (initialize_inventory e)
inventory_handler (cancelled_message e) = committed (cancel_schedule_inventory e)

-- The messages of the three streams of booking-service; the payment's id and amount are only logged.
pub data BookingMessage : Type 0 where
  payment_succeeded : (payment_order_id : ℕ) → BookingMessage
  payment_failed : (payment_order_id : ℕ) (reason : Option ℕ) → BookingMessage
  schedule_cancelled : (schedule_id : Option ℕ) → BookingMessage

unfoldable pub booking_handler : (up : Bool) → Reply → BookingMessage → Act World (Unit {0})
booking_handler up reply (payment_succeeded id) = handle_payment_success up reply id
booking_handler up reply (payment_failed id reason) = handle_payment_failure up reply id reason
booking_handler up reply (schedule_cancelled id) = handle_schedule_cancelled up reply id

settled-again :
    (m : Tx Handled) (db : Db) (r : Result (Handled × Db))
    → m db ≡ r
    → Commits (λ h db'. m db' ≡ ok (again h, db')) r
    → (settled (settled db r).1 (m (settled db r).1)).1 ≡ (settled db r).1
unfolding settled
settled-again m db (ok (h, db')) q c = rw (c.at h db' refl) refl
settled-again m db (err e) q c = rw q refl

-- A message that inventory-service handles a second time leaves its tables as the first time has.
handler-again :
    (m : InventoryMessage) (db : Db)
    → (inventory_handler m (inventory_handler m db).1).1 ≡ (inventory_handler m db).1
unfolding inventory_handler
handler-again (created_message e) db =
    settled-again (initialize_inventory e) db (initialize_inventory e db) refl
      (initialize_inventory-again e db)
handler-again (cancelled_message e) db =
    settled-again (cancel_schedule_inventory e) db (cancel_schedule_inventory e db) refl
      (cancel_schedule_inventory-again e db)

module _ {S Message : Type 0} (parse : ℕ → Option Message) (handler : Message → Act S (Unit {0}))
    (source : ℕ) where
  failure-state :
      (id : ℕ) (content : Option ℕ) (e : Failure) (g : Group S)
      → (handle_failure parse handler source id content e g).state ≡ g.state
  unfolding handle_failure acknowledge bury
  failure-state id content e g = elim (Bool-cases (leb stream_max_retries (deliveries_of id g))) [
    | inl h ↦ rw h refl
    | inr h ↦ rw h refl
  ]

  after-state :
      (id : ℕ) (content : Option ℕ) (r : Result (Unit {0}) × S) (g : Group S)
      → (after_handler parse handler source id content r g).state ≡ r.1
  unfolding after_handler acknowledge
  after-state id content (ok u, s) g = refl
  after-state id content (err e, s) g = failure-state id content e (record g { state = s })

  -- The text of an entry and the message that it holds.
  pub record Holds (e : Entry) (fields : List ℕ) (text : ℕ) (m : Message) : Type 0 where
    pub there : e.fields ≡ some fields
    pub text_found : fields_to_object fields data_name ≡ some text
    pub message_read : parse text ≡ some m

  handled-state :
      (e : Entry) (fields : List ℕ) (text : ℕ) (m : Message) (g : Group S)
      → Holds e fields text m
      → (handle_entry parse handler source e g).state ≡ (handler m g.state).1
  unfolding handle_entry handle_fields handle_message
  handled-state e fields text m g h =
      rw (h.there, h.text_found, h.message_read)
        (after-state e.id (some text) (handler m g.state) g)

-- Two entries of a stream that hold the same message, or one entry that is delivered again: whatever
-- the first has come to, the second leaves the tables of inventory-service as it finds them.
pub handle_entry-again :
    (parse : ℕ → Option InventoryMessage) (source : ℕ) (e e' : Entry) (fields : List ℕ) (text : ℕ)
    (m : InventoryMessage) (g : Group Db)
    → Holds parse inventory_handler source e fields text m
    → Holds parse inventory_handler source e' fields text m
    → (let g' = handle_entry parse inventory_handler source e g in
        (handle_entry parse inventory_handler source e' g').state ≡ g'.state)
handle_entry-again parse source e e' fields text m g h h' =
    let g' = handle_entry parse inventory_handler source e g in
    let q = handled-state parse inventory_handler source e fields text m g h in
    handled-state parse inventory_handler source e' fields text m g' h'
    ∙ ap (λ db. (inventory_handler m db).1) q
    ∙ handler-again m g.state
    ∙ sym q
