-- ===== src/Consumers/Examples.antt =====
-- A concrete message that is delivered twice.
use railway_booking_system.Base.{ℕ, ◌≡◌, refl, Option, some, [], ◌∷◌}
use railway_booking_system.Bus.{fields_to_object, Entry, Group, handle_entry}
use railway_booking_system.Inventory.Rows.{Db}
use railway_booking_system.Inventory.Lifecycle.{CreatedEvent}
use railway_booking_system.Consumers.{
  InventoryMessage, created_message, inventory_handler, Holds, handle_entry-again,
}

abbrev event : CreatedEvent
event = record {
  schedule_id = some 50;
  train_id = 7;
  train_number = 12301;
  train_name = 70;
  departure_date = 20;
  seats = record { seat_id = 30; seat_number = 1; seat_type = 2; price = 400 } ∷ [];
  route = [];
}

abbrev reads_event : ℕ → Option InventoryMessage
reads_event text = some (created_message event)

abbrev entry : ℕ → Entry
entry id = record { id = id; fields = some (0 ∷ 77 ∷ []) }

abbrev tables : Group Db
tables = record {
  pending = [];
  dead_letters = [];
  state = record {
    schedules = [];
    seats = [];
    segment_locks = [];
    route_stops = [];
    processed = [];
    next_id = 1;
  };
}

holds :
    (id : ℕ)
    → Holds reads_event inventory_handler 9 (entry id) (0 ∷ 77 ∷ []) 77 (created_message event)
unfolding fields_to_object
holds id = record { there = refl; text_found = refl; message_read = refl }

handle_entry-again_example :
    (let g = handle_entry reads_event inventory_handler 9 (entry 1) tables in
      (handle_entry reads_event inventory_handler 9 (entry 2) g).state ≡ g.state)
handle_entry-again_example =
    handle_entry-again reads_event 9 (entry 1) (entry 2) (0 ∷ 77 ∷ []) 77 (created_message event)
      tables (holds 1) (holds 2)
