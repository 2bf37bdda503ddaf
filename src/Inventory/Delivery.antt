-- ===== src/Inventory/Delivery.antt =====
-- However often Kafka delivers a command, inventory-service acts on it once.
use node_with_aoth.Prelude.{◌≡◌, String, Bool, true, false, List, arith, if◌then◌else◌}
use node_with_aoth.Shared.{Payload, event_types, is_text}
use node_with_aoth.Database.Action.{Action}
use node_with_aoth.Database.Transaction.{Faults}
use node_with_aoth.Messaging.{Message}
use node_with_aoth.Service.Tables.{Fresh, insert_outbox}
use node_with_aoth.Service.Once.{consumed_event_id, consumed_routing_key, process_once}
use node_with_aoth.Service.Delivery.{IsOnce, process_once-IsOnce}
use node_with_aoth.Service.Consumer.{
  AtMostOnce, HandlesOnce, each_message-AtMostOnce, require_event_id-IsOnce,
}
use node_with_aoth.Inventory.Tables.{
  InventoryDb, update_stock, held_reservation, release_reservations, hold_reservation,
}
use node_with_aoth.Inventory.Handler.{
  release_inventory, reserve_inventory, handle_inventory_command, inventory_consumer,
}

release_inventory-processed :
    (p : Payload) (s : InventoryDb) → (release_inventory p s).1.processed ≡ s.processed
unfolding release_inventory held_reservation update_stock release_reservations
release_inventory-processed p s = ground arith

reserve_inventory-processed :
    (ids : Fresh) (p : Payload) (s : InventoryDb)
    → (reserve_inventory ids p s).1.processed ≡ s.processed
unfolding reserve_inventory update_stock hold_reservation insert_outbox
reserve_inventory-processed ids p s = ground arith

abbrev handler : Faults × Fresh → Message → Payload → Action InventoryDb (Unit {0})
handler (f, ids) = handle_inventory_command f ids

command-IsOnce :
    (f : Faults) (ids : Fresh) (event_id topic routing_key : String) (p : Payload) (release : Bool)
    → IsOnce event_id (
        if release
        then process_once f event_id topic routing_key (release_inventory p)
        else process_once f event_id topic routing_key (reserve_inventory ids p))
command-IsOnce f ids i t k p true =
    process_once-IsOnce i t k (release_inventory p) (release_inventory-processed p) f
command-IsOnce f ids i t k p false =
    process_once-IsOnce i t k (reserve_inventory ids p) (reserve_inventory-processed ids p) f

handler_once : HandlesOnce handler
unfolding handle_inventory_command
handler_once m p = require_event_id-IsOnce (consumed_event_id m p) _ (λ a i.
    command-IsOnce a.0 a.1 i m.topic (consumed_routing_key m) p
      (is_text p.event_type event_types.release_inventory))

-- Whatever message is delivered to inventory-service, however often, and whichever deliveries
-- fail in the database: the whole schema (stock, outbox and processed events) is as before, or as
-- after exactly one of the deliveries.
pub inventory_consumer-AtMostOnce :
    (m : Message) (tries : List (Faults × Fresh)) (s : InventoryDb)
    → AtMostOnce (λ a. inventory_consumer a.0 a.1 m) tries s
unfolding inventory_consumer
inventory_consumer-AtMostOnce m tries s = each_message-AtMostOnce handler handler_once _ m tries s
