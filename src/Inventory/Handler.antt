-- ===== src/Inventory/Handler.antt =====
-- `handleInventoryCommand` of inventory.service.ts, with `createEventEnvelope` of the service's
-- utils/event.utils.ts.
use node_with_aoth.Prelude.{
  String, Bool, true, false, Option, none, some, List, [], ◌∷◌, if◌then◌else◌,
}
use node_with_aoth.Prelude.Int.{ℤ}
use node_with_aoth.Shared.{
  topics, routing_keys, event_types, Number, int_lt_number, Payload, no_payload, Headers, is_text,
}
use node_with_aoth.Database.Action.{Action, pure, gets, lift, not_null, ◌>>=◌, ◌>>◌}
use node_with_aoth.Database.Columns.{to_integer}
use node_with_aoth.Database.Transaction.{Faults}
use node_with_aoth.Messaging.{Message, each_message}
use node_with_aoth.Service.Tables.{Fresh, insert_outbox}
use node_with_aoth.Service.Once.{
  consumed_event_id, consumed_routing_key, require_event_id, process_once,
}
use node_with_aoth.Inventory.Tables.{
  Item, Reservation, InventoryDb, find_item, held_reservation, shift_item, unshift_item,
  update_stock, release_reservations, hold_reservation,
}

pub record Envelope : Type 0 where
  pub event_id : String
  pub routing_key : String
  pub payload : Payload
  pub headers : Headers

unfoldable pub create_event_envelope : String → String → Payload → Envelope
create_event_envelope event_id routing_key payload = record {
  event_id = event_id;
  routing_key = routing_key;
  payload = record payload { event_id = some event_id };
  headers = ("eventId", event_id) ∷ [];
}

abbrev pub rejected_payload : Payload → Payload
rejected_payload p = record no_payload {
  event_type = some event_types.inventory_rejected;
  order_id = p.order_id;
  reason = some "Insufficient inventory";
}

abbrev pub reserved_payload : Payload → Payload
reserved_payload p = record no_payload {
  event_type = some event_types.inventory_reserved;
  order_id = p.order_id;
  total_amount = p.total_amount;
  currency = p.currency;
}

-- `available_quantity < payload.quantity`; a comparison with `undefined` is false.
abbrev pub is_short : ℤ → Option Number → Bool
is_short available none = false
is_short available (some q) = int_lt_number available q

-- `!item.rows[0] || item.rows[0].available_quantity < payload.quantity`
abbrev pub cannot_reserve : Option Item → Option Number → Bool
cannot_reserve none q = true
cannot_reserve (some x) q = is_short x.available q

-- The outbox insertion of a reply.
abbrev pub reply : Fresh → String → Payload → Action InventoryDb (Unit {0})
reply ids routing_key payload = do
  let event = create_event_envelope ids.event_id routing_key payload
  insert_outbox ids.outbox_id topics.inventory event.routing_key event.payload event.headers

-- Both updates of a reservation that is there.
abbrev pub give_back : Payload → Option Reservation → Action InventoryDb (Unit {0})
give_back p none = pure tt
give_back p (some existing) = do
  update_stock (unshift_item existing.quantity) (some existing.sku)
  release_reservations p.order_id

unfoldable pub release_inventory : Payload → Action InventoryDb (Unit {0})
release_inventory p = do existing ← held_reservation p.order_id; give_back p existing

-- The quantity is a parameter of the UPDATE and of the INSERT; a missing one is NULL, for which
-- both columns are NOT NULL.
abbrev pub take_stock : Fresh → Payload → Action InventoryDb (Unit {0})
take_stock ids p = do
  quantity ← lift (not_null p.quantity)
  q ← lift (to_integer quantity)
  update_stock (shift_item q) p.item_sku
  hold_reservation p.order_id p.item_sku q
  reply ids routing_keys.inventory_reserved (reserved_payload p)

unfoldable pub reserve_inventory : Fresh → Payload → Action InventoryDb (Unit {0})
reserve_inventory ids p = do
  item ← gets (λ db. find_item p.item_sku db.store.items)
  if cannot_reserve item p.quantity
      then reply ids routing_keys.inventory_rejected (rejected_payload p)
      else take_stock ids p

-- Whatever is not "ReleaseInventory" is read as a reservation.
unfoldable pub handle_inventory_command :
    Faults → Fresh → Message → Payload → Action InventoryDb (Unit {0})
handle_inventory_command f ids m p = do
  event_id ← lift (require_event_id (consumed_event_id m p))
  let once = process_once f event_id m.topic (consumed_routing_key m)
  if is_text p.event_type event_types.release_inventory
      then once (release_inventory p)
      else once (reserve_inventory ids p)

-- The routing keys that the consumer listens to.
abbrev pub inventory_keys : List String
inventory_keys = routing_keys.reserve_inventory ∷ routing_keys.release_inventory ∷ []

-- `startInventoryConsumer`: what one delivery of a message does.
unfoldable pub inventory_consumer : Faults → Fresh → Message → Action InventoryDb (Unit {0})
inventory_consumer f ids = each_message inventory_keys (handle_inventory_command f ids)
