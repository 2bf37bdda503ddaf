-- ===== src/Orders/Saga.antt =====
-- `handleSagaEvent` of order.service.ts: the orchestrator's reaction to each reply.
use node_with_aoth.Prelude.{String, Option, [], ◌∷◌, some}
use node_with_aoth.Shared.{
  topics, routing_keys, event_types, Payload, no_payload, get_header, is_text,
}
use node_with_aoth.Database.Action.{Action, lift, when, ◌>>=◌, ◌>>◌}
use node_with_aoth.Database.Transaction.{Faults}
use node_with_aoth.Messaging.{Message, each_message}
use node_with_aoth.Service.Tables.{Fresh, insert_outbox}
use node_with_aoth.Service.Once.{
  consumed_event_id, consumed_routing_key, require_event_id, process_once,
}
use node_with_aoth.Orders.Tables.{
  pending_payment, confirmed, OrdersDb, set_status, set_failed, update_order,
}
use node_with_aoth.Orders.Create.{create_event_envelope}

-- The command that follows a reservation.
abbrev pub payment_payload : Payload → Payload
payment_payload p = record no_payload {
  event_type = some event_types.process_payment;
  order_id = p.order_id;
  amount = p.total_amount;
  currency = p.currency;
}

-- The command that undoes it.
abbrev pub release_payload : Payload → Payload
release_payload p = record no_payload {
  event_type = some event_types.release_inventory;
  order_id = p.order_id;
}

unfoldable pub on_inventory_reserved : Fresh → Option String → Payload → Action OrdersDb (Unit {0})
on_inventory_reserved ids correlation_id p = do
  let event =
      create_event_envelope ids.event_id routing_keys.process_payment (payment_payload p)
        correlation_id
  update_order p.order_id (set_status pending_payment)
  insert_outbox ids.outbox_id topics.payment event.routing_key event.payload event.headers

unfoldable pub on_inventory_rejected : Payload → Action OrdersDb (Unit {0})
on_inventory_rejected p = update_order p.order_id (set_failed p.reason)

unfoldable pub on_payment_succeeded : Payload → Action OrdersDb (Unit {0})
on_payment_succeeded p = update_order p.order_id (set_status confirmed)

unfoldable pub on_payment_failed : Fresh → Option String → Payload → Action OrdersDb (Unit {0})
on_payment_failed ids correlation_id p = do
  let event =
      create_event_envelope ids.event_id routing_keys.release_inventory (release_payload p)
        correlation_id
  update_order p.order_id (set_failed p.reason)
  insert_outbox ids.outbox_id topics.inventory event.routing_key event.payload event.headers

-- The four `if` statements, one after the other. Each draws its own random ids; at most one of
-- them runs, since the event type is one text.
unfoldable pub handle_saga_event : Faults → Fresh → Message → Payload → Action OrdersDb (Unit {0})
handle_saga_event f ids m p = do
  event_id ← lift (require_event_id (consumed_event_id m p))
  let once = process_once f event_id m.topic (consumed_routing_key m)
  let correlation_id = get_header "correlationId" m.headers
  when (is_text p.event_type event_types.inventory_reserved)
      (once (on_inventory_reserved ids correlation_id p))
  when (is_text p.event_type event_types.inventory_rejected) (once (on_inventory_rejected p))
  when (is_text p.event_type event_types.payment_succeeded) (once (on_payment_succeeded p))
  when (is_text p.event_type event_types.payment_failed)
      (once (on_payment_failed ids correlation_id p))

-- `startOrderSagaConsumer`: what one delivery of a message does.
unfoldable pub order_saga_consumer : Faults → Fresh → Message → Action OrdersDb (Unit {0})
order_saga_consumer f ids =
    each_message
      (routing_keys.inventory_reserved ∷ routing_keys.inventory_rejected
        ∷ routing_keys.payment_succeeded ∷ routing_keys.payment_failed ∷ [])
      (handle_saga_event f ids)
