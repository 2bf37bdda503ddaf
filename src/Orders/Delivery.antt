-- ===== src/Orders/Delivery.antt =====
-- However often Kafka delivers a saga reply, order-service acts on it once.
use node_with_aoth.Prelude.{◌≡◌, String, Option, List, arith}
use node_with_aoth.Shared.{Payload, event_types, get_header, is_text}
use node_with_aoth.Database.Action.{Action, when, ◌>>◌}
use node_with_aoth.Database.Transaction.{Faults}
use node_with_aoth.Messaging.{Message}
use node_with_aoth.Service.Tables.{Fresh, insert_outbox}
use node_with_aoth.Service.Once.{consumed_event_id, consumed_routing_key, process_once}
use node_with_aoth.Service.Delivery.{IsOnce, IsOnce-when, IsOnce-then, process_once-IsOnce}
use node_with_aoth.Service.Consumer.{
  AtMostOnce, HandlesOnce, each_message-AtMostOnce, require_event_id-IsOnce,
}
use node_with_aoth.Orders.Tables.{Order, OrdersDb, update_order}
use node_with_aoth.Orders.Saga.{
  on_inventory_reserved, on_inventory_rejected, on_payment_succeeded, on_payment_failed,
  handle_saga_event, order_saga_consumer,
}

update_order-processed :
    (i : Option String) (g : Order → Order) (s : OrdersDb)
    → (update_order i g s).1.processed ≡ s.processed
unfolding update_order
update_order-processed i g s = ground arith

on_inventory_reserved-processed :
    (ids : Fresh) (c : Option String) (p : Payload) (s : OrdersDb)
    → (on_inventory_reserved ids c p s).1.processed ≡ s.processed
unfolding on_inventory_reserved insert_outbox update_order
on_inventory_reserved-processed ids c p s = ground arith

on_payment_failed-processed :
    (ids : Fresh) (c : Option String) (p : Payload) (s : OrdersDb)
    → (on_payment_failed ids c p s).1.processed ≡ s.processed
unfolding on_payment_failed insert_outbox update_order
on_payment_failed-processed ids c p s = ground arith

module _ (f : Faults) (ids : Fresh) (m : Message) (p : Payload) (c : Option String)
    (event_id : String) where
  -- A branch of the handler, under its test.
  branch-IsOnce :
      (event_type : String) (body : Action OrdersDb (Unit {0}))
      → ((s : OrdersDb) → (body s).1.processed ≡ s.processed)
      → IsOnce event_id (
          when
            (is_text p.event_type event_type)
            (process_once f event_id m.topic (consumed_routing_key m) body))
  branch-IsOnce t body keeps =
      IsOnce-when (is_text p.event_type t)
        (process_once-IsOnce event_id m.topic (consumed_routing_key m) body keeps f)

  branches-IsOnce : IsOnce event_id (
      when
        (is_text p.event_type event_types.inventory_reserved)
        (process_once f event_id m.topic (consumed_routing_key m) (on_inventory_reserved ids c p))
      >> (when
            (is_text p.event_type event_types.inventory_rejected)
            (process_once f event_id m.topic (consumed_routing_key m) (on_inventory_rejected p))
          >> (when
                (is_text p.event_type event_types.payment_succeeded)
                (process_once f event_id m.topic (consumed_routing_key m) (on_payment_succeeded p))
              >> when (is_text p.event_type event_types.payment_failed) (
                  process_once f event_id m.topic
                    (consumed_routing_key m)
                    (on_payment_failed ids c p)))))
  unfolding on_inventory_rejected on_payment_succeeded
  branches-IsOnce =
      IsOnce-then
        (branch-IsOnce event_types.inventory_reserved (on_inventory_reserved ids c p)
          (on_inventory_reserved-processed ids c p))
        (IsOnce-then
          (branch-IsOnce event_types.inventory_rejected (on_inventory_rejected p)
            (update_order-processed _ _))
          (IsOnce-then
            (branch-IsOnce event_types.payment_succeeded (on_payment_succeeded p)
              (update_order-processed _ _))
            (branch-IsOnce event_types.payment_failed (on_payment_failed ids c p)
              (on_payment_failed-processed ids c p))))

handler : Faults × Fresh → Message → Payload → Action OrdersDb (Unit {0})
handler (f, ids) = handle_saga_event f ids

handler_once : HandlesOnce handler
unfolding handler handle_saga_event
handler_once m p =
    require_event_id-IsOnce (consumed_event_id m p) _
      (λ a i. branches-IsOnce a.0 a.1 m p (get_header "correlationId" m.headers) i)

-- Whatever message is delivered to order-service, however often, and whichever deliveries fail in
-- the database: the whole schema (orders, outbox and processed events) is as before, or as after
-- exactly one of the deliveries.
pub order_saga_consumer-AtMostOnce :
    (m : Message) (tries : List (Faults × Fresh)) (s : OrdersDb)
    → AtMostOnce (λ a. order_saga_consumer a.0 a.1 m) tries s
unfolding order_saga_consumer handler
order_saga_consumer-AtMostOnce m tries s = each_message-AtMostOnce handler handler_once _ m tries s
