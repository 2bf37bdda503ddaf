-- ===== src/Orders/Create.antt =====
-- `createOrder` of order.service.ts, `createOrderWithOutbox` of order.repository.ts and the event
-- helpers of utils/event.utils.ts.
use node_with_aoth.Prelude.{String, Bool, not, ◌&&◌, Option, none, some, [], ◌∷◌, if◌then◌else◌}
use node_with_aoth.Shared.{
  topics, routing_keys, event_types, Payload, no_payload, Headers, truthy, is_text,
}
use node_with_aoth.Shared.Schema.{OrderBody}
use node_with_aoth.Database.Action.{Action, pure, gets, ◌>>=◌, ◌>>◌}
use node_with_aoth.Database.Transaction.{Faults, with_transaction}
use node_with_aoth.Service.Tables.{Fresh, insert_outbox}
use node_with_aoth.Orders.Tables.{
  Status, Order, OrdersDb, NewOrder, insert_order, find_order_by_idempotency,
}

-- What the code calls and does not implement: `String.prototype.toUpperCase`, `JSON.stringify` on
-- an order body, and the SHA-256 digest in hexadecimal.
pub record Runtime : Type 0 where
  pub to_upper : String → String
  pub stringify : OrderBody → String
  pub sha256 : String → String

-- An event as `createEventEnvelope` returns it.
pub record Envelope : Type 0 where
  pub event_id : String
  pub routing_key : String
  pub payload : Payload
  pub headers : Headers

-- `correlationId ? { correlationId } : {}`
abbrev correlation : Option String → Headers
correlation none = []
correlation (some c) = if truthy (some c) then ("correlationId", c) ∷ [] else []

unfoldable pub create_event_envelope : String → String → Payload → Option String → Envelope
create_event_envelope event_id routing_key payload correlation_id = record {
  event_id = event_id;
  routing_key = routing_key;
  payload = record payload { event_id = some event_id };
  headers = ("eventId", event_id) ∷ correlation correlation_id;
}

-- The insertion of an order and of its event, in one transaction.
unfoldable pub create_order_with_outbox :
    Faults → Fresh → NewOrder → String → Envelope → Action OrdersDb (Unit {0})
create_order_with_outbox f ids input topic event = with_transaction f (do
  insert_order input
  insert_outbox ids.outbox_id topic event.routing_key event.payload event.headers)

-- The argument of `createOrder`.
pub record CreateInput : Type 0 where
  pub body : OrderBody
  pub user_sub : String
  pub idempotency_key : String
  pub correlation_id : String

pub data Outcome : Type 0 where
  conflict : Outcome
  replayed : String → Status → Outcome
  created : String → Outcome

module _ (rt : Runtime) where
  abbrev pub request_hash : OrderBody → String
  request_hash body = rt.sha256 (rt.stringify body)

  -- { ...input.body, currency: normalizedCurrency }
  abbrev pub normalized : OrderBody → OrderBody
  normalized body = record body { currency = rt.to_upper body.currency }

  -- The `ReserveInventoryRequested` event of an order.
  abbrev pub reserve_payload : String → CreateInput → Payload
  reserve_payload order_id input = record no_payload {
    event_type = some event_types.reserve_inventory_requested;
    order_id = some order_id;
    user_id = some input.user_sub;
    item_sku = some input.body.item_sku;
    quantity = some input.body.quantity;
    total_amount = some input.body.total_amount;
    currency = some (rt.to_upper input.body.currency);
  }

  abbrev pub new_order : String → CreateInput → NewOrder
  new_order order_id input = record {
    order_id = order_id;
    user_id = input.user_sub;
    idempotency_key = input.idempotency_key;
    request_hash = request_hash (normalized input.body);
    total_amount = input.body.total_amount;
    currency = rt.to_upper input.body.currency;
    item_sku = input.body.item_sku;
    quantity = input.body.quantity;
  }

  -- `existing.request_hash && existing.request_hash !== bodyHash`
  abbrev pub reused_key : Order → String → Bool
  reused_key existing body_hash =
      truthy existing.request_hash && not (is_text existing.request_hash body_hash)

  -- The part of `createOrder` after its read.
  unfoldable pub create_if_new :
      Faults → String → Fresh → CreateInput → Option Order → Action OrdersDb Outcome
  create_if_new f order_id ids input (some existing) = pure (
      if reused_key existing (request_hash (normalized input.body))
      then conflict
      else replayed existing.id existing.status)
  create_if_new f order_id ids input none = do
    let event =
        create_event_envelope ids.event_id routing_keys.reserve_inventory
          (reserve_payload order_id input) (some input.correlation_id)
    create_order_with_outbox f ids (new_order order_id input) topics.inventory event
    pure (created order_id)

  -- The order's id is the first `randomUUID()` that the call draws.
  unfoldable pub create_order : Faults → String → Fresh → CreateInput → Action OrdersDb Outcome
  create_order f order_id ids input = do
    existing ← gets (find_order_by_idempotency input.user_sub input.idempotency_key)
    create_if_new f order_id ids input existing
