-- ===== src/Payments/Handler.antt =====
-- `handlePaymentCommand` of payment.service.ts, with the table `payments.payment_attempts` and
-- `createEventEnvelope` of the service's utils/event.utils.ts.
use node_with_aoth.Prelude.{
  String, Bool, false, Option, none, some, List, [], ◌∷◌, ◌==◌, if◌then◌else◌,
}
use node_with_aoth.Shared.{
  topics, routing_keys, event_types, Number, number_le, Payload, no_payload, Headers,
}
use node_with_aoth.Database.Action.{Action, ok, lift, not_null, ◌>>=◌, ◌>>◌}
use node_with_aoth.Database.Columns.{Cents, to_cents, to_uuid}
use node_with_aoth.Database.Transaction.{Faults}
use node_with_aoth.Messaging.{Message, each_message}
use node_with_aoth.Service.Tables.{Db, Fresh, insert_outbox}
use node_with_aoth.Service.Once.{
  consumed_event_id, consumed_routing_key, require_event_id, process_once,
}

pub record Envelope : Type 0 where
  pub event_id : String
  pub routing_key : String
  pub payload : Payload
  pub headers : Headers

unfoldable pub create_event_envelope : String → String → Payload → Envelope
create_event_envelope event_id routing_key payload = record {
  event_id = event_id;
  routing_key = routing_key;
  payload = record payload { event_id = some event_id };
  headers = ("eventId", event_id) ∷ [];
}

pub data AttemptStatus : Type 0 where
  succeeded failed : AttemptStatus

pub record Attempt : Type 0 where
  pub order_id : String
  pub amount : Cents
  pub currency : String
  pub status : AttemptStatus

abbrev pub PaymentsDb : Type 0
PaymentsDb = Db (List Attempt)

abbrev pub find_attempt : String → List Attempt → Option Attempt
find_attempt i [] = none
find_attempt i (a ∷ rest) = if a.order_id == i then some a else find_attempt i rest

-- INSERT … ON CONFLICT (order_id) DO UPDATE SET status = EXCLUDED.status
abbrev pub upsert_attempt : Attempt → List Attempt → List Attempt
upsert_attempt new [] = new ∷ []
upsert_attempt new (a ∷ rest) =
    if a.order_id == new.order_id
    then record a { status = new.status } ∷ rest
    else a ∷ upsert_attempt new rest

abbrev pub put_attempt : Attempt → Action PaymentsDb (Unit {0})
put_attempt new db = (ok tt, record db { store = upsert_attempt new db.store })

unfoldable pub save_attempt : Payload → AttemptStatus → Action PaymentsDb (Unit {0})
save_attempt p status = do
  lift (to_uuid p.order_id)
  order_id ← lift (not_null p.order_id)
  given ← lift (not_null p.amount)
  amount ← lift (to_cents given)
  currency ← lift (not_null p.currency)
  put_attempt
      (record { order_id = order_id; amount = amount; currency = currency; status = status })

-- `Number(payload.amount) <= 10000`; `Number(undefined)` is NaN, and the comparison false.
abbrev pub is_approved : Option Number → Bool
is_approved none = false
is_approved (some amount) = number_le amount 10000

abbrev pub result_payload : Bool → Payload → Payload
result_payload approved p = record no_payload {
  event_type =
      some (if approved then event_types.payment_succeeded else event_types.payment_failed);
  order_id = p.order_id;
  reason = if approved then none else some "Payment authorization failed";
}

abbrev pub result_routing_key : Bool → String
result_routing_key approved =
    if approved then routing_keys.payment_succeeded else routing_keys.payment_failed

unfoldable pub process_payment : Fresh → Payload → Action PaymentsDb (Unit {0})
process_payment ids p = do
  let approved = is_approved p.amount
  let event =
      create_event_envelope ids.event_id (result_routing_key approved) (result_payload approved p)
  save_attempt p (if approved then succeeded else failed)
  insert_outbox ids.outbox_id topics.payment event.routing_key event.payload event.headers

unfoldable pub handle_payment_command :
    Faults → Fresh → Message → Payload → Action PaymentsDb (Unit {0})
handle_payment_command f ids m p = do
  event_id ← lift (require_event_id (consumed_event_id m p))
  process_once f event_id m.topic (consumed_routing_key m) (process_payment ids p)

-- The routing keys that the consumer listens to.
abbrev pub payment_keys : List String
payment_keys = routing_keys.process_payment ∷ []

-- `startPaymentConsumer`: what one delivery of a message does.
unfoldable pub payment_consumer : Faults → Fresh → Message → Action PaymentsDb (Unit {0})
payment_consumer f ids = each_message payment_keys (handle_payment_command f ids)
