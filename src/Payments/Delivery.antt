-- ===== src/Payments/Delivery.antt =====
-- However often Kafka delivers a command, payment-service acts on it once.
use node_with_aoth.Prelude.{◌≡◌, List, arith}
use node_with_aoth.Shared.{Payload}
use node_with_aoth.Database.Action.{Action}
use node_with_aoth.Database.Transaction.{Faults}
use node_with_aoth.Messaging.{Message}
use node_with_aoth.Service.Tables.{Fresh, insert_outbox}
use node_with_aoth.Service.Once.{consumed_event_id, consumed_routing_key}
use node_with_aoth.Service.Delivery.{process_once-IsOnce}
use node_with_aoth.Service.Consumer.{
  AtMostOnce, HandlesOnce, each_message-AtMostOnce, require_event_id-IsOnce,
}
use node_with_aoth.Payments.Handler.{
  PaymentsDb, save_attempt, process_payment, handle_payment_command, payment_consumer,
}

process_payment-processed :
    (ids : Fresh) (p : Payload) (s : PaymentsDb)
    → (process_payment ids p s).1.processed ≡ s.processed
unfolding process_payment save_attempt insert_outbox
process_payment-processed ids p s = ground arith

handler : Faults × Fresh → Message → Payload → Action PaymentsDb (Unit {0})
handler (f, ids) = handle_payment_command f ids

handler_once : HandlesOnce handler
unfolding handler handle_payment_command
handler_once m p = require_event_id-IsOnce (consumed_event_id m p) _ (λ a i.
    process_once-IsOnce i m.topic (consumed_routing_key m) (process_payment a.1 p)
      (process_payment-processed a.1 p) a.0)

-- Whatever message is delivered to payment-service, however often, and whichever deliveries fail
-- in the database: the whole schema (payment attempts, outbox and processed events) is as before,
-- or as after exactly one of the deliveries.
pub payment_consumer-AtMostOnce :
    (m : Message) (tries : List (Faults × Fresh)) (s : PaymentsDb)
    → AtMostOnce (λ a. payment_consumer a.0 a.1 m) tries s
unfolding payment_consumer handler
payment_consumer-AtMostOnce m tries s = each_message-AtMostOnce handler handler_once _ m tries s
