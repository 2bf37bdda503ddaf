-- ===== src/Service/Once.antt =====
-- The frame of every consumer handler: read the event's id, and process it once, in a transaction
-- that first records the id.
--   const shouldProcess = await markEventProcessed(client, eventId, message.topic, routingKey);
--   if (!shouldProcess) { return; }
use node_with_aoth.Prelude.{String, Option, none, some, ◌==◌, if◌then◌else◌}
use node_with_aoth.Shared.{Payload, get_header, or_else, get_or}
use node_with_aoth.Database.Action.{Result, ok, err, missing_event_id, Action, when, ◌>>=◌}
use node_with_aoth.Database.Transaction.{Faults, with_transaction}
use node_with_aoth.Messaging.{Message}
use node_with_aoth.Service.Tables.{Db, mark_event_processed}

-- `message.headers?.eventId?.toString() ?? payload.eventId`
abbrev pub consumed_event_id : Message → Payload → Option String
consumed_event_id m p = or_else (get_header "eventId" m.headers) p.event_id

-- `message.headers?.routingKey?.toString() ?? "unknown"`
abbrev pub consumed_routing_key : Message → String
consumed_routing_key m = get_or (get_header "routingKey" m.headers) "unknown"

-- `if (!eventId) { throw … }`
abbrev pub require_event_id : Option String → Result String
require_event_id none = err missing_event_id
require_event_id (some s) = if s == "" then err missing_event_id else ok s

module _ {S : Type 0} where
  -- The callback: the event is recorded, and then processed if it was new.
  unfoldable pub mark_then :
      String → String → String → Action (Db S) (Unit {0}) → Action (Db S) (Unit {0})
  mark_then event_id topic routing_key body = do
    should_process ← mark_event_processed event_id topic routing_key
    when should_process body

  unfoldable pub process_once :
      Faults → String → String → String → Action (Db S) (Unit {0}) → Action (Db S) (Unit {0})
  unfolding mark_then
  process_once f event_id topic routing_key body =
      with_transaction f (mark_then event_id topic routing_key body)
