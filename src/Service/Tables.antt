-- ===== src/Service/Tables.antt =====
-- The tables that every service schema has (infra/postgres/init/001_init.sql), and the statements
-- on them that the three repositories repeat. Rows stand in the order of `created_at`.
use node_with_aoth.Prelude.{
  String, Bool, true, false, ◌||◌, List, [], ◌∷◌, ◌++◌, ◌==◌, if◌then◌else◌,
}
use node_with_aoth.Shared.{Payload, Headers}
use node_with_aoth.Database.Action.{ok, err, unique_violation, Action}

pub record OutboxRow : Type 0 where
  pub id : String
  pub topic : String
  pub routing_key : String
  pub payload : Payload
  pub headers : Headers
  pub published : Bool  -- `published_at IS NOT NULL`

pub record ProcessedEvent : Type 0 where
  pub event_id : String
  pub topic : String
  pub routing_key : String

-- A service's schema: its own tables and the two shared ones.
pub record Db (S : Type 0) : Type 0 where
  pub store : S
  pub outbox : List OutboxRow
  pub processed : List ProcessedEvent

-- The `crypto.randomUUID()` results that one handler run draws: the id of an event, and that of
-- its outbox row.
pub record Fresh : Type 0 where
  pub event_id : String
  pub outbox_id : String

abbrev pub has_row : String → List OutboxRow → Bool
has_row i [] = false
has_row i (r ∷ rows) = r.id == i || has_row i rows

abbrev pub has_event : String → List ProcessedEvent → Bool
has_event i [] = false
has_event i (e ∷ es) = e.event_id == i || has_event i es

-- The row that an INSERT adds; the publication time starts as NULL.
abbrev pub new_row : String → String → String → Payload → Headers → OutboxRow
new_row i topic routing_key payload headers = record {
  id = i;
  topic = topic;
  routing_key = routing_key;
  payload = payload;
  headers = headers;
  published = false;
}

-- The schema with one more processed event.
abbrev pub recorded : {S : Type 0} → String → String → String → Db S → Db S
recorded event_id topic routing_key db = record db {
  processed =
      db.processed ++ record { event_id = event_id; topic = topic; routing_key = routing_key } ∷ [];
}

module _ {S : Type 0} where
  -- INSERT INTO outbox (id, topic, routing_key, payload, headers)
  unfoldable pub insert_outbox :
      String → String → String → Payload → Headers → Action (Db S) (Unit {0})
  insert_outbox i topic routing_key payload headers db =
      if has_row i db.outbox then (err unique_violation, db) else (
        ok tt,
        record db { outbox = db.outbox ++ new_row i topic routing_key payload headers ∷ [] },
      )

  -- `markEventProcessed`: INSERT … ON CONFLICT (event_id) DO NOTHING, and `rowCount === 1`.
  unfoldable pub mark_event_processed : String → String → String → Action (Db S) Bool
  mark_event_processed event_id topic routing_key db =
      if has_event event_id db.processed
      then (ok false, db)
      else (ok true, recorded event_id topic routing_key db)
