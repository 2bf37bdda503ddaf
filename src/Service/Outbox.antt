-- ===== src/Service/Outbox.antt =====
-- `publishOutboxBatch` and the repository functions that it calls, the same text in
-- apps/order-service, apps/inventory-service and apps/payment-service. The state is a service's
-- schema and the log of messages that Kafka has accepted.
use node_with_aoth.Prelude.{ℕ, String, true, List, [], ◌∷◌, ◌++◌, take, ◌==◌, if◌then◌else◌}
use node_with_aoth.Database.Action.{Error, ok, err, Action, ◌>>=◌, ◌>>◌, pure}
use node_with_aoth.Messaging.{Message, publish_event}
use node_with_aoth.Service.Tables.{OutboxRow, Db}

-- What befalls one turn of the loop: nothing; the send fails with nothing written; it fails with
-- the message written (the acknowledgement is lost); the row cannot be marked after the send.
pub data RowFault : Type 0 where
  delivered : RowFault
  not_sent not_acknowledged not_marked : Error → RowFault

-- Rows with `published_at IS NULL`.
abbrev pub pending : List OutboxRow → List OutboxRow
pending [] = []
pending (r ∷ rows) = if r.published then pending rows else r ∷ pending rows

abbrev pub batch_limit : ℕ
batch_limit = 25

-- SET published_at = NOW() WHERE id = $1
abbrev pub mark_published : String → List OutboxRow → List OutboxRow
mark_published i [] = []
mark_published i (r ∷ rows) =
    (if r.id == i then record r { published = true } else r) ∷ mark_published i rows

-- The message that a row becomes.
unfoldable pub row_message : OutboxRow → Message
unfolding publish_event
row_message r = publish_event r.topic r.routing_key r.payload r.headers

module _ {S : Type 0} where
  unfoldable pub get_pending_outbox_batch : Action (Db S × List Message) (List OutboxRow)
  get_pending_outbox_batch (db, log) = (ok (take batch_limit (pending db.outbox)), (db, log))

  unfoldable pub mark_outbox_published : String → Action (Db S × List Message) (Unit {0})
  mark_outbox_published i (db, log) =
      (ok tt, (record db { outbox = mark_published i db.outbox }, log))

  -- `producer.send`
  send : RowFault → Message → Action (Db S × List Message) (Unit {0})
  send (not_sent e) m (db, log) = (err e, (db, log))
  send (not_acknowledged e) m (db, log) = (err e, (db, log ++ m ∷ []))
  send _ m (db, log) = (ok tt, (db, log ++ m ∷ []))

  mark : RowFault → String → Action (Db S × List Message) (Unit {0})
  unfolding mark_outbox_published
  mark (not_marked e) i s = (err e, s)
  mark _ i s = mark_outbox_published i s

  -- One turn of the loop.
  unfoldable pub publish_row : RowFault → OutboxRow → Action (Db S × List Message) (Unit {0})
  unfolding send mark
  publish_row f row = do send f (row_message row); mark f row.id

  -- The loop; a turn that the list of faults does not reach meets none.
  unfoldable pub publish_rows :
      List RowFault → List OutboxRow → Action (Db S × List Message) (Unit {0})
  publish_rows fs [] = pure tt
  publish_rows [] (row ∷ rows) = publish_row delivered row >> publish_rows [] rows
  publish_rows (f ∷ fs) (row ∷ rows) = publish_row f row >> publish_rows fs rows

  unfoldable pub publish_outbox_batch : List RowFault → Action (Db S × List Message) (Unit {0})
  publish_outbox_batch fs = do rows ← get_pending_outbox_batch; publish_rows fs rows
