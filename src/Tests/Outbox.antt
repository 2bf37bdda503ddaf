-- ===== src/Tests/Outbox.antt =====
-- Runs of the outbox publisher on an outbox of two rows, of which one is still to be sent.
use node_with_aoth.Prelude.{◌≡◌, refl, true, List, [], ◌∷◌, ◌++◌, map, take, drop, arith}
use node_with_aoth.Shared.{no_payload}
use node_with_aoth.Database.Action.{ok, connection_lost}
use node_with_aoth.Messaging.{Message}
use node_with_aoth.Service.Tables.{OutboxRow, Db, new_row}
use node_with_aoth.Service.Outbox.{
  RowFault, not_acknowledged, pending, row_message, publish_row, publish_rows,
  get_pending_outbox_batch, publish_outbox_batch,
}
use node_with_aoth.Service.Batch.{
  publish_outbox_batch-sends, publish_batches, publish_batches-drains,
}
use node_with_aoth.Service.Loss.{AllSent, publish_outbox_batch-AllSent}

abbrev old_row : OutboxRow
old_row = record (new_row "x1" "payment.events" "payment.failed" no_payload []) { published = true }

abbrev row : OutboxRow
row = new_row "x2" "payment.events" "payment.succeeded" no_payload []

abbrev db : Db (Unit {0})
db = record { store = tt; outbox = old_row ∷ row ∷ []; processed = [] }

abbrev log : List Message
log = row_message old_row ∷ []

abbrev faults : List RowFault
faults = not_acknowledged connection_lost ∷ []

publish_outbox_batch-sends_example :
    let (r, (after, sent)) = publish_outbox_batch [] (db, log) in
    (r ≡ ok tt)
    × (sent ≡ log ++ map row_message (take 25 (pending db.outbox)))
    × (pending after.outbox ≡ drop 25 (pending db.outbox))
publish_outbox_batch-sends_example = publish_outbox_batch-sends db log (refl, (refl, tt))

publish_batches-drains_example :
    let (after, sent) = publish_batches 1 (db, log) in
    (pending after.outbox ≡ []) × (sent ≡ log ++ map row_message (pending db.outbox))
publish_batches-drains_example = publish_batches-drains 1 db log (refl, (refl, tt)) (omega arith)

publish_outbox_batch-AllSent_example :
    let (after, sent) = (publish_outbox_batch faults (db, log)).1 in
    AllSent after.outbox sent × (map row_message after.outbox ≡ map row_message db.outbox)
publish_outbox_batch-AllSent_example =
    publish_outbox_batch-AllSent faults db log (refl, (refl, tt))
      (λ p. ([], [], refl), (λ p. absurd (cc), tt))

-- A lost acknowledgement leaves the row for the next run, which sends it a second time.
sent_twice :
    (publish_outbox_batch [] (publish_outbox_batch faults (db, log)).1).1.1
    ≡ row_message old_row ∷ row_message row ∷ row_message row ∷ []
unfolding publish_outbox_batch get_pending_outbox_batch publish_rows publish_row
sent_twice = refl
