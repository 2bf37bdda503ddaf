-- ===== src/Payments/Repository.antt =====
-- repositories/payment.repository.ts and services/outbox.service.ts of payment-service: what the three
-- services share, on the schema `payments`.
use node_with_aoth.Prelude.{String, Bool, List}
use node_with_aoth.Database.Action.{Action}
use node_with_aoth.Database.Transaction.{Faults, with_transaction}
use node_with_aoth.Messaging.{Message}
use node_with_aoth.Service.Tables.{OutboxRow, mark_event_processed as mark_event}
use node_with_aoth.Service.Outbox.{
  RowFault, get_pending_outbox_batch as get_batch, mark_outbox_published as mark_row,
  publish_outbox_batch as publish_batch,
}
use node_with_aoth.Payments.Handler.{PaymentsDb}

abbrev pub get_pending_outbox_batch : Action (PaymentsDb × List Message) (List OutboxRow)
get_pending_outbox_batch = get_batch

abbrev pub mark_outbox_published : String → Action (PaymentsDb × List Message) (Unit {0})
mark_outbox_published = mark_row

abbrev pub with_payment_transaction :
    {A : Type 0} → Faults → Action PaymentsDb A → Action PaymentsDb A
with_payment_transaction = with_transaction

abbrev pub mark_event_processed : String → String → String → Action PaymentsDb Bool
mark_event_processed = mark_event

abbrev pub publish_outbox_batch : List RowFault → Action (PaymentsDb × List Message) (Unit {0})
publish_outbox_batch = publish_batch
