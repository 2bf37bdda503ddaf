-- ===== src/Tests/Saga.antt =====
-- A payment that failed, at the orchestrator.
use node_with_aoth.Prelude.{◌≡◌, refl, ◌≢◌, String, some}
use node_with_aoth.Database.Transaction.{no_faults}
use node_with_aoth.Orders.Tables.{find_order}
use node_with_aoth.Orders.Saga.{handle_saga_event}
use node_with_aoth.Orders.Replies.{payment_failed, updated_by, handle_saga_event-orders}
use node_with_aoth.Tests.Samples.{
  first_id, ids, some_orders, paid_for, failure_message, payment_failure,
}

handle_saga_event-orders_example :
    let t = (handle_saga_event no_faults ids failure_message payment_failure some_orders).1 in
    (find_order first_id t.store ≡ some (updated_by payment_failed payment_failure.reason paid_for))
    × ((j : String) → j ≢ first_id → find_order j t.store ≡ find_order j some_orders.store)
handle_saga_event-orders_example =
    handle_saga_event-orders payment_failed ids failure_message payment_failure some_orders "e1"
      refl refl (λ e. cc) refl refl first_id paid_for refl refl
