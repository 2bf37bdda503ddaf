-- ===== src/Tests/Transactions.antt =====
-- Transactions and deliveries that fail.
use node_with_aoth.Prelude.{◌≡◌, refl, true, none, some, List, [], ◌∷◌, ℕ, ◌+◌}
use node_with_aoth.Database.Action.{ok, err, connection_lost, Action}
use node_with_aoth.Database.Transaction.{Faults, no_faults, lost, Client, with_transaction}
use node_with_aoth.Database.Atomicity.{Atomic, with_transaction-Atomic}
use node_with_aoth.Service.Tables.{Fresh}
use node_with_aoth.Service.Consumer.{AtMostOnce}
use node_with_aoth.Orders.Saga.{order_saga_consumer}
use node_with_aoth.Orders.Delivery.{order_saga_consumer-AtMostOnce}
use node_with_aoth.Inventory.Handler.{inventory_consumer}
use node_with_aoth.Inventory.Delivery.{inventory_consumer-AtMostOnce}
use node_with_aoth.Payments.Handler.{payment_consumer}
use node_with_aoth.Payments.Delivery.{payment_consumer-AtMostOnce}
use node_with_aoth.Tests.Samples.{
  ids, later_ids, some_orders, failure_message, shelf, reservation_message, no_payments,
  payment_message,
}

abbrev broken_commit : Faults
broken_commit = record no_faults { commit = lost connection_lost }

-- Counts to the next number.
abbrev count : Action ℕ ℕ
count n = (ok n, n + 1)

-- A client that an earlier call gave back.
abbrev in_pool : Client ℕ
in_pool = record { stored = 3; working = none; released = true }

with_transaction-Atomic_example : Atomic broken_commit count in_pool
with_transaction-Atomic_example = with_transaction-Atomic broken_commit count in_pool refl

-- The effect of a commit whose acknowledgement is lost is there.
lost_commit : with_transaction broken_commit count 3 ≡ (err connection_lost, 4)
unfolding with_transaction
lost_commit = refl

-- A failed attempt, one whose acknowledgement is lost, and a redelivery.
abbrev tries : List (Faults × Fresh)
tries =
    (record no_faults { begin = some connection_lost }, ids)
    ∷ (broken_commit, ids)
    ∷ (no_faults, later_ids)
    ∷ []

order_saga_consumer-AtMostOnce_example :
    AtMostOnce (λ a. order_saga_consumer a.0 a.1 failure_message) tries some_orders
order_saga_consumer-AtMostOnce_example =
    order_saga_consumer-AtMostOnce failure_message tries some_orders

inventory_consumer-AtMostOnce_example :
    AtMostOnce (λ a. inventory_consumer a.0 a.1 reservation_message) tries shelf
inventory_consumer-AtMostOnce_example =
    inventory_consumer-AtMostOnce reservation_message tries shelf

payment_consumer-AtMostOnce_example :
    AtMostOnce (λ a. payment_consumer a.0 a.1 payment_message) tries no_payments
payment_consumer-AtMostOnce_example = payment_consumer-AtMostOnce payment_message tries no_payments
