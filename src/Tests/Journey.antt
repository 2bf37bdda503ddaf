-- ===== src/Tests/Journey.antt =====
-- One order through all services: placed, reserved, paid and confirmed.
use node_with_aoth.Prelude.{
  ◌≡◌, refl, String, true, false, none, some, List, [], ◌∷◌, includes, Memᴰ,
}
use node_with_aoth.Prelude.Int.{pos, ◌+ℤ◌, ◌-ℤ◌}
use node_with_aoth.Shared.{Payload, no_payload, number_le}
use node_with_aoth.Database.Columns.{to_cents, to_integer, to_uuid, is_uuid}
use node_with_aoth.Database.Transaction.{no_faults, with_transaction}
use node_with_aoth.Shared.Objects.{members, read_members}
use node_with_aoth.Messaging.{Message, malformed, json, publish_event, each_message}
use node_with_aoth.Service.Tables.{Fresh, insert_outbox, mark_event_processed}
use node_with_aoth.Service.Once.{mark_then, process_once}
use node_with_aoth.Service.Outbox.{
  row_message, publish_row, publish_rows, get_pending_outbox_batch, publish_outbox_batch,
}
use node_with_aoth.Orders.Tables.{Order, confirmed, find_order, insert_order, update_order}
use node_with_aoth.Orders.Create.{
  CreateInput, create_event_envelope, create_if_new, create_order_with_outbox,
}
use node_with_aoth.Orders.Saga.{
  on_inventory_reserved, on_payment_succeeded, on_inventory_rejected, on_payment_failed,
  handle_saga_event, order_saga_consumer,
}
use node_with_aoth.Inventory.Tables.{Item, update_stock, hold_reservation}
use node_with_aoth.Inventory.Handler.{
  create_event_envelope as inventory_envelope, reserve_inventory, handle_inventory_command,
  inventory_consumer,
}
use node_with_aoth.Payments.Handler.{
  create_event_envelope as payment_envelope, save_attempt, process_payment, handle_payment_command,
  payment_consumer,
}
use node_with_aoth.Platform.System.{
  System, places, orders_hears, inventory_hears, payment_hears, orders_publishes,
  inventory_publishes, payment_publishes, Reach, here, next, start, order_topics,
}
use node_with_aoth.Platform.Safety.{Fulfilled, confirmed-Fulfilled, payment_answer-approved}
use node_with_aoth.Tests.Samples.{first_id, rt, request}

abbrev drawn : String → CreateInput
drawn i = request

abbrev draw : String → Fresh
draw n = record { event_id = n; outbox_id = n }

abbrev shelf : List Item
shelf = record { sku = "book"; available = pos 5; reserved = pos 0 } ∷ []

abbrev s1 : System
s1 = record (start shelf) {
  orders = (create_if_new rt no_faults first_id (draw "1") request none (start shelf).orders).1;
}

abbrev s2 : System
s2 = record s1 {
  orders = (publish_outbox_batch [] (s1.orders, s1.log)).1.0;
  log = (publish_outbox_batch [] (s1.orders, s1.log)).1.1;
}

-- The last message of a log.
abbrev last : Message → List Message → Message
last d [] = d
last d (m ∷ ms) = last m ms

abbrev blank : Message
blank = record { topic = ""; key = ""; value = malformed; headers = [] }

abbrev heard : System → Message
heard s = last blank s.log

abbrev s3 : System
s3 = record s2 { inventory = (inventory_consumer no_faults (draw "2") (heard s2) s2.inventory).1 }

abbrev s4 : System
s4 = record s3 {
  inventory = (publish_outbox_batch [] (s3.inventory, s3.log)).1.0;
  log = (publish_outbox_batch [] (s3.inventory, s3.log)).1.1;
}

abbrev s5 : System
s5 = record s4 { orders = (order_saga_consumer no_faults (draw "3") (heard s4) s4.orders).1 }

abbrev s6 : System
s6 = record s5 {
  orders = (publish_outbox_batch [] (s5.orders, s5.log)).1.0;
  log = (publish_outbox_batch [] (s5.orders, s5.log)).1.1;
}

abbrev s7 : System
s7 = record s6 { payments = (payment_consumer no_faults (draw "4") (heard s6) s6.payments).1 }

abbrev s8 : System
s8 = record s7 {
  payments = (publish_outbox_batch [] (s7.payments, s7.log)).1.0;
  log = (publish_outbox_batch [] (s7.payments, s7.log)).1.1;
}

abbrev s9 : System
s9 = record s8 { orders = (order_saga_consumer no_faults (draw "5") (heard s8) s8.orders).1 }

paid_for : Reach rt drawn (start shelf) s8
unfolding publish_event each_message insert_outbox mark_event_processed mark_then process_once
    row_message publish_row publish_rows get_pending_outbox_batch publish_outbox_batch
    with_transaction to_cents to_integer insert_order create_event_envelope create_if_new
    create_order_with_outbox on_inventory_reserved on_payment_succeeded on_inventory_rejected
    on_payment_failed handle_saga_event order_saga_consumer update_stock hold_reservation to_uuid
    is_uuid members read_members update_order inventory_envelope reserve_inventory
    handle_inventory_command inventory_consumer payment_envelope save_attempt process_payment
    handle_payment_command payment_consumer ◌+ℤ◌ ◌-ℤ◌
paid_for =
    next
      (next
        (next
          (next
            (next
              (next
                (next (next here (places no_faults first_id (draw "1") none refl))
                  (orders_publishes [] refl))
                (inventory_hears no_faults (draw "2") (heard s2) (Memᴰ.head refl, refl) refl))
              (inventory_publishes [] refl))
            (orders_hears no_faults (draw "3") (heard s4) (Memᴰ.tail (Memᴰ.head refl), refl) refl))
          (orders_publishes [] refl))
        (payment_hears no_faults (draw "4") (heard s6)
          (Memᴰ.tail (Memᴰ.tail (Memᴰ.head refl)), refl) refl))
      (payment_publishes [] refl)

abbrev bought : Order
bought = record {
  id = first_id;
  user_id = "ann";
  idempotency_key = some "k1";
  request_hash = some "book";
  status = confirmed;
  total_amount = record { negative = false; hundredths = 1999 };
  currency = "USD";
  item_sku = "book";
  quantity = pos 2;
  failure_reason = none;
}

abbrev payment : Payload
payment = record no_payload {
  event_type = some "PaymentSucceeded";
  event_id = some "4";
  order_id = some first_id;
}

-- What the run shows of its last messages and rows.
run :
    Memᴰ (heard s8) s8.log
    × (includes (heard s8).topic order_topics ≡ true)
    × (find_order first_id s9.orders.store ≡ some bought)
    × ((heard s8).value ≡ json payment)
unfolding publish_event each_message insert_outbox mark_event_processed mark_then process_once
    row_message publish_row publish_rows get_pending_outbox_batch publish_outbox_batch
    with_transaction to_cents to_integer insert_order create_event_envelope create_if_new
    create_order_with_outbox on_inventory_reserved on_payment_succeeded on_inventory_rejected
    on_payment_failed handle_saga_event order_saga_consumer update_stock hold_reservation to_uuid
    is_uuid members read_members update_order inventory_envelope reserve_inventory
    handle_inventory_command inventory_consumer payment_envelope save_attempt process_payment
    handle_payment_command payment_consumer ◌+ℤ◌ ◌-ℤ◌
run = (Memᴰ.tail (Memᴰ.tail (Memᴰ.tail (Memᴰ.head refl))), refl, refl, refl)

journey : Reach rt drawn (start shelf) s9
journey = next paid_for (orders_hears no_faults (draw "5") (heard s8) (run.0, run.1) refl)

confirmed-Fulfilled_example : Fulfilled s9 bought
confirmed-Fulfilled_example = confirmed-Fulfilled rt drawn journey first_id bought run.2 refl

payment_answer-approved_example : number_le request.body.total_amount 10000 ≡ true
payment_answer-approved_example =
    payment_answer-approved rt drawn paid_for (heard s8) payment first_id true run.0 run.3 refl refl
