-- ===== src/Tests/Creation.antt =====
-- Requests for new orders.
use node_with_aoth.Prelude.{◌≡◌, ◌⊎◌, refl, false, none, some, arith, ==_iff}
use node_with_aoth.Prelude.Int.{pos}
use node_with_aoth.Shared.{of_nat}
use node_with_aoth.Shared.Schema.{RawBody, text, number, parse_order_create}
use node_with_aoth.Database.Action.{ok, connection_lost}
use node_with_aoth.Database.Columns.{Cents, to_cents, to_integer}
use node_with_aoth.Database.Transaction.{Faults, no_faults, lost, with_transaction}
use node_with_aoth.Service.Tables.{insert_outbox}
use node_with_aoth.Orders.Tables.{OrdersDb, Status, pending_inventory, insert_order}
use node_with_aoth.Orders.Create.{
  create_event_envelope, create_order, create_if_new, create_order_with_outbox, created, replayed,
  conflict,
}
use node_with_aoth.Orders.Saga.{order_saga_consumer}
use node_with_aoth.Orders.Outbox.{CreatedIn, create_order-CreatedIn}
use node_with_aoth.Orders.Steps.{Reach, inserts, delivers, here, next}
use node_with_aoth.Orders.Unique.{Unique, Reach-Unique}
use node_with_aoth.Orders.Idempotency.{create_order-retry, create_order-reused_key}
use node_with_aoth.Orders.Success.{with_order, create_order-created}
use node_with_aoth.Orders.Controller.{
  OrderRequest, one, order, replayed_order, create_if_complete, create_order_controller,
}
use node_with_aoth.Orders.Retry.{create_order_controller-retry}
use node_with_aoth.Tests.Samples.{
  first_id, third_id, rt, ids, later_ids, price, book, request, other_request, no_orders,
  failure_message,
}

abbrev lost_commit : Faults
lost_commit = record no_faults { commit = lost connection_lost }

abbrev price_cents : Cents
price_cents = record { negative = false; hundredths = 1999 }

price_fits : to_cents price ≡ ok price_cents
unfolding to_cents
price_fits = refl

two_fit : to_integer (of_nat 2) ≡ ok (pos 2)
unfolding to_integer
two_fit = refl

-- The schema after the first request.
abbrev first : OrdersDb
first = with_order rt first_id ids request no_orders price_cents (pos 2)

create_order-created_example :
    create_order rt no_faults first_id ids request no_orders ≡ (ok (created first_id), first)
create_order-created_example =
    create_order-created rt first_id ids request no_orders price_cents (pos 2) refl price_fits
      two_fit refl refl

first_created :
    create_order rt no_faults first_id ids request no_orders ≡ (ok (created first_id), first)
unfolding create_order create_if_new create_order_with_outbox insert_order insert_outbox
    with_transaction create_event_envelope
first_created = rw (price_fits, two_fit) refl

create_order-CreatedIn_example :
    let t = (create_order rt lost_commit first_id ids request no_orders).1 in
    (t ≡ no_orders) ⊎ CreatedIn rt first_id ids request no_orders t
create_order-CreatedIn_example =
    create_order-CreatedIn rt first_id ids request lost_commit no_orders

-- The schema after a delivery, too.
abbrev second : OrdersDb
second = (order_saga_consumer no_faults ids failure_message first).1

delivered : Reach rt first second
delivered = next here (delivers no_faults ids failure_message refl)

create_order-retry_example :
    (st : Status) × (create_order rt no_faults third_id later_ids request second
      ≡ (ok (replayed first_id st), second))
create_order-retry_example =
    create_order-retry rt no_faults no_faults first_id third_id ids later_ids request request
      no_orders first second first_id first_created delivered refl refl refl

create_order-reused_key_example :
    create_order rt no_faults third_id later_ids other_request second ≡ (ok conflict, second)
create_order-reused_key_example =
    create_order-reused_key rt no_faults no_faults first_id third_id ids later_ids request
      other_request no_orders first second first_id first_created delivered refl refl
      (λ e. ground (arith, ==_iff "lamp" "book")) (λ e. cc)

-- A concurrent request that read before the first was written is refused by the unique index.
Reach-Unique_example :
    Unique (create_if_new rt no_faults third_id later_ids request none first).1.store
Reach-Unique_example =
    Reach-Unique rt (next here (inserts no_faults third_id later_ids request none refl)) (refl, tt)

abbrev raw_book : RawBody
raw_book = record {
  item_sku = some (text "book");
  quantity = some (number (of_nat 2));
  total_amount = some (number price);
  currency = some (text "usd");
}

abbrev post : OrderRequest
post = record { body = raw_book; user_sub = one "ann"; idempotency_key = one "k1"; id = "c1" }

book_parses : parse_order_create raw_book ≡ some book
unfolding parse_order_create
book_parses = refl

post_accepted :
    create_order_controller rt no_faults first_id ids post no_orders
    ≡ (ok (record { code = 202; body = order first_id pending_inventory }), first)
unfolding create_order_controller create_if_complete
post_accepted = rw (book_parses, first_created) refl

create_order_controller-retry_example :
    (st : Status) × (create_order_controller rt no_faults third_id later_ids post second
      ≡ (ok (record { code = 200; body = replayed_order first_id st }), second))
create_order_controller-retry_example =
    create_order_controller-retry rt no_faults no_faults first_id third_id ids later_ids post post
      no_orders first second first_id post_accepted delivered refl refl refl
