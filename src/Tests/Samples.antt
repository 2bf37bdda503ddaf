-- ===== src/Tests/Samples.antt =====
-- Sample requests, messages and tables.
use node_with_aoth.Prelude.{String, false, none, some, [], ◌∷◌, ◌==◌, if◌then◌else◌}
use node_with_aoth.Prelude.Int.{pos}
use node_with_aoth.Shared.{Number, of_nat, Payload, no_payload}
use node_with_aoth.Shared.Schema.{OrderBody}
use node_with_aoth.Messaging.{Message, json}
use node_with_aoth.Service.Tables.{Fresh}
use node_with_aoth.Orders.Tables.{Order, OrdersDb, pending_inventory, pending_payment}
use node_with_aoth.Orders.Create.{Runtime, CreateInput}
use node_with_aoth.Inventory.Tables.{InventoryDb, held}
use node_with_aoth.Payments.Handler.{PaymentsDb}

-- Stand-ins for the functions of the JavaScript runtime.
abbrev pub rt : Runtime
rt = record {
  to_upper = λ s. if s == "usd" then "USD" else s;
  stringify = λ b. b.item_sku;
  sha256 = λ s. s;
}

abbrev pub first_id : String
first_id = "6f1ed002-ab5a-4f3e-9d0c-0a1b2c3d4e5f"

abbrev pub second_id : String
second_id = "0b9c8d7e-6f5a-4b3c-8d2e-1f0a9b8c7d6e"

abbrev pub third_id : String
third_id = "c0ffee00-1234-4abc-8def-5a6b7c8d9e0f"

abbrev pub ids : Fresh
ids = record { event_id = "e9"; outbox_id = "x9" }

abbrev pub later_ids : Fresh
later_ids = record { event_id = "e10"; outbox_id = "x10" }

-- 19.99
abbrev pub price : Number
price = record { negative = false; digits = 1999; places = 2 }

abbrev pub book : OrderBody
book = record { item_sku = "book"; quantity = of_nat 2; total_amount = price; currency = "usd" }

abbrev pub lamp : OrderBody
lamp = record { item_sku = "lamp"; quantity = of_nat 1; total_amount = price; currency = "usd" }

abbrev pub request : CreateInput
request = record { body = book; user_sub = "ann"; idempotency_key = "k1"; correlation_id = "c1" }

abbrev pub other_request : CreateInput
other_request = record {
  body = lamp;
  user_sub = "ann";
  idempotency_key = "k1";
  correlation_id = "c2";
}

abbrev pub no_orders : OrdersDb
no_orders = record { store = []; outbox = []; processed = [] }

abbrev pub paid_for : Order
paid_for = record {
  id = first_id;
  user_id = "ann";
  idempotency_key = some "k1";
  request_hash = some "book";
  status = pending_payment;
  total_amount = record { negative = false; hundredths = 1999 };
  currency = "USD";
  item_sku = "book";
  quantity = pos 2;
  failure_reason = none;
}

abbrev pub waiting : Order
waiting = record paid_for {
  id = second_id;
  idempotency_key = some "k2";
  status = pending_inventory;
}

abbrev pub some_orders : OrdersDb
some_orders = record { store = waiting ∷ paid_for ∷ []; outbox = []; processed = [] }

abbrev pub message_of : String → String → String → Payload → Message
message_of topic event_id routing_key p = record {
  topic = topic;
  key = first_id;
  value = json p;
  headers = ("routingKey", routing_key) ∷ ("eventId", event_id) ∷ ("correlationId", "c1") ∷ [];
}

abbrev pub payment_failure : Payload
payment_failure = record no_payload {
  event_type = some "PaymentFailed";
  order_id = some first_id;
  reason = some "Payment authorization failed";
}

abbrev pub failure_message : Message
failure_message = message_of "payment.events" "e1" "payment.failed" payment_failure

abbrev pub reservation_request : Payload
reservation_request = record no_payload {
  event_type = some "ReserveInventoryRequested";
  order_id = some first_id;
  item_sku = some "book";
  quantity = some (of_nat 2);
  total_amount = some price;
  currency = some "USD";
}

abbrev pub reservation_message : Message
reservation_message =
    message_of "inventory.events" "e2" "inventory.reserve.requested" reservation_request

abbrev pub release_request : Payload
release_request = record no_payload {
  event_type = some "ReleaseInventory";
  order_id = some first_id;
}

abbrev pub shelf : InventoryDb
shelf = record {
  store = record {
    items =
        record { sku = "lamp"; available = pos 1; reserved = pos 0 }
        ∷ record { sku = "book"; available = pos 5; reserved = pos 1 }
        ∷ [];
    reservations =
        record { order_id = third_id; sku = "book"; quantity = pos 1; status = held } ∷ [];
  };
  outbox = [];
  processed = [];
}

abbrev pub payment_request : Payload
payment_request = record no_payload {
  event_type = some "ProcessPayment";
  order_id = some first_id;
  amount = some price;
  currency = some "USD";
}

abbrev pub payment_message : Message
payment_message = message_of "payment.events" "e3" "payment.process.requested" payment_request

abbrev pub no_payments : PaymentsDb
no_payments = record { store = []; outbox = []; processed = [] }
