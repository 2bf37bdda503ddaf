-- ===== src/Platform/System.antt =====
-- The back end as a whole: the schemas of the three services and the log of Kafka. Requests,
-- deliveries and outbox runs come in any order, and any of them may fail.
use node_with_aoth.Prelude.{◌≡◌, String, true, Option, List, [], ◌∷◌, includes, Memᴰ}
use node_with_aoth.Shared.{topics}
use node_with_aoth.Database.Transaction.{Faults}
use node_with_aoth.Messaging.{Message}
use node_with_aoth.Service.Tables.{Fresh}
use node_with_aoth.Service.Outbox.{RowFault, publish_outbox_batch}
use node_with_aoth.Orders.Tables.{Order, OrdersDb}
use node_with_aoth.Orders.Create.{Runtime, CreateInput, create_if_new}
use node_with_aoth.Orders.Saga.{order_saga_consumer}
use node_with_aoth.Inventory.Tables.{InventoryDb, Item}
use node_with_aoth.Inventory.Handler.{inventory_consumer}
use node_with_aoth.Payments.Handler.{PaymentsDb, payment_consumer}

pub record System : Type 0 where
  pub orders : OrdersDb
  pub inventory : InventoryDb
  pub payments : PaymentsDb
  pub log : List Message

-- What a consumer gets: a message of the log on a topic that it subscribes to. Kafka may deliver it
-- any number of times.
abbrev pub Hears : List String → Message → System → Type 0
Hears subscribed m s = Memᴰ m s.log × (includes m.topic subscribed ≡ true)

-- The topics of `startOrderSagaConsumer`, `startInventoryConsumer` and `startPaymentConsumer`.
abbrev pub order_topics : List String
order_topics = topics.inventory ∷ topics.payment ∷ []

abbrev pub inventory_topics : List String
inventory_topics = topics.inventory ∷ []

abbrev pub payment_topics : List String
payment_topics = topics.payment ∷ []

-- `drawn i` is the request whose call of `createOrder` draws the order id `i` from `randomUUID()`:
-- no two calls draw the same id.
module _ (rt : Runtime) (drawn : String → CreateInput) where
  pub data Step (s t : System) : Type 0 where
    places :
        (f : Faults) (order_id : String) (ids : Fresh) (find : Option Order)
        → t
          ≡ record s { orders = (create_if_new rt f order_id ids (drawn order_id) find s.orders).1 }
        → Step s t
    orders_hears :
        (f : Faults) (ids : Fresh) (m : Message)
        → Hears order_topics m s
        → t ≡ record s { orders = (order_saga_consumer f ids m s.orders).1 }
        → Step s t
    inventory_hears :
        (f : Faults) (ids : Fresh) (m : Message)
        → Hears inventory_topics m s
        → t ≡ record s { inventory = (inventory_consumer f ids m s.inventory).1 }
        → Step s t
    payment_hears :
        (f : Faults) (ids : Fresh) (m : Message)
        → Hears payment_topics m s
        → t ≡ record s { payments = (payment_consumer f ids m s.payments).1 }
        → Step s t
    orders_publishes :
        (faults : List RowFault)
        → t ≡ record s {
          orders = (publish_outbox_batch faults (s.orders, s.log)).1.0;
          log = (publish_outbox_batch faults (s.orders, s.log)).1.1;
        }
        → Step s t
    inventory_publishes :
        (faults : List RowFault)
        → t ≡ record s {
          inventory = (publish_outbox_batch faults (s.inventory, s.log)).1.0;
          log = (publish_outbox_batch faults (s.inventory, s.log)).1.1;
        }
        → Step s t
    payment_publishes :
        (faults : List RowFault)
        → t ≡ record s {
          payments = (publish_outbox_batch faults (s.payments, s.log)).1.0;
          log = (publish_outbox_batch faults (s.payments, s.log)).1.1;
        }
        → Step s t

  pub data Reach (s : System) : System → Type 0 where
    here : Reach s s
    next : {t u : System} → Reach s t → Step t u → Reach s u

-- No order yet, and any stock.
abbrev pub start : List Item → System
start items = record {
  orders = record { store = []; outbox = []; processed = [] };
  inventory = record {
    store = record { items = items; reservations = [] };
    outbox = [];
    processed = [];
  };
  payments = record { store = []; outbox = []; processed = [] };
  log = [];
}
