-- ===== src/Orders/Steps.antt =====
-- The ways in which the schema of order-service changes: a request for a new order, a delivery of
-- a message, a run of the outbox publisher, each with whatever fails in it.
use node_with_aoth.Prelude.{◌≡◌, String, List, Option}
use node_with_aoth.Database.Transaction.{Faults}
use node_with_aoth.Messaging.{Message}
use node_with_aoth.Service.Tables.{Fresh}
use node_with_aoth.Service.Outbox.{RowFault, publish_outbox_batch}
use node_with_aoth.Orders.Tables.{Order, OrdersDb}
use node_with_aoth.Orders.Create.{Runtime, CreateInput, create_if_new}
use node_with_aoth.Orders.Saga.{order_saga_consumer}

module _ (rt : Runtime) where
  -- A request's read and its insertion are separate statements, between which other requests may
  -- write: `inserts` is an insertion on the strength of any earlier read, `find`.
  pub data Step (s t : OrdersDb) : Type 0 where
    inserts :
        (f : Faults) (order_id : String) (ids : Fresh) (input : CreateInput) (find : Option Order)
        → t ≡ (create_if_new rt f order_id ids input find s).1
        → Step s t
    delivers :
        (f : Faults) (ids : Fresh) (m : Message) → t ≡ (order_saga_consumer f ids m s).1 → Step s t
    publishes :
        (faults : List RowFault) (log : List Message)
        → t ≡ (publish_outbox_batch faults (s, log)).1.0
        → Step s t

  pub data Reach (s : OrdersDb) : OrdersDb → Type 0 where
    here : Reach s s
    next : {t u : OrdersDb} → Reach s t → Step t u → Reach s u
