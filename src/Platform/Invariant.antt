-- ===== src/Platform/Invariant.antt =====
-- What holds of the back end after every step: all rows record the request of their order, and all
-- messages are true.
use node_with_aoth.Prelude.{◌≡◌, sym, subst, String, List, [], ◌∷◌, All, Memᴰ}
use node_with_aoth.Messaging.{Message}
use node_with_aoth.Service.Tables.{Db}
use node_with_aoth.Service.Outbox.{RowFault, publish_outbox_batch}
use node_with_aoth.Service.Publishing.{store-publish_outbox_batch}
use node_with_aoth.Service.Forwarding.{AllRows, Both, publish_outbox_batch-Both}
use node_with_aoth.Orders.Create.{Runtime, CreateInput}
use node_with_aoth.Inventory.Tables.{Item, InventoryDb}
use node_with_aoth.Payments.Handler.{PaymentsDb}
use node_with_aoth.Platform.System.{
  System, Step, places, orders_hears, inventory_hears, payment_hears, orders_publishes,
  inventory_publishes, payment_publishes, Reach, here, next, start,
}
use node_with_aoth.Platform.Said.{Said}
use node_with_aoth.Platform.Records.{
  OrderOk, ReservationOk, AttemptOk, Grows-refl, AllRows-grows, Log-grows, Orders-grow,
}
use node_with_aoth.Platform.Ordering.{create_if_new-Orderly, order_saga_consumer-Orderly}
use node_with_aoth.Platform.Stocking.{inventory_consumer-Stocked}
use node_with_aoth.Platform.Paying.{payment_consumer-Settling}

pub All-member {ℓ κ} :
    {A : Type ℓ} (P : A → Type κ) (x : A) (xs : List A) → Memᴰ x xs → All P xs → P x
All-member P x [] m h = elim m [ ]
All-member P x (y ∷ xs) (Memᴰ.head e) h = subst P (sym e) h.0
All-member P x (y ∷ xs) (Memᴰ.tail m) h = All-member P x xs m h.1

module _ (rt : Runtime) (drawn : String → CreateInput) where
  abbrev pub Tells : System → Message → Type 0
  Tells s = Said rt drawn s.inventory.store.reservations s.payments.store

  pub record Inv (s : System) : Type 0 where
    pub orders :
        All (OrderOk rt drawn s.inventory.store.reservations s.payments.store) s.orders.store
    pub reservations : All (ReservationOk rt drawn) s.inventory.store.reservations
    pub attempts : All (AttemptOk rt drawn) s.payments.store
    pub orders_say : AllRows (Tells s) s.orders.outbox
    pub inventory_says : AllRows (Tells s) s.inventory.outbox
    pub payments_say : AllRows (Tells s) s.payments.outbox
    pub log_says : All (Tells s) s.log

  start-Inv : (items : List Item) → Inv (start items)
  start-Inv items = record {
    orders = tt;
    reservations = tt;
    attempts = tt;
    orders_say = tt;
    inventory_says = tt;
    payments_say = tt;
    log_says = tt;
  }

  -- A run of a publisher: what it sends is true, since its outbox is.
  published :
      {S : Type 0} (Q : Message → Type 0) (faults : List RowFault) (db : Db S) (log : List Message)
      → AllRows Q db.outbox
      → All Q log
      → Both Q (publish_outbox_batch faults (db, log)).1
  published Q faults db log rows said = publish_outbox_batch-Both Q faults (db, log) (rows, said)

  -- The schema of one service with the same tables, and an outbox and a log that are true.
  restocked :
      (s : System) (db : InventoryDb) (log : List Message)
      → db.store ≡ s.inventory.store
      → AllRows (Tells s) db.outbox
      → All (Tells s) log
      → Inv s
      → Inv (record s { inventory = db; log = log })
  restocked s db log same rows said v =
      subst (λ st. Inv (record s { inventory = record db { store = st }; log = log })) (sym same)
        (record {
          orders = v.orders;
          reservations = v.reservations;
          attempts = v.attempts;
          orders_say = v.orders_say;
          inventory_says = rows;
          payments_say = v.payments_say;
          log_says = said;
        })

  repaid :
      (s : System) (db : PaymentsDb) (log : List Message)
      → db.store ≡ s.payments.store
      → AllRows (Tells s) db.outbox
      → All (Tells s) log
      → Inv s
      → Inv (record s { payments = db; log = log })
  repaid s db log same rows said v =
      subst (λ us. Inv (record s { payments = record db { store = us }; log = log })) (sym same)
        (record {
          orders = v.orders;
          reservations = v.reservations;
          attempts = v.attempts;
          orders_say = v.orders_say;
          inventory_says = v.inventory_says;
          payments_say = rows;
          log_says = said;
        })

  Step-Inv : {s t : System} → Step rt drawn s t → Inv s → Inv t
  Step-Inv {s} (places f i ids find e) v =
      let (os, say) =
        create_if_new-Orderly rt drawn s.inventory.store.reservations s.payments.store f i ids find
          s.orders (v.orders, v.orders_say) in
      rw e (record {
        orders = os;
        reservations = v.reservations;
        attempts = v.attempts;
        orders_say = say;
        inventory_says = v.inventory_says;
        payments_say = v.payments_say;
        log_says = v.log_says;
      })
  Step-Inv {s} (orders_hears f ids m hears e) v =
      let rs = s.inventory.store.reservations in
      let us = s.payments.store in
      let (os, say) =
        (order_saga_consumer-Orderly rt drawn rs us f ids m
            (All-member (Tells s) m s.log hears.0 v.log_says)).at
          s.orders (v.orders, v.orders_say) in
      rw e (record {
        orders = os;
        reservations = v.reservations;
        attempts = v.attempts;
        orders_say = say;
        inventory_says = v.inventory_says;
        payments_say = v.payments_say;
        log_says = v.log_says;
      })
  Step-Inv {s} (inventory_hears f ids m hears e) v =
      let rs = s.inventory.store.reservations in
      let us = s.payments.store in
      let w =
        (inventory_consumer-Stocked rt drawn rs us f ids m
            (All-member (Tells s) m s.log hears.0 v.log_says)).at
          s.inventory
          (record { rows = v.reservations; said = v.inventory_says; grown = Grows-refl rs us }) in
      rw e (record {
        orders = Orders-grow rt drawn w.grown s.orders.store v.orders;
        reservations = w.rows;
        attempts = v.attempts;
        orders_say = AllRows-grows rt drawn w.grown s.orders.outbox v.orders_say;
        inventory_says = w.said;
        payments_say = AllRows-grows rt drawn w.grown s.payments.outbox v.payments_say;
        log_says = Log-grows rt drawn w.grown s.log v.log_says;
      })
  Step-Inv {s} (payment_hears f ids m hears e) v =
      let rs = s.inventory.store.reservations in
      let us = s.payments.store in
      let w =
        (payment_consumer-Settling rt drawn rs us f ids m
            (All-member (Tells s) m s.log hears.0 v.log_says)).at
          s.payments
          (record { rows = v.attempts; said = v.payments_say; grown = Grows-refl rs us }) in
      rw e (record {
        orders = Orders-grow rt drawn w.grown s.orders.store v.orders;
        reservations = v.reservations;
        attempts = w.rows;
        orders_say = AllRows-grows rt drawn w.grown s.orders.outbox v.orders_say;
        inventory_says = AllRows-grows rt drawn w.grown s.inventory.outbox v.inventory_says;
        payments_say = w.said;
        log_says = Log-grows rt drawn w.grown s.log v.log_says;
      })
  Step-Inv {s} (orders_publishes faults e) v =
      let same = store-publish_outbox_batch faults (s.orders, s.log) in
      let (rows, log) = published (Tells s) faults s.orders s.log v.orders_say v.log_says in
      rw e (record {
        orders =
            subst (All (OrderOk rt drawn s.inventory.store.reservations s.payments.store))
              (sym same) v.orders;
        reservations = v.reservations;
        attempts = v.attempts;
        orders_say = rows;
        inventory_says = v.inventory_says;
        payments_say = v.payments_say;
        log_says = log;
      })
  Step-Inv {s} (inventory_publishes faults e) v =
      let (rows, log) = published (Tells s) faults s.inventory s.log v.inventory_says v.log_says in
      rw e (restocked s _ _ (store-publish_outbox_batch faults (s.inventory, s.log)) rows log v)
  Step-Inv {s} (payment_publishes faults e) v =
      let (rows, log) = published (Tells s) faults s.payments s.log v.payments_say v.log_says in
      rw e (repaid s _ _ (store-publish_outbox_batch faults (s.payments, s.log)) rows log v)

  pub Reach-Inv : {items : List Item} {s : System} → Reach rt drawn (start items) s → Inv s
  Reach-Inv {items} here = start-Inv items
  Reach-Inv (next r step) = Step-Inv step (Reach-Inv r)
