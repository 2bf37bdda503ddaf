-- ===== src/Orders/Success.antt =====
-- When a request for a new order is answered "created".
use node_with_aoth.Prelude.{
  ◌≡◌, ◌==◌, refl, ap, ◌∙◌, String, false, none, some, List, [], ◌∷◌, ◌++◌, arith, if◌then◌else◌,
}
use node_with_aoth.Prelude.Int.{ℤ}
use node_with_aoth.Shared.{topics, no_payload}
use node_with_aoth.Database.Action.{ok, follow, pure}
use node_with_aoth.Database.Columns.{Cents, to_cents, to_integer}
use node_with_aoth.Database.Transaction.{no_faults}
use node_with_aoth.Database.Atomicity.{settle, with_transaction-no_faults}
use node_with_aoth.Service.Tables.{Fresh, OutboxRow, has_row, insert_outbox}
use node_with_aoth.Orders.Tables.{
  pending_inventory, Order, OrdersDb, order_row, conflicts, insert_order, find_key, find_order,
  find_order_by_idempotency,
}
use node_with_aoth.Orders.Create.{
  Runtime, CreateInput, created, create_event_envelope, create_order_with_outbox, new_order,
  create_if_new, create_order,
}
use node_with_aoth.Orders.Outbox.{both, reserve_event, reserve_row}

-- The row of a new order, as its request describes it.
abbrev pub placed : Runtime → String → CreateInput → Cents → ℤ → Order
placed rt order_id input c q = record {
  id = order_id;
  user_id = input.user_sub;
  idempotency_key = some input.idempotency_key;
  request_hash =
      some (
        rt.sha256
          (rt.stringify (record input.body { currency = rt.to_upper input.body.currency })));
  status = pending_inventory;
  total_amount = c;
  currency = rt.to_upper input.body.currency;
  item_sku = input.body.item_sku;
  quantity = q;
  failure_reason = none;
}

-- The row of the outbox that asks for the order's reservation.
abbrev pub asked : Runtime → String → Fresh → CreateInput → OutboxRow
asked rt order_id ids input = record {
  id = ids.outbox_id;
  topic = "inventory.events";
  routing_key = "inventory.reserve.requested";
  payload = record no_payload {
    event_type = some "ReserveInventoryRequested";
    event_id = some ids.event_id;
    order_id = some order_id;
    user_id = some input.user_sub;
    item_sku = some input.body.item_sku;
    quantity = some input.body.quantity;
    total_amount = some input.body.total_amount;
    currency = some (rt.to_upper input.body.currency);
  };
  headers =
      ("eventId", ids.event_id)
      ∷ (if input.correlation_id == "" then [] else ("correlationId", input.correlation_id) ∷ []);
  published = false;
}

reserve_row-is_asked :
    (rt : Runtime) (order_id : String) (ids : Fresh) (input : CreateInput)
    → reserve_row rt order_id ids input ≡ asked rt order_id ids input
unfolding create_event_envelope
reserve_row-is_asked rt order_id ids input = ground arith

-- An order under an unused id and an unused key conflicts with none.
unused-apart :
    (o : Order) (key : String) (os : List Order)
    → o.idempotency_key ≡ some key
    → find_key o.user_id key os ≡ none
    → find_order o.id os ≡ none
    → conflicts o os ≡ false
unused-apart o key [] k e n = refl
unused-apart o key (x ∷ os) k e n = ground (arith, unused-apart o key os k)

module _ (rt : Runtime) (order_id : String) (ids : Fresh) (input : CreateInput) (s : OrdersDb)
    (c : Cents) (q : ℤ) where
  -- The schema with the order and its reservation request.
  abbrev pub with_order : OrdersDb
  with_order = record s {
    store = s.store ++ placed rt order_id input c q ∷ [];
    outbox = s.outbox ++ asked rt order_id ids input ∷ [];
  }

  module _ (new : find_order_by_idempotency input.user_sub input.idempotency_key s ≡ none)
      (amount_fits : to_cents input.body.total_amount ≡ ok c)
      (quantity_fits : to_integer input.body.quantity ≡ ok q)
      (unused : find_order order_id s.store ≡ none)
      (fresh : has_row ids.outbox_id s.outbox ≡ false) where
    apart : conflicts (order_row (new_order rt order_id input) c q) s.store ≡ false
    apart =
        unused-apart (order_row (new_order rt order_id input) c q) input.idempotency_key s.store
          refl new unused

    both_run :
        both
          (new_order rt order_id input)
          ids.outbox_id
          topics.inventory
          (reserve_event rt order_id ids input)
          s
        ≡ (ok tt, with_order)
    unfolding insert_order insert_outbox
    both_run = rw (← reserve_row-is_asked rt order_id ids input) (ground (arith, apart))

    -- A request with a key that its user has not used, with an amount and a quantity that their
    -- columns take, under ids that are new, and with no failure, is answered "created" under the
    -- order's id. The order is stored as PENDING_INVENTORY with the user, the key, the hash of the
    -- body, the SKU, the amount, the quantity and the upper-case currency of the request; and the
    -- outbox has one more row, which asks inventory-service for the reservation of just that.
    pub create_order-created :
        create_order rt no_faults order_id ids input s ≡ (ok (created order_id), with_order)
    unfolding create_order create_if_new create_order_with_outbox
    create_order-created = rw new (
        ap (follow (λ _. pure (created order_id))) (
          with_transaction-no_faults
            (both (new_order rt order_id input) ids.outbox_id topics.inventory
              (reserve_event rt order_id ids input))
            s
          ∙ ap (settle s) both_run))
