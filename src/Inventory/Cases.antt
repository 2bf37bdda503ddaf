-- ===== src/Inventory/Cases.antt =====
-- The tables after each half of the handler, whatever it answers.
use node_with_aoth.Prelude.{
  ◌≡◌, refl, ◌⊎◌, inl, inr, String, true, false, Option, none, some, List, [], ◌∷◌, ◌++◌, arith,
  Bool-cases,
}
use node_with_aoth.Prelude.Int.{ℤ}
use node_with_aoth.Shared.{topics, routing_keys, Number, Payload}
use node_with_aoth.Database.Action.{Error, Result, ok, err}
use node_with_aoth.Database.Columns.{to_integer, to_uuid}
use node_with_aoth.Service.Tables.{Fresh, OutboxRow, new_row, insert_outbox}
use node_with_aoth.Inventory.Tables.{
  Item, held, Reservation, InventoryDb, find_item, find_held, shift_item, unshift_item,
  update_items, update_stock, hold_rows, held_reservation, release_rows, release_reservations,
  hold_reservation,
}
use node_with_aoth.Inventory.Handler.{
  create_event_envelope, rejected_payload, reserved_payload, cannot_reserve, take_stock,
  release_inventory, reserve_inventory,
}

-- The outbox row of a reply.
abbrev pub reply_row : Fresh → String → Payload → OutboxRow
reply_row ids routing_key payload =
    let e = create_event_envelope ids.event_id routing_key payload in
    new_row ids.outbox_id topics.inventory e.routing_key e.payload e.headers

-- A reservation that went through: its parameters, the items after it, and the whole schema.
pub record Taken (ids : Fresh) (p : Payload) (s t : InventoryDb) : Type 0 where
  pub number : Number
  pub quantity : ℤ
  pub items : List Item
  pub order_id : String
  pub sku : String
  pub asked : p.quantity ≡ some number
  pub whole : to_integer number ≡ ok quantity
  pub for_order : p.order_id ≡ some order_id
  pub is_id : to_uuid p.order_id ≡ ok tt
  pub for_sku : p.item_sku ≡ some sku
  pub updated : update_items (shift_item quantity) p.item_sku s.store.items ≡ ok items
  pub result : t ≡ record s {
    store = record {
      items = items;
      reservations =
          hold_rows
            (record { order_id = order_id; sku = sku; quantity = quantity; status = held })
            s.store.reservations;
    };
    outbox = s.outbox ++ reply_row ids routing_keys.inventory_reserved (reserved_payload p) ∷ [];
  }

module _ (ids : Fresh) (p : Payload) (s t : InventoryDb) where
  after_update :
      (m : Number) (z : ℤ) (ys : List Item) (i k : Option String) (u : Result (Unit {0}))
      → p.quantity ≡ some m
      → to_integer m ≡ ok z
      → update_items (shift_item z) p.item_sku s.store.items ≡ ok ys
      → to_uuid p.order_id ≡ u
      → p.order_id ≡ i
      → p.item_sku ≡ k
      → take_stock ids p s ≡ (ok tt, t)
      → Taken ids p s t
  unfolding update_stock hold_reservation insert_outbox
  after_update m z ys i k (err x) en eq ex eu ei ek h = ground arith
  after_update m z ys none k (ok x) en eq ex eu ei ek h = ground arith
  after_update m z ys (some i) none (ok x) en eq ex eu ei ek h = ground arith
  after_update m z ys (some i) (some k) (ok x) en eq ex eu ei ek h = record {
    number = m;
    quantity = z;
    items = ys;
    order_id = i;
    sku = k;
    asked = en;
    whole = eq;
    for_order = ei;
    is_id = eu;
    for_sku = ek;
    updated = ex;
    result = ground arith;
  }

  failed_update :
      (m : Number) (z : ℤ) (x : Error)
      → p.quantity ≡ some m
      → to_integer m ≡ ok z
      → update_items (shift_item z) p.item_sku s.store.items ≡ err x
      → take_stock ids p s ≡ (ok tt, t)
      → ⊥
  unfolding update_stock
  failed_update m z x en em er h = ground arith

  take_stock-Taken :
      (n : Option Number) (q : ℤ → Result (List Item))
      → p.quantity ≡ n
      → ((z : ℤ) → update_items (shift_item z) p.item_sku s.store.items ≡ q z)
      → take_stock ids p s ≡ (ok tt, t)
      → Taken ids p s t
  take_stock-Taken none q en eq h = ground arith
  take_stock-Taken (some m) q en eq h = of_integer (to_integer m) refl
    where
      of_items :
          (z : ℤ) (r : Result (List Item))
          → to_integer m ≡ ok z
          → update_items (shift_item z) p.item_sku s.store.items ≡ r
          → Taken ids p s t
      of_items z (ok ys) em er =
          after_update m z ys p.order_id p.item_sku _ en em er refl refl refl h
      of_items z (err x) em er = absurd (failed_update m z x en em er h)

      of_integer : (r : Result ℤ) → to_integer m ≡ r → Taken ids p s t
      of_integer (ok z) em = of_items z _ em refl
      of_integer (err x) em = ground arith

  -- Both ways in which a reservation request can end well.
  abbrev pub Reserved : Type 0
  Reserved =
      ((cannot_reserve (find_item p.item_sku s.store.items) p.quantity ≡ true)
        × (t ≡ record s {
          outbox =
              s.outbox ++ reply_row ids routing_keys.inventory_rejected (rejected_payload p) ∷ [];
        }))
      ⊎ ((cannot_reserve (find_item p.item_sku s.store.items) p.quantity ≡ false) × Taken ids p s t)

  -- A reservation request that returns has found no item of its SKU or too few available units, and
  -- then a rejection is sent and nothing else changes; or it has found enough, and then the units
  -- are taken, the reservation is held and the confirmation is sent.
  pub reserve_inventory-Reserved : reserve_inventory ids p s ≡ (ok tt, t) → Reserved
  unfolding reserve_inventory insert_outbox
  reserve_inventory-Reserved h =
      elim (Bool-cases (cannot_reserve (find_item p.item_sku s.store.items) p.quantity)) [
        | inl short ↦ inl (short, ground arith)
        | inr enough ↦ inr (enough, take_stock-Taken p.quantity _ refl (λ z. refl) (rw enough at h))
      ]

-- A release that found the order's reservation.
pub record Released (p : Payload) (s t : InventoryDb) : Type 0 where
  pub reservation : Reservation
  pub items : List Item
  pub found : find_held p.order_id s.store.reservations ≡ some reservation
  pub updated :
      update_items (unshift_item reservation.quantity) (some reservation.sku) s.store.items
      ≡ ok items
  pub result : t ≡ record s {
    store = record { items = items; reservations = release_rows p.order_id s.store.reservations };
  }

module _ (p : Payload) (s t : InventoryDb) where
  Released-by :
      (u : Result (Unit {0})) (r : Option Reservation) (xs : Reservation → Result (List Item))
      → to_uuid p.order_id ≡ u
      → find_held p.order_id s.store.reservations ≡ r
      → ((x : Reservation)
          → update_items (unshift_item x.quantity) (some x.sku) s.store.items ≡ xs x)
      → release_inventory p s ≡ (ok tt, t)
      → ((r ≡ none) × (t ≡ s)) ⊎ Released p s t
  unfolding release_inventory held_reservation update_stock release_reservations
  Released-by (err z) r xs eu e ex h = absurd (ground arith)
  Released-by (ok z) none xs eu e ex h = inl (refl, ground arith)
  Released-by (ok z) (some x) xs eu e ex h = inr (of_items (xs x) (ex x))
    where
      of_items :
          (r : Result (List Item))
          → update_items (unshift_item x.quantity) (some x.sku) s.store.items ≡ r
          → Released p s t
      of_items (ok ys) er = record {
        reservation = x;
        items = ys;
        found = e;
        updated = er;
        result = ground arith;
      }
      of_items (err w) er = ground arith

  -- A release that succeeds found no reservation and changed nothing, or undid the one it found.
  pub release_inventory-Released :
      release_inventory p s ≡ (ok tt, t)
      → ((find_held p.order_id s.store.reservations ≡ none) × (t ≡ s)) ⊎ Released p s t
  release_inventory-Released h =
      Released-by (to_uuid p.order_id) (find_held p.order_id s.store.reservations) _ refl refl
        (λ x. refl) h
