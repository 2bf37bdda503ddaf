-- ===== src/Inventory/Sound.antt =====
-- Stock is never oversold: what is available stays at 0 or more.
use node_with_aoth.Prelude.{◌≡◌, refl, subst, inl, inr, false, Option, none, some, All}
use node_with_aoth.Prelude.Int.{ℤ, pos, ◌+ℤ◌, ◌-ℤ◌, ◌≤ℤ◌, int_laws}
use node_with_aoth.Shared.{Number, Payload}
use node_with_aoth.Database.Action.{ok}
use node_with_aoth.Database.Columns.{to_integer}
use node_with_aoth.Database.Transaction.{Faults}
use node_with_aoth.Messaging.{Message, parse_value}
use node_with_aoth.Service.Tables.{Fresh}
use node_with_aoth.Inventory.Tables.{Item, Stock, InventoryDb, find_item, shift_item, unshift_item}
use node_with_aoth.Inventory.Handler.{
  cannot_reserve, release_inventory, reserve_inventory, inventory_consumer,
}
use node_with_aoth.Inventory.Items.{shifted_exact}
use node_with_aoth.Inventory.Quantities.{covered}
use node_with_aoth.Inventory.Rows.{
  Distinct, Distinct-update, All-update, All-map, found_only, All-hold, All-release, find_held-All,
}
use node_with_aoth.Inventory.Cases.{Taken, reserve_inventory-Reserved, release_inventory-Released}
use node_with_aoth.Inventory.Conservation.{inventory_consumer-Keeps}

-- No item has less than nothing on the shelf, and no reservation holds less than nothing.
pub record IsSound (st : Stock) : Type 0 where
  pub keyed : Distinct st.items
  pub available : All (λ x. pos 0 ≤ℤ x.available) st.items
  pub quantities : All (λ r. pos 0 ≤ℤ r.quantity) st.reservations

-- A quantity that is there is not negative.
abbrev pub IsNonneg : Option Number → Type 0
IsNonneg none = Unit
IsNonneg (some n) = n.negative ≡ false

pub shift_sku : (q : ℤ) (x y : Item) → shift_item q x ≡ ok y → y.sku ≡ x.sku
shift_sku q x y e = (shifted_exact x y (x.available -ℤ q) (x.reserved +ℤ q) e).0

unshift_sku : (q : ℤ) (x y : Item) → unshift_item q x ≡ ok y → y.sku ≡ x.sku
unshift_sku q x y e = (shifted_exact x y (x.available +ℤ q) (x.reserved -ℤ q) e).0

shift_nonneg :
    (q : ℤ) (x y : Item) → shift_item q x ≡ ok y → q ≤ℤ x.available → pos 0 ≤ℤ y.available
shift_nonneg q x y e h =
    rw (shifted_exact x y (x.available -ℤ q) (x.reserved +ℤ q) e).1 (omega int_laws)

unshift_nonneg :
    (q : ℤ) (x y : Item)
    → unshift_item q x ≡ ok y
    → pos 0 ≤ℤ q
    → pos 0 ≤ℤ x.available
    → pos 0 ≤ℤ y.available
unshift_nonneg q x y e hq h =
    rw (shifted_exact x y (x.available +ℤ q) (x.reserved -ℤ q) e).1 (omega int_laws)

-- A reservation that was not turned down is covered by the item's stock.
found_covered :
    (n : Number) (q : ℤ) (found : Option Item)
    → n.negative ≡ false
    → to_integer n ≡ ok q
    → cannot_reserve found (some n) ≡ false
    → (x : Item) × (found ≡ some x) × (q ≤ℤ x.available) × (pos 0 ≤ℤ q)
found_covered n q none sign e h = absurd (cc)
found_covered n q (some x) sign e h =
    let (le, nonneg) = covered n q x.available sign e h in (x, refl, le, nonneg)

taken-IsSound :
    (ids : Fresh) (p : Payload) (s t : InventoryDb)
    → IsNonneg p.quantity
    → IsSound s.store
    → cannot_reserve (find_item p.item_sku s.store.items) p.quantity ≡ false
    → Taken ids p s t
    → IsSound t.store
taken-IsSound ids p s t nonneg v enough k =
    let q : ℤ = k.quantity in
    let (x, found, le, pos_q) =
      found_covered k.number q (find_item p.item_sku s.store.items) (subst IsNonneg k.asked nonneg)
        k.whole (rw k.asked at enough) in
    let only = found_only (λ y. q ≤ℤ y.available) p.item_sku s.store.items x found v.keyed le in
    rw k.result (record {
      keyed =
          Distinct-update (shift_item q) p.item_sku (shift_sku q) s.store.items k.items k.updated
            v.keyed;
      available =
          All-update (shift_item q) p.item_sku (shift_sku q) (λ y. pos 0 ≤ℤ y.available)
            s.store.items k.items k.updated v.available
            (All-map _ _ s.store.items (λ y h reached z e. shift_nonneg q y z e (h reached)) only);
      quantities =
          All-hold (λ r. pos 0 ≤ℤ r.quantity) _ s.store.reservations (λ r h. h) pos_q v.quantities;
    })

reserve-IsSound :
    (ids : Fresh) (p : Payload) (s t : InventoryDb)
    → IsNonneg p.quantity
    → IsSound s.store
    → reserve_inventory ids p s ≡ (ok tt, t)
    → IsSound t.store
reserve-IsSound ids p s t nonneg v e = elim (reserve_inventory-Reserved ids p s t e) [
  | inl (short, same) ↦ rw same v
  | inr (enough, taken) ↦ taken-IsSound ids p s t nonneg v enough taken
]

release-IsSound :
    (p : Payload) (s t : InventoryDb)
    → IsSound s.store
    → release_inventory p s ≡ (ok tt, t)
    → IsSound t.store
release-IsSound p s t v e = elim (release_inventory-Released p s t e) [
  | inl (missing, same) ↦ rw same v
  | inr r ↦
      let q : ℤ = r.reservation.quantity in
      let pos_q =
        find_held-All (λ x. pos 0 ≤ℤ x.quantity) p.order_id s.store.reservations r.reservation
          r.found v.quantities in
      rw r.result (record {
        keyed =
            Distinct-update (unshift_item q) (some r.reservation.sku) (unshift_sku q) s.store.items
              r.items r.updated v.keyed;
        available =
            All-update (unshift_item q) (some r.reservation.sku) (unshift_sku q)
              (λ y. pos 0 ≤ℤ y.available) s.store.items r.items r.updated v.available
              (All-map _ _ s.store.items (λ y h reached z e. unshift_nonneg q y z e pos_q h)
                v.available);
        quantities = All-release p.order_id s.store.reservations v.quantities;
      })
]

-- A delivery of a message whose quantity is not negative (every order's is positive) leaves no
-- SKU with a negative number of available units, no reservation with a negative quantity and no
-- SKU twice, if all that held before; whatever else the message is, and whatever fails.
pub inventory_consumer-IsSound :
    (f : Faults) (ids : Fresh) (m : Message) (s : InventoryDb)
    → ((p : Payload) → parse_value m.value ≡ ok p → IsNonneg p.quantity)
    → IsSound s.store
    → IsSound (inventory_consumer f ids m s).1.store
inventory_consumer-IsSound f ids m s nonneg v =
    (inventory_consumer-Keeps IsSound m
        (λ n p u t e h run. reserve-IsSound n p u t (nonneg p e) h run) release-IsSound f ids).at
      s v
