-- ===== src/Inventory/Compensation.antt =====
-- The compensation of the saga: a release undoes a reservation exactly.
use node_with_aoth.Prelude.{
  ◌≡◌, refl, sym, subst, ◌≢◌, inl, inr, String, Bool, true, false, Option, none, some, List, [],
  ◌∷◌, arith, All, ==_iff, ==_refl, if◌then◌else◌,
}
use node_with_aoth.Prelude.Int.{ℤ, ◌+ℤ◌, ◌-ℤ◌, int_laws}
use node_with_aoth.Shared.{Payload, is_text}
use node_with_aoth.Database.Action.{ok}
use node_with_aoth.Database.Columns.{int4, to_uuid}
use node_with_aoth.Service.Tables.{Fresh}
use node_with_aoth.Inventory.Tables.{
  Item, Reservation, held, InventoryDb, find_item, find_held, shift_item, unshift_item, cons_result,
  update_items, update_stock, hold_rows, held_reservation, release_rows, release_reservations,
}
use node_with_aoth.Inventory.Handler.{cannot_reserve, release_inventory, reserve_inventory}
use node_with_aoth.Inventory.Items.{shifted_exact}
use node_with_aoth.Inventory.Rows.{updated_head, head_sku}
use node_with_aoth.Inventory.Cases.{Taken, reserve_inventory-Reserved}
use node_with_aoth.Inventory.Sound.{shift_sku}

-- Both columns of an item hold INTEGER values.
abbrev pub InRange : Item → Type 0
InRange x = (int4 x.available ≡ ok x.available) × (int4 x.reserved ≡ ok x.reserved)

sub_add : (a q : ℤ) → a -ℤ q +ℤ q ≡ a
sub_add a q = omega int_laws

add_sub : (a q : ℤ) → a +ℤ q -ℤ q ≡ a
add_sub a q = omega int_laws

unshift-shift : (q : ℤ) (x y : Item) → InRange x → shift_item q x ≡ ok y → unshift_item q y ≡ ok x
unshift-shift q x y h e =
    let (k, a, r) = shifted_exact x y (x.available -ℤ q) (x.reserved +ℤ q) e in
    rw (a, r, sub_add x.available q, add_sub x.reserved q, h.0, h.1) (ground arith)

update-update :
    (q : ℤ) (k : Option String) (xs ys : List Item)
    → All InRange xs
    → update_items (shift_item q) k xs ≡ ok ys
    → update_items (unshift_item q) k ys ≡ ok xs
update-update q k [] ys h e = let same : [] ≡ ys = cc in rw (← same) refl
update-update q k (x ∷ xs) ys h e =
    let (y, zs, shape, here, there) = updated_head (shift_item q) k (shift_sku q) x xs ys e in
    let sku = head_sku (shift_item q) k (shift_sku q) (is_text k x.sku) x y here in
    rw (shape, sku, update-update q k xs zs h.1 there) (at_head (is_text k x.sku) y here)
  where
    at_head :
        (b : Bool) (y : Item)
        → (if b then shift_item q x else ok x) ≡ ok y
        → cons_result (if b then unshift_item q y else ok y) (ok xs) ≡ ok (x ∷ xs)
    at_head true y here = rw (unshift-shift q x y h.0 here) refl
    at_head false y here = ground arith

-- No reservation of the order `i`.
abbrev pub Unreserved : String → List Reservation → Type 0
Unreserved i = All (λ r. r.order_id ≢ i)

find_held-hold :
    (new : Reservation) (rs : List Reservation)
    → new.status ≡ held
    → Unreserved new.order_id rs
    → find_held (some new.order_id) (hold_rows new rs) ≡ some new
find_held-hold new [] h u = rw (==_refl new.order_id, h) refl
find_held-hold new (r ∷ rs) h u = ground (
  arith,
  ==_iff r.order_id new.order_id,
  ==_iff new.order_id r.order_id,
  find_held-hold new rs h u.1,
)

find_held-release :
    (i : String) (rs : List Reservation) → find_held (some i) (release_rows (some i) rs) ≡ none
find_held-release i [] = refl
find_held-release i (r ∷ rs) = ground (arith, find_held-release i rs)

release_run :
    (p : Payload) (u : InventoryDb) (r : Reservation) (xs : List Item)
    → to_uuid p.order_id ≡ ok tt
    → find_held p.order_id u.store.reservations ≡ some r
    → update_items (unshift_item r.quantity) (some r.sku) u.store.items ≡ ok xs
    → release_inventory p u ≡ (
      ok tt,
      record u {
        store = record { items = xs; reservations = release_rows p.order_id u.store.reservations };
      },
    )
unfolding release_inventory held_reservation update_stock release_reservations
release_run p u r xs is_id found updated = ground arith

module _ (ids : Fresh) (p : Payload) (s t : InventoryDb) (k : Taken ids p s t)
    (first : Unreserved k.order_id s.store.reservations) where
  -- The reservation that the release finds.
  taken_row : Reservation
  taken_row = record { order_id = k.order_id; sku = k.sku; quantity = k.quantity; status = held }

  taken_found : find_held p.order_id t.store.reservations ≡ some taken_row
  unfolding taken_row
  taken_found =
      rw (k.result, k.for_order) (find_held-hold taken_row s.store.reservations refl first)

  taken_undone :
      All InRange s.store.items
      → update_items (unshift_item k.quantity) (some k.sku) t.store.items ≡ ok s.store.items
  taken_undone in_range =
      rw (k.result, ← k.for_sku)
        (update-update k.quantity p.item_sku s.store.items k.items in_range k.updated)

-- The schema `t` with the items of `s`, and the reservations of an order released.
abbrev pub undone : Option String → InventoryDb → InventoryDb → InventoryDb
undone i s t = record t {
  store = record { items = s.store.items; reservations = release_rows i t.store.reservations };
}

module _ (ids : Fresh) (p p' : Payload) (s t : InventoryDb) (i : String)
    (about : p.order_id ≡ some i) (same_order : p'.order_id ≡ some i)
    (enough : cannot_reserve (find_item p.item_sku s.store.items) p.quantity ≡ false)
    (reserved : reserve_inventory ids p s ≡ (ok tt, t)) (in_range : All InRange s.store.items)
    (first : Unreserved i s.store.reservations) where
  taken : Taken ids p s t
  taken = elim (reserve_inventory-Reserved ids p s t reserved) [
    | inl (short, same) ↦ absurd (cc)
    | inr (e, k) ↦ k
  ]

  same_id : taken.order_id ≡ i
  same_id = ground (arith, taken.for_order)

  -- After a reservation of an order that had none before has taken stock, from items whose
  -- quantities are in the range of their columns, the release of that order succeeds and gives
  -- every item exactly the available and reserved units of before the reservation. It leaves the
  -- outbox alone, and no reservation of the order is held any more.
  pub release-reserve :
      (release_inventory p' t ≡ (ok tt, undone p'.order_id s t))
      × (find_held (some i) (undone p'.order_id s t).store.reservations ≡ none)
  unfolding taken_row
  release-reserve = (
    release_run p' t (taken_row ids p s t taken first_of_taken) s.store.items
        (rw (same_order, ← about) taken.is_id)
        (rw (same_order, ← about) (taken_found ids p s t taken first_of_taken))
        (taken_undone ids p s t taken first_of_taken in_range),
    rw same_order (find_held-release i t.store.reservations),
  )
    where
      first_of_taken : Unreserved taken.order_id s.store.reservations
      first_of_taken = subst (λ j. Unreserved j s.store.reservations) (sym same_id) first
