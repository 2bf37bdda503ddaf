-- ===== src/Inventory/Tables.antt =====
-- The tables `inventory.inventory_items` and `inventory.reservations`, and the statements on them
-- in inventory.service.ts.
use node_with_aoth.Prelude.{
  String, Bool, true, false, ◌&&◌, Option, none, some, List, [], ◌∷◌, ◌==◌, if◌then◌else◌,
}
use node_with_aoth.Prelude.Int.{ℤ, ◌+ℤ◌, ◌-ℤ◌}
use node_with_aoth.Shared.{is_text}
use node_with_aoth.Database.Action.{Result, ok, err, Action, gets, lift, not_null, ◌>>=◌, ◌>>◌}
use node_with_aoth.Database.Columns.{int4, to_uuid}
use node_with_aoth.Service.Tables.{Db}

pub record Item : Type 0 where
  pub sku : String
  pub available : ℤ
  pub reserved : ℤ

pub data ReservationStatus : Type 0 where
  held released : ReservationStatus

-- `held` is 'RESERVED', `released` is 'RELEASED'.
pub record Reservation : Type 0 where
  pub order_id : String
  pub sku : String
  pub quantity : ℤ
  pub status : ReservationStatus

pub record Stock : Type 0 where
  pub items : List Item
  pub reservations : List Reservation

abbrev pub InventoryDb : Type 0
InventoryDb = Db Stock

-- SELECT … WHERE sku = $1, with a parameter that may be NULL.
abbrev pub find_item : Option String → List Item → Option Item
find_item k [] = none
find_item k (x ∷ xs) = if is_text k x.sku then some x else find_item k xs

abbrev pub is_held : ReservationStatus → Bool
is_held held = true
is_held released = false

-- SELECT … WHERE order_id = $1 AND status = 'RESERVED'
abbrev pub find_held : Option String → List Reservation → Option Reservation
find_held k [] = none
find_held k (r ∷ rs) = if is_text k r.order_id && is_held r.status then some r else find_held k rs

-- Both new values must fit an INTEGER.
abbrev pub shifted : Item → Result ℤ → Result ℤ → Result Item
shifted x (ok a) (ok r) = ok (record x { available = a; reserved = r })
shifted x (ok a) (err e) = err e
shifted x (err e) r = err e

-- An item after `available_quantity - q` and `reserved_quantity + q`, both INTEGER.
abbrev pub shift_item : ℤ → Item → Result Item
shift_item q x = shifted x (int4 (x.available -ℤ q)) (int4 (x.reserved +ℤ q))

-- The other way round: + q and - q.
abbrev pub unshift_item : ℤ → Item → Result Item
unshift_item q x = shifted x (int4 (x.available +ℤ q)) (int4 (x.reserved -ℤ q))

-- UPDATE inventory.inventory_items SET … WHERE sku = $1
abbrev pub cons_result : Result Item → Result (List Item) → Result (List Item)
cons_result (ok x) (ok xs) = ok (x ∷ xs)
cons_result (ok x) (err e) = err e
cons_result (err e) xs = err e

abbrev pub update_items : (Item → Result Item) → Option String → List Item → Result (List Item)
update_items f k [] = ok []
update_items f k (x ∷ xs) =
    cons_result (if is_text k x.sku then f x else ok x) (update_items f k xs)

abbrev pub put_items : Result (List Item) → Action InventoryDb (Unit {0})
put_items (ok xs) db = (ok tt, record db { store = record db.store { items = xs } })
put_items (err e) db = (err e, db)

unfoldable pub update_stock : (Item → Result Item) → Option String → Action InventoryDb (Unit {0})
update_stock f k db = put_items (update_items f k db.store.items) db

abbrev pub put_reservations : List Reservation → Action InventoryDb (Unit {0})
put_reservations rs db = (ok tt, record db { store = record db.store { reservations = rs } })

-- The SELECT as a query; `order_id` is a UUID column.
unfoldable pub held_reservation : Option String → Action InventoryDb (Option Reservation)
held_reservation k = do lift (to_uuid k); gets λ db. find_held k db.store.reservations

-- UPDATE inventory.reservations SET status = 'RELEASED' WHERE order_id = $1
abbrev pub release_rows : Option String → List Reservation → List Reservation
release_rows k [] = []
release_rows k (r ∷ rs) =
    (if is_text k r.order_id then record r { status = released } else r) ∷ release_rows k rs

unfoldable pub release_reservations : Option String → Action InventoryDb (Unit {0})
release_reservations k = do
  lift (to_uuid k)
  rs ← gets (λ db. release_rows k db.store.reservations)
  put_reservations rs

-- INSERT … ON CONFLICT (order_id) DO UPDATE SET status = 'RESERVED'
abbrev pub hold_rows : Reservation → List Reservation → List Reservation
hold_rows new [] = new ∷ []
hold_rows new (r ∷ rs) =
    if r.order_id == new.order_id then record r { status = held } ∷ rs else r ∷ hold_rows new rs

abbrev pub hold : Reservation → Action InventoryDb (Unit {0})
hold new db = put_reservations (hold_rows new db.store.reservations) db

unfoldable pub hold_reservation : Option String → Option String → ℤ → Action InventoryDb (Unit {0})
hold_reservation order_id sku q = do
  lift (to_uuid order_id)
  i ← lift (not_null order_id)
  k ← lift (not_null sku)
  hold (record { order_id = i; sku = k; quantity = q; status = held })
