-- ===== src/Orders/Tables.antt =====
-- The table `orders.orders` and the statements on it, in order.repository.ts and order.service.ts.
-- Rows stand in the order of `created_at`; the two time stamps themselves are not modelled.
use node_with_aoth.Prelude.{
  String, Bool, false, ◌&&◌, ◌||◌, Option, none, some, List, [], ◌∷◌, ◌++◌, ◌==◌, if◌then◌else◌,
}
use node_with_aoth.Prelude.Int.{ℤ}
use node_with_aoth.Shared.{Number, is_text}
use node_with_aoth.Database.Action.{Result, ok, err, unique_violation, Action, lift, ◌>>=◌}
use node_with_aoth.Database.Columns.{Cents, to_cents, to_integer, to_uuid}
use node_with_aoth.Service.Tables.{Db}

-- The values of `status` that the service writes.
pub data Status : Type 0 where
  pending_inventory pending_payment confirmed failed : Status

pub record Order : Type 0 where
  pub id : String
  pub user_id : String
  pub idempotency_key : Option String
  pub request_hash : Option String
  pub status : Status
  pub total_amount : Cents
  pub currency : String
  pub item_sku : String
  pub quantity : ℤ
  pub failure_reason : Option String

abbrev pub OrdersDb : Type 0
OrdersDb = Db (List Order)

-- WHERE user_id = $1 AND idempotency_key = $2
abbrev pub has_key : String → String → Order → Bool
has_key user key o = o.user_id == user && is_text o.idempotency_key key

-- The first row that fits, `result.rows[0] ?? null`.
abbrev pub find_key : String → String → List Order → Option Order
find_key user key [] = none
find_key user key (o ∷ os) = if has_key user key o then some o else find_key user key os

abbrev pub find_order_by_idempotency : String → String → OrdersDb → Option Order
find_order_by_idempotency user key db = find_key user key db.store

-- SELECT … WHERE id = $1
abbrev pub find_order : String → List Order → Option Order
find_order i [] = none
find_order i (o ∷ os) = if o.id == i then some o else find_order i os

-- Two keys in the unique index; NULL keys are outside it.
abbrev pub same_key : Option String → Option String → Bool
same_key k none = false
same_key k (some key) = is_text k key

-- Two rows that may not both be there: the primary key is `id`, and the unique index is on
-- (user_id, idempotency_key).
abbrev pub clash : Order → Order → Bool
clash o p = p.id == o.id || (p.user_id == o.user_id && same_key p.idempotency_key o.idempotency_key)

abbrev pub conflicts : Order → List Order → Bool
conflicts o [] = false
conflicts o (p ∷ os) = clash o p || conflicts o os

-- The argument of `createOrderWithOutbox`, less the event.
pub record NewOrder : Type 0 where
  pub order_id : String
  pub user_id : String
  pub idempotency_key : String
  pub request_hash : String
  pub total_amount : Number
  pub currency : String
  pub item_sku : String
  pub quantity : Number

-- The row that the INSERT adds.
abbrev pub order_row : NewOrder → Cents → ℤ → Order
order_row input total quantity = record {
  id = input.order_id;
  user_id = input.user_id;
  idempotency_key = some input.idempotency_key;
  request_hash = some input.request_hash;
  status = pending_inventory;
  total_amount = total;
  currency = input.currency;
  item_sku = input.item_sku;
  quantity = quantity;
  failure_reason = none;
}

abbrev pub add_order : Order → Action OrdersDb (Unit {0})
add_order o db =
    if conflicts o db.store
    then (err unique_violation, db)
    else (ok tt, record db { store = db.store ++ o ∷ [] })

-- INSERT INTO orders.orders
unfoldable pub insert_order : NewOrder → Action OrdersDb (Unit {0})
insert_order input = do
  total ← lift (to_cents input.total_amount)
  quantity ← lift (to_integer input.quantity)
  add_order (order_row input total quantity)

-- SET status = …, with the failure reason where the statement sets it.
abbrev pub set_status : Status → Order → Order
set_status s o = record o { status = s }

abbrev pub set_failed : Option String → Order → Order
set_failed reason o = record o { status = failed; failure_reason = reason }

-- UPDATE orders.orders … WHERE id = $1. An absent id is NULL, which equals nothing.
abbrev pub update_rows : Option String → (Order → Order) → List Order → List Order
update_rows i f [] = []
update_rows i f (o ∷ os) = (if is_text i o.id then f o else o) ∷ update_rows i f os

abbrev pub is_known : Option String → List Order → Bool
is_known i [] = false
is_known i (o ∷ os) = is_text i o.id || is_known i os

-- The column is a UUID, and so is the id of each row, which `randomUUID` drew: the text of the
-- parameter is refused where it is neither the id of a row nor a UUID.
abbrev pub row_id : Option String → List Order → Result (Unit {0})
row_id i os = if is_known i os then ok tt else to_uuid i

abbrev pub put_orders : Result (Unit {0}) → List Order → Action OrdersDb (Unit {0})
put_orders (ok _) os db = (ok tt, record db { store = os })
put_orders (err e) os db = (err e, db)

unfoldable pub update_order : Option String → (Order → Order) → Action OrdersDb (Unit {0})
update_order i f db = put_orders (row_id i db.store) (update_rows i f db.store) db
