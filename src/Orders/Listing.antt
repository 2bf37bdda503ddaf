-- ===== src/Orders/Listing.antt =====
-- `listOrders`, `getOrders` and `listOrdersController` of order-service.
use mathlib.Core.List.{reverse}
use node_with_aoth.Prelude.{
  ℕ, zero, suc, ◌<◌, ◌∷◌, ◌||◌, ◌/◌, ◌^◌, ◌*◌, ◌≤◌, ◌≡◌, refl, sym, subst, true, false, ◌&&◌, not,
  Option, none, some, List, [], ◌++◌, take, drop, length, take-append-drop, leb, arith,
  if◌then◌else◌,
}
use node_with_aoth.Shared.{Number, of_nat, is_int}
use node_with_aoth.Shared.Schema.{parse_report_limit}
use node_with_aoth.Database.Action.{Result, ok, err, invalid_input, Action, lift, gets, ◌>>=◌}
use node_with_aoth.Orders.Tables.{Order, OrdersDb}

-- `LIMIT $1` takes a whole number that is not negative.
abbrev pub limit_of : Number → Result ℕ
limit_of n =
    if is_int n && (not n.negative || leb n.digits 0)
    then ok (n.digits / 10 ^ n.places)
    else err invalid_input

-- ORDER BY created_at DESC LIMIT $1, of rows that stand in the order of `created_at`.
unfoldable pub list_orders : Number → Action OrdersDb (List Order)
list_orders limit = do n ← lift (limit_of limit); gets λ db. take n (reverse db.store)

-- `Number(request.query.limit ?? 20)`, for a limit that is a number.
unfoldable pub list_orders_controller : Option Number → Action OrdersDb (List Order)
list_orders_controller none = list_orders (of_nat 20)
list_orders_controller (some limit) = list_orders limit

length-take : {A : Type 0} (n : ℕ) (xs : List A) → length (take n xs) ≤ n
length-take zero xs = omega arith
length-take (suc n) [] = omega arith
length-take (suc n) (x ∷ xs) = omega (arith, length-take n xs)

scaled_bound : (d k : ℕ) → d ≤ 100 * k → 0 < k → d / k ≤ 100
scaled_bound d k h pos_k = grind arith

places_positive : (p : ℕ) → 0 < 10 ^ p
places_positive zero = omega arith
places_positive (suc p) = omega (arith, places_positive p)

limit_of-parse_report_limit :
    (given : Option Number) (limit : Number)
    → parse_report_limit given ≡ some limit
    → (n : ℕ) × (limit_of limit ≡ ok n) × (n ≤ 100)
unfolding parse_report_limit
limit_of-parse_report_limit none limit h =
    let same : of_nat 20 ≡ limit = cc in
    subst (λ (l : Number). (n : ℕ) × (limit_of l ≡ ok n) × (n ≤ 100)) same (20, refl, omega arith)
limit_of-parse_report_limit (some m) limit h =
    let same : m ≡ limit = ground arith in
    let whole : is_int m ≡ true = ground arith in
    let positive : m.negative ≡ false = ground arith in
    let small : m.digits ≤ 100 * 10 ^ m.places = ground arith in
    subst (λ (l : Number). (n : ℕ) × (limit_of l ≡ ok n) × (n ≤ 100)) same
      (
        m.digits / 10 ^ m.places,
        rw (whole, positive) refl,
        scaled_bound m.digits (10 ^ m.places) small (places_positive m.places),
      )

-- For each limit that the report schema lets pass, order-service answers with at most a hundred
-- orders, and they are the newest: what is left out is older.
pub list_orders_bound :
    (given : Option Number) (limit : Number) (s : OrdersDb)
    → parse_report_limit given ≡ some limit
    → (rows older : List Order) × (list_orders_controller (some limit) s ≡ (ok rows, s))
      × (length rows ≤ 100)
      × (reverse s.store ≡ rows ++ older)
unfolding list_orders_controller list_orders
list_orders_bound given limit s h =
    let (n, e, bound) = limit_of-parse_report_limit given limit h in
    (
      take n (reverse s.store),
      drop n (reverse s.store),
      rw e refl,
      (let short = length-take n (reverse s.store) in omega arith),
      sym (take-append-drop n (reverse s.store)),
    )
