-- ===== src/Inventory/Items.antt =====
-- The arithmetic of a stock update: what one UPDATE of the items does to the columns.
use node_with_aoth.Prelude.{
  ◌≡◌, refl, ap₂, String, Bool, true, false, Option, List, [], ◌∷◌, arith, if◌then◌else◌,
}
use node_with_aoth.Prelude.Int.{ℤ, ◌+ℤ◌, ◌-ℤ◌, int_laws}
use node_with_aoth.Shared.{is_text}
use node_with_aoth.Database.Action.{Result, ok, err}
use node_with_aoth.Database.Columns.{int4}
use node_with_aoth.Inventory.Tables.{
  Item, shift_item, unshift_item, shifted, cons_result, update_items,
}

pub int4_exact : (i j : ℤ) → int4 i ≡ ok j → j ≡ i
int4_exact i j e = ground arith

-- The pairs of an item's SKU and its whole stock, on the shelf and reserved.
abbrev pub total : Item → String × ℤ
total x = (x.sku, x.available +ℤ x.reserved)

abbrev pub totals : List Item → List (String × ℤ)
totals [] = []
totals (x ∷ xs) = total x ∷ totals xs

pub shifted_exact :
    (x y : Item) (a r : ℤ)
    → shifted x (int4 a) (int4 r) ≡ ok y
    → (y.sku ≡ x.sku) × (y.available ≡ a) × (y.reserved ≡ r)
shifted_exact x y a r e = ground arith

shift_regroup : (a r q : ℤ) → (a -ℤ q) +ℤ (r +ℤ q) ≡ a +ℤ r
shift_regroup a r q = omega int_laws

unshift_regroup : (a r q : ℤ) → (a +ℤ q) +ℤ (r -ℤ q) ≡ a +ℤ r
unshift_regroup a r q = omega int_laws

pub shift_item-total : (q : ℤ) (x y : Item) → shift_item q x ≡ ok y → total y ≡ total x
shift_item-total q x y e =
    let (k, a, r) = shifted_exact x y (x.available -ℤ q) (x.reserved +ℤ q) e in
    rw (k, a, r, shift_regroup x.available x.reserved q) refl

pub unshift_item-total : (q : ℤ) (x y : Item) → unshift_item q x ≡ ok y → total y ≡ total x
unshift_item-total q x y e =
    let (k, a, r) = shifted_exact x y (x.available +ℤ q) (x.reserved -ℤ q) e in
    rw (k, a, r, unshift_regroup x.available x.reserved q) refl

module _ (f : Item → Result Item) (kept : (x y : Item) → f x ≡ ok y → total y ≡ total x) where
  one_total : (b : Bool) (x y : Item) → (if b then f x else ok x) ≡ ok y → total y ≡ total x
  one_total true x y e = kept x y e
  one_total false x y e = cc

  pub update_items-totals :
      (k : Option String) (xs ys : List Item) → update_items f k xs ≡ ok ys → totals ys ≡ totals xs
  update_items-totals k [] ys e = ground arith
  update_items-totals k (x ∷ xs) ys e =
      both (if is_text k x.sku then f x else ok x) (update_items f k xs) refl refl e
        (update_items-totals k xs)
    where
      both :
          (r : Result Item) (rest : Result (List Item))
          → (if is_text k x.sku then f x else ok x) ≡ r
          → update_items f k xs ≡ rest
          → cons_result r rest ≡ ok ys
          → ((zs : List Item) → update_items f k xs ≡ ok zs → totals zs ≡ totals xs)
          → totals ys ≡ totals (x ∷ xs)
      both (ok y) (ok zs) here there done ih =
          let same : y ∷ zs ≡ ys = cc in
          rw (← same) (ap₂ ◌∷◌ (one_total (is_text k x.sku) x y here) (ih zs there))
      both (ok y) (err z) here there done ih = cc
      both (err z) rest here there done ih = cc
