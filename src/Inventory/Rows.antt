-- ===== src/Inventory/Rows.antt =====
-- What the UPDATE, SELECT and upsert statements do to a property of all rows.
use node_with_aoth.Prelude.{
  ◌≡◌, refl, sym, ap, subst, String, Bool, true, false, Option, none, some, List, [], ◌∷◌, ◌&&◌,
  arith, All, ==_iff, if◌then◌else◌,
}
use node_with_aoth.Prelude.Int.{pos, ◌≤ℤ◌}
use node_with_aoth.Shared.{is_text}
use node_with_aoth.Database.Action.{Result, ok, err}
use node_with_aoth.Inventory.Tables.{
  Item, Reservation, held, released, find_item, find_held, is_held, cons_result, update_items,
  hold_rows, release_rows,
}

-- `sku` is the primary key of the items.
abbrev pub Distinct : List Item → Type 0
Distinct [] = Unit
Distinct (x ∷ xs) = (find_item (some x.sku) xs ≡ none) × Distinct xs

module _ (f : Item → Result Item) (k : Option String)
    (same_sku : (x y : Item) → f x ≡ ok y → y.sku ≡ x.sku) where
  -- The head and the tail of an update that went through.
  pub updated_head :
      (x : Item) (xs ys : List Item)
      → update_items f k (x ∷ xs) ≡ ok ys
      → (y : Item) × (zs : List Item) × (ys ≡ y ∷ zs)
        × ((if is_text k x.sku then f x else ok x) ≡ ok y)
        × (update_items f k xs ≡ ok zs)
  updated_head x xs ys e = split (if is_text k x.sku then f x else ok x) (update_items f k xs) e
    where
      split :
          (r : Result Item) (rest : Result (List Item))
          → cons_result r rest ≡ ok ys
          → (y : Item) × (zs : List Item) × (ys ≡ y ∷ zs) × (r ≡ ok y) × (rest ≡ ok zs)
      split (ok y) (ok zs) e = (y, zs, cc, refl, refl)
      split (ok y) (err x) e = absurd (cc)
      split (err x) rest e = absurd (cc)

  pub head_sku : (b : Bool) (x y : Item) → (if b then f x else ok x) ≡ ok y → y.sku ≡ x.sku
  head_sku true x y e = same_sku x y e
  head_sku false x y e = cc

  find_item-update :
      (j : Option String) (xs ys : List Item)
      → update_items f k xs ≡ ok ys
      → find_item j xs ≡ none
      → find_item j ys ≡ none
  find_item-update j [] ys e h = ground arith
  find_item-update j (x ∷ xs) ys e h =
      let (y, zs, shape, here, there) = updated_head x xs ys e in
      let sku = head_sku (is_text k x.sku) x y here in
      rw (shape, sku) (ground (arith, find_item-update j xs zs there))

  pub Distinct-update :
      (xs ys : List Item) → update_items f k xs ≡ ok ys → Distinct xs → Distinct ys
  Distinct-update [] ys e d = ground arith
  Distinct-update (x ∷ xs) ys e d =
      let (y, zs, shape, here, there) = updated_head x xs ys e in
      rw (shape, head_sku (is_text k x.sku) x y here)
        (find_item-update (some x.sku) xs zs there d.0, Distinct-update xs zs there d.1)

  -- A property of the items survives if `f` gives it to every item that the update reaches.
  pub All-update :
      (P : Item → Type 0) (xs ys : List Item)
      → update_items f k xs ≡ ok ys
      → All P xs
      → All (λ x. is_text k x.sku ≡ true → (y : Item) → f x ≡ ok y → P y) xs
      → All P ys
  All-update P [] ys e h g = let same : [] ≡ ys = cc in subst (All P) same tt
  All-update P (x ∷ xs) ys e h g =
      let (y, zs, shape, here, there) = updated_head x xs ys e in
      rw shape (at_head (is_text k x.sku) refl y here, All-update P xs zs there h.1 g.1)
    where
      at_head :
          (b : Bool) → is_text k x.sku ≡ b → (y : Item) → (if b then f x else ok x) ≡ ok y → P y
      at_head true reached y here = g.0 reached y here
      at_head false missed y here = subst P (cc) h.0

pub All-map {κ μ} :
    {A : Type 0} (P : A → Type κ) (Q : A → Type μ) (xs : List A)
    → ((x : A) → P x → Q x)
    → All P xs
    → All Q xs
All-map P Q [] g h = tt
All-map P Q (x ∷ xs) g h = (g x h.0, All-map P Q xs g h.1)

not_found :
    (P : Item → Type 0) (k : Option String) (xs : List Item)
    → find_item k xs ≡ none
    → All (λ x. is_text k x.sku ≡ true → P x) xs
not_found P k [] e = tt
not_found P k (x ∷ xs) e = (λ reached. absurd (ground arith), not_found P k xs (ground arith))

text_of : (k : Option String) (s : String) → is_text k s ≡ true → k ≡ some s
text_of none s e = cc
text_of (some t) s e = ap some ((==_iff t s).0 e)

-- The item that the SELECT found is the only one that the UPDATE reaches.
pub found_only :
    (P : Item → Type 0) (k : Option String) (xs : List Item) (x : Item)
    → find_item k xs ≡ some x
    → Distinct xs
    → P x
    → All (λ y. is_text k y.sku ≡ true → P y) xs
found_only P k [] x e d h = tt
found_only P k (y ∷ ys) x e d h = by_test (is_text k y.sku) refl (found_only P k ys x)
  where
    by_test :
        (b : Bool)
        → is_text k y.sku ≡ b
        → (find_item k ys ≡ some x → Distinct ys → P x → All (λ z. is_text k z.sku ≡ true → P z) ys)
        → All (λ z. is_text k z.sku ≡ true → P z) (y ∷ ys)
    by_test true reached rest = (
      λ _. subst P (ground arith) h,
      not_found P k ys (subst (λ j. find_item j ys ≡ none) (sym (text_of k y.sku reached)) d.0),
    )
    by_test false missed rest = (λ reached. absurd (cc), rest (ground arith) d.1 h)

pub All-hold :
    (P : Reservation → Type 0) (new : Reservation) (rs : List Reservation)
    → ((r : Reservation) → P r → P (record r { status = held }))
    → P new
    → All P rs
    → All P (hold_rows new rs)
All-hold P new [] same h hs = (h, tt)
All-hold P new (r ∷ rs) same h hs = ground (arith, same r, All-hold P new rs same h)

released_row :
    (b : Bool) (r : Reservation)
    → pos 0 ≤ℤ r.quantity
    → pos 0 ≤ℤ (if b then record r { status = released } else r).quantity
released_row true r h = h
released_row false r h = h

pub All-release :
    (k : Option String) (rs : List Reservation)
    → All (λ r. pos 0 ≤ℤ r.quantity) rs
    → All (λ r. pos 0 ≤ℤ r.quantity) (release_rows k rs)
All-release k [] h = tt
All-release k (r ∷ rs) h = (released_row (is_text k r.order_id) r h.0, All-release k rs h.1)

pub find_held-All :
    (P : Reservation → Type 0) (k : Option String) (rs : List Reservation) (r : Reservation)
    → find_held k rs ≡ some r
    → All P rs
    → P r
find_held-All P k [] r e h = absurd (cc)
find_held-All P k (x ∷ xs) r e h =
    by_test (is_text k x.order_id && is_held x.status) e (find_held-All P k xs r)
  where
    by_test :
        (b : Bool)
        → (if b then some x else find_held k xs) ≡ some r
        → (find_held k xs ≡ some r → All P xs → P r)
        → P r
    by_test true e rest = subst P (cc) h.0
    by_test false e rest = rest e h.1
