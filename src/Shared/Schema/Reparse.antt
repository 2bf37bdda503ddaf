-- ===== src/Shared/Schema/Reparse.antt =====
-- A body that `orderCreateSchema` returned passes the schema again.
use node_with_aoth.Prelude.{ℕ, ◌≡◌, refl, String, Bool, Option, none, some, arith, ap}
use node_with_aoth.Shared.Numbers.{Number}
use node_with_aoth.Shared.Schema.{
  Json, text, number, other, OrderBody, RawBody, string_field, number_field, build_body,
  parse_order_create,
}

-- `JSON.stringify` of a parsed body, as the receiver's JSON parser reads it.
abbrev pub json_body : OrderBody → RawBody
json_body b = record {
  item_sku = some (text b.item_sku);
  quantity = some (number b.quantity);
  total_amount = some (number b.total_amount);
  currency = some (text b.currency);
}

string_field-again :
    (p : ℕ → Bool) (o : Option Json) (s : String)
    → string_field p o ≡ some s
    → string_field p (some (text s)) ≡ some s
unfolding string_field
string_field-again p none s h = absurd (cc)
string_field-again p (some (text x)) s h = ground arith
string_field-again p (some (number n)) s h = absurd (cc)
string_field-again p (some other) s h = absurd (cc)

number_field-again :
    (p : Number → Bool) (o : Option Json) (n : Number)
    → number_field p o ≡ some n
    → number_field p (some (number n)) ≡ some n
unfolding number_field
number_field-again p none n h = absurd (cc)
number_field-again p (some (text x)) n h = absurd (cc)
number_field-again p (some (number m)) n h = ground arith
number_field-again p (some other) n h = absurd (cc)

build_body-eq-some :
    (a : Option String) (q t : Option Number) (c : Option String) (b : OrderBody)
    → build_body a q t c ≡ some b
    → (a ≡ some b.item_sku)
      × (q ≡ some b.quantity)
      × (t ≡ some b.total_amount)
      × (c ≡ some b.currency)
build_body-eq-some none q t c b h = absurd (cc)
build_body-eq-some (some a) none t c b h = absurd (cc)
build_body-eq-some (some a) (some q) none c b h = absurd (cc)
build_body-eq-some (some a) (some q) (some t) none b h = absurd (cc)
build_body-eq-some (some a) (some q) (some t) (some c) b h =
    let same : record { item_sku = a; quantity = q; total_amount = t; currency = c } ≡ b = cc in
    (
      ap (λ (x : OrderBody). some x.item_sku) same,
      ap (λ (x : OrderBody). some x.quantity) same,
      ap (λ (x : OrderBody). some x.total_amount) same,
      ap (λ (x : OrderBody). some x.currency) same,
    )

pub parse_order_create-json_body :
    (raw : RawBody) (b : OrderBody)
    → parse_order_create raw ≡ some b
    → parse_order_create (json_body b) ≡ some b
unfolding parse_order_create
parse_order_create-json_body raw b h =
    let (e1, e2, e3, e4) = build_body-eq-some _ _ _ _ b h in
    rw
      (
        string_field-again _ raw.item_sku b.item_sku e1,
        number_field-again _ raw.quantity b.quantity e2,
        number_field-again _ raw.total_amount b.total_amount e3,
        string_field-again _ raw.currency b.currency e4,
      )
      refl
