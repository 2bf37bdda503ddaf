-- ===== src/Shared/Payloads.antt =====
-- Event payloads and headers. A payload is a JSON object of which the services read the fields
-- below; `none` is a property that is absent (`undefined`, which `JSON.stringify` drops).
use node_with_aoth.Prelude.{
  String, Bool, false, not, Option, none, some, List, [], ◌∷◌, ◌==◌, if◌then◌else◌,
}
use node_with_aoth.Shared.Numbers.{Number}

pub record Payload : Type 0 where
  pub event_type : Option String
  pub event_id : Option String
  pub order_id : Option String
  pub user_id : Option String
  pub item_sku : Option String
  pub quantity : Option Number
  pub total_amount : Option Number
  pub amount : Option Number
  pub currency : Option String
  pub reason : Option String

-- The object `{}`.
abbrev pub no_payload : Payload
no_payload = record {
  event_type = none;
  event_id = none;
  order_id = none;
  user_id = none;
  item_sku = none;
  quantity = none;
  total_amount = none;
  amount = none;
  currency = none;
  reason = none;
}

-- A headers object, as its entries in order.
abbrev pub Headers : Type 0
Headers = List (String × String)

-- `headers.key`
abbrev pub get_header : String → Headers → Option String
get_header k [] = none
get_header k ((j, v) ∷ hs) = if j == k then some v else get_header k hs

-- `accumulator[key] = value`
abbrev pub set_header : String → String → Headers → Headers
set_header k v [] = (k, v) ∷ []
set_header k v ((j, w) ∷ hs) = if j == k then (j, v) ∷ hs else (j, w) ∷ set_header k v hs

-- `{ ...base, ...over }`
abbrev pub spread : Headers → Headers → Headers
spread base [] = base
spread base ((k, v) ∷ over) = spread (set_header k v base) over

-- `x ?? y` where both may be absent, and where `y` is there.
abbrev pub or_else : Option String → Option String → Option String
or_else none y = y
or_else (some x) y = some x

abbrev pub get_or : Option String → String → String
get_or none y = y
get_or (some x) y = x

-- `field === text`
abbrev pub is_text : Option String → String → Bool
is_text none t = false
is_text (some s) t = s == t

-- A text in a condition: absent and empty are falsy.
abbrev pub truthy : Option String → Bool
truthy none = false
truthy (some s) = not (s == "")
