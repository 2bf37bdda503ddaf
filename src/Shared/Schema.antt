-- ===== src/Shared/Schema.antt =====
-- `orderCreateSchema` and `reportQuerySchema` of packages/shared/src/index.ts.
pub mod Reparse
use Prim.Native.Char.{code}
use node_with_aoth.Prelude.{ℕ, ◌+◌, String, Bool, ◌&&◌, Option, none, some, leb, if◌then◌else◌}
use node_with_aoth.Shared.Numbers.{Number, is_int, is_positive, number_le, of_nat}

-- A JSON value as far as the schemas tell values apart; `other` is null, a Boolean, an array or
-- an object.
pub data Json : Type 0 where
  text : String → Json
  number : Number → Json
  other : Json

-- The order body that `orderCreateSchema.parse` returns (`OrderCreateInput`).
pub record OrderBody : Type 0 where
  pub item_sku : String
  pub quantity : Number
  pub total_amount : Number
  pub currency : String

-- A request body; an absent property is `none`, and properties that the schema does not name are
-- stripped by it.
pub record RawBody : Type 0 where
  pub item_sku : Option Json
  pub quantity : Option Json
  pub total_amount : Option Json
  pub currency : Option Json

-- `s.length`: a text's UTF-16 code units.
pub utf16_length : String → ℕ
utf16_length String.[] = 0
utf16_length (String.◌∷◌ c s) = (if leb 0x10000 (code c) then 2 else 1) + utf16_length s

-- `z.string()` with a test on its length.
string_field : (ℕ → Bool) → Option Json → Option String
string_field p (some (text s)) = if p (utf16_length s) then some s else none
string_field p _ = none

-- `z.number()` with a test.
number_field : (Number → Bool) → Option Json → Option Number
number_field p (some (number n)) = if p n then some n else none
number_field p _ = none

abbrev build_body : Option String → Option Number → Option Number → Option String → Option OrderBody
build_body (some sku) (some q) (some t) (some c) =
    some (record { item_sku = sku; quantity = q; total_amount = t; currency = c })
build_body _ _ _ _ = none

-- `orderCreateSchema.parse`; `none` is a thrown `ZodError`.
unfoldable pub parse_order_create : RawBody → Option OrderBody
unfolding utf16_length string_field number_field
parse_order_create b =
    build_body (string_field (λ n. leb 3 n) b.item_sku)
      (number_field (λ n. is_int n && is_positive n) b.quantity)
      (number_field is_positive b.total_amount) (string_field (λ n. leb n 3 && leb 3 n) b.currency)

-- `reportQuerySchema.parse` on the number that `z.coerce` makes of `limit`; `none` is a limit that
-- was not given.
unfoldable pub parse_report_limit : Option Number → Option Number
parse_report_limit none = some (of_nat 20)
parse_report_limit (some n) = if is_int n && is_positive n && number_le n 100 then some n else none
