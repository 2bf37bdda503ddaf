-- ===== src/Database/Columns.antt =====
-- How a JavaScript value that is passed as a query parameter reaches a column of
-- infra/postgres/init/001_init.sql.
use Prim.Native.Char.{code}
use node_with_aoth.Prelude.{
  ℕ, String, true, false, Option, none, some, leb, ◌||◌, ◌+◌, ◌*◌, ◌/◌, ◌^◌, Bool, ◌&&◌, ltb,
  if◌then◌else◌,
}
use node_with_aoth.Prelude.Int.{ℤ, pos, negsuc, sub_ℕ, leb_ℤ}
use node_with_aoth.Shared.{Number, is_int}
use node_with_aoth.Database.Action.{Result, ok, err, out_of_range, invalid_input}

-- An INTEGER column takes whole values in [-2^31, 2^31).
abbrev pub int4 : ℤ → Result ℤ
int4 i = if leb_ℤ (negsuc 2147483647) i && leb_ℤ i (pos 2147483647) then ok i else err out_of_range

-- The integer that a whole number stands for.
abbrev pub to_ℤ : Number → ℤ
to_ℤ n = let k = n.digits / 10 ^ n.places in if n.negative then sub_ℕ 0 k else pos k

-- A number for an INTEGER column; "1.5" is refused.
unfoldable pub to_integer : Number → Result ℤ
to_integer n = if is_int n then int4 (to_ℤ n) else err invalid_input

-- A number for a NUMERIC(12,2) column, in hundredths: rounded half away from zero, and refused
-- from 10^10 units on.
pub record Cents : Type 0 where
  pub negative : Bool
  pub hundredths : ℕ

unfoldable pub to_cents : Number → Result Cents
to_cents n =
    let h = (n.digits * 100 + 10 ^ n.places / 2) / 10 ^ n.places in
    if ltb h (10 ^ 12)
    then ok (record { negative = n.negative; hundredths = h })
    else err out_of_range

-- A lower-case hexadecimal digit, by its code.
is_digit : ℕ → Bool
is_digit c = (leb b'0' c && leb c b'9') || (leb b'a' c && leb c b'f')

-- Whether the second text has a digit wherever the first has an "x", and else the dashes of the first.
has_shape : String → String → Bool
unfolding is_digit
has_shape String.[] String.[] = true
has_shape (String.◌∷◌ x shape) (String.◌∷◌ c s) =
    (if leb b'x' (code x)
      then is_digit (code c)
      else leb (code x) (code c) && leb (code c) (code x))
    && has_shape shape s
has_shape _ _ = false

-- A UUID as `crypto.randomUUID()` writes it. The other spellings that PostgreSQL reads, with upper-case
-- digits or without dashes, come from no code of the repository and count as no UUID here.
unfoldable pub is_uuid : String → Bool
unfolding has_shape
is_uuid s = has_shape "xxxxxxxx-xxxx-xxxx-xxxx-xxxxxxxxxxxx" s

-- A text for a UUID column; an absent one is NULL, which every parameter takes.
unfoldable pub to_uuid : Option String → Result (Unit {0})
to_uuid none = ok tt
to_uuid (some s) = if is_uuid s then ok tt else err invalid_input
