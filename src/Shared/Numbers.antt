-- ===== src/Shared/Numbers.antt =====
-- JavaScript numbers as they travel in JSON: a sign, digits and a number of decimal places, which
-- represents every finite double exactly (a finite double is a finite decimal). NaN and the
-- infinities do not occur in JSON.
use node_with_aoth.Prelude.{ℕ, suc, ◌*◌, ◌%◌, ◌^◌, ◌&&◌, ◌||◌, Bool, false, not, ltb, leb}
use node_with_aoth.Prelude.Int.{ℤ, pos, negsuc}

-- The value is digits / 10 ^ places, with a minus if `negative`.
pub record Number : Type 0 where
  pub negative : Bool
  pub digits : ℕ
  pub places : ℕ

-- `z.number().int()`
abbrev pub is_int : Number → Bool
is_int n = leb (n.digits % 10 ^ n.places) 0

-- `z.number().positive()`
abbrev pub is_positive : Number → Bool
is_positive n = not n.negative && ltb 0 n.digits

-- `n <= k` at a natural number `k`.
abbrev pub number_le : Number → ℕ → Bool
number_le n k = n.negative || leb n.digits (k * 10 ^ n.places)

-- `i < n` at an integer `i`.
abbrev pub int_lt_number : ℤ → Number → Bool
int_lt_number (pos i) n = not n.negative && ltb (i * 10 ^ n.places) n.digits
int_lt_number (negsuc i) n = not n.negative || ltb n.digits (suc i * 10 ^ n.places)

-- The natural number `k` as a JavaScript number.
abbrev pub of_nat : ℕ → Number
of_nat k = record { negative = false; digits = k; places = 0 }
