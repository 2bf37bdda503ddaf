-- ===== src/Inventory/Quantities.antt =====
-- The test on the available quantity, as an order between integers.
use node_with_aoth.Prelude.{
  ℕ, ◌*◌, ◌/◌, ◌%◌, ◌^◌, ◌≤◌, ◌<◌, ◌≡◌, refl, ◌∙◌, inl, inr, true, false, arith, Bool-cases, ltb,
  leb,
}
use node_with_aoth.Prelude.Int.{ℤ, pos, negsuc, ◌≤ℤ◌}
use node_with_aoth.Shared.{Number, is_int, int_lt_number}
use node_with_aoth.Database.Action.{ok}
use node_with_aoth.Database.Columns.{to_ℤ, to_integer}
use native.Mathlib.Nat.{div-add-mod', one-le-pow}
use node_with_aoth.Inventory.Items.{int4_exact}

leb→le : (a b : ℕ) → leb a b ≡ true → a ≤ b
leb→le a b h = ground arith

ltb-false : (a b : ℕ) → ltb a b ≡ false → b ≤ a
ltb-false a b h = ground arith

whole_digits : (d b : ℕ) → leb (d % b) 0 ≡ true → d ≡ d / b * b
whole_digits d b h = omega (arith, div-add-mod' d b, leb→le (d % b) 0 h)

le_of_mul : (k i b : ℕ) → 0 < b → k * b ≤ i * b → k ≤ i
le_of_mul k i b h e = grind arith

pub to_integer_exact : (n : Number) (q : ℤ) → to_integer n ≡ ok q → (is_int n ≡ true) × (q ≡ to_ℤ n)
unfolding to_integer
to_integer_exact n q e = elim (Bool-cases (is_int n)) [
  | inl whole ↦ (whole, int4_exact (to_ℤ n) q (rw whole at e))
  | inr part ↦ absurd (not_whole part)
]
  where
    not_whole : is_int n ≡ false → ⊥
    not_whole part = ground arith

covered_by : (d b i : ℕ) → 0 < b → leb (d % b) 0 ≡ true → ltb (i * b) d ≡ false → d / b ≤ i
covered_by d b i pos_b whole short =
    le_of_mul (d / b) i b pos_b (omega (arith, whole_digits d b whole, ltb-false (i * b) d short))

-- A whole, non-negative number that the test "is less" turns down is covered.
pub covered :
    (n : Number) (q a : ℤ)
    → n.negative ≡ false
    → to_integer n ≡ ok q
    → int_lt_number a n ≡ false
    → (q ≤ℤ a) × (pos 0 ≤ℤ q)
covered n q (pos i) sign e short =
    let (whole, value) = to_integer_exact n q e in
    let k : ℕ = n.digits / 10 ^ n.places in
    let is_k : q ≡ pos k = value ∙ (rw sign refl) in
    let le : k ≤ i =
      covered_by n.digits (10 ^ n.places) i (one-le-pow n.places 10 (omega arith)) whole
        (rw sign at short) in
    rw is_k (omega arith)
covered n q (negsuc i) sign e short = absurd (ground arith)
