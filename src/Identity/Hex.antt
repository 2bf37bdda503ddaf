-- ===== src/Identity/Hex.antt =====
-- What packages/auth/src/index.ts uses of Node's `Buffer` and of texts: bytes as hexadecimal text, and
-- a text cut at its dots.
use Prim.Native.Char.{Char, code, nul}
use node_with_aoth.Prelude.{
  ℕ, zero, suc, ◌+◌, ◌-◌, ◌*◌, ◌/◌, ◌%◌, ◌<◌, ◌≡◌, refl, String, Bool, true, false, ◌&&◌, Option,
  none, some, List, [], ◌∷◌, All, leb, if◌then◌else◌, arith,
}

-- The text `s` followed by `t`.
abbrev pub append_text : String → String → String
append_text String.[] t = t
append_text (String.◌∷◌ c s) t = String.◌∷◌ c (append_text s t)

abbrev nth : String → ℕ → Char
nth String.[] n = nul
nth (String.◌∷◌ c s) zero = c
nth (String.◌∷◌ c s) (suc n) = nth s n

abbrev hex_digit : ℕ → Char
hex_digit n = nth "0123456789abcdef" n

digit_of_code : ℕ → Option ℕ
digit_of_code c =
    if leb b'0' c && leb c b'9'
    then some (c - 48)
    else if leb b'a' c && leb c b'f'
    then some (c - 87)
    else if leb b'A' c && leb c b'F'
    then some (c - 55)
    else none

-- `buffer.toString("hex")`
unfoldable pub to_hex : List ℕ → String
to_hex [] = String.[]
to_hex (b ∷ bs) = String.◌∷◌ (hex_digit (b / 16)) (String.◌∷◌ (hex_digit (b % 16)) (to_hex bs))

abbrev with_byte : Option ℕ → Option ℕ → List ℕ → List ℕ
with_byte (some h) (some l) bs = (h * 16 + l) ∷ bs
with_byte _ _ bs = []

-- `Buffer.from(text, "hex")`, which stops at the first pair that is no byte.
unfoldable pub of_hex : String → List ℕ
unfolding digit_of_code
of_hex String.[] = []
of_hex (String.◌∷◌ c String.[]) = []
of_hex (String.◌∷◌ c (String.◌∷◌ d s)) =
    with_byte (digit_of_code (code c)) (digit_of_code (code d)) (of_hex s)

is_dot : Char → Bool
is_dot c = leb b'.' (code c) && leb (code c) b'.'

abbrev before_first : Char → List String → List String
before_first c [] = String.◌∷◌ c String.[] ∷ []
before_first c (s ∷ ss) = String.◌∷◌ c s ∷ ss

-- `text.split(".")`
unfoldable pub split_dots : String → List String
unfolding is_dot
split_dots String.[] = String.[] ∷ []
split_dots (String.◌∷◌ c s) =
    let rest = split_dots s in if is_dot c then String.[] ∷ rest else before_first c rest

-- A property of all sixteen digits.
all_below : ℕ → (ℕ → Bool) → Bool
all_below zero p = true
all_below (suc n) p = p n && all_below n p

all_below_lem : (n : ℕ) (p : ℕ → Bool) (x : ℕ) → all_below n p ≡ true → x < n → p x ≡ true
unfolding all_below
all_below_lem zero p x h lt = absurd (omega arith)
all_below_lem (suc n) p x h lt = ground (arith, all_below_lem n p x)

abbrev reads_back : ℕ → Option ℕ → Bool
reads_back n none = false
reads_back n (some m) = leb n m && leb m n

reads_back_lem : (n : ℕ) (o : Option ℕ) → reads_back n o ≡ true → o ≡ some n
reads_back_lem n none h = absurd (cc)
reads_back_lem n (some m) h = ground arith

digits_table : all_below 16 (λ n. reads_back n (digit_of_code (code (hex_digit n)))) ≡ true
unfolding all_below digit_of_code
digits_table = refl

dots_table : all_below 16 (λ n. if is_dot (hex_digit n) then false else true) ≡ true
unfolding all_below is_dot
dots_table = refl

digit_of_code-hex_digit : (n : ℕ) → n < 16 → digit_of_code (code (hex_digit n)) ≡ some n
digit_of_code-hex_digit n h =
    reads_back_lem n _
      (all_below_lem 16 (λ m. reads_back m (digit_of_code (code (hex_digit m)))) n digits_table h)

is_dot-hex_digit : (n : ℕ) → n < 16 → is_dot (hex_digit n) ≡ false
is_dot-hex_digit n h =
    ground
      (arith, all_below_lem 16 (λ m. if is_dot (hex_digit m) then false else true) n dots_table h)

abbrev pub IsBytes : List ℕ → Type 0
IsBytes bs = All (λ b. b < 256) bs

pub of_hex-to_hex : (bs : List ℕ) → IsBytes bs → of_hex (to_hex bs) ≡ bs
unfolding of_hex to_hex
of_hex-to_hex [] h = refl
of_hex-to_hex (b ∷ bs) (lt, h) =
    rw
      (
        digit_of_code-hex_digit (b / 16) (omega arith),
        digit_of_code-hex_digit (b % 16) (omega arith),
        of_hex-to_hex bs h,
      )
      (ground arith)

-- A text in hexadecimal has no dot, so it ends at the first one.
pub split_dots-to_hex :
    (bs : List ℕ) (s : String)
    → IsBytes bs
    → split_dots (append_text (to_hex bs) (String.◌∷◌ (nth "." 0) s)) ≡ to_hex bs ∷ split_dots s
unfolding split_dots to_hex
split_dots-to_hex [] s h = refl
split_dots-to_hex (b ∷ bs) s (lt, h) =
    rw
      (
        is_dot-hex_digit (b / 16) (omega arith),
        is_dot-hex_digit (b % 16) (omega arith),
        split_dots-to_hex bs s h,
      )
      refl

pub split_dots-to_hex_end : (bs : List ℕ) → IsBytes bs → split_dots (to_hex bs) ≡ to_hex bs ∷ []
unfolding split_dots to_hex
split_dots-to_hex_end [] h = refl
split_dots-to_hex_end (b ∷ bs) (lt, h) =
    rw
      (
        is_dot-hex_digit (b / 16) (omega arith),
        is_dot-hex_digit (b % 16) (omega arith),
        split_dots-to_hex_end bs h,
      )
      refl
