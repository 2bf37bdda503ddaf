-- ===== src/Tests/Cipher.antt =====
-- A cipher that keeps its promise: three bytes for each character, and no secrecy.
use Prim.Native.Nat.{compare, Ordering}
use Prim.Native.Char.{Char, char, code, IsScalar, IsLt}
use text.Mathlib.TextEquality.{IsScalar-prop}
use node_with_aoth.Prelude.{
  ℕ, ◌≡◌, ◌+◌, ◌*◌, ◌/◌, ◌%◌, ◌<◌, refl, ap, ◌∙◌, String, Option, none, some, List, [], ◌∷◌, arith,
}
use node_with_aoth.Identity.Hex.{IsBytes}
use node_with_aoth.Identity.Secrets.{Crypto, IsCipher}

-- `IsScalar n` is `Scalar` of the three comparisons.
abbrev Both : Ordering → Ordering → Type 0
Both Ordering.lt o = IsLt o
Both Ordering.eq _ = ⊥
Both Ordering.gt _ = ⊥

abbrev Scalar : Ordering → Ordering → Ordering → Type 0
Scalar Ordering.lt _ _ = Unit
Scalar Ordering.eq o p = Both o p
Scalar Ordering.gt o p = Both o p

abbrev is_lt? : (o : Ordering) → Option (IsLt o)
is_lt? Ordering.lt = some tt
is_lt? Ordering.eq = none
is_lt? Ordering.gt = none

abbrev both? : (o p : Ordering) → Option (Both o p)
both? Ordering.lt p = is_lt? p
both? Ordering.eq p = none
both? Ordering.gt p = none

abbrev scalar? : (o p q : Ordering) → Option (Scalar o p q)
scalar? Ordering.lt p q = some tt
scalar? Ordering.eq p q = both? p q
scalar? Ordering.gt p q = both? p q

both?-some : (p q : Ordering) → Both p q → (y : Both p q) × (both? p q ≡ some y)
both?-some Ordering.lt Ordering.lt x = (tt, refl)
both?-some Ordering.lt Ordering.eq x = elim x [ ]
both?-some Ordering.lt Ordering.gt x = elim x [ ]
both?-some Ordering.eq q x = elim x [ ]
both?-some Ordering.gt q x = elim x [ ]

scalar?-some : (o p q : Ordering) → Scalar o p q → (y : Scalar o p q) × (scalar? o p q ≡ some y)
scalar?-some Ordering.lt p q x = (tt, refl)
scalar?-some Ordering.eq p q x = both?-some p q x
scalar?-some Ordering.gt p q x = both?-some p q x

abbrev with_proof : (n : ℕ) → Option (IsScalar n) → Option Char
with_proof n none = none
with_proof n (some h) = some (char n h)

abbrev char_of : ℕ → Option Char
char_of n = with_proof n (scalar? (compare n 55296) (compare 57343 n) (compare n 1114112))

char_of-code : (c : Char) → char_of (code c) ≡ some c
char_of-code (char n h) =
    let (y, e) = scalar?-some (compare n 55296) (compare 57343 n) (compare n 1114112) h in
    ap (with_proof n) e ∙ ap (λ z. some (char n z)) (IsScalar-prop n y h)

bound_of :
    (n : ℕ) (o p q : Ordering)
    → compare n 55296 ≡ o
    → compare n 1114112 ≡ q
    → Scalar o p q
    → n < 1114112
bound_of n Ordering.lt p q e k x = ground arith
bound_of n Ordering.eq p q e k x = ground arith
bound_of n Ordering.gt Ordering.lt Ordering.lt e k x = ground arith
bound_of n Ordering.gt Ordering.lt Ordering.eq e k x = elim x [ ]
bound_of n Ordering.gt Ordering.lt Ordering.gt e k x = elim x [ ]
bound_of n Ordering.gt Ordering.eq q e k x = elim x [ ]
bound_of n Ordering.gt Ordering.gt q e k x = elim x [ ]

code_bound : (c : Char) → code c < 1114112
code_bound (char n h) =
    bound_of n (compare n 55296) (compare 57343 n) (compare n 1114112) refl refl h

abbrev encode : String → List ℕ
encode String.[] = []
encode (String.◌∷◌ c s) = (code c % 256) ∷ (code c / 256 % 256) ∷ (code c / 65536 % 256) ∷ encode s

abbrev cons? : Option Char → Option String → Option String
cons? (some c) (some s) = some (String.◌∷◌ c s)
cons? _ _ = none

abbrev decode : List ℕ → Option String
decode [] = some String.[]
decode (x ∷ y ∷ z ∷ bs) = cons? (char_of (x + 256 * y + 65536 * z)) (decode bs)
decode _ = none

encode-IsBytes : (s : String) → IsBytes (encode s)
encode-IsBytes String.[] = tt
encode-IsBytes (String.◌∷◌ c s) = (omega arith, (omega arith, (omega arith, encode-IsBytes s)))

decode-encode : (s : String) → decode (encode s) ≡ some s
decode-encode String.[] = refl
decode-encode (String.◌∷◌ c s) =
    let bound = code_bound c in
    let same : code c % 256 + 256 * (code c / 256 % 256) + 65536 * (code c / 65536 % 256) ≡ code c =
      omega arith in
    rw (same, char_of-code c, decode-encode s) refl

abbrev pub open_cipher : Crypto
open_cipher = record {
  sha256 = λ s. [];
  seal = λ key iv v. (encode v, []);
  unseal = λ key iv tag bs. decode bs;
}

pub open_cipher-IsCipher : IsCipher open_cipher
open_cipher-IsCipher = record {
  data_bytes = λ key iv v. encode-IsBytes v;
  tag_bytes = λ key iv v. tt;
  opens = λ key iv v. decode-encode v;
}
