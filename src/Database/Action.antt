-- ===== src/Database/Action.antt =====
-- A call that reads and writes a state and may throw. The state comes back after a throw too: what
-- undoes it is the database's rollback, not the language.
use node_with_aoth.Prelude.{Bool, true, false, Option, none, some}

-- What is thrown: the application's own errors, and the database's.
pub data Error : Type 0 where
  missing_event_id : Error
  bad_json : Error
  invalid_body : Error
  unique_violation not_null_violation out_of_range invalid_input : Error
  connection_lost : Error
  publish_failed : Error
  usage : Error
  bad_ciphertext : Error
  auth0_failed : Error
  invalid_token : Error

pub data Result (A : Type 0) : Type 0 where
  ok : A → Result A
  err : Error → Result A

abbrev pub Action : Type 0 → Type 0 → Type 0
Action S A = S → Result A × S

abbrev pub pure : {S A : Type 0} → A → Action S A
pure a s = (ok a, s)

abbrev pub raise : {S A : Type 0} → Error → Action S A
raise e s = (err e, s)

abbrev pub lift : {S A : Type 0} → Result A → Action S A
lift r s = (r, s)

abbrev pub gets : {S A : Type 0} → (S → A) → Action S A
gets f s = (ok (f s), s)

abbrev pub modify : {S : Type 0} → (S → S) → Action S (Unit {0})
modify f s = (ok tt, f s)

-- The rest of a block, after a call that ended so.
abbrev pub follow : {S A B : Type 0} → (A → Action S B) → Result A × S → Result B × S
follow f (ok a, s) = f a s
follow f (err e, s) = (err e, s)

infixl 5 ◌>>=◌ ◌>>◌
abbrev pub ◌>>=◌ : {S A B : Type 0} → Action S A → (A → Action S B) → Action S B
◌>>=◌ m f s = follow f (m s)

abbrev pub ◌>>◌ : {S A B : Type 0} → Action S A → Action S B → Action S B
m >> k = m >>= λ _. k

-- `if (test) { m }`
abbrev pub when : {S : Type 0} → Bool → Action S (Unit {0}) → Action S (Unit {0})
when true m = m
when false m = pure tt

-- A value that must be there: a NOT NULL column.
abbrev pub not_null : {A : Type 0} → Option A → Result A
not_null none = err not_null_violation
not_null (some a) = ok a
