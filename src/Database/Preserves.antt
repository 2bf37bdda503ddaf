-- ===== src/Database/Preserves.antt =====
-- Invariants of a state under calls that may throw: one rule for each way to put calls together.
use node_with_aoth.Prelude.{◌≡◌, refl, Bool, true, false, if◌then◌else◌}
use node_with_aoth.Database.Action.{
  Result, ok, err, Action, pure, lift, gets, modify, follow, ◌>>=◌,
}

-- `m` keeps `P`, whether it returns or throws.
pub record Preserves {κ} {S A : Type 0} (P : S → Type κ) (m : Action S A) : Type κ where
  pub at : (s : S) → P s → P (m s).1

module _ {κ} {S : Type 0} {P : S → Type κ} where
  pub Preserves-gets : {A : Type 0} (f : S → A) → Preserves P (gets f)
  Preserves-gets f = record { at = λ s h. h }

  pub Preserves-lift : {A : Type 0} (r : Result A) → Preserves P (lift r)
  Preserves-lift r = record { at = λ s h. h }

  pub Preserves-pure : {A : Type 0} (a : A) → Preserves P (pure {S = S} a)
  Preserves-pure a = record { at = λ s h. h }

  pub Preserves-modify : (f : S → S) → ((s : S) → P s → P (f s)) → Preserves P (modify f)
  Preserves-modify f keeps = record { at = keeps }

  Preserves-follow :
      {A B : Type 0} (k : A → Action S B)
      → ((a : A) → Preserves P (k a))
      → (r : Result A) (s : S) → P s
      → P (follow k (r, s)).1
  Preserves-follow k keeps (ok a) s h = (keeps a).at s h
  Preserves-follow k keeps (err e) s h = h

  pub Preserves-bind :
      {A B : Type 0} {m : Action S A} {k : A → Action S B}
      → Preserves P m
      → ((a : A) → Preserves P (k a))
      → Preserves P (m >>= k)
  Preserves-bind {m = m} {k = k} first rest = record {
    at = λ s h. Preserves-follow k rest (m s).0 (m s).1 (first.at s h);
  }

  -- A call that leaves the state alone, and the rest.
  pub Preserves-lifted :
      {A B : Type 0} (r : Result A) {k : A → Action S B}
      → ((a : A) → Preserves P (k a))
      → Preserves P (lift r >>= k)
  Preserves-lifted r rest = Preserves-bind (Preserves-lift r) rest

  pub Preserves-if :
      {A : Type 0} (b : Bool) {m k : Action S A}
      → Preserves P m
      → Preserves P k
      → Preserves P (if b then m else k)
  Preserves-if true h k = h
  Preserves-if false h k = k

-- A block that returned: its first call returned, and so did the rest.
pub >>=-eq-ok :
    {S A B : Type 0} (m : Action S A) (k : A → Action S B) (s : S) {b : B} {t : S}
    → (m >>= k) s ≡ (ok b, t)
    → (a : A) × (u : S) × (m s ≡ (ok a, u)) × (k a u ≡ (ok b, t))
>>=-eq-ok {S} {A} {B} m k s {b} {t} h = split (m s).0 (m s).1 refl h
  where
    split :
        (r : Result A) (u : S)
        → m s ≡ (r, u)
        → follow k (r, u) ≡ (ok b, t)
        → (a : A) × (u : S) × (m s ≡ (ok a, u)) × (k a u ≡ (ok b, t))
    split (ok a) u e x = (a, u, e, x)
    split (err x) u e y = absurd (cc)

pub lift-eq-ok :
    {S A B : Type 0} (r : Result A) (k : A → Action S B) (s : S) {b : B} {t : S}
    → (lift r >>= k) s ≡ (ok b, t)
    → (a : A) × (r ≡ ok a) × (k a s ≡ (ok b, t))
lift-eq-ok (ok a) k s h = (a, refl, h)
lift-eq-ok (err e) k s h = absurd (cc)
