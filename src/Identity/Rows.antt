-- ===== src/Identity/Rows.antt =====
-- Membership in the rows of a join, and in a list without its duplicates.
use mathlib.Core.List.Memᴰ.{head, tail, append_left, append_right, append_cases}
use node_with_aoth.Prelude.{
  ◌≡◌, ◌==◌, refl, sym, ◌∙◌, inl, inr, String, Bool, true, false, ◌||◌, List, [], ◌∷◌, ◌++◌, map,
  includes, Memᴰ, arith, Bool-cases, ==_iff, ==_refl, if◌then◌else◌,
}
use node_with_aoth.Identity.Authorizations.{join, remove, distinct}

module _ {A B : Type 0} (on : A → Bool) (rest : A → List B) where
  pub join_in :
      (x : A) (y : B) (xs : List A)
      → Memᴰ x xs
      → on x ≡ true
      → Memᴰ y (rest x)
      → Memᴰ y (join on xs rest)
  join_in x y [] k t m = elim k [ ]
  join_in x y (z ∷ xs) (head e) t m = rw (← e, t) (append_left (join on xs rest) m)
  join_in x y (z ∷ xs) (tail k) t m = by_test (on z) (join_in x y xs k t m)
    where
      by_test :
          (b : Bool)
          → Memᴰ y (join on xs rest)
          → Memᴰ y (if b then rest z ++ join on xs rest else join on xs rest)
      by_test true later = append_right (rest z) later
      by_test false later = later

  pub join_out :
      (y : B) (xs : List A)
      → Memᴰ y (join on xs rest)
      → (x : A) × Memᴰ x xs × (on x ≡ true) × Memᴰ y (rest x)
  join_out y [] m = absurd (elim m [ ])
  join_out y (z ∷ xs) m = by_test (on z) refl m (join_out y xs)
    where
      Found : List A → Type 0
      Found zs = (x : A) × Memᴰ x zs × (on x ≡ true) × Memᴰ y (rest x)

      later : Found xs → Found (z ∷ xs)
      later (x, k, t, m) = (x, tail k, t, m)

      by_test :
          (b : Bool)
          → on z ≡ b
          → Memᴰ y (if b then rest z ++ join on xs rest else join on xs rest)
          → (Memᴰ y (join on xs rest) → Found xs)
          → Found (z ∷ xs)
      by_test true t m below = elim (append_cases (rest z) m) [
        | inl k ↦ (z, head refl, t, k)
        | inr k ↦ later (below k)
      ]
      by_test false t m below = later (below m)

module _ (p : String) where
  includes-remove :
      (s : String) (xs : List String) → (p == s) ≡ false → includes p (remove s xs) ≡ includes p xs
  includes-remove s [] h = refl
  includes-remove s (x ∷ xs) h =
      ground (arith, ==_iff x s, ==_iff p x, ==_iff p s, includes-remove s xs h)

  pub includes-distinct : (xs : List String) → includes p (distinct xs) ≡ includes p xs
  includes-distinct [] = refl
  includes-distinct (x ∷ xs) = elim (Bool-cases (p == x)) [
    | inl e ↦ rw e refl
    | inr e ↦ rw e (includes-remove x (distinct xs) e ∙ includes-distinct xs)
  ]

  pub includes_in :
      (r : String × String) (rows : List (String × String))
      → Memᴰ r rows
      → r.1 ≡ p
      → includes p (map (λ (x : String × String). x.1) rows) ≡ true
  includes_in r [] k h = elim k [ ]
  includes_in r (x ∷ rows) (head e) h = rw (← e, h, ==_refl p) refl
  includes_in r (x ∷ rows) (tail k) h = ground (arith, includes_in r rows k h)

  pub includes_out :
      (rows : List (String × String))
      → includes p (map (λ (x : String × String). x.1) rows) ≡ true
      → (r : String × String) × Memᴰ r rows × (r.1 ≡ p)
  includes_out [] h = absurd (cc)
  includes_out (x ∷ rows) h = by_test (p == x.1) refl h (includes_out rows)
    where
      by_test :
          (b : Bool)
          → (p == x.1) ≡ b
          → (b || includes p (map (λ (x : String × String). x.1) rows)) ≡ true
          → (includes p (map (λ (x : String × String). x.1) rows) ≡ true
              → (r : String × String) × Memᴰ r rows × (r.1 ≡ p))
          → (r : String × String) × Memᴰ r (x ∷ rows) × (r.1 ≡ p)
      by_test true e h below = (x, head refl, sym ((==_iff p x.1).0 e))
      by_test false e h below = let (r, k, c) = below h in (r, tail k, c)
