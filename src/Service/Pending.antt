-- ===== src/Service/Pending.antt =====
-- What holds of all rows of an outbox holds of all that are read from it.
use node_with_aoth.Prelude.{
  ℕ, zero, suc, Bool, true, false, List, [], ◌∷◌, All, take, if◌then◌else◌,
}
use node_with_aoth.Service.Tables.{OutboxRow}
use node_with_aoth.Service.Outbox.{pending}

module _ {κ} (P : OutboxRow → Type κ) where
  pub All-pending : (rows : List OutboxRow) → All P rows → All P (pending rows)
  All-pending [] h = tt
  All-pending (r ∷ rows) h = by_test r.published (All-pending rows h.1)
    where
      by_test :
          (b : Bool) → All P (pending rows) → All P (if b then pending rows else r ∷ pending rows)
      by_test true rest = rest
      by_test false rest = (h.0, rest)

  pub All-take : (n : ℕ) (rows : List OutboxRow) → All P rows → All P (take n rows)
  All-take zero rows h = tt
  All-take (suc n) [] h = tt
  All-take (suc n) (r ∷ rows) h = (h.0, All-take n rows h.1)
