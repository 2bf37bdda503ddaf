-- ===== src/Database/Atomicity.antt =====
-- What `withTransaction` promises its callers, whatever fails on the way.
use node_with_aoth.Prelude.{
  ◌≡◌, Bool, true, false, refl, sym, subst, ◌⊎◌, inl, inr, Option, none, some,
}
use node_with_aoth.Database.Action.{Error, Result, ok, err, Action}
use node_with_aoth.Database.Transaction.{
  CommitOutcome, committed, refused, lost, Faults, no_faults, Client, client_transaction, connected,
  with_transaction,
}

-- A client in the pool: given back, and with no open transaction.
pub record Idle {S : Type 0} (c : Client S) : Type 0 where
  pub given_back : c.released ≡ true
  pub closed : c.working ≡ none

module _ {S A : Type 0} where
  -- What other connections may see after a call: the callback's whole effect, if it returned, or
  -- nothing of it; and an answer only with the effect.
  abbrev pub Whole : Action S A → S → Result A × S → Type 0
  Whole m s (ok a, s') = m s ≡ (ok a, s')
  Whole m s (err e, s') = (s' ≡ s) ⊎ ((a : A) × (m s ≡ (ok a, s')))

  -- The state after a callback that ended so, in a transaction with no other failure.
  abbrev pub settle : S → Result A × S → Result A × S
  settle s (ok a, s') = (ok a, s')
  settle s (err e, _) = (err e, s)

  from_Whole {κ} :
      (P : S → Type κ) (m : Action S A) (s : S) (r : Result A) (s' : S)
      → P s
      → ((a : A) (s' : S) → m s ≡ (ok a, s') → P s')
      → Whole m s (r, s')
      → P s'
  from_Whole P m s (ok a) s' before after e = after a s' e
  from_Whole P m s (err x) s' before after (inl same) = subst P (sym same) before
  from_Whole P m s (err x) s' before after (inr (a, e)) = after a s' e

  -- How a call ends: answered, with the callback's whole effect and its value; or with an exception
  -- and either nothing of the effect or, only where the acknowledgement of "COMMIT" was lost, all
  -- of it.
  abbrev pub Ends : CommitOutcome → Action S A → S → Result A × S → Type 0
  Ends k m s (ok a, s') = m s ≡ (ok a, s')
  Ends k m s (err e, s') =
      (s' ≡ s) ⊎ (((x : Error) × (k ≡ lost x)) × ((a : A) × (m s ≡ (ok a, s'))))

  -- A call on the client `c`, and what `withTransaction` makes of it.
  pub record Atomic (f : Faults) (m : Action S A) (c : Client S) : Type 0 where
    pub ends : Ends f.commit m c.stored (with_transaction f m c.stored)
    pub on_this :
        Ends f.commit m c.stored ((client_transaction f m c).0, (client_transaction f m c).1.stored)
    pub idle : Idle (client_transaction f m c).1

  Done : Faults → Action S A → Client S → Type 0
  Done f m c =
      Ends f.commit m c.stored ((client_transaction f m c).0, (client_transaction f m c).1.stored)
      × Idle (client_transaction f m c).1

  finishes :
      (g : Bool) (s : S) (c x : Option Error) (k : CommitOutcome) (b : Option Error)
      (m : Action S A) (r : Result A) (s' : S)
      → m s ≡ (r, s')
      → Done
          (record { connect = c; begin = x; commit = k; rollback = b })
          m
          (record { stored = s; working = none; released = g })
  unfolding Done client_transaction
  finishes g s c (some x) k none m r s' e = (inl refl, record { given_back = refl; closed = refl })
  finishes g s c (some x) k (some y) m r s' e =
      (inl refl, record { given_back = refl; closed = refl })
  finishes g s c none committed b m (ok a) s' e =
      rw e (e, record { given_back = refl; closed = refl })
  finishes g s c none (refused x) none m (ok a) s' e =
      rw e (inl refl, record { given_back = refl; closed = refl })
  finishes g s c none (refused x) (some y) m (ok a) s' e =
      rw e (inl refl, record { given_back = refl; closed = refl })
  finishes g s c none (lost x) none m (ok a) s' e =
      rw e (inr ((x, refl), (a, e)), record { given_back = refl; closed = refl })
  finishes g s c none (lost x) (some y) m (ok a) s' e =
      rw e (inr ((x, refl), (a, e)), record { given_back = refl; closed = refl })
  finishes g s c none k none m (err x) s' e =
      rw e (inl refl, record { given_back = refl; closed = refl })
  finishes g s c none k (some y) m (err x) s' e =
      rw e (inl refl, record { given_back = refl; closed = refl })

  -- Whichever of the connection, "BEGIN", the callback, "COMMIT" and "ROLLBACK" fail, on a client with
  -- no open transaction: a caller that is answered has the callback's whole effect and its value; a
  -- caller that gets an exception has nothing of the effect or, only where "COMMIT" was applied and
  -- its acknowledgement lost, all of it; and the client goes back to the pool with no open
  -- transaction.
  pub with_transaction-Atomic :
      (f : Faults) (m : Action S A) (c : Client S) → c.working ≡ none → Atomic f m c
  unfolding with_transaction Done
  with_transaction-Atomic f m c closed =
      subst (λ w. Atomic f m (record { stored = c.stored; working = w; released = c.released }))
        (sym closed)
        (let here = done c.released in
          record { ends = called f.connect refl; on_this = here.0; idle = here.1 })
    where
      done : (g : Bool) → Done f m (record { stored = c.stored; working = none; released = g })
      done g =
          finishes g c.stored f.connect f.begin f.commit f.rollback m (m c.stored).0 (m c.stored).1
            refl

      called :
          (e : Option Error)
          → f.connect ≡ e
          → Ends f.commit m c.stored (with_transaction f m c.stored)
      called (some x) e = rw e (inl refl)
      called none e = rw e (done false).0

  Ends-Whole :
      (k : CommitOutcome) (m : Action S A) (s : S) (r : Result A) (s' : S)
      → Ends k m s (r, s')
      → Whole m s (r, s')
  Ends-Whole k m s (ok a) s' e = e
  Ends-Whole k m s (err x) s' (inl same) = inl same
  Ends-Whole k m s (err x) s' (inr (lost_so, done)) = inr done

  pub with_transaction-Whole :
      (f : Faults) (m : Action S A) (s : S) → Whole m s (with_transaction f m s)
  with_transaction-Whole f m s =
      Ends-Whole f.commit m s (with_transaction f m s).0 (with_transaction f m s).1
        (with_transaction-Atomic f m (connected s) refl).ends

  -- With no failure outside the callback: its effect if it returned, else the state as it was.
  pub with_transaction-no_faults :
      (m : Action S A) (s : S) → with_transaction no_faults m s ≡ settle s (m s)
  unfolding with_transaction
  with_transaction-no_faults m s = settled (m s).0 (m s).1 refl
    where
      settled :
          (r : Result A) (s' : S) → m s ≡ (r, s') → with_transaction no_faults m s ≡ settle s (m s)
      settled (ok a) s' e = rw e refl
      settled (err x) s' e = rw e refl

  -- What holds before a transaction, and after its callback where that returned, holds after it.
  pub with_transaction-Keeps {κ} :
      (P : S → Type κ) (f : Faults) (m : Action S A) (s : S)
      → P s
      → ((a : A) (s' : S) → m s ≡ (ok a, s') → P s')
      → P (with_transaction f m s).1
  with_transaction-Keeps P f m s before after =
      from_Whole P m s (with_transaction f m s).0 (with_transaction f m s).1 before after
        (with_transaction-Whole f m s)
