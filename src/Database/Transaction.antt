-- ===== src/Database/Transaction.antt =====
-- `withTransaction` of packages/database/src/index.ts, over one pooled connection. What Postgres
-- and the network do is an argument: which of the four commands around the callback fail.
use node_with_aoth.Prelude.{Bool, true, false, Option, none, some}
use node_with_aoth.Database.Action.{Error, Result, ok, err, Action, pure, raise, ◌>>=◌, ◌>>◌}

-- How "COMMIT" ends: acknowledged; refused, with nothing written; or applied by the server with
-- the acknowledgement lost.
pub data CommitOutcome : Type 0 where
  committed : CommitOutcome
  refused lost : Error → CommitOutcome

-- The failures that a call meets. `none` is a command that succeeds.
pub record Faults : Type 0 where
  pub connect : Option Error
  pub begin : Option Error
  pub commit : CommitOutcome
  pub rollback : Option Error

abbrev pub no_faults : Faults
no_faults = record { connect = none; begin = none; commit = committed; rollback = none }

-- A `PoolClient`: the state that other connections see, the state inside the open transaction, and
-- whether the client is back in the pool.
pub record Client (S : Type 0) : Type 0 where
  pub stored : S
  pub working : Option S
  pub released : Bool

module _ {S : Type 0} where
  abbrev pub fail_or : Option Error → Action (Client S) (Unit {0}) → Action (Client S) (Unit {0})
  fail_or (some e) m c = (err e, c)
  fail_or none m c = m c

  -- client.query("BEGIN"). Inside an open transaction it is a warning, and the transaction goes on.
  abbrev pub begin : Faults → Action (Client S) (Unit {0})
  begin f =
      fail_or f.begin
        λ c. (ok tt, record c { working = some (elim c.working [ none ↦ c.stored | some w ↦ w ]) })

  -- client.query("COMMIT")
  abbrev pub commit_as : CommitOutcome → Action (Client S) (Unit {0})
  commit_as committed c =
      (ok tt, record c { stored = elim c.working [ none ↦ c.stored | some w ↦ w ]; working = none })
  commit_as (refused e) c = (err e, c)
  commit_as (lost e) c =
      (err e, record c { stored = elim c.working [ none ↦ c.stored | some w ↦ w ]; working = none })

  -- client.query("ROLLBACK"). If the command itself fails, the server drops the transaction with
  -- the connection.
  abbrev pub rollback : Faults → Action (Client S) (Unit {0})
  rollback f c = (elim f.rollback [ none ↦ ok tt | some e ↦ err e ], record c { working = none })

  -- client.release()
  abbrev pub release : Client S → Client S
  release c = record c { released = true }

  -- pool.connect(). No call gives back a client with an open transaction (Database/Atomicity), so
  -- that the client that the pool takes out has none.
  abbrev pub connected : S → Client S
  connected s = record { stored = s; working = none; released = false }

module _ {S A : Type 0} where
  -- A callback's statements run inside the open transaction.
  abbrev pub on_client : Action S A → Action (Client S) A
  on_client m c = elim c.working [
    | none ↦ let (r, s) = m c.stored in (r, record c { stored = s })
    | some w ↦ let (r, w') = m w in (r, record c { working = some w' })
  ]

  abbrev pub catch_with : (Error → Action (Client S) A) → Result A × Client S → Result A × Client S
  catch_with handler (ok a, c) = (ok a, c)
  catch_with handler (err e, c) = handler e c

  abbrev pub try_catch : Action (Client S) A → (Error → Action (Client S) A) → Action (Client S) A
  try_catch m handler c = catch_with handler (m c)

  abbrev pub try_finally : Action (Client S) A → (Client S → Client S) → Action (Client S) A
  try_finally m last c = let (r, c') = m c in (r, last c')

  -- The body of `withTransaction` once it has a client, in whatever state the client is.
  unfoldable pub client_transaction : Faults → Action S A → Action (Client S) A
  client_transaction f callback =
      try_finally
        (try_catch (do begin f; result ← on_client callback; commit_as f.commit; pure result)
          (λ error. do rollback f; raise error))
        release

  -- `withTransaction`, as it acts on what other connections see.
  unfoldable pub with_transaction : Faults → Action S A → Action S A
  unfolding client_transaction
  with_transaction f callback s = elim f.connect [
    | some e ↦ (err e, s)
    | none ↦ let (r, c) = client_transaction f callback (connected s) in (r, c.stored)
  ]
