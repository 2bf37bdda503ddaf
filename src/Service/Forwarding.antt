-- ===== src/Service/Forwarding.antt =====
-- What holds of all messages of an outbox holds of all that its publisher sends.
use node_with_aoth.Prelude.{
  ◌==◌, String, Bool, true, false, List, [], ◌∷◌, ◌++◌, take, All, All-append, Bool-cases, inl, inr,
  if◌then◌else◌,
}
use node_with_aoth.Shared.{Payload, Headers}
use node_with_aoth.Database.Action.{Result, ok, err, Action, follow}
use node_with_aoth.Messaging.{Message}
use node_with_aoth.Service.Tables.{Db, OutboxRow, has_row, new_row, insert_outbox}
use node_with_aoth.Service.Outbox.{
  RowFault, delivered, not_sent, not_acknowledged, not_marked, batch_limit, pending, mark_published,
  row_message, publish_row, publish_rows, publish_outbox_batch, get_pending_outbox_batch,
}
use node_with_aoth.Service.Pending.{All-pending, All-take}

module _ {κ} (Q : Message → Type κ) where
  -- Of the messages that the rows stand for.
  abbrev pub AllRows : List OutboxRow → Type κ
  AllRows rows = All (λ r. Q (row_message r)) rows

  pub AllRows-append :
      (rows : List OutboxRow) (r : OutboxRow)
      → AllRows rows
      → Q (row_message r)
      → AllRows (rows ++ r ∷ [])
  AllRows-append rows r h q = All-append (λ r. Q (row_message r)) rows (r ∷ []) h (q, tt)

  AllRows-mark :
      (i : String) (rows : List OutboxRow) → AllRows rows → AllRows (mark_published i rows)
  unfolding row_message
  AllRows-mark i [] h = tt
  AllRows-mark i (r ∷ rows) h = (by_test (r.id == i), AllRows-mark i rows h.1)
    where
      by_test : (b : Bool) → Q (row_message (if b then record r { published = true } else r))
      by_test true = h.0
      by_test false = h.0

  module _ {S : Type 0} where
    abbrev pub Both : Db S × List Message → Type κ
    Both s = AllRows s.0.outbox × All Q s.1

    row-Both :
        (f : RowFault) (r : OutboxRow) (s : Db S × List Message)
        → Q (row_message r)
        → Both s
        → Both (publish_row f r s).1
    unfolding publish_row
    row-Both delivered r (db, log) q h =
        (AllRows-mark r.id db.outbox h.0, All-append Q log (row_message r ∷ []) h.1 (q, tt))
    row-Both (not_sent e) r s q h = h
    row-Both (not_acknowledged e) r (db, log) q h =
        (h.0, All-append Q log (row_message r ∷ []) h.1 (q, tt))
    row-Both (not_marked e) r (db, log) q h =
        (h.0, All-append Q log (row_message r ∷ []) h.1 (q, tt))

    follow-Both :
        (k : Action (Db S × List Message) (Unit {0}))
        → ((t : Db S × List Message) → Both t → Both (k t).1)
        → (a : Result (Unit {0})) (t : Db S × List Message) → Both t
        → Both (follow (λ _. k) (a, t)).1
    follow-Both k keeps (ok a) t h = keeps t h
    follow-Both k keeps (err e) t h = h

    rows-Both :
        (fs : List RowFault) (rows : List OutboxRow)
        → AllRows rows
        → (s : Db S × List Message) → Both s
        → Both (publish_rows fs rows s).1
    unfolding publish_rows
    rows-Both fs [] q s h = h
    rows-Both [] (r ∷ rows) q s h =
        follow-Both (publish_rows [] rows) (rows-Both [] rows q.1) (publish_row delivered r s).0
          (publish_row delivered r s).1 (row-Both delivered r s q.0 h)
    rows-Both (f ∷ fs) (r ∷ rows) q s h =
        follow-Both (publish_rows fs rows) (rows-Both fs rows q.1) (publish_row f r s).0
          (publish_row f r s).1 (row-Both f r s q.0 h)

    pub publish_outbox_batch-Both :
        (fs : List RowFault) (s : Db S × List Message) → Both s → Both (publish_outbox_batch fs s).1
    unfolding publish_outbox_batch get_pending_outbox_batch
    publish_outbox_batch-Both fs (db, log) h =
        rows-Both fs (take batch_limit (pending db.outbox))
          (All-take (λ r. Q (row_message r)) batch_limit (pending db.outbox)
            (All-pending (λ r. Q (row_message r)) db.outbox h.0))
          (db, log) h

  pub outbox-insert_outbox :
      {S : Type 0} (i topic rk : String) (p : Payload) (hs : Headers) (s : Db S)
      → AllRows s.outbox
      → Q (row_message (new_row i topic rk p hs))
      → AllRows (insert_outbox i topic rk p hs s).1.outbox
  unfolding insert_outbox
  outbox-insert_outbox i topic rk p hs s h q = elim (Bool-cases (has_row i s.outbox)) [
    | inl old ↦ rw old h
    | inr new ↦ rw new (AllRows-append s.outbox (new_row i topic rk p hs) h q)
  ]
