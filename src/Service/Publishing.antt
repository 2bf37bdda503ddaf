-- ===== src/Service/Publishing.antt =====
-- The outbox publisher: what a run keeps if each turn of its loop keeps it.
use node_with_aoth.Prelude.{◌≡◌, refl, List, [], ◌∷◌, take}
use node_with_aoth.Database.Action.{Result, ok, err, Action, follow}
use node_with_aoth.Messaging.{Message}
use node_with_aoth.Service.Tables.{Db, OutboxRow}
use node_with_aoth.Service.Outbox.{
  RowFault, delivered, not_sent, not_acknowledged, not_marked, batch_limit, pending, publish_row,
  publish_rows, publish_outbox_batch, get_pending_outbox_batch,
}

module _ {S : Type 0} where
  -- One turn: the row is sent, or not, and its id is marked after a send that was acknowledged.
  store-publish_row :
      (x : S) (f : RowFault) (r : OutboxRow) (s : Db S × List Message)
      → s.0.store ≡ x
      → (publish_row f r s).1.0.store ≡ x
  unfolding publish_row
  store-publish_row x delivered r s h = h
  store-publish_row x (not_sent e) r s h = h
  store-publish_row x (not_acknowledged e) r s h = h
  store-publish_row x (not_marked e) r s h = h

module _ {κ} {S : Type 0} (P : Db S × List Message → Type κ) where
  follow_keeps :
      (k : Action (Db S × List Message) (Unit {0}))
      → ((t : Db S × List Message) → P t → P (k t).1)
      → (a : Result (Unit {0})) (t : Db S × List Message) → P t
      → P (follow (λ _. k) (a, t)).1
  follow_keeps k keeps (ok a) t h = keeps t h
  follow_keeps k keeps (err e) t h = h

  module _
      (turn : (f : RowFault) (r : OutboxRow) (s : Db S × List Message)
        → P s
        → P (publish_row f r s).1) where
    -- A run keeps what each turn of its loop keeps.
    publish_rows-Keeps :
        (fs : List RowFault) (rows : List OutboxRow) (s : Db S × List Message)
        → P s
        → P (publish_rows fs rows s).1
    unfolding publish_rows
    publish_rows-Keeps fs [] s h = h
    publish_rows-Keeps [] (r ∷ rows) s h =
        follow_keeps (publish_rows [] rows) (publish_rows-Keeps [] rows)
          (publish_row delivered r s).0 (publish_row delivered r s).1 (turn delivered r s h)
    publish_rows-Keeps (f ∷ fs) (r ∷ rows) s h =
        follow_keeps (publish_rows fs rows) (publish_rows-Keeps fs rows) (publish_row f r s).0
          (publish_row f r s).1 (turn f r s h)

    pub publish_outbox_batch-Keeps :
        (fs : List RowFault) (s : Db S × List Message) → P s → P (publish_outbox_batch fs s).1
    unfolding publish_outbox_batch get_pending_outbox_batch
    publish_outbox_batch-Keeps fs (db, log) h =
        publish_rows-Keeps fs (take batch_limit (pending db.outbox)) (db, log) h

-- The publisher writes no table but the outbox.
pub store-publish_outbox_batch :
    {S : Type 0} (fs : List RowFault) (s : Db S × List Message)
    → (publish_outbox_batch fs s).1.0.store ≡ s.0.store
store-publish_outbox_batch fs s =
    publish_outbox_batch-Keeps (λ t. t.0.store ≡ s.0.store) (store-publish_row s.0.store) fs s refl
