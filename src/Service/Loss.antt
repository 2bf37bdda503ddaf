-- ===== src/Service/Loss.antt =====
-- Runs of `publishOutboxBatch` that may fail at any step: no event is lost.
use node_with_aoth.Prelude.{
  ◌≡◌, ◌==◌, refl, sym, ◌∙◌, subst, String, Bool, true, false, List, [], ◌∷◌, ◌++◌, map, All, take,
  append_assoc, arith, ==_iff, if◌then◌else◌,
}
use node_with_aoth.Database.Action.{Result, ok, err, Action, follow}
use node_with_aoth.Messaging.{Message}
use node_with_aoth.Service.Tables.{Db, OutboxRow, has_row}
use node_with_aoth.Service.Outbox.{
  RowFault, delivered, not_sent, not_acknowledged, not_marked, batch_limit, pending, mark_published,
  row_message, publish_row, publish_rows, publish_outbox_batch, get_pending_outbox_batch,
}
use node_with_aoth.Service.Batch.{UniqueIds}
use node_with_aoth.Service.Pending.{All-pending, All-take}

-- The message stands in the log.
abbrev pub Logged : Message → List Message → Type 0
Logged m log = (before : List Message) × (after : List Message) × (log ≡ before ++ m ∷ after)

-- Every row that is marked as published has its message in the log.
abbrev pub AllSent : List OutboxRow → List Message → Type 0
AllSent rows log = All (λ r. r.published ≡ true → Logged (row_message r) log) rows

-- The rows with the id of `q` stand for the same message as `q`.
Agrees : OutboxRow → List OutboxRow → Type 0
Agrees q rows = All (λ r. r.id ≡ q.id → row_message r ≡ row_message q) rows

Logged-grows : (m x : Message) (log : List Message) → Logged m log → Logged m (log ++ x ∷ [])
Logged-grows m x log (before, after, e) =
    (before, after ++ x ∷ [], rw e (append_assoc before (m ∷ after) (x ∷ [])))

AllSent-grows :
    (x : Message) (rows : List OutboxRow) (log : List Message)
    → AllSent rows log
    → AllSent rows (log ++ x ∷ [])
AllSent-grows x [] log h = tt
AllSent-grows x (r ∷ rows) log h =
    (λ p. Logged-grows (row_message r) x log (h.0 p), AllSent-grows x rows log h.1)

-- Marking a row whose message is in the log.
AllSent-mark :
    (q : OutboxRow) (rows : List OutboxRow) (log : List Message)
    → Agrees q rows
    → Logged (row_message q) log
    → AllSent rows log
    → AllSent (mark_published q.id rows) log
unfolding row_message Agrees
AllSent-mark q [] log same logged h = tt
AllSent-mark q (r ∷ rows) log same logged h =
    (by_test (r.id == q.id) refl, AllSent-mark q rows log same.1 logged h.1)
  where
    by_test :
        (b : Bool)
        → (r.id == q.id) ≡ b
        → let r' = if b then record r { published = true } else r in
          r'.published ≡ true → Logged (row_message r') log
    by_test true e p = subst (λ m. Logged m log) (sym (same.0 ((==_iff r.id q.id).0 e))) logged
    by_test false e p = h.0 p

row_message-mark :
    (i : String) (rows : List OutboxRow)
    → map row_message (mark_published i rows) ≡ map row_message rows
unfolding row_message
row_message-mark i [] = refl
row_message-mark i (r ∷ rows) = ground (arith, row_message-mark i rows)

Agrees-mark :
    (q : OutboxRow) (i : String) (rows : List OutboxRow)
    → Agrees q rows
    → Agrees q (mark_published i rows)
unfolding Agrees row_message
Agrees-mark q i [] h = tt
Agrees-mark q i (r ∷ rows) h = (by_test (r.id == i), Agrees-mark q i rows h.1)
  where
    by_test :
        (b : Bool)
        → let r' = if b then record r { published = true } else r in
          r'.id ≡ q.id → row_message r' ≡ row_message q
    by_test true e = h.0 e
    by_test false e = h.0 e

Agrees-absent : (r : OutboxRow) (rows : List OutboxRow) → has_row r.id rows ≡ false → Agrees r rows
unfolding Agrees
Agrees-absent r [] h = tt
Agrees-absent r (q ∷ rows) h =
    (λ e. absurd (ground (arith, ==_iff q.id r.id)), Agrees-absent r rows (ground arith))

-- A row in front, of another id than all rows of the list.
Agrees-before :
    (r : OutboxRow) (read rows : List OutboxRow)
    → has_row r.id read ≡ false
    → All (λ q. Agrees q rows) read
    → All (λ q. Agrees q (r ∷ rows)) read
unfolding Agrees
Agrees-before r [] rows h agree = tt
Agrees-before r (q ∷ read) rows h agree = (
  (λ e. absurd (ground (arith, ==_iff q.id r.id)), agree.0),
  Agrees-before r read rows (ground arith) agree.1,
)

Agrees-All : (rows : List OutboxRow) → UniqueIds rows → All (λ q. Agrees q rows) rows
unfolding Agrees
Agrees-All [] u = tt
Agrees-All (r ∷ rows) u =
    ((λ e. refl, Agrees-absent r rows u.0), Agrees-before r rows rows u.0 (Agrees-All rows u.1))

All-marked :
    (i : String) (read rows : List OutboxRow)
    → All (λ q. Agrees q rows) read
    → All (λ q. Agrees q (mark_published i rows)) read
All-marked i [] rows h = tt
All-marked i (q ∷ read) rows h = (Agrees-mark q i rows h.0, All-marked i read rows h.1)

module _ {S : Type 0} where
  -- What the loop keeps while it has the rows `read` before it, and the messages that the outbox
  -- started with.
  record Going (start : List Message) (read : List OutboxRow) (s : Db S × List Message)
      : Type 0 where
    agree : All (λ q. Agrees q s.0.outbox) read
    sent : AllSent s.0.outbox s.1
    kept : map row_message s.0.outbox ≡ start

  module _ (start : List Message) where
    row-Going :
        (f : RowFault) (r : OutboxRow) (read : List OutboxRow) (s : Db S × List Message)
        → Going start (r ∷ read) s
        → Going start read (publish_row f r s).1
    unfolding publish_row
    row-Going delivered r read (db, log) g = record {
      agree = All-marked r.id read db.outbox g.agree.1;
      sent =
          AllSent-mark r db.outbox (log ++ row_message r ∷ []) g.agree.0 (log, [], refl)
            (AllSent-grows (row_message r) db.outbox log g.sent);
      kept = row_message-mark r.id db.outbox ∙ g.kept;
    }
    row-Going (not_sent e) r read (db, log) g = record {
      agree = g.agree.1;
      sent = g.sent;
      kept = g.kept;
    }
    row-Going (not_acknowledged e) r read (db, log) g = record {
      agree = g.agree.1;
      sent = AllSent-grows (row_message r) db.outbox log g.sent;
      kept = g.kept;
    }
    row-Going (not_marked e) r read (db, log) g = record {
      agree = g.agree.1;
      sent = AllSent-grows (row_message r) db.outbox log g.sent;
      kept = g.kept;
    }

    -- The state after the loop, ended early or not.
    Ended : Db S × List Message → Type 0
    Ended s = AllSent s.0.outbox s.1 × (map row_message s.0.outbox ≡ start)

    follow-Ended :
        (read : List OutboxRow) (k : Action (Db S × List Message) (Unit {0}))
        → ((t : Db S × List Message) → Going start read t → Ended (k t).1)
        → (a : Result (Unit {0})) (t : Db S × List Message) → Going start read t
        → Ended (follow (λ _. k) (a, t)).1
    unfolding Ended
    follow-Ended read k ends (ok a) t g = ends t g
    follow-Ended read k ends (err e) t g = (g.sent, g.kept)

    rows-Ended :
        (fs : List RowFault) (read : List OutboxRow) (s : Db S × List Message)
        → Going start read s
        → Ended (publish_rows fs read s).1
    unfolding publish_rows Ended
    rows-Ended fs [] s g = (g.sent, g.kept)
    rows-Ended [] (r ∷ read) s g =
        follow-Ended read (publish_rows [] read) (rows-Ended [] read) (publish_row delivered r s).0
          (publish_row delivered r s).1 (row-Going delivered r read s g)
    rows-Ended (f ∷ fs) (r ∷ read) s g =
        follow-Ended read (publish_rows fs read) (rows-Ended fs read) (publish_row f r s).0
          (publish_row f r s).1 (row-Going f r read s g)

  -- A run of the publisher loses no event, whichever of its steps fail. If the ids of the outbox
  -- are unique and each row that is marked as published has its message in the log, then each row
  -- that is marked after the run has its message in the log too; and the outbox then stands for
  -- the same messages, in the same order, as before.
  pub publish_outbox_batch-AllSent :
      (fs : List RowFault) (db : Db S) (log : List Message)
      → UniqueIds db.outbox
      → AllSent db.outbox log
      → let (after, sent) = (publish_outbox_batch fs (db, log)).1 in
        AllSent after.outbox sent × (map row_message after.outbox ≡ map row_message db.outbox)
  unfolding publish_outbox_batch get_pending_outbox_batch Ended
  publish_outbox_batch-AllSent fs db log u h =
      rows-Ended (map row_message db.outbox) fs (take batch_limit (pending db.outbox)) (db, log)
        (record {
          agree =
              All-take (λ q. Agrees q db.outbox) batch_limit (pending db.outbox)
                (All-pending (λ q. Agrees q db.outbox) db.outbox (Agrees-All db.outbox u));
          sent = h;
          kept = refl;
        })
