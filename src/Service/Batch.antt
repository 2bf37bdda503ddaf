-- ===== src/Service/Batch.antt =====
-- A run of `publishOutboxBatch` that meets no failure, and a number of them one after the other.
use node_with_aoth.Prelude.{
  ℕ, zero, suc, ◌*◌, ◌≤◌, ◌≡◌, ◌==◌, refl, sym, ap, ◌∙◌, String, Bool, true, false, List, [], ◌∷◌,
  ◌++◌, map, append_assoc, append-nil, map-append, subst, length, take, drop, take-append-drop,
  length-drop_bound, arith, ==_refl, if◌then◌else◌,
}
use node_with_aoth.Database.Action.{Result, ok}
use node_with_aoth.Messaging.{Message}
use node_with_aoth.Service.Tables.{OutboxRow, Db, has_row}
use node_with_aoth.Service.Outbox.{
  batch_limit, pending, mark_published, row_message, publish_row, publish_rows,
  publish_outbox_batch, get_pending_outbox_batch,
}

-- `id` is the primary key of the outbox.
abbrev pub UniqueIds : List OutboxRow → Type 0
UniqueIds [] = Unit
UniqueIds (r ∷ rows) = (has_row r.id rows ≡ false) × UniqueIds rows

-- The rows that do not have the id.
without : String → List OutboxRow → List OutboxRow
without i [] = []
without i (r ∷ rows) = let rest = without i rows in if r.id == i then rest else r ∷ rest

has_row-pending :
    (i : String) (rows : List OutboxRow) → has_row i rows ≡ false → has_row i (pending rows) ≡ false
has_row-pending i [] h = refl
has_row-pending i (r ∷ rows) h = ground (arith, has_row-pending i rows)

UniqueIds-pending : (rows : List OutboxRow) → UniqueIds rows → UniqueIds (pending rows)
UniqueIds-pending [] u = tt
UniqueIds-pending (r ∷ rows) u = by_test r.published (UniqueIds-pending rows u.1)
  where
    by_test :
        (b : Bool)
        → UniqueIds (pending rows)
        → UniqueIds (if b then pending rows else r ∷ pending rows)
    by_test true ih = ih
    by_test false ih = (has_row-pending r.id rows u.0, ih)

pending-mark :
    (i : String) (rows : List OutboxRow)
    → pending (mark_published i rows) ≡ without i (pending rows)
unfolding without
pending-mark i [] = refl
pending-mark i (r ∷ rows) = ground (arith, pending-mark i rows)

without-absent :
    (i : String) (rows : List OutboxRow) → has_row i rows ≡ false → without i rows ≡ rows
unfolding without
without-absent i [] h = refl
without-absent i (r ∷ rows) h = ground (arith, without-absent i rows)

without-head :
    (r : OutboxRow) (rows : List OutboxRow)
    → has_row r.id rows ≡ false
    → without r.id (r ∷ rows) ≡ rows
unfolding without
without-head r rows h = rw (==_refl r.id) (without-absent r.id rows h)

has_row-mark :
    (i j : String) (rows : List OutboxRow) → has_row i (mark_published j rows) ≡ has_row i rows
has_row-mark i j [] = refl
has_row-mark i j (r ∷ rows) = ground (arith, has_row-mark i j rows)

UniqueIds-mark :
    (i : String) (rows : List OutboxRow) → UniqueIds rows → UniqueIds (mark_published i rows)
UniqueIds-mark i [] u = tt
UniqueIds-mark i (r ∷ rows) u = by_test (r.id == i) (UniqueIds-mark i rows u.1)
  where
    by_test :
        (b : Bool)
        → UniqueIds (mark_published i rows)
        → UniqueIds ((if b then record r { published = true } else r) ∷ mark_published i rows)
    by_test true ih = (has_row-mark r.id i rows ∙ u.0, ih)
    by_test false ih = (has_row-mark r.id i rows ∙ u.0, ih)

-- The outbox after the rows are marked one after the other.
mark_all : List OutboxRow → List OutboxRow → List OutboxRow
mark_all [] rows = rows
mark_all (r ∷ sent) rows = mark_all sent (mark_published r.id rows)

UniqueIds-mark_all : (sent rows : List OutboxRow) → UniqueIds rows → UniqueIds (mark_all sent rows)
unfolding mark_all
UniqueIds-mark_all [] rows u = u
UniqueIds-mark_all (r ∷ sent) rows u =
    UniqueIds-mark_all sent (mark_published r.id rows) (UniqueIds-mark r.id rows u)

pending-mark_all :
    (sent rest rows : List OutboxRow)
    → pending rows ≡ sent ++ rest
    → UniqueIds (sent ++ rest)
    → pending (mark_all sent rows) ≡ rest
unfolding mark_all
pending-mark_all [] rest rows e u = e
pending-mark_all (r ∷ sent) rest rows e u =
    pending-mark_all sent rest (mark_published r.id rows)
      (pending-mark r.id rows ∙ ap (without r.id) e ∙ without-head r (sent ++ rest) u.0) u.1

pending_split :
    (rows : List OutboxRow)
    → UniqueIds rows
    → pending (mark_all (take batch_limit (pending rows)) rows) ≡ drop batch_limit (pending rows)
pending_split rows u =
    let whole = take-append-drop batch_limit (pending rows) in
    pending-mark_all (take batch_limit (pending rows)) (drop batch_limit (pending rows)) rows
      (sym whole) (subst UniqueIds (sym whole) (UniqueIds-pending rows u))

module _ {S : Type 0} where
  publish_rows-run :
      (sent : List OutboxRow) (db : Db S) (log : List Message)
      → publish_rows [] sent (db, log)
        ≡ (ok tt, (record db { outbox = mark_all sent db.outbox }, log ++ map row_message sent))
  unfolding publish_rows publish_row mark_all
  publish_rows-run [] db log = rw (append-nil log) refl
  publish_rows-run (r ∷ sent) db log =
      publish_rows-run sent (record db { outbox = mark_published r.id db.outbox })
        (log ++ row_message r ∷ [])
      ∙ rw (append_assoc log (row_message r ∷ []) (map row_message sent)) refl

  publish_outbox_batch-run :
      (db : Db S) (log : List Message)
      → publish_outbox_batch [] (db, log) ≡ (
        ok tt,
        (
          record db { outbox = mark_all (take batch_limit (pending db.outbox)) db.outbox },
          log ++ map row_message (take batch_limit (pending db.outbox)),
        ),
      )
  unfolding publish_outbox_batch get_pending_outbox_batch
  publish_outbox_batch-run db log = publish_rows-run (take batch_limit (pending db.outbox)) db log

  -- A run that meets no failure, on an outbox whose ids are unique, returns. It sends the first 25
  -- of the rows that are not published, in their order, and after it exactly the others are still
  -- not published.
  pub publish_outbox_batch-sends :
      (db : Db S) (log : List Message)
      → UniqueIds db.outbox
      → let (r, (after, sent)) = publish_outbox_batch [] (db, log) in
        (r ≡ ok tt)
        × (sent ≡ log ++ map row_message (take 25 (pending db.outbox)))
        × (pending after.outbox ≡ drop 25 (pending db.outbox))
  publish_outbox_batch-sends db log u =
      rw (publish_outbox_batch-run db log) (refl, refl, pending_split db.outbox u)

  -- So many runs, each `setInterval` turn after the one before.
  abbrev pub publish_batches : ℕ → Db S × List Message → Db S × List Message
  publish_batches zero s = s
  publish_batches (suc n) s = publish_batches n (publish_outbox_batch [] s).1

  -- Runs that meet no failure empty the outbox: after `n` of them, on an outbox with unique ids and
  -- at most `25 * n` rows that are not published, none is left, and each of those rows was sent
  -- exactly once, in the order of the outbox.
  pub publish_batches-drains :
      (n : ℕ) (db : Db S) (log : List Message)
      → UniqueIds db.outbox
      → length (pending db.outbox) ≤ 25 * n
      → let (after, sent) = publish_batches n (db, log) in
        (pending after.outbox ≡ []) × (sent ≡ log ++ map row_message (pending db.outbox))
  publish_batches-drains zero db log u few =
      let none_left = empty_list (pending db.outbox) (omega (arith, few)) in
      (none_left, rw (none_left, append-nil log) refl)
    where
      empty_list : (rows : List OutboxRow) → length rows ≤ 0 → rows ≡ []
      empty_list [] h = refl
      empty_list (r ∷ rows) h = absurd (omega (arith, h))
  publish_batches-drains (suc n) db log u few =
      let now = take 25 (pending db.outbox) in
      let later = drop 25 (pending db.outbox) in
      let marked = mark_all now db.outbox in
      let left = pending_split db.outbox u in
      let (done, sent) =
        publish_batches-drains n (record db { outbox = marked }) (log ++ map row_message now)
          (UniqueIds-mark_all now db.outbox u)
          (subst (λ rows. length rows ≤ 25 * n) (sym left)
            (length-drop_bound 25 (25 * n) (pending db.outbox) (omega (arith, few)))) in
      subst
        (λ (x : Result (Unit {0}) × (Db S × List Message)).
          let (after, sent) = publish_batches n x.1 in
          (pending after.outbox ≡ []) × (sent ≡ log ++ map row_message (pending db.outbox)))
        (sym (publish_outbox_batch-run db log))
        (
          done,
          sent
              ∙ ap (λ rows. (log ++ map row_message now) ++ map row_message rows) left
              ∙ append_assoc log (map row_message now) (map row_message later)
              ∙ ap (λ rows. log ++ rows)
                  (sym (map-append row_message now later)
                    ∙ ap (map row_message) (take-append-drop 25 (pending db.outbox))),
        )
