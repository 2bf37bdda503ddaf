-- ===== src/Payments/Settlement.antt =====
-- What a payment command does, approved or not.
use node_with_aoth.Prelude.{
  ◌≡◌, ◌==◌, refl, sym, ap, ◌∙◌, ◌≢◌, String, Bool, true, false, some, List, [], ◌∷◌, ◌++◌, arith,
  ==_iff, ==_refl, ==_ne, if◌then◌else◌,
}
use node_with_aoth.Shared.{topics, Number, number_le, Payload, no_payload}
use node_with_aoth.Database.Action.{ok}
use node_with_aoth.Database.Columns.{Cents, to_cents, is_uuid, to_uuid}
use node_with_aoth.Database.Transaction.{no_faults}
use node_with_aoth.Database.Atomicity.{settle}
use node_with_aoth.Messaging.{Message}
use node_with_aoth.Service.Tables.{
  Fresh, OutboxRow, has_event, has_row, recorded, new_row, insert_outbox,
}
use node_with_aoth.Service.Once.{consumed_event_id, consumed_routing_key}
use node_with_aoth.Service.Delivery.{process_once-new}
use node_with_aoth.Payments.Handler.{
  AttemptStatus, succeeded, failed, Attempt, PaymentsDb, find_attempt, upsert_attempt, save_attempt,
  create_event_envelope, result_payload, result_routing_key, process_payment,
  handle_payment_command,
}

find_attempt-upsert_self :
    (new : Attempt) (rest : List Attempt)
    → (a : Attempt) × (find_attempt new.order_id (upsert_attempt new rest) ≡ some a)
      × (a.status ≡ new.status)
find_attempt-upsert_self new [] = (new, rw (==_refl new.order_id) refl, refl)
find_attempt-upsert_self new (a ∷ rest) =
    by_test (a.order_id == new.order_id) refl (find_attempt-upsert_self new rest)
  where
    by_test :
        (b : Bool)
        → (a.order_id == new.order_id) ≡ b
        → ((x : Attempt) × (find_attempt new.order_id (upsert_attempt new rest) ≡ some x)
            × (x.status ≡ new.status))
        → (x : Attempt) × (find_attempt new.order_id (upsert_attempt new (a ∷ rest)) ≡ some x)
          × (x.status ≡ new.status)
    by_test true e ih = (record a { status = new.status }, ground arith, refl)
    by_test false e (x, found, status) = (x, ground arith, status)

find_attempt-upsert_other :
    (j : String) (new : Attempt) (rest : List Attempt)
    → j ≢ new.order_id
    → find_attempt j (upsert_attempt new rest) ≡ find_attempt j rest
find_attempt-upsert_other j new [] n = rw (==_ne new.order_id j (λ e. n (sym e))) refl
find_attempt-upsert_other j new (a ∷ rest) n = ground (
  arith,
  ==_iff a.order_id new.order_id,
  ==_iff a.order_id j,
  find_attempt-upsert_other j new rest n,
)

abbrev pub verdict : Bool → AttemptStatus
verdict approved = if approved then succeeded else failed

-- The outbox row of the answer.
abbrev pub answer_row : Fresh → Bool → Payload → OutboxRow
answer_row ids approved p =
    let e =
      create_event_envelope ids.event_id (result_routing_key approved)
        (result_payload approved p) in
    new_row ids.outbox_id topics.payment e.routing_key e.payload e.headers

-- The same row written out, for the order `i`.
abbrev pub answer : Fresh → String → Bool → OutboxRow
answer ids i true = record {
  id = ids.outbox_id;
  topic = "payment.events";
  routing_key = "payment.succeeded";
  payload = record no_payload {
    event_type = some "PaymentSucceeded";
    event_id = some ids.event_id;
    order_id = some i;
  };
  headers = ("eventId", ids.event_id) ∷ [];
  published = false;
}
answer ids i false = record {
  id = ids.outbox_id;
  topic = "payment.events";
  routing_key = "payment.failed";
  payload = record no_payload {
    event_type = some "PaymentFailed";
    event_id = some ids.event_id;
    order_id = some i;
    reason = some "Payment authorization failed";
  };
  headers = ("eventId", ids.event_id) ∷ [];
  published = false;
}

answer_row-is_answer :
    (ids : Fresh) (p : Payload) (i : String) (b : Bool)
    → p.order_id ≡ some i
    → answer_row ids b p ≡ answer ids i b
unfolding create_event_envelope
answer_row-is_answer ids p i true about = rw about refl
answer_row-is_answer ids p i false about = rw about refl

module _ (ids : Fresh) (p : Payload) (s : PaymentsDb) (i c : String) (n : Number) (a : Cents)
    (about : p.order_id ≡ some i) (amount : p.amount ≡ some n) (currency : p.currency ≡ some c)
    (fits : to_cents n ≡ ok a) (is_id : is_uuid i ≡ true) where
  abbrev pub new_attempt : Attempt
  new_attempt = record {
    order_id = i;
    amount = a;
    currency = c;
    status = verdict (number_le n 10000);
  }

  abbrev pub settled : PaymentsDb → PaymentsDb
  settled u = record u {
    store = upsert_attempt new_attempt u.store;
    outbox = u.outbox ++ answer_row ids (number_le n 10000) p ∷ [];
  }

  process_run :
      (u : PaymentsDb)
      → has_row ids.outbox_id u.outbox ≡ false
      → process_payment ids p u ≡ (ok tt, settled u)
  unfolding process_payment save_attempt insert_outbox to_uuid
  process_run u fresh = rw (about, is_id, amount, currency, fits) (ground arith)

  module _ (m : Message) (event_id : String) (identified : consumed_event_id m p ≡ some event_id)
      (named : event_id ≢ "") (new : has_event event_id s.processed ≡ false)
      (fresh : has_row ids.outbox_id s.outbox ≡ false) where
    abbrev pub paid : PaymentsDb
    paid = settled (recorded event_id m.topic (consumed_routing_key m) s)

    handled : handle_payment_command no_faults ids m p s ≡ (ok tt, paid)
    unfolding handle_payment_command
    handled =
        rw (identified, ==_ne event_id "" named)
          (process_once-new event_id m.topic (consumed_routing_key m) (process_payment ids p) s new
            ∙ ap (settle s)
                (process_run (recorded event_id m.topic (consumed_routing_key m) s) fresh))

    -- A new and complete payment command for an order id that is a UUID, with an amount that fits
    -- its column, under an event id that is not empty and a fresh outbox id, is handled if nothing
    -- fails outside the handler. The order's attempt then has the status SUCCEEDED if the amount is
    -- at most 10000 and FAILED if it is more; the attempts of all other orders are as before; and the
    -- outbox has one more row: PaymentSucceeded in the first case, and in the second PaymentFailed
    -- with its reason, for that order under the drawn ids.
    pub handle_payment_command-settles :
        let t = (handle_payment_command no_faults ids m p s).1 in
        ((handle_payment_command no_faults ids m p s).0 ≡ ok tt)
        × ((x : Attempt) × (find_attempt i t.store ≡ some x)
            × (x.status ≡ verdict (number_le n 10000)))
        × ((j : String) → j ≢ i → find_attempt j t.store ≡ find_attempt j s.store)
        × (t.outbox ≡ s.outbox ++ answer ids i (number_le n 10000) ∷ [])
    handle_payment_command-settles = rw handled (
      refl,
      find_attempt-upsert_self new_attempt s.store,
      λ j other. find_attempt-upsert_other j new_attempt s.store other,
      ap (λ (r : OutboxRow). s.outbox ++ r ∷ [])
          (answer_row-is_answer ids p i (number_le n 10000) about),
    )
