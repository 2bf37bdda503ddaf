-- ===== src/Platform/Paying.antt =====
-- The part of payment-service in the whole: what its attempts and its replies rest on.
use node_with_aoth.Prelude.{
  ◌≡◌, ◌==◌, refl, sym, ap, ◌∙◌, subst, String, Bool, true, false, some, List, [], ◌∷◌, ◌++◌, All,
  arith, ==_iff, ==_refl, if◌then◌else◌,
}
use node_with_aoth.Shared.{Payload, Number, number_le}
use node_with_aoth.Database.Action.{Error, Result, ok, err}
use node_with_aoth.Database.Columns.{Cents, to_cents}
use node_with_aoth.Database.Transaction.{Faults}
use node_with_aoth.Messaging.{Message, json-read, passes_over, publish_event}
use node_with_aoth.Service.Tables.{Fresh, insert_outbox}
use node_with_aoth.Service.Outbox.{row_message}
use node_with_aoth.Service.Once.{consumed_event_id, consumed_routing_key}
use node_with_aoth.Service.Keeps.{
  Keeps, Keeps-process_returned, Keeps-require_event_id, Keeps-each_message,
}
use node_with_aoth.Service.Forwarding.{AllRows, AllRows-append}
use node_with_aoth.Orders.Create.{Runtime, CreateInput}
use node_with_aoth.Inventory.Tables.{Reservation}
use node_with_aoth.Payments.Handler.{
  Attempt, PaymentsDb, upsert_attempt, save_attempt, create_event_envelope, result_payload,
  process_payment, handle_payment_command, payment_keys, payment_consumer,
}
use node_with_aoth.Payments.Settlement.{verdict, answer_row}
use node_with_aoth.Platform.Said.{
  Kind, reserve, reserved, rejected, process, paid, refused, release, key_of, Content, Founded,
  Said, approved, currency_of, has_reservation, has_attempt,
}
use node_with_aoth.Platform.Records.{AttemptOk, Grows, AllRows-grows}

has_attempt-upsert :
    (i : String) (new : Attempt) (us : List Attempt)
    → has_attempt i us ≡ true
    → has_attempt i (upsert_attempt new us) ≡ true
has_attempt-upsert i new [] h = absurd (cc)
has_attempt-upsert i new (a ∷ us) h = ground (arith, has_attempt-upsert i new us)

has_attempt-upsert_self :
    (new : Attempt) (us : List Attempt) → has_attempt new.order_id (upsert_attempt new us) ≡ true
has_attempt-upsert_self new [] = rw (==_refl new.order_id) refl
has_attempt-upsert_self new (a ∷ us) = ground (arith, has_attempt-upsert_self new us)

-- The consumer listens to one kind.
heard_kind : (k : Kind) → passes_over payment_keys (some (key_of k)) ≡ false → k ≡ process
heard_kind process h = refl
heard_kind reserve h = absurd (cc)
heard_kind reserved h = absurd (cc)
heard_kind rejected h = absurd (cc)
heard_kind paid h = absurd (cc)
heard_kind refused h = absurd (cc)
heard_kind release h = absurd (cc)

-- A payment that went through, of an order `i`, an amount `n` and a currency `c`.
module _ (ids : Fresh) (p : Payload) (s t : PaymentsDb) (i c : String) (n : Number) where
  abbrev new_attempt : Cents → Attempt
  new_attempt a = record {
    order_id = i;
    amount = a;
    currency = c;
    status = verdict (number_le n 10000);
  }

  abbrev after_payment : Cents → PaymentsDb
  after_payment a = record s {
    store = upsert_attempt (new_attempt a) s.store;
    outbox = s.outbox ++ answer_row ids (number_le n 10000) p ∷ [];
  }

  module _ (about : p.order_id ≡ some i) (amount : p.amount ≡ some n)
      (currency : p.currency ≡ some c) (e : process_payment ids p s ≡ (ok tt, t)) where
    fits : (a : Cents) → to_cents n ≡ ok a → t ≡ after_payment a
    unfolding process_payment save_attempt insert_outbox
    fits a k = ground arith

    overflows : (x : Error) → to_cents n ≡ err x → ⊥
    unfolding process_payment save_attempt insert_outbox
    overflows x k = ground arith

    paid_by : (a : Cents) × (to_cents n ≡ ok a) × (t ≡ after_payment a)
    paid_by = by_amount (to_cents n) refl
      where
        by_amount :
            (r : Result Cents)
            → to_cents n ≡ r
            → (a : Cents) × (to_cents n ≡ ok a) × (t ≡ after_payment a)
        by_amount (ok a) k = (a, k, fits a k)
        by_amount (err x) k = absurd (overflows x k)

module _ (rt : Runtime) (drawn : String → CreateInput) where
  AttemptOk-upsert :
      (new : Attempt) (us : List Attempt)
      → AttemptOk rt drawn new
      → All (AttemptOk rt drawn) us
      → All (AttemptOk rt drawn) (upsert_attempt new us)
  AttemptOk-upsert new [] n h = (n, tt)
  AttemptOk-upsert new (a ∷ us) n h =
      by_test (a.order_id == new.order_id) refl (AttemptOk-upsert new us n h.1)
    where
      by_test :
          (b : Bool)
          → (a.order_id == new.order_id) ≡ b
          → All (AttemptOk rt drawn) (upsert_attempt new us)
          → All
              (AttemptOk rt drawn)
              (if b then record a { status = new.status } ∷ us else a ∷ upsert_attempt new us)
      by_test true e rest =
          let same : a.order_id ≡ new.order_id = (==_iff a.order_id new.order_id).0 e in
          (
            record {
              amount = h.0.amount;
              currency = h.0.currency;
              verdict_is = n.verdict_is ∙ ap (λ i. verdict (approved rt drawn i)) (sym same);
            },
            h.1,
          )
      by_test false e rest = (h.0, rest)

  answer-Said :
      (ids : Fresh) (b : Bool) (i : String) (p : Payload) (rs : List Reservation)
      (us : List Attempt)
      → p.order_id ≡ some i
      → approved rt drawn i ≡ b
      → has_reservation i rs ≡ true
      → has_attempt i us ≡ true
      → Said rt drawn rs us (row_message (answer_row ids b p))
  unfolding row_message publish_event create_event_envelope
  answer-Said ids true i p rs us about ok_ held done = record {
    kind = paid;
    payload = record (result_payload true p) { event_id = some ids.event_id };
    order_id = i;
    carried = refl;
    typed = refl;
    routed = refl;
    about = about;
    content = ok_;
    founded = (held, done);
  }
  answer-Said ids false i p rs us about no_ held done = record {
    kind = refused;
    payload = record (result_payload false p) { event_id = some ids.event_id };
    order_id = i;
    carried = refl;
    typed = refl;
    routed = refl;
    about = about;
    content = no_;
    founded = tt;
  }

module _ (rt : Runtime) (drawn : String → CreateInput) (rs : List Reservation)
    (us : List Attempt) where
  -- The rows and messages of payment-service, which has lost none of the attempts `us`.
  pub record Settling (db : PaymentsDb) : Type 0 where
    pub rows : All (AttemptOk rt drawn) db.store
    pub said : AllRows (Said rt drawn rs db.store) db.outbox
    pub grown : Grows rs rs us db.store

  -- A payment command that is true, and that returns.
  process-Settling :
      (ids : Fresh) (p : Payload) (i : String) (s t : PaymentsDb)
      → p.order_id ≡ some i
      → Content rt drawn process i p
      → has_reservation i rs ≡ true
      → Settling s
      → process_payment ids p s ≡ (ok tt, t)
      → Settling t
  process-Settling ids p i s t about (amount, currency) held v e =
      let n = (drawn i).body.total_amount in
      let (a, k, same) = paid_by ids p s t i (currency_of rt drawn i) n about amount currency e in
      let new = new_attempt ids p s t i (currency_of rt drawn i) n a in
      let ws = upsert_attempt new s.store in
      let step : Grows rs rs s.store ws = record {
        reservations = λ j h. h;
        attempts = λ j. has_attempt-upsert j new s.store;
      } in
      rw same (record {
        rows =
            AttemptOk-upsert rt drawn new s.store
              (record { amount = k; currency = refl; verdict_is = refl }) v.rows;
        said =
            AllRows-append (Said rt drawn rs ws) s.outbox (answer_row ids (approved rt drawn i) p)
              (AllRows-grows rt drawn step s.outbox v.said)
              (answer-Said rt drawn ids (approved rt drawn i) i p rs ws about refl held
                (has_attempt-upsert_self new s.store));
        grown = record {
          reservations = λ j h. h;
          attempts = λ j h. has_attempt-upsert j new s.store (v.grown.attempts j h);
        };
      })

  -- One delivery of a message that is true.
  pub payment_consumer-Settling :
      (f : Faults) (ids : Fresh) (m : Message)
      → Said rt drawn rs us m
      → Keeps Settling (payment_consumer f ids m)
  unfolding payment_consumer handle_payment_command
  payment_consumer-Settling f ids m said =
      Keeps-each_message _ (handle_payment_command f ids) m (λ p read heard.
        let kind : said.kind ≡ process =
          heard_kind said.kind
            (subst (λ k. passes_over payment_keys k ≡ false) said.routed heard) in
        let same : said.payload ≡ p = json-read m.value said.payload p said.carried read in
        Keeps-require_event_id (consumed_event_id m p) (λ i.
          Keeps-process_returned f i m.topic (consumed_routing_key m)
            (λ i t k s v. record { rows = v.rows; said = v.said; grown = v.grown })
            (λ s t v e.
              process-Settling ids p said.order_id s t
                (subst (λ (q : Payload). q.order_id ≡ some said.order_id) same said.about)
                (subst (λ (q : Payload). Content rt drawn process said.order_id q) same
                  (subst (λ k. Content rt drawn k said.order_id said.payload) kind said.content))
                (subst (λ k. Founded k said.order_id rs us) kind said.founded) v e)))
