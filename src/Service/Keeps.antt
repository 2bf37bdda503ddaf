-- ===== src/Service/Keeps.antt =====
-- Invariants of a service's schema, one rule for each layer of a consumer.
use node_with_aoth.Prelude.{
  ◌≡◌, refl, sym, ◌∙◌, subst, inl, inr, String, Bool, true, false, Option, none, some, List, arith,
  ◌==◌, Bool-cases, if◌then◌else◌,
}
use node_with_aoth.Shared.{Payload, Headers}
use node_with_aoth.Database.Action.{
  Result, ok, err, missing_event_id, Action, pure, lift, follow, when, ◌>>=◌, ◌>>◌,
}
use node_with_aoth.Database.Transaction.{Faults}
use node_with_aoth.Database.Atomicity.{with_transaction-Keeps}
use node_with_aoth.Messaging.{Message, parse_value, message_routing_key, passes_over, each_message}
use node_with_aoth.Service.Tables.{Db, has_event, recorded, insert_outbox}
use node_with_aoth.Service.Once.{require_event_id, mark_then, process_once}
use node_with_aoth.Service.Delivery.{mark_then-old, mark_then-new}

-- `m` keeps `P`, whether it returns or throws.
pub record Keeps {κ} {S : Type 0} (P : Db S → Type κ) (m : Action (Db S) (Unit {0})) : Type κ where
  pub at : (s : Db S) → P s → P (m s).1

-- `P` does not depend on which events are recorded as processed.
abbrev pub IgnoresMarks {κ} : {S : Type 0} → (Db S → Type κ) → Type κ
IgnoresMarks {S = S} P = (i t k : String) (s : Db S) → P s → P (recorded i t k s)

pub store-insert_outbox :
    {S : Type 0} (i topic rk : String) (p : Payload) (hs : Headers) (s : Db S)
    → (insert_outbox i topic rk p hs s).1.store ≡ s.store
unfolding insert_outbox
store-insert_outbox i topic rk p hs s = ground arith

module _ {κ} {S : Type 0} {P : Db S → Type κ} where
  pub Keeps-when :
      (b : Bool) {m : Action (Db S) (Unit {0})} → (b ≡ true → Keeps P m) → Keeps P (when b m)
  Keeps-when true keeps = keeps refl
  Keeps-when false keeps = record { at = λ s h. h }

  pub Keeps-follow :
      (k : Action (Db S) (Unit {0}))
      → Keeps P k
      → (r : Result (Unit {0})) (s : Db S) → P s
      → P (follow (λ _. k) (r, s)).1
  Keeps-follow k keeps (ok a) s h = keeps.at s h
  Keeps-follow k keeps (err e) s h = h

  pub Keeps-then : {m k : Action (Db S) (Unit {0})} → Keeps P m → Keeps P k → Keeps P (m >> k)
  Keeps-then {m} {k} first second = record {
    at = λ s h. Keeps-follow k second (m s).0 (m s).1 (first.at s h);
  }

  -- It is enough that the body keeps `P` where it returns: an exception undoes it.
  pub Keeps-process_returned :
      (f : Faults) (event_id topic routing_key : String) {body : Action (Db S) (Unit {0})}
      → IgnoresMarks P
      → ((s t : Db S) → P s → body s ≡ (ok tt, t) → P t)
      → Keeps P (process_once f event_id topic routing_key body)
  unfolding process_once
  Keeps-process_returned f i t k {body} marked keeps = record {
    at = λ s h. with_transaction-Keeps P f (mark_then i t k body) s h (after s h);
  }
    where
      after :
          (s : Db S) → P s → (a : Unit {0}) (u : Db S) → mark_then i t k body s ≡ (ok a, u) → P u
      after s h done u e = elim (Bool-cases (has_event i s.processed)) [
        | inl old ↦
            subst (λ (x : Result (Unit {0}) × Db S). P x.1)
              (sym (mark_then-old i t k body s old) ∙ e) h
        | inr new ↦
            keeps (recorded i t k s) u (marked i t k s h) (sym (mark_then-new i t k body s new) ∙ e)
      ]

  pub Keeps-process_once :
      (f : Faults) (event_id topic routing_key : String) {body : Action (Db S) (Unit {0})}
      → IgnoresMarks P
      → Keeps P body
      → Keeps P (process_once f event_id topic routing_key body)
  Keeps-process_once f i t k {body} marked keeps =
      Keeps-process_returned f i t k marked
        (λ s u h e. subst (λ (x : Result (Unit {0}) × Db S). P x.1) e (keeps.at s h))

  pub Keeps-require_event_id :
      (found : Option String) {body : String → Action (Db S) (Unit {0})}
      → ((i : String) → Keeps P (body i))
      → Keeps P (lift (require_event_id found) >>= body)
  Keeps-require_event_id none keeps = record { at = λ s h. h }
  Keeps-require_event_id (some i) {body} keeps = named (i == "")
    where
      named : (b : Bool) → Keeps P (lift (if b then err missing_event_id else ok i) >>= body)
      named true = record { at = λ s h. h }
      named false = record { at = λ s h. (keeps i).at s h }

  -- A consumer keeps what its handler keeps on the payload of a message that it does not pass over.
  pub Keeps-each_message :
      (keys : List String) (handler : Message → Payload → Action (Db S) (Unit {0})) (m : Message)
      → ((p : Payload)
          → parse_value m.value ≡ ok p
          → passes_over keys (message_routing_key m) ≡ false
          → Keeps P (handler m p))
      → Keeps P (each_message keys handler m)
  unfolding each_message
  Keeps-each_message keys handler m keeps =
      filtered (passes_over keys (message_routing_key m)) (parse_value m.value) refl refl
    where
      filtered :
          (skip : Bool) (r : Result Payload)
          → passes_over keys (message_routing_key m) ≡ skip
          → parse_value m.value ≡ r
          → Keeps P (if skip then pure tt else (lift r >>= handler m))
      filtered true r skip e = record { at = λ s h. h }
      filtered false (ok p) skip e = record { at = λ s h. (keeps p e skip).at s h }
      filtered false (err x) skip e = record { at = λ s h. h }
