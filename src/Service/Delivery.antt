-- ===== src/Service/Delivery.antt =====
-- Kafka delivers a message at least once. A handler that processes an event once has, after any
-- number of deliveries, the effect of at most one of them.
use node_with_aoth.Prelude.{
  ◌≡◌, refl, sym, ◌∙◌, ap, subst, ◌⊎◌, inl, inr, String, Bool, true, false, List, [], ◌∷◌, ◌++◌,
  Memᴰ, arith, Bool-cases, ==_refl,
}
use node_with_aoth.Database.Action.{Result, ok, err, Action, follow, when, ◌>>◌}
use node_with_aoth.Database.Transaction.{Faults, no_faults}
use node_with_aoth.Database.Atomicity.{settle, with_transaction-Keeps, with_transaction-no_faults}
use node_with_aoth.Service.Tables.{ProcessedEvent, Db, has_event, recorded, mark_event_processed}
use node_with_aoth.Service.Once.{mark_then, process_once}

-- Where the event is recorded `m` changes nothing, and if `m` changes anything it records it.
pub record IsOnce {S : Type 0} (event_id : String) (m : Action (Db S) (Unit {0})) : Type 0 where
  pub skips : (s : Db S) → has_event event_id s.processed ≡ true → (m s).1 ≡ s
  pub records : (s : Db S) → ((m s).1 ≡ s) ⊎ (has_event event_id (m s).1.processed ≡ true)

-- The state after a delivery for each attempt of a list, whatever each of them answers.
abbrev pub deliver_all : {A S : Type 0} → (A → Action S (Unit {0})) → List A → S → S
deliver_all h [] s = s
deliver_all h (a ∷ tries) s = deliver_all h tries (h a s).1

module _ {A S : Type 0} {event_id : String} {h : A → Action (Db S) (Unit {0})}
    (once : (a : A) → IsOnce event_id (h a)) where
  deliver_all-recorded :
      (tries : List A) (s : Db S)
      → has_event event_id s.processed ≡ true
      → deliver_all h tries s ≡ s
  deliver_all-recorded [] s e = refl
  deliver_all-recorded (a ∷ tries) s e =
      let same = (once a).skips s e in rw same (deliver_all-recorded tries s e)

  pub deliver_all-at_most_once :
      (tries : List A) (s : Db S)
      → (deliver_all h tries s ≡ s) ⊎ ((a : A) × Memᴰ a tries × (deliver_all h tries s ≡ (h a s).1))
  deliver_all-at_most_once [] s = inl refl
  deliver_all-at_most_once (a ∷ tries) s = elim ((once a).records s) [
    | inl same ↦ rw same (elim (deliver_all-at_most_once tries s) [
      | inl e ↦ inl e
      | inr (b, m, e) ↦ inr (b, Memᴰ.tail m, e)
    ])
    | inr recorded ↦ inr (a, Memᴰ.head refl, deliver_all-recorded tries (h a s).1 recorded)
  ]

follow-skips :
    {S : Type 0} (k : Action (Db S) (Unit {0})) (s : Db S) (r : Result (Unit {0}))
    → (k s).1 ≡ s
    → (follow (λ _. k) (r, s)).1 ≡ s
follow-skips k s (ok x) e = e
follow-skips k s (err x) e = refl

module _ {S : Type 0} {event_id : String} where
  -- An action that never changes the state.
  pub IsOnce-still : {m : Action (Db S) (Unit {0})} → ((s : Db S) → (m s).1 ≡ s) → IsOnce event_id m
  IsOnce-still still = record { skips = λ s _. still s; records = λ s. inl (still s) }

  pub IsOnce-when :
      (b : Bool) {m : Action (Db S) (Unit {0})} → IsOnce event_id m → IsOnce event_id (when b m)
  IsOnce-when true once = once
  IsOnce-when false once = IsOnce-still (λ s. refl)

  follow-records :
      (k : Action (Db S) (Unit {0}))
      → IsOnce event_id k
      → (s t : Db S) (r : Result (Unit {0})) → (t ≡ s) ⊎ (has_event event_id t.processed ≡ true)
      → ((follow (λ _. k) (r, t)).1 ≡ s)
        ⊎ (has_event event_id (follow (λ _. k) (r, t)).1.processed ≡ true)
  follow-records k once s t (err x) h = h
  follow-records k once s t (ok x) (inl same) = subst Goal (sym same) (once.records s)
    where
      Goal : Db S → Type 0
      Goal u = ((k u).1 ≡ s) ⊎ (has_event event_id (k u).1.processed ≡ true)
  follow-records k once s t (ok x) (inr done) = inr (rw (once.skips t done) done)

  pub IsOnce-then :
      {m k : Action (Db S) (Unit {0})}
      → IsOnce event_id m
      → IsOnce event_id k
      → IsOnce event_id (m >> k)
  IsOnce-then {m} {k} first second = record {
    skips = λ s e.
        subst (λ (t : Db S). (follow (λ _. k) ((m s).0, t)).1 ≡ s) (sym (first.skips s e))
          (follow-skips k s (m s).0 (second.skips s e));
    records = λ s. follow-records k second s (m s).1 (m s).0 (first.records s);
  }

has_event-append :
    (i : String) (es : List ProcessedEvent) (e : ProcessedEvent)
    → e.event_id ≡ i
    → has_event i (es ++ e ∷ []) ≡ true
has_event-append i [] e p = rw p (rw (==_refl i))
has_event-append i (x ∷ es) e p = ground (arith, has_event-append i es e p)

module _ {S : Type 0} (event_id topic routing_key : String) (body : Action (Db S) (Unit {0})) where
  pub mark_then-old :
      (s : Db S)
      → has_event event_id s.processed ≡ true
      → mark_then event_id topic routing_key body s ≡ (ok tt, s)
  unfolding mark_then mark_event_processed
  mark_then-old s e = rw e refl

  pub mark_then-new :
      (s : Db S)
      → has_event event_id s.processed ≡ false
      → mark_then event_id topic routing_key body s ≡ body (recorded event_id topic routing_key s)
  unfolding mark_then mark_event_processed
  mark_then-new s e = rw e refl

  -- A body that leaves the table of processed events alone.
  abbrev pub KeepsProcessed : Type 0
  KeepsProcessed = (s : Db S) → (body s).1.processed ≡ s.processed

  mark_then-records :
      KeepsProcessed
      → (s : Db S)
      → has_event event_id (mark_then event_id topic routing_key body s).1.processed ≡ true
  mark_then-records keeps s = elim (Bool-cases (has_event event_id s.processed)) [
    | inl old ↦ rw (mark_then-old s old) old
    | inr new ↦
        rw (mark_then-new s new, keeps (recorded event_id topic routing_key s))
          (has_event-append event_id s.processed _ refl)
  ]

  pub process_once-skips :
      (f : Faults) (s : Db S)
      → has_event event_id s.processed ≡ true
      → (process_once f event_id topic routing_key body s).1 ≡ s
  unfolding process_once
  process_once-skips f s old =
      with_transaction-Keeps (λ t. t ≡ s) f (mark_then event_id topic routing_key body) s refl
        (λ a t e. cc (mark_then-old s old))

  pub process_once-records :
      KeepsProcessed
      → (f : Faults) (s : Db S)
      → ((process_once f event_id topic routing_key body s).1 ≡ s)
        ⊎ (has_event event_id (process_once f event_id topic routing_key body s).1.processed ≡ true)
  unfolding process_once
  process_once-records keeps f s =
      with_transaction-Keeps (λ t. (t ≡ s) ⊎ (has_event event_id t.processed ≡ true)) f
        (mark_then event_id topic routing_key body) s (inl refl)
        (λ a t e. inr (
          subst Recorded (ap (λ (x : Result (Unit {0}) × Db S). x.1) e)
            (mark_then-records keeps s)))
    where
      Recorded : Db S → Type 0
      Recorded t = has_event event_id t.processed ≡ true

  -- Without other failures: a new event runs the body, all or nothing.
  pub process_once-new :
      (s : Db S)
      → has_event event_id s.processed ≡ false
      → process_once no_faults event_id topic routing_key body s
        ≡ settle s (body (recorded event_id topic routing_key s))
  unfolding process_once
  process_once-new s new =
      with_transaction-no_faults (mark_then event_id topic routing_key body) s
      ∙ ap (settle s) (mark_then-new s new)

  pub process_once-IsOnce :
      KeepsProcessed
      → (f : Faults) → IsOnce event_id (process_once f event_id topic routing_key body)
  process_once-IsOnce keeps f = record {
    skips = process_once-skips f;
    records = process_once-records keeps f;
  }
