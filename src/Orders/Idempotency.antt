-- ===== src/Orders/Idempotency.antt =====
-- The Idempotency-Key: once a request has created an order, every later request of the same user
-- with the same key is answered from that order.
use node_with_aoth.Prelude.{
  ◌≡◌, refl, sym, ap, ◌∙◌, subst, ◌≢◌, ◌⊎◌, inl, inr, String, Bool, true, false, not, ◌&&◌, Option,
  none, some, List, [], ◌∷◌, ◌++◌, arith, ==_iff, ==_refl, if◌then◌else◌,
}
use node_with_aoth.Shared.{is_text, truthy}
use node_with_aoth.Database.Action.{ok}
use node_with_aoth.Database.Transaction.{Faults}
use node_with_aoth.Messaging.{Message}
use node_with_aoth.Service.Tables.{Fresh, OutboxRow}
use node_with_aoth.Service.Keeps.{Keeps}
use node_with_aoth.Service.Publishing.{store-publish_outbox_batch}
use node_with_aoth.Orders.Tables.{
  Status, Order, OrdersDb, NewOrder, order_row, set_status, set_failed, update_rows, has_key,
  find_key,
}
use node_with_aoth.Orders.Create.{
  Runtime, CreateInput, Outcome, conflict, replayed, created, request_hash, normalized, new_order,
  create_if_new, create_order,
}
use node_with_aoth.Orders.Saga.{order_saga_consumer}
use node_with_aoth.Orders.Outbox.{Added, if_new-CreatedIn, create_order_answer}
use node_with_aoth.Orders.Keeps.{order_saga_consumer-Keeps}
use node_with_aoth.Orders.Steps.{Step, inserts, delivers, publishes, Reach, here, next}

-- The first order of `user` with `key` has the id `i` and the request hash `h`.
abbrev pub IsKeyed : String → String → String → Option String → List Order → Type 0
IsKeyed user key i h os =
    (o : Order) × (find_key user key os ≡ some o) × (o.id ≡ i) × (o.request_hash ≡ h)

module _ (user key : String) where
  find_key-append :
      (x o : Order) (os : List Order)
      → find_key user key os ≡ some x
      → find_key user key (os ++ o ∷ []) ≡ some x
  find_key-append x o [] e = cc
  find_key-append x o (p ∷ os) e = ground (arith, find_key-append x o os)

  find_key-append_new :
      (o : Order) (os : List Order)
      → find_key user key os ≡ none
      → has_key user key o ≡ true
      → find_key user key (os ++ o ∷ []) ≡ some o
  find_key-append_new o [] e k = rw k refl
  find_key-append_new o (p ∷ os) e k = ground (arith, find_key-append_new o os)

-- An update of a row that keeps what identifies it.
module _ (g : Order → Order)
    (key_kept : (u k : String) (o : Order) → has_key u k (g o) ≡ has_key u k o)
    (id_kept : (o : Order) → (g o).id ≡ o.id)
    (hash_kept : (o : Order) → (g o).request_hash ≡ o.request_hash) (j : Option String)
    (user key i : String) (h : Option String) where
  IsKeyed-head :
      (b c : Bool) (p : Order) (os : List Order)
      → has_key user key p ≡ c
      → IsKeyed user key i h (p ∷ os)
      → (IsKeyed user key i h os → IsKeyed user key i h (update_rows j g os))
      → IsKeyed user key i h ((if b then g p else p) ∷ update_rows j g os)
  IsKeyed-head true true p os e (o, f, same_id, same_hash) rest =
      (g p, rw (key_kept user key p, e) refl, id_kept p ∙ ground arith, hash_kept p ∙ ground arith)
  IsKeyed-head false true p os e (o, f, same_id, same_hash) rest =
      (p, rw e refl, ground arith, ground arith)
  IsKeyed-head true false p os e (o, f, same_id, same_hash) rest =
      let (y, found, at_id, at_hash) = rest (o, ground arith, same_id, same_hash) in
      (y, rw (key_kept user key p, e) found, at_id, at_hash)
  IsKeyed-head false false p os e (o, f, same_id, same_hash) rest =
      let (y, found, at_id, at_hash) = rest (o, ground arith, same_id, same_hash) in
      (y, rw e found, at_id, at_hash)

  IsKeyed-update :
      (os : List Order) → IsKeyed user key i h os → IsKeyed user key i h (update_rows j g os)
  IsKeyed-update [] k = k
  IsKeyed-update (p ∷ os) k =
      IsKeyed-head (is_text j p.id) (has_key user key p) p os refl k (IsKeyed-update os)

module _ (user key i : String) (h : Option String) where
  Added-Keeps :
      (input : NewOrder) (row : OutboxRow) (s t : OrdersDb)
      → (t ≡ s) ⊎ Added input row s t
      → IsKeyed user key i h s.store
      → IsKeyed user key i h t.store
  Added-Keeps input row s t (inl same) k = rw same k
  Added-Keeps input row s t (inr a) (o, e, at_id, at_hash) = (
    o,
    rw a.orders (find_key-append user key o (order_row input a.total a.quantity) s.store e),
    at_id,
    at_hash,
  )

  consumer-Keeps :
      (f : Faults) (ids : Fresh) (m : Message)
      → Keeps (λ (s : OrdersDb). IsKeyed user key i h s.store) (order_saga_consumer f ids m)
  consumer-Keeps =
      order_saga_consumer-Keeps (IsKeyed user key i h)
        (λ j st os.
          IsKeyed-update (set_status st) (λ u k o. refl) (λ o. refl) (λ o. refl) j user key i h os)
        (λ j r os.
          IsKeyed-update (set_failed r) (λ u k o. refl) (λ o. refl) (λ o. refl) j user key i h os)

  Step-Keeps :
      (rt : Runtime) {s t : OrdersDb}
      → Step rt s t
      → IsKeyed user key i h s.store
      → IsKeyed user key i h t.store
  Step-Keeps rt {s} (inserts f order_id ids input find e) k =
      rw e (Added-Keeps _ _ s _ (if_new-CreatedIn rt order_id ids input f s find) k)
  Step-Keeps rt {s} (delivers f ids m e) k = rw e ((consumer-Keeps f ids m).at s k)
  Step-Keeps rt {s} (publishes faults log e) k =
      rw e (subst (IsKeyed user key i h) (sym (store-publish_outbox_batch faults (s, log))) k)

  Reach-Keeps :
      (rt : Runtime) {s t : OrdersDb}
      → Reach rt s t
      → IsKeyed user key i h s.store
      → IsKeyed user key i h t.store
  Reach-Keeps rt here k = k
  Reach-Keeps rt (next r step) k = Step-Keeps rt step (Reach-Keeps rt r k)

same_answer :
    (h k : String)
    → h ≡ k
    → (i : String) (st : Status)
    → (if truthy (some h) && not (is_text (some h) k) then conflict else replayed i st)
      ≡ replayed i st
same_answer h k e i st = ground (arith, ==_iff h k)

other_answer :
    (h k : String)
    → k ≢ h
    → h ≢ ""
    → (i : String) (st : Status)
    → (if truthy (some h) && not (is_text (some h) k) then conflict else replayed i st) ≡ conflict
other_answer h k e n i st = ground (arith, ==_iff h k, ==_iff h "")

module _ (rt : Runtime) where
  -- The order that answers a later request of the same user with the same key: a conflict if the
  -- body's hash differs, and the order's id and present status if not.
  abbrev pub answer_from : Option String → String → Status → CreateInput → Outcome
  answer_from h i st later =
      if truthy h && not (is_text h (request_hash rt (normalized rt later.body)))
      then conflict
      else replayed i st

  answered_from :
      (f : Faults) (order_id : String) (ids : Fresh) (later : CreateInput) (i : String)
      (h : Option String) (u : OrdersDb)
      → IsKeyed later.user_sub later.idempotency_key i h u.store
      → (st : Status) × (create_order rt f order_id ids later u
          ≡ (ok (answer_from h i st later), u))
  unfolding create_order create_if_new
  answered_from f order_id ids later i h u (o, found, at_id, at_hash) =
      (o.status, rw (found, ← at_id, ← at_hash) refl)

  created-IsKeyed :
      (f : Faults) (order_id : String) (ids : Fresh) (input : CreateInput) (s t : OrdersDb)
      (i : String)
      → create_order rt f order_id ids input s ≡ (ok (created i), t)
      → IsKeyed input.user_sub input.idempotency_key i
          (some (request_hash rt (normalized rt input.body)))
          t.store
  created-IsKeyed f order_id ids input s t i e =
      let (same, missing, added) = create_order_answer rt order_id ids input f s t i e in
      let o = order_row (new_order rt order_id input) added.total added.quantity in
      (
        o,
        rw added.orders (
            find_key-append_new input.user_sub input.idempotency_key o s.store missing
              (rw (==_refl input.user_sub, ==_refl input.idempotency_key) refl)),
        sym same,
        refl,
      )

  module _ (f g : Faults) (order_id later_id : String) (ids later_ids : Fresh)
      (input later : CreateInput) (s t u : OrdersDb) (i : String)
      (done : create_order rt f order_id ids input s ≡ (ok (created i), t)) (r : Reach rt t u)
      (same_user : later.user_sub ≡ input.user_sub)
      (same_key : later.idempotency_key ≡ input.idempotency_key) where
    later_answer :
        (st : Status) × (create_order rt g later_id later_ids later u
          ≡ (ok (answer_from (some (request_hash rt (normalized rt input.body))) i st later), u))
    later_answer =
        let h : Option String = some (request_hash rt (normalized rt input.body)) in
        answered_from g later_id later_ids later i h u (
          rw (same_user, same_key)
            (Reach-Keeps input.user_sub input.idempotency_key i h rt r
              (created-IsKeyed f order_id ids input s t i done)))

    -- Once a request was answered "created", every later request of the same user with the same
    -- key and the same body hash changes nothing and is answered with the first order's id, in
    -- whatever status the order is by then; whatever requests, deliveries and outbox runs came in
    -- between, and whatever failed in them.
    pub create_order-retry :
        request_hash rt (normalized rt later.body) ≡ request_hash rt (normalized rt input.body)
        → (st : Status) × (create_order rt g later_id later_ids later u ≡ (ok (replayed i st), u))
    create_order-retry same_hash =
        let (st, e) = later_answer in
        (
          st,
          e
              ∙ ap (λ (o : Outcome). (ok o, u))
                  (same_answer (request_hash rt (normalized rt input.body)) _ (sym same_hash) i st),
        )

    -- Once a request was answered "created", every later request of the same user with the same
    -- key and another body hash changes nothing and is refused as a conflict, given that the
    -- first hash is not the empty text; whatever came in between, and whatever failed.
    pub create_order-reused_key :
        request_hash rt (normalized rt later.body) ≢ request_hash rt (normalized rt input.body)
        → request_hash rt (normalized rt input.body) ≢ ""
        → create_order rt g later_id later_ids later u ≡ (ok conflict, u)
    create_order-reused_key other_hash not_empty =
        let (st, e) = later_answer in
        e
        ∙ ap (λ (o : Outcome). (ok o, u))
            (other_answer (request_hash rt (normalized rt input.body)) _ other_hash not_empty i st)
