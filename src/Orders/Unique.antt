-- ===== src/Orders/Unique.antt =====
-- At most one order for each id, and for each user and idempotency key.
use node_with_aoth.Prelude.{
  ◌≡◌, refl, sym, ◌∙◌, subst, ◌⊎◌, inl, inr, String, Bool, true, false, ◌||◌, Option, none, some,
  List, [], ◌∷◌, ◌++◌, arith, ==_iff, if◌then◌else◌,
}
use node_with_aoth.Shared.{is_text}
use node_with_aoth.Database.Transaction.{Faults}
use node_with_aoth.Messaging.{Message}
use node_with_aoth.Service.Tables.{Fresh, OutboxRow}
use node_with_aoth.Service.Keeps.{Keeps}
use node_with_aoth.Service.Publishing.{store-publish_outbox_batch}
use node_with_aoth.Orders.Tables.{
  Order, OrdersDb, NewOrder, order_row, set_status, set_failed, update_rows, same_key, clash,
  conflicts,
}
use node_with_aoth.Orders.Create.{Runtime}
use node_with_aoth.Orders.Saga.{order_saga_consumer}
use node_with_aoth.Orders.Outbox.{Added, if_new-CreatedIn}
use node_with_aoth.Orders.Keeps.{order_saga_consumer-Keeps}
use node_with_aoth.Orders.Steps.{Step, inserts, delivers, publishes, Reach, here, next}

abbrev pub Unique : List Order → Type 0
Unique [] = Unit
Unique (o ∷ os) = (conflicts o os ≡ false) × Unique os

same_key_sym : (k l : Option String) → same_key k l ≡ same_key l k
same_key_sym none none = refl
same_key_sym none (some l) = refl
same_key_sym (some k) none = refl
same_key_sym (some k) (some l) = ground (arith, ==_iff k l, ==_iff l k)

clash_sym : (o p : Order) → clash o p ≡ clash p o
clash_sym o p = ground (
  arith,
  ==_iff o.id p.id,
  ==_iff p.id o.id,
  ==_iff o.user_id p.user_id,
  ==_iff p.user_id o.user_id,
  same_key_sym o.idempotency_key p.idempotency_key,
)

conflicts-append :
    (x o : Order) (os : List Order) → conflicts x (os ++ o ∷ []) ≡ (conflicts x os || clash x o)
conflicts-append x o [] = ground arith
conflicts-append x o (p ∷ os) = ground (arith, conflicts-append x o os)

or-false : (a b : Bool) → (a || b) ≡ false → (a ≡ false) × (b ≡ false)
or-false a b h = ground arith

pub Unique-append :
    (o : Order) (os : List Order) → conflicts o os ≡ false → Unique os → Unique (os ++ o ∷ [])
Unique-append o [] c u = ground arith
Unique-append o (p ∷ os) c u =
    let (apart, free) = or-false (clash o p) (conflicts o os) c in
    (conflicts-append p o os ∙ (rw (u.0, sym (clash_sym o p)) apart), Unique-append o os free u.1)

-- An update of a row that keeps its id, user and key.
module _ (g : Order → Order) (left : (o p : Order) → clash (g o) p ≡ clash o p)
    (right : (o p : Order) → clash o (g p) ≡ clash o p) (i : Option String) where
  clash-updated : (b : Bool) (o p : Order) → clash o (if b then g p else p) ≡ clash o p
  clash-updated true o p = right o p
  clash-updated false o p = refl

  conflicts-update :
      (o : Order) (os : List Order) → conflicts o (update_rows i g os) ≡ conflicts o os
  conflicts-update o [] = refl
  conflicts-update o (p ∷ os) = rw (clash-updated (is_text i p.id) o p, conflicts-update o os) refl

  conflicts-left :
      (b : Bool) (o : Order) (os : List Order)
      → conflicts (if b then g o else o) os ≡ conflicts o os
  conflicts-left false o os = refl
  conflicts-left true o [] = refl
  conflicts-left true o (p ∷ os) = rw (left o p, conflicts-left true o os) refl

  pub Unique-update : (os : List Order) → Unique os → Unique (update_rows i g os)
  Unique-update [] u = tt
  Unique-update (o ∷ os) u = (
    conflicts-left (is_text i o.id) o (update_rows i g os) ∙ conflicts-update o os ∙ u.0,
    Unique-update os u.1,
  )

created-Unique :
    (input : NewOrder) (row : OutboxRow) (s t : OrdersDb)
    → (t ≡ s) ⊎ Added input row s t
    → Unique s.store
    → Unique t.store
created-Unique input row s t (inl same) u = rw same u
created-Unique input row s t (inr a) u =
    rw a.orders (Unique-append (order_row input a.total a.quantity) s.store a.no_conflict u)

consumer-Keeps :
    (f : Faults) (ids : Fresh) (m : Message)
    → Keeps (λ (s : OrdersDb). Unique s.store) (order_saga_consumer f ids m)
consumer-Keeps =
    order_saga_consumer-Keeps Unique
      (λ i st os. Unique-update (set_status st) (λ o p. refl) (λ o p. refl) i os)
      (λ i r os. Unique-update (set_failed r) (λ o p. refl) (λ o p. refl) i os)

Step-Unique : (rt : Runtime) {s t : OrdersDb} → Step rt s t → Unique s.store → Unique t.store
Step-Unique rt {s} {t} (inserts f order_id ids input find e) u =
    rw e (created-Unique _ _ s _ (if_new-CreatedIn rt order_id ids input f s find) u)
Step-Unique rt {s} {t} (delivers f ids m e) u = rw e ((consumer-Keeps f ids m).at s u)
Step-Unique rt {s} {t} (publishes faults log e) u =
    rw e (subst Unique (sym (store-publish_outbox_batch faults (s, log))) u)

-- If the schema of order-service holds no two orders with one id, nor two orders of one user with
-- one idempotency key, then so it is after any interleaving of requests, message deliveries and
-- outbox runs, with any failures. A request's look-up may be arbitrarily stale.
pub Reach-Unique : (rt : Runtime) {s t : OrdersDb} → Reach rt s t → Unique s.store → Unique t.store
Reach-Unique rt here u = u
Reach-Unique rt (next r step) u = Step-Unique rt step (Reach-Unique rt r u)
