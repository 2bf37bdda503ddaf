-- ===== src/Service/Consumer.antt =====
-- A consumer whose handler processes its event once, processes each message once.
use node_with_aoth.Prelude.{
  ◌≡◌, refl, ◌⊎◌, String, Bool, true, false, Option, none, some, List, Memᴰ, ◌==◌, ◌&&◌, ◌||◌, not,
  if◌then◌else◌,
}
use node_with_aoth.Shared.{Payload, no_payload, truthy}
use node_with_aoth.Shared.Objects.{read_members}
use node_with_aoth.Database.Action.{ok, err, missing_event_id, Action, pure, lift, ◌>>=◌}
use node_with_aoth.Messaging.{
  Value, null, malformed, object, Message, parse_value, message_routing_key, has_keys, includes_key,
  each_message,
}
use node_with_aoth.Service.Tables.{Db}
use node_with_aoth.Service.Once.{require_event_id}
use node_with_aoth.Service.Delivery.{IsOnce, IsOnce-still, deliver_all, deliver_all-at_most_once}

-- After any deliveries of one message, the state is as before, or as after one of them.
abbrev pub AtMostOnce : {A S : Type 0} → (A → Action S (Unit {0})) → List A → S → Type 0
AtMostOnce {A} h tries s =
    (deliver_all h tries s ≡ s) ⊎ ((a : A) × Memᴰ a tries × (deliver_all h tries s ≡ (h a s).1))

module _ {A S : Type 0} where
  -- Under every attempt the handler of a message and its payload processes one event once.
  abbrev pub HandlesOnce : (A → Message → Payload → Action (Db S) (Unit {0})) → Type 0
  HandlesOnce handler =
      (m : Message) (p : Payload)
      → (event_id : String) × ((a : A) → IsOnce event_id (handler a m p))

  module _ (handler : A → Message → Payload → Action (Db S) (Unit {0}))
      (once : HandlesOnce handler) where
    filtered-IsOnce :
        (skip : Bool) (v : Value) (m : Message)
        → (event_id : String) × ((a : A)
            → IsOnce event_id (if skip then pure tt else (lift (parse_value v) >>= handler a m)))
    filtered-IsOnce true v m = ("", λ a. IsOnce-still (λ s. refl))
    filtered-IsOnce false null m = once m no_payload
    filtered-IsOnce false malformed m = ("", λ a. IsOnce-still (λ s. refl))
    filtered-IsOnce false (object ms) m = once m (read_members no_payload ms)

    pub each_message-AtMostOnce :
        (keys : List String) (m : Message) (tries : List A) (s : Db S)
        → AtMostOnce (λ a. each_message keys (handler a) m) tries s
    unfolding each_message
    each_message-AtMostOnce keys m tries s =
        let rk = message_routing_key m in
        let (event_id, safe) =
          filtered-IsOnce (has_keys keys && (not (truthy rk) || not (includes_key rk keys))) m.value
            m in
        deliver_all-at_most_once safe tries s

  -- The first lines of a handler: no event id, no effect.
  pub require_event_id-IsOnce :
      (found : Option String) (body : A → String → Action (Db S) (Unit {0}))
      → ((a : A) (event_id : String) → IsOnce event_id (body a event_id))
      → (event_id : String) × ((a : A) → IsOnce event_id (lift (require_event_id found) >>= body a))
  require_event_id-IsOnce none body once = ("", λ a. IsOnce-still (λ s. refl))
  require_event_id-IsOnce (some i) body once = named (i == "")
    where
      named :
          (b : Bool)
          → (event_id : String) × ((a : A)
              → IsOnce event_id (lift (if b then err missing_event_id else ok i) >>= body a))
      named true = ("", λ a. IsOnce-still (λ s. refl))
      named false = (i, λ a. once a i)
