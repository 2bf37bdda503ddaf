-- ===== src/Messaging.antt =====
-- packages/messaging/src/index.ts: what `publishEvent` puts on a topic, and what the consumer
-- wrapper does with one message. Kafka itself is the log that `publishEvent` appends to; the
-- producer's connection and the SASL configuration are not modelled.
use node_with_aoth.Prelude.{
  ◌≡◌, sym, ap, ◌∙◌, String, Bool, true, false, not, ◌&&◌, ◌||◌, Option, none, some, List, [], ◌∷◌,
  includes, if◌then◌else◌,
}
use node_with_aoth.Shared.{Payload, no_payload, Headers, get_header, spread, get_or, truthy}
use node_with_aoth.Shared.Objects.{Member, members, read_members, read_members-members}
use node_with_aoth.Database.Action.{Result, ok, err, bad_json, Action, pure, lift, ◌>>=◌}

-- The value of a Kafka record: null, a text that `JSON.parse` refuses, or the text of an object with
-- these members.
pub data Value : Type 0 where
  null : Value
  malformed : Value
  object : List Member → Value

-- `Buffer.from(JSON.stringify(payload))`
abbrev pub json : Payload → Value
json p = object (members p)

pub record Message : Type 0 where
  pub topic : String
  pub key : String
  pub value : Value
  pub headers : Headers

-- The message that `publishEvent` sends.
unfoldable pub publish_event : String → String → Payload → Headers → Message
publish_event topic routing_key payload headers = record {
  topic = topic;
  key = get_or payload.order_id routing_key;
  value = json payload;
  headers = spread (("routingKey", routing_key) ∷ []) headers;
}

-- `JSON.parse(value?.toString("utf8") ?? "{}")`
abbrev pub parse_value : Value → Result Payload
parse_value null = ok no_payload
parse_value malformed = err bad_json
parse_value (object ms) = ok (read_members no_payload ms)

-- What a consumer reads of a value that was written of `p`.
pub json-read : (v : Value) (p q : Payload) → v ≡ json p → parse_value v ≡ ok q → p ≡ q
json-read v p q written read =
    sym (read_members-members p) ∙ ok_injective (sym (ap parse_value written) ∙ read)
  where
    ok_injective : {a b : Payload} → ok a ≡ ok b → a ≡ b
    ok_injective e = cc

-- A value that was written of a payload is read as that payload.
pub parse_value-json : (p : Payload) → parse_value (json p) ≡ ok p
parse_value-json p = ap ok (read_members-members p)

abbrev pub message_routing_key : Message → Option String
message_routing_key m = get_header "routingKey" m.headers

-- `input.routingKeys?.length`
abbrev pub has_keys : List String → Bool
has_keys [] = false
has_keys (k ∷ ks) = true

-- `input.routingKeys.includes(routingKey)`
abbrev pub includes_key : Option String → List String → Bool
includes_key none keys = false
includes_key (some k) keys = includes k keys

-- `input.routingKeys?.length && (!routingKey || !input.routingKeys.includes(routingKey))`
abbrev pub passes_over : List String → Option String → Bool
passes_over keys rk = has_keys keys && (not (truthy rk) || not (includes_key rk keys))

-- The `eachMessage` callback: a message whose routing key is not listed is passed over. What is
-- caught is logged and thrown again.
unfoldable pub each_message :
    {S : Type 0}
    → List String
    → (Message → Payload → Action S (Unit {0}))
    → Message
    → Action S (Unit {0})
each_message keys handler m =
    if passes_over keys (message_routing_key m)
    then pure tt
    else (do payload ← lift (parse_value m.value); handler m payload)
