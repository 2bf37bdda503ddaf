-- ===== src/Shared/Objects.antt =====
-- The members of a JSON object that stands for an event's payload: what `JSON.stringify` writes of one,
-- and what `JSON.parse` makes of the members of a text.
use node_with_aoth.Prelude.{◌≡◌, refl, ap, ◌∙◌, String, Option, none, some, List, [], ◌∷◌, ◌++◌}
use node_with_aoth.Shared.Numbers.{Number}
use node_with_aoth.Shared.Payloads.{Payload, no_payload}

-- One `"name": value`, with the names that the services read; `unread` has any other name.
pub data Member : Type 0 where
  event_type_is event_id_is order_id_is user_id_is item_sku_is currency_is reason_is :
      String → Member
  quantity_is total_amount_is amount_is : Number → Member
  unread : String → Member

-- A property whose value is `undefined` is not written.
abbrev defined : {A : Type 0} → (A → Member) → Option A → List Member
defined f none = []
defined f (some x) = f x ∷ []

-- `JSON.stringify(payload)`, less the text of each member.
unfoldable pub members : Payload → List Member
members p =
    defined event_type_is p.event_type
    ++ (defined event_id_is p.event_id
        ++ (defined order_id_is p.order_id
            ++ (defined user_id_is p.user_id
                ++ (defined item_sku_is p.item_sku
                    ++ (defined quantity_is p.quantity
                        ++ (defined total_amount_is p.total_amount
                            ++ (defined amount_is p.amount
                                ++ (defined currency_is p.currency
                                    ++ defined reason_is p.reason))))))))

-- A member sets its property, whatever an earlier member of the name has set.
abbrev set_member : Member → Payload → Payload
set_member (event_type_is s) p = record p { event_type = some s }
set_member (event_id_is s) p = record p { event_id = some s }
set_member (order_id_is s) p = record p { order_id = some s }
set_member (user_id_is s) p = record p { user_id = some s }
set_member (item_sku_is s) p = record p { item_sku = some s }
set_member (currency_is s) p = record p { currency = some s }
set_member (reason_is s) p = record p { reason = some s }
set_member (quantity_is n) p = record p { quantity = some n }
set_member (total_amount_is n) p = record p { total_amount = some n }
set_member (amount_is n) p = record p { amount = some n }
set_member (unread name) p = p

-- `JSON.parse` of an object with these members, from left to right.
unfoldable pub read_members : Payload → List Member → Payload
read_members p [] = p
read_members p (m ∷ ms) = read_members (set_member m p) ms

read_defined :
    {A : Type 0} (f : A → Member) (q : Option A → Payload) (rest : List Member)
    → ((x : A) → set_member (f x) (q none) ≡ q (some x))
    → (o : Option A) → read_members (q none) (defined f o ++ rest) ≡ read_members (q o) rest
unfolding read_members
read_defined f q rest sets none = refl
read_defined f q rest sets (some x) = ap (λ p. read_members p rest) (sets x)

-- What was written of a payload is read as that payload.
pub read_members-members : (p : Payload) → read_members no_payload (members p) ≡ p
unfolding members read_members
read_members-members p =
    read_defined event_type_is (λ o. record no_payload { event_type = o }) _ (λ x. refl)
      p.event_type
    ∙ read_defined event_id_is (λ o. record no_payload { event_type = p.event_type; event_id = o })
        _ (λ x. refl) p.event_id
    ∙ read_defined order_id_is (λ o. record p1 { order_id = o }) _ (λ x. refl) p.order_id
    ∙ read_defined user_id_is (λ o. record p1 { order_id = p.order_id; user_id = o }) _ (λ x. refl)
        p.user_id
    ∙ read_defined item_sku_is (λ o. record p2 { item_sku = o }) _ (λ x. refl) p.item_sku
    ∙ read_defined quantity_is (λ o. record p2 { item_sku = p.item_sku; quantity = o }) _
        (λ x. refl) p.quantity
    ∙ read_defined total_amount_is (λ o. record p3 { total_amount = o }) _ (λ x. refl)
        p.total_amount
    ∙ read_defined amount_is (λ o. record p3 { total_amount = p.total_amount; amount = o }) _
        (λ x. refl) p.amount
    ∙ read_defined currency_is (λ o. record p4 { currency = o }) _ (λ x. refl) p.currency
    ∙ last p.reason
  where
    p1 : Payload
    p1 = record no_payload { event_type = p.event_type; event_id = p.event_id }

    p2 : Payload
    p2 = record p1 { order_id = p.order_id; user_id = p.user_id }

    p3 : Payload
    p3 = record p2 { item_sku = p.item_sku; quantity = p.quantity }

    p4 : Payload
    p4 = record p3 { total_amount = p.total_amount; amount = p.amount }

    last :
        (o : Option String)
        → read_members (record p4 { currency = p.currency }) (defined reason_is o)
          ≡ record p4 { currency = p.currency; reason = o }
    last none = refl
    last (some x) = refl
