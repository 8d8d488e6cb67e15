-- ===== src/Api/Orders/Messages.antt =====
-- The messages of an order: each is kept once, and the first with a code is the one that counts. The
-- digest that names a message without an id of its own is a parameter.
use naivolt.Base.{
  ℕ, ltb, ◌+◌, ◌&&◌, ◌||◌, ◌==◌, Bool, false, Option, none, some, List, [], ◌∷◌, ◌++◌, all,
  if◌then◌else◌,
}
use naivolt.Base.Text.{Text, codes, text_eq}
use naivolt.Ledger.Account.{Uuid}
use naivolt.Api.Orders.{Sms, MessageRow, OrdersDb}

abbrev pub coalesce {ℓ} : {A : Type ℓ} → Option A → A → A
coalesce none b = b
coalesce (some a) b = a

-- The key under which a message is kept once: the supplier's id, or a digest of its contents.
unfoldable pub message_key : (Text → Sms → Text) → Text → Sms → Text
message_key digest provider_order_id m = elim m.provider_message_id [
  | none ↦ digest provider_order_id m
  | some [] ↦ digest provider_order_id m
  | some (c ∷ cs) ↦ codes "sid:" ++ (c ∷ cs)
]

unfoldable pub has_message : Uuid → Text → List MessageRow → Bool
has_message order_id key [] = false
has_message order_id key (m ∷ rows) =
    (order_id == m.order_id && text_eq key m.provider_message_key) || has_message order_id key rows

-- `ON CONFLICT (order_id, provider_message_key) DO NOTHING`
unfoldable pub insert_messages :
    (Text → Sms → Text) → Uuid → Text → ℕ → List Sms → OrdersDb → OrdersDb
insert_messages digest order_id provider_order_id now [] db = db
insert_messages digest order_id provider_order_id now (m ∷ ms) db =
    let key = message_key digest provider_order_id m in
    let row : MessageRow = record {
      id = db.ledger.next_id;
      order_id = order_id;
      text = m.text;
      code = m.code;
      received_at = coalesce m.received_at now;
      provider_message_key = key;
    } in
    let db₁ : OrdersDb = if has_message order_id key db.messages then db else record db {
      messages = db.messages ++ row ∷ [];
      ledger = record db.ledger { next_id = db.ledger.next_id + 1 };
    } in
    insert_messages digest order_id provider_order_id now ms db₁

-- `code IS NOT NULL AND length(btrim(code)) > 0`
abbrev pub code_of : MessageRow → Option Text
code_of m = elim m.code [
  | none ↦ none
  | some code ↦ if all (λ c. c == 32) code then none else some code
]

abbrev pub earlier : MessageRow → MessageRow → Bool
earlier a b = ltb a.received_at b.received_at || ((a.received_at == b.received_at) && ltb a.id b.id)

-- The earliest message of the order with a code: when it came, the code and the text.
unfoldable pub qualifying : Uuid → List MessageRow → Option (MessageRow × Text)
qualifying order_id [] = none
qualifying order_id (m ∷ rows) =
    let rest = qualifying order_id rows in
    if order_id == m.order_id
    then elim (code_of m) [
      | none ↦ rest
      | some code ↦ elim rest [
        | none ↦ some (m, code)
        | some best ↦ if earlier best.0 m then some best else some (m, code)
      ]
    ]
    else rest

unfoldable pub any_message : Uuid → List MessageRow → Bool
any_message order_id [] = false
any_message order_id (m ∷ rows) = (order_id == m.order_id) || any_message order_id rows
