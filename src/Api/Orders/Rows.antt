-- ===== src/Api/Orders/Rows.antt =====
-- The tables `number_orders`, `number_messages` and `operator_alerts`.
use naivolt.Base.{ℕ, ◌==◌, Bool, true, false, Option, none, some, List, [], ◌∷◌, if◌then◌else◌}
use naivolt.Base.Int.{ℤ}
use naivolt.Base.Text.{Text}
use naivolt.Ledger.Account.{Uuid}
use naivolt.Ledger.Post.{LedgerDb}

pub data OrderStatus : Type 0 where
  reserved awaiting_code review_required delivered failed expired cancelled : OrderStatus

-- `status IN ('reserved', 'awaiting_code', 'review_required')`
abbrev pub is_money_open : OrderStatus → Bool
is_money_open reserved = true
is_money_open awaiting_code = true
is_money_open review_required = true
is_money_open _ = false

-- `matches!(status, "cancelled" | "expired" | "failed")`
abbrev pub is_refunded : OrderStatus → Bool
is_refunded cancelled = true
is_refunded expired = true
is_refunded failed = true
is_refunded _ = false

-- Where an offer's numbers come from: the supplier, and its names of the country, the app and the
-- operator.
pub record Source : Type 0 where
  pub provider : Text
  pub country : Text
  pub product : Text
  pub operator : Text

-- A row of `number_orders`, with the slug and the code of the product and the country that it joins.
pub record OrderRow : Type 0 where
  pub id : Uuid
  pub user_id : Uuid
  pub price_ngn : ℤ
  pub reference : Text
  pub status : OrderStatus
  pub provider_order_id : Option Text
  pub created_at : ℕ
  pub expires_at : Option ℕ
  pub failure_reason : Option Text
  pub sms_code : Option Text
  pub sms_text : Option Text
  pub received_at : Option ℕ
  pub settled_journal_id : Option Uuid
  pub refunded_journal_id : Option Uuid
  pub activation_open : Bool
  pub review_reason : Option Text
  pub review_required_at : Option ℕ
  pub reconcile_next_at : Option ℕ
  pub reconcile_claim_token : Option Uuid
  pub reconcile_claimed_until : Option ℕ
  pub reserved_journal_id : Uuid
  pub product_slug : Text
  pub country_code : Text
  pub idempotency_key : Option Uuid
  pub expected_price_ngn : Option ℤ
  pub payload_complete : Bool
  pub offer_id : Option Uuid
  pub provider : Text
  pub source : Option Source
  pub phone_number : Option Text
  pub purchase_started_at : Option ℕ
  pub reconciliation_payload_complete : Bool

-- `Sms` of number_provider.rs.
pub record Sms : Type 0 where
  pub sender : Option Text
  pub text : Text
  pub code : Option Text
  pub received_at : Option ℕ
  pub provider_message_id : Option Text

-- A row of `number_messages`.
pub record MessageRow : Type 0 where
  pub id : Uuid
  pub order_id : Uuid
  pub text : Text
  pub code : Option Text
  pub received_at : ℕ
  pub provider_message_key : Text

pub record OrdersDb : Type 0 where
  pub ledger : LedgerDb
  pub orders : List OrderRow
  pub messages : List MessageRow
  pub alerts : List Uuid

unfoldable pub find_order : Uuid → List OrderRow → Option OrderRow
find_order id [] = none
find_order id (r ∷ rows) = if id == r.id then some r else find_order id rows

-- `UPDATE number_orders SET … WHERE id = $1`
unfoldable pub update_order : Uuid → (OrderRow → OrderRow) → List OrderRow → List OrderRow
update_order id f [] = []
update_order id f (r ∷ rows) = (if id == r.id then f r else r) ∷ update_order id f rows

-- `… AND status IN ('reserved', 'awaiting_code', 'review_required')`
unfoldable pub set_open : Uuid → (OrderRow → OrderRow) → List OrderRow → List OrderRow
unfolding update_order
set_open id f rows = update_order id (λ r. if is_money_open r.status then f r else r) rows
