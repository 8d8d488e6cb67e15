-- ===== src/Api/Orders/Checks.antt =====
-- `apply_check` of crates/api/src/number_order_transitions.rs: what an answer of a supplier does to an
-- order.
pub mod Keep
pub mod Closed
use naivolt.Base.{
  ℕ, leb, ltb, min, ◌+◌, ◌*◌, ◌&&◌, ◌||◌, not, ◌==◌, Bool, true, false, Option, none, some, List,
  [], ◌∷◌, ◌++◌, all, Result, ok, err, if◌then◌else◌,
}
use naivolt.Base.Text.{Text, codes, text_eq}
use naivolt.Ledger.Account.{Uuid}
use naivolt.Api.Orders.Messages.{coalesce, insert_messages, qualifying, any_message}
use naivolt.Api.Orders.{
  OrderStatus, delivered, review_required, OrderRow, Sms, MessageRow, OrdersDb, TransitionOutcome,
  applied, already_terminal, OrderError, not_found, conflict, internal, refund_expired,
  is_money_open, is_refunded, find_order, update_order, set_open, claim_is_current, post_settlement,
  refund_open,
}

pub data ActivationLifecycle : Type 0 where
  lifecycle_open lifecycle_closed : ActivationLifecycle

abbrev pub is_closed : ActivationLifecycle → Bool
is_closed lifecycle_open = false
is_closed lifecycle_closed = true

pub record ActivationCheck : Type 0 where
  pub messages : List Sms
  pub lifecycle : ActivationLifecycle
  pub expires_at : Option ℕ

-- Seconds to the next look at an order: an order of the last five minutes is looked at more often.
unfoldable pub delay : ℕ → ℕ → ℕ
delay created_at now = if ltb now (created_at + 5 * 60 * 1000) then 10 else 30

abbrev pub scheduled_as : Bool → ℕ → ℕ → OrderRow → OrderRow
scheduled_as open_ wait now r = record r {
  activation_open = open_;
  reconcile_next_at =
      if open_
      then some (min (coalesce r.expires_at (now + 15 * 60 * 1000)) (now + wait * 1000))
      else none;
  reconcile_claim_token = none;
  reconcile_claimed_until = none;
}

unfoldable pub schedule_open : OrderRow → Bool → ℕ → OrdersDb → OrdersDb
schedule_open o open_ now db = record db {
  orders = update_order o.id (scheduled_as open_ (delay o.created_at now) now) db.orders;
}

abbrev pub settled_as : Text → Text → Bool → ℕ → ℕ → Uuid → OrderRow → OrderRow
settled_as code text stay_open wait now journal r = record r {
  status = delivered;
  sms_code = some (coalesce r.sms_code code);
  sms_text = some (coalesce r.sms_text text);
  received_at = some (coalesce r.received_at now);
  settled_journal_id = some journal;
  activation_open = stay_open;
  reconcile_next_at = if stay_open then some (now + wait * 1000) else none;
  reconcile_claim_token = none;
  reconcile_claimed_until = none;
}

-- The settlement of an order whose status was read as open.
unfoldable pub settle_open :
    OrderRow → Text → Text → Bool → ℕ → OrdersDb → Result OrderError TransitionOutcome × OrdersDb
settle_open o code text stay_open now db = elim (post_settlement o db.ledger) [
  | none ↦ (err internal, db)
  | some (journal, l) ↦ (
    ok applied,
    record db {
      ledger = l;
      orders =
          set_open o.id (settled_as code text stay_open (delay o.created_at now) now journal)
            db.orders;
    },
  )
]

abbrev pub reviewed_as : Text → ℕ → OrderRow → OrderRow
reviewed_as reason now r = record r {
  status = review_required;
  review_reason = some reason;
  review_required_at = some now;
  activation_open = false;
  reconcile_next_at = none;
  reconcile_claim_token = none;
  reconcile_claimed_until = none;
}

unfoldable pub is_alerted : Uuid → List Uuid → Bool
is_alerted id [] = false
is_alerted id (a ∷ alerts) = (id == a) || is_alerted id alerts

-- The reservation is kept until an operator decides.
unfoldable pub review_open : OrderRow → Text → ℕ → OrdersDb → OrdersDb
review_open o reason now db = record db {
  orders = set_open o.id (reviewed_as reason now) db.orders;
  alerts = if is_alerted o.id db.alerts then db.alerts else db.alerts ++ o.id ∷ [];
}

-- `newer > current`, or no current expiry.
abbrev pub extends : Option ℕ → Option ℕ → Bool
extends none current = false
extends (some newer) none = true
extends (some newer) (some current) = ltb current newer

abbrev pub has_passed : Option ℕ → ℕ → Bool
has_passed none now = false
has_passed (some expiry) now = leb expiry now

abbrev pub ended_without_code : ActivationLifecycle → Text
ended_without_code l =
    if is_closed l then codes "closed_without_code" else codes "expired_without_code"

abbrev pub ended : ActivationLifecycle → Text
ended l = if is_closed l then codes "supplier_finished" else codes "expired"

-- An order that is not open: a delivered one may still be looked at for more messages.
unfoldable pub revisit :
    OrderRow → OrderStatus → Bool → ℕ → OrdersDb → Result OrderError TransitionOutcome × OrdersDb
revisit o delivered stay_open now db = (ok applied, schedule_open o stay_open now db)
revisit o s stay_open now db = (ok (already_terminal s), db)

-- What is done once the messages are in: with a code the order is settled, at its end without one it
-- is refunded, or left to an operator if there were messages, and otherwise it is looked at again.
unfoldable pub decide :
    OrderRow
    → ActivationLifecycle
    → Bool
    → ℕ
    → OrdersDb
    → Result OrderError TransitionOutcome × OrdersDb
decide o lifecycle over now db =
    let stay_open = not (is_closed lifecycle) && not over in
    if is_money_open o.status
    then elim (qualifying o.id db.messages) [
      | some (m, code) ↦ settle_open o code m.text stay_open now db
      | none ↦
          if is_closed lifecycle || over
          then (if any_message o.id db.messages
              then (ok applied, review_open o (ended_without_code lifecycle) now db)
              else refund_open o refund_expired (ended lifecycle) db)
          else (ok applied, schedule_open o true now db)
    ]
    else revisit o o.status stay_open now db

-- An error rolls everything back.
abbrev pub or_rollback :
    OrdersDb
    → Result OrderError TransitionOutcome × OrdersDb
    → Result OrderError TransitionOutcome × OrdersDb
or_rollback db (ok outcome, after) = (ok outcome, after)
or_rollback db (err e, after) = (err e, db)

-- The messages of a check; there must be an order at the provider for them to belong to.
unfoldable pub record_messages :
    (Text → Sms → Text) → OrderRow → List Sms → ℕ → OrdersDb → Option OrdersDb
record_messages digest o [] now db = some db
record_messages digest o (m ∷ ms) now db = elim o.provider_order_id [
  | none ↦ none
  | some provider_order_id ↦ some (insert_messages digest o.id provider_order_id now (m ∷ ms) db)
]

abbrev pub expiring_at : Option ℕ → OrderRow → OrderRow
expiring_at expiry r = record r { expires_at = expiry }

unfoldable pub apply_check :
    (Text → Sms → Text)
    → Uuid
    → Option Uuid
    → ActivationCheck
    → ℕ
    → OrdersDb
    → Result OrderError TransitionOutcome × OrdersDb
apply_check digest order_id claim_token check now db = elim (find_order order_id db.orders) [
  | none ↦ (err not_found, db)
  | some o ↦
      if not (claim_is_current claim_token now o)
      then (err conflict, db)
      else if is_refunded o.status
      then (ok (already_terminal o.status), db)
      else let newer = extends check.expires_at o.expires_at in
        let db₁ : OrdersDb =
          if newer
          then record db { orders = update_order order_id (expiring_at check.expires_at) db.orders }
          else db in
        let over = has_passed (if newer then check.expires_at else o.expires_at) now in
        elim (record_messages digest o check.messages now db₁) [
          | none ↦ (err internal, db)
          | some db₂ ↦ or_rollback db (decide o check.lifecycle over now db₂)
        ]
]
