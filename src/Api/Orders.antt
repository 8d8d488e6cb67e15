-- ===== src/Api/Orders.antt =====
-- crates/api/src/number_order_transitions.rs: how an order for a phone number is settled or refunded.
-- Instants are in milliseconds.
pub mod Rows
pub mod Consistent
pub mod Messages
pub mod Money
pub mod Once
pub mod Refunds
pub mod Returns
pub mod Checks
pub use Rows.*
unfoldable pub use Rows.{find_order, update_order, set_open}
use naivolt.Base.{
  ℕ, leb, ltb, min, ◌+◌, ◌-◌, ◌*◌, ◌&&◌, ◌||◌, not, ◌==◌, Bool, true, false, Option, none, some,
  is_some, List, [], ◌∷◌, ◌++◌, length, Result, ok, err, if◌then◌else◌,
}
use naivolt.Base.Int.{ℤ, neg}
use naivolt.Base.Text.{Text, codes}
use naivolt.Core.Asset.{Asset}
use naivolt.Ledger.Account.{Uuid, AccountKind}
use naivolt.Ledger.Journal.{
  JournalKind, Reference, Scalar, Metadata, Journal, LedgerError, new, entry, with_metadata, build,
}
use naivolt.Ledger.Post.{LedgerDb, journal_id, post}
use naivolt.Auth.Identifier.{trim}
use naivolt.Api.Naira.{lock_user_ngn_account, platform_account}

pub data RefundStatus : Type 0 where
  refund_failed refund_expired refund_cancelled : RefundStatus

-- `RefundStatus::as_str`, as the status that it names.
abbrev pub as_status : RefundStatus → OrderStatus
as_status refund_failed = failed
as_status refund_expired = expired
as_status refund_cancelled = cancelled

pub data OrderTransition : Type 0 where
  deliver : Text → Text → OrderTransition
  refund : RefundStatus → Text → OrderTransition

pub data TransitionOutcome : Type 0 where
  applied : TransitionOutcome
  already_terminal : OrderStatus → TransitionOutcome

-- `ApiError`, as far as the transitions return it.
pub data OrderError : Type 0 where
  not_found conflict internal : OrderError

-- What the reservation holds goes to the revenue.
unfoldable pub settle_journal : Uuid → Uuid → OrderRow → Result LedgerError Journal
settle_journal pending revenue o = build (
    entry
      (entry
        (new JournalKind.number_settle (Reference.text o.reference)
          (o.reference ++ codes ":settle"))
        pending AccountKind.number_payable_pending Asset.ngn o.price_ngn)
      revenue AccountKind.number_revenue Asset.ngn (neg o.price_ngn))

-- What the reservation holds goes back to the user.
unfoldable pub refund_journal : Uuid → Uuid → OrderRow → Text → Result LedgerError Journal
refund_journal pending user_account o reason = build (
    with_metadata
      (entry
        (entry
          (new JournalKind.number_refund (Reference.text o.reference)
            (o.reference ++ codes ":refund"))
          pending AccountKind.number_payable_pending Asset.ngn o.price_ngn)
        user_account AccountKind.user_ngn Asset.ngn (neg o.price_ngn))
      (Metadata.object ((codes "reason", Scalar.str reason) ∷ [])))

-- The ledger after a settlement and the id of its journal.
unfoldable pub post_settlement : OrderRow → LedgerDb → Option (Uuid × LedgerDb)
post_settlement o l =
    let (pending, l₁) = platform_account AccountKind.number_payable_pending l in
    let (revenue, l₂) = platform_account AccountKind.number_revenue l₁ in
    elim (settle_journal pending revenue o) [
      | err e ↦ none
      | ok journal ↦ let (outcome, l₃) = post journal l₂ in some (journal_id outcome, l₃)
    ]

-- The ledger after a refund and the id of its journal.
unfoldable pub post_refund : OrderRow → Text → LedgerDb → Option (Uuid × LedgerDb)
post_refund o reason l =
    let (user_account, l₁) = lock_user_ngn_account o.user_id l in
    let (pending, l₂) = platform_account AccountKind.number_payable_pending l₁ in
    elim (refund_journal pending user_account o reason) [
      | err e ↦ none
      | ok journal ↦ let (outcome, l₃) = post journal l₂ in some (journal_id outcome, l₃)
    ]

-- A claim that is given must be the stored one, and not have run out.
unfoldable pub claim_is_current : Option Uuid → ℕ → OrderRow → Bool
claim_is_current none now o = true
claim_is_current (some token) now o = elim o.reconcile_claim_token [
  | none ↦ false
  | some stored ↦
      (token == stored)
      && (elim o.reconcile_claimed_until [ none ↦ false | some until ↦ ltb now until ])
]

-- The update of `apply_inner` for a delivery and for a refund.
abbrev pub delivered_as : ℕ → Text → Text → Uuid → OrderRow → OrderRow
delivered_as now code text journal r = record r {
  status = delivered;
  failure_reason = none;
  sms_code = some code;
  sms_text = some text;
  received_at = some now;
  settled_journal_id = some journal;
  activation_open = true;
  reconcile_next_at = none;
  reconcile_claim_token = none;
  reconcile_claimed_until = none;
}

abbrev pub refunded_as : OrderStatus → Text → Uuid → OrderRow → OrderRow
refunded_as status reason journal r = record r {
  status = status;
  failure_reason = some reason;
  refunded_journal_id = some journal;
  activation_open = false;
  reconcile_next_at = none;
  reconcile_claim_token = none;
  reconcile_claimed_until = none;
}

-- A refund of an open order; a blank reason is refused.
unfoldable pub refund_open :
    OrderRow → RefundStatus → Text → OrdersDb → Result OrderError TransitionOutcome × OrdersDb
refund_open o status reason db =
    if length (trim reason) == 0
    then (err internal, db)
    else elim (post_refund o reason db.ledger) [
      | none ↦ (err internal, db)
      | some (journal, l) ↦ (
        ok applied,
        record db {
          ledger = l;
          orders = set_open o.id (refunded_as (as_status status) reason journal) db.orders;
        },
      )
    ]

-- A transition of an open order.
unfoldable pub move_open :
    OrderTransition → OrderRow → ℕ → OrdersDb → Result OrderError TransitionOutcome × OrdersDb
move_open (refund status reason) o now db = refund_open o status reason db
move_open (deliver code text) o now db = elim (post_settlement o db.ledger) [
  | none ↦ (err internal, db)
  | some (journal, l) ↦ (
    ok applied,
    record db { ledger = l; orders = set_open o.id (delivered_as now code text journal) db.orders },
  )
]

-- `apply_inner` without messages, as `apply` and `apply_claimed` call it. The row that the update
-- concerns was locked and found open, so that exactly one row is updated.
unfoldable pub apply_inner :
    Uuid
    → OrderTransition
    → Option Uuid
    → ℕ
    → OrdersDb
    → Result OrderError TransitionOutcome × OrdersDb
apply_inner order_id transition claim_token now db = elim (find_order order_id db.orders) [
  | none ↦ (err not_found, db)
  | some o ↦
      if not (claim_is_current claim_token now o)
      then (err conflict, db)
      else if not (is_money_open o.status)
      then (ok (already_terminal o.status), db)
      else move_open transition o now db
]
