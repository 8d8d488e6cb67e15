-- ===== src/Api/Cancel.antt =====
-- crates/api/src/number_routes.rs: `cancel_order`, a user's cancellation of an order for a number, with
-- the claims of number_reconciler.rs that it takes. Instants are in milliseconds.
pub mod Keep
pub mod Refunds
use naivolt.Base.{
  ℕ, ◌+◌, ◌==◌, ◌&&◌, not, Bool, true, false, Option, none, some, List, [], ◌∷◌, Result, ok, err,
  length, if◌then◌else◌,
}
use naivolt.Base.Text.{Text, codes}
use naivolt.Ledger.Account.{Uuid}
use naivolt.Auth.Identifier.{trim}
use naivolt.Api.Error.{ApiError}
use naivolt.Api.Orders.{
  OrderRow, Sms, OrdersDb, OrderTransition, refund, refund_cancelled, find_order, update_order,
  TransitionOutcome, OrderError, apply_inner,
}
use naivolt.Api.Orders.Messages.{any_message}
use naivolt.Api.Orders.Checks.{ActivationCheck, is_closed, apply_check}
use naivolt.Api.Purchase.{as_api_error, is_reviewable, is_unclaimed, load_order}
use naivolt.Api.Reconcile.{is_review, is_token, taken_at}

-- What the suppliers answer about an order of theirs, and whether they take it back.
pub record Suppliers : Type 0 where
  pub is_live : Bool
  pub check_for : Text → Text → Option ActivationCheck
  pub cancel_for : Text → Text → Bool

abbrev pub is_blank : Option Text → Bool
is_blank none = true
is_blank (some s) = length (trim s) == 0

-- An order that has received nothing.
unfoldable pub is_cancellable : OrdersDb → OrderRow → Bool
is_cancellable db o =
    is_reviewable o.status && (is_blank o.sms_code && not (any_message o.id db.messages))

-- `try_claim_order`, with the token that it draws.
unfoldable pub try_claim_order : Uuid → ℕ → OrdersDb → Option Uuid × OrdersDb
try_claim_order id now db = elim (find_order id db.orders) [
  | none ↦ (none, db)
  | some o ↦
      let token = db.ledger.next_id in
      if is_reviewable o.status && is_unclaimed now o
      then (
        some token,
        record db {
          ledger = record db.ledger { next_id = token + 1 };
          orders = update_order id (taken_at now token) db.orders;
        },
      )
      else (none, db)
]

abbrev pub unclaimed_as : Uuid → OrderRow → OrderRow
unclaimed_as token o =
    if is_token o.reconcile_claim_token token
    then record o { reconcile_claim_token = none; reconcile_claimed_until = none }
    else o

unfoldable pub drop_claim : Uuid → Uuid → OrdersDb → OrdersDb
drop_claim id token db = record db { orders = update_order id (unclaimed_as token) db.orders }

abbrev pub Answer : Type 0
Answer = Result ApiError OrderRow × OrdersDb

-- An error of the transition is the answer; otherwise the answer is read from the tables.
unfoldable pub and_then :
    (OrdersDb → Result ApiError OrderRow) → Result OrderError TransitionOutcome × OrdersDb → Answer
and_then next (err e, db) = (err (as_api_error e), db)
and_then next (ok t, db) = (next db, db)

module _ (suppliers : Suppliers) (digest : Text → Sms → Text) (user id : Uuid) where
  -- The refund under the claim.
  unfoldable pub refund_claimed : Uuid → ℕ → OrdersDb → Answer
  refund_claimed token now db =
      and_then (λ after. load_order user id after.orders)
        (apply_inner id (refund refund_cancelled (codes "cancelled")) (some token) now db)

  -- The supplier's answer: a message closes the way back, and so does an end of the activation.
  unfoldable pub cancel_checked : OrderRow → Text → ActivationCheck → Uuid → ℕ → OrdersDb → Answer
  cancel_checked o provider_id check token now db =
      if not (length check.messages == 0)
      then and_then (λ after. err ApiError.conflict)
          (apply_check digest id (some token) check now db)
      else if is_closed check.lifecycle
      then and_then (λ after. load_order user id after.orders)
          (apply_check digest id (some token) check now db)
      else if suppliers.is_live && not (suppliers.cancel_for o.provider provider_id)
      then (err ApiError.service_unavailable, drop_claim id token db)
      else refund_claimed token now db

  -- The supplier is asked first.
  unfoldable pub cancel_at : OrderRow → Text → Uuid → ℕ → OrdersDb → Answer
  cancel_at o provider_id token now db = elim (suppliers.check_for o.provider provider_id) [
    | none ↦ (err ApiError.service_unavailable, drop_claim id token db)
    | some check ↦ cancel_checked o provider_id check token now db
  ]

  -- An order that has received something is brought up to date, and not cancelled.
  unfoldable pub refuse_received : OrderRow → ℕ → OrdersDb → Answer
  refuse_received o now db =
      if is_reviewable o.status
      then elim o.provider_order_id [
        | none ↦ (err ApiError.conflict, db)
        | some provider_id ↦ elim (suppliers.check_for o.provider provider_id) [
          | none ↦ (err ApiError.conflict, db)
          | some check ↦ (err ApiError.conflict, (apply_check digest id none check now db).1)
        ]
      ]
      else (err ApiError.conflict, db)

  -- An order that has received nothing, under a claim.
  unfoldable pub cancel_claimed : OrderRow → ℕ → ℕ → OrdersDb → Answer
  cancel_claimed o now later db =
      let (claim, claimed) = try_claim_order id now db in
      elim claim [
        | none ↦ (err ApiError.conflict, claimed)
        | some token ↦ elim o.provider_order_id [
          | none ↦ refund_claimed token later claimed
          | some provider_id ↦ cancel_at o provider_id token later claimed
        ]
      ]

  -- `cancel_order`, at the instant of the claim and that of the supplier's answer.
  unfoldable pub cancel_order : ℕ → ℕ → OrdersDb → Answer
  cancel_order now later db = elim (find_order id db.orders) [
    | none ↦ (err ApiError.not_found, db)
    | some o ↦
        if not (user == o.user_id)
        then (err ApiError.not_found, db)
        else if is_review o.status
        then (load_order user id db.orders, db)
        else if not (is_cancellable db o)
        then refuse_received o later db
        else cancel_claimed o now later db
  ]
