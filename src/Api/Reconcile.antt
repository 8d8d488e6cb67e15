-- ===== src/Api/Reconcile.antt =====
-- crates/api/src/number_reconciler.rs: how open orders for a number are looked after. Orders that are due
-- are claimed, and each is settled, refunded, left to an operator or looked at again later. The tasks of a
-- sweep are run one after the other. Instants are in milliseconds.
pub mod Keep
use naivolt.Base.{
  ◌++◌, length, ℕ, ◌+◌, ◌*◌, ◌^◌, min, leb, ltb, ◌==◌, ◌&&◌, ◌||◌, not, Bool, true, false, Option,
  none, some, is_some, List, [], ◌∷◌, take, Result, ok, err, if◌then◌else◌,
}
use naivolt.Base.Text.{Text, codes, text_eq}
use naivolt.Ledger.Account.{Uuid}
use naivolt.Api.Error.{ApiError}
use naivolt.Api.Orders.{
  OrderStatus, reserved, awaiting_code, review_required, delivered, OrderRow, Sms, OrdersDb,
  OrderTransition, refund, refund_failed, find_order, update_order, TransitionOutcome, OrderError,
  apply_inner,
}
use naivolt.Api.Orders.Messages.{coalesce}
use naivolt.Api.Orders.Checks.{
  ActivationCheck, lifecycle_closed, is_closed, has_passed, apply_check,
}
use naivolt.Api.Purchase.Hold.{seconds}
use naivolt.Api.Purchase.Supply.{Activation}
use naivolt.Api.Purchase.{as_api_error, is_unclaimed, mark_review_required}

-- A row of `number_provider_slots`.
pub record SlotRow : Type 0 where
  pub slot : ℕ
  pub claim_token : Option Uuid
  pub claimed_until : Option ℕ

-- The tables, and which orders of theirs were given back to the suppliers.
pub record ReconcilerDb : Type 0 where
  pub books : OrdersDb
  pub slots : List SlotRow
  pub given_back : List (Text × Text)

-- What the suppliers answer about an order of theirs, and which number they have sold for a country and
-- an app.
pub record Answers : Type 0 where
  pub check_for : Text → Text → Option ActivationCheck
  pub recover_activation : Text → Text → Option Activation

-- An order that the sweep takes up by its status.
abbrev pub is_watched : OrderRow → Bool
is_watched o = elim o.status [
  | reserved ↦ true
  | awaiting_code ↦ true
  | delivered ↦ o.activation_open
  | review_required ↦ not (is_some o.provider_order_id) && (elim o.review_reason [
    | none ↦ false
    | some reason ↦ text_eq reason (codes "purchase_outcome_unknown")
  ])
  | _ ↦ false
]

unfoldable pub is_due : ℕ → OrderRow → Bool
is_due now o =
    (o.reconciliation_payload_complete && is_watched o)
    && ((elim o.reconcile_next_at [ none ↦ true | some at_ ↦ leb at_ now ]) && is_unclaimed now o)

-- `ORDER BY reconcile_next_at`, rows without one last.
abbrev pub next_before : OrderRow → OrderRow → Bool
next_before a b = elim a.reconcile_next_at [
  | none ↦ false
  | some x ↦ elim b.reconcile_next_at [ none ↦ true | some y ↦ leb x y ]
]

unfoldable pub insert_due : OrderRow → List OrderRow → List OrderRow
insert_due o [] = o ∷ []
insert_due o (p ∷ orders) =
    let rest = insert_due o orders in if next_before o p then o ∷ p ∷ orders else p ∷ rest

unfoldable pub due : ℕ → List OrderRow → List OrderRow
due now [] = []
due now (o ∷ orders) = let rest = due now orders in if is_due now o then insert_due o rest else rest

abbrev pub taken_at : ℕ → Uuid → OrderRow → OrderRow
taken_at now token o = record o {
  reconcile_claim_token = some token;
  reconcile_claimed_until = some (now + seconds 60);
}

-- The claims on the orders that are due, each with a token of its own.
unfoldable pub claim_all : ℕ → List OrderRow → OrdersDb → List (OrderRow × Uuid) × OrdersDb
claim_all now [] db = ([], db)
claim_all now (o ∷ orders) db =
    let token = db.ledger.next_id in
    let (claimed, after) = claim_all now orders (record db {
      ledger = record db.ledger { next_id = token + 1 };
      orders = update_order o.id (taken_at now token) db.orders;
    }) in
    ((taken_at now token o, token) ∷ claimed, after)

abbrev pub is_free : ℕ → SlotRow → Bool
is_free now s = elim s.claimed_until [ none ↦ true | some until ↦ ltb until now ]

-- The first free slot of the suppliers.
unfoldable pub claim_slot : Uuid → ℕ → List SlotRow → Option ℕ × List SlotRow
claim_slot token now [] = (none, [])
claim_slot token now (s ∷ slots) =
    let rest = claim_slot token now slots in
    if is_free now s
    then (
      some s.slot,
      record s { claim_token = some token; claimed_until = some (now + seconds 60) } ∷ slots,
    )
    else (rest.0, s ∷ rest.1)

abbrev pub is_token : Option Uuid → Uuid → Bool
is_token none token = false
is_token (some t) token = t == token

unfoldable pub release_slot : ℕ → Uuid → List SlotRow → List SlotRow
release_slot slot token [] = []
release_slot slot token (s ∷ slots) =
    (if (slot == s.slot) && is_token s.claim_token token
      then record s { claim_token = none; claimed_until = none }
      else s)
    ∷ release_slot slot token slots

abbrev pub released_as : Uuid → ℕ → ℕ → OrderRow → OrderRow
released_as token delay now o =
    if is_token o.reconcile_claim_token token
    then record o {
      reconcile_next_at =
          some (min (coalesce o.expires_at (now + seconds 900)) (now + seconds delay));
      reconcile_claim_token = none;
      reconcile_claimed_until = none;
    }
    else o

unfoldable pub release_order : Uuid → Uuid → ℕ → ℕ → OrdersDb → OrdersDb
release_order id token delay now db = record db {
  orders = update_order id (released_as token delay now) db.orders;
}

-- Only whether it failed: a failure is logged.
abbrev pub Done : Type 0
Done = Result ApiError (Unit {0}) × OrdersDb

unfoldable pub outcome : Result OrderError TransitionOutcome × OrdersDb → Done
outcome (ok t, db) = (ok tt, db)
outcome (err e, db) = (err (as_api_error e), db)

unfoldable pub is_taken : Text → Uuid → List OrderRow → Bool
is_taken provider_order_id id [] = false
is_taken provider_order_id id (o ∷ orders) =
    let rest = is_taken provider_order_id id orders in
    if id == o.id then rest else elim o.provider_order_id [
      | none ↦ rest
      | some other ↦ text_eq other provider_order_id || rest
    ]

abbrev pub is_review : OrderStatus → Bool
is_review review_required = true
is_review _ = false

-- A number that the supplier had sold, found again for its order.
abbrev pub recovered_as : ℕ → Activation → OrderRow → OrderRow
recovered_as now a o = record o {
  status = awaiting_code;
  provider_order_id = some a.provider_order_id;
  phone_number = some a.phone;
  expires_at = some (coalesce a.expires_at (now + seconds 900));
  activation_open = true;
  reconcile_next_at = some now;
  reconcile_claim_token = none;
  reconcile_claimed_until = none;
}

-- `… AND status = 'review_required'`
unfoldable pub set_review : Uuid → (OrderRow → OrderRow) → List OrderRow → List OrderRow
set_review id f orders = update_order id (λ o. if is_review o.status then f o else o) orders

-- A number that was found and is no other order's is assigned to an order under review.
unfoldable pub try_recover :
    Option Activation → Uuid → Uuid → ℕ → OrdersDb → Option (Activation × OrdersDb)
try_recover none id token now db = none
try_recover (some a) id token now db = elim (find_order id db.orders) [
  | none ↦ none
  | some o ↦
      if not (is_taken a.provider_order_id id db.orders)
        && (is_review o.status && is_token o.reconcile_claim_token token)
      then some (a, record db { orders = set_review id (recovered_as now a) db.orders })
      else none
]

abbrev pub is_delivered : OrderStatus → Bool
is_delivered delivered = true
is_delivered _ = false

-- `ActivationCheck::closed`
abbrev pub closed : ActivationCheck
closed = record { messages = []; lifecycle = lifecycle_closed; expires_at = none }

abbrev pub minutes : ℕ → ℕ
minutes n = n * 60_000

-- An answer without a message, of an activation that is closed or has run out.
abbrev pub is_given_back : OrderRow → ℕ → Option ActivationCheck → Bool
is_given_back o now none = false
is_given_back o now (some check) =
    (length check.messages == 0) && (is_closed check.lifecycle || has_passed o.expires_at now)

module _ (answers : Answers) (digest : Text → Sms → Text) where
  -- The purchase whose outcome is unknown: its number is found again, or after 20 minutes it is refunded.
  unfoldable pub recover_unknown_purchase : OrderRow → Uuid → Text → ℕ → OrdersDb → Done
  recover_unknown_purchase o token provider_country now db =
      elim (try_recover (answers.recover_activation provider_country o.product_slug) o.id token now
        db) [
          | some (a, after) ↦ elim (answers.check_for o.provider a.provider_order_id) [
            | none ↦ (ok tt, after)
            | some check ↦ outcome (apply_check digest o.id none check now after)
          ]
          | none ↦
              if ltb (o.created_at + minutes 20) now
              then outcome (
                  apply_inner o.id (refund refund_failed (codes "purchase_unconfirmed"))
                    (some token) now db)
              else (ok tt, release_order o.id token 15 now db)
        ]

  -- What is done with a supplier's answer, or without one after `attempts` failures in a row.
  unfoldable pub answered : OrderRow → Uuid → ℕ → ℕ → Option ActivationCheck → OrdersDb → Done
  answered o token attempts now (some check) db =
      outcome (apply_check digest o.id (some token) check now db)
  answered o token attempts now none db =
      if is_delivered o.status && has_passed o.expires_at now
      then outcome (apply_check digest o.id (some token) closed now db)
      else (ok tt, release_order o.id token (min (15 * 2 ^ min attempts 3) 120) now db)

  -- An order that was never asked for is refunded; one that was asked for without an answer is left to an
  -- operator.
  unfoldable pub process_reserved : OrderRow → Uuid → ℕ → OrdersDb → Done
  process_reserved o token now db =
      if not (is_some o.purchase_started_at)
      then outcome (
          apply_inner o.id (refund refund_failed (codes "purchase_not_started")) (some token) now
            db)
      else if not (is_some o.provider_order_id)
      then mark_review_required o.id token (codes "purchase_outcome_unknown") now db
      else (ok tt, db)

  -- A look at an order of the supplier, in a slot. An order that has ended without a message is given back
  -- to its supplier, whose answer to that is ignored.
  unfoldable pub look :
      OrderRow → Uuid → ℕ → ℕ → ReconcilerDb → Result ApiError (Unit {0}) × ReconcilerDb
  look o token attempts now db = elim o.provider_order_id [
    | none ↦ (err ApiError.internal, db)
    | some provider_id ↦
        let (slot, slots) = claim_slot token now db.slots in
        elim slot [
          | none ↦ (
            ok tt,
            record {
              books = release_order o.id token 1 now db.books;
              slots = slots;
              given_back = db.given_back;
            },
          )
          | some n ↦
              let check = answers.check_for o.provider provider_id in
              let (result, books) = answered o token attempts now check db.books in
              (
                result,
                record {
                  books = books;
                  slots = release_slot n token slots;
                  given_back =
                      if is_given_back o now check
                      then db.given_back ++ (o.provider, provider_id) ∷ []
                      else db.given_back;
                },
              )
        ]
  ]

  -- `process`: the country's name at the supplier, and the number of failed looks, are read with the order.
  unfoldable pub process :
      (OrderRow → Text)
      → (OrderRow → ℕ)
      → OrderRow
      → Uuid
      → ℕ
      → ReconcilerDb
      → Result ApiError (Unit {0}) × ReconcilerDb
  process country attempts o token now db = elim o.status [
    | reserved ↦
        let (result, books) = process_reserved o token now db.books in
        (result, record db { books = books })
    | review_required ↦
        let (result, books) = recover_unknown_purchase o token (country o) now db.books in
        (result, record db { books = books })
    | _ ↦ look o token (attempts o) now db
  ]

  unfoldable pub process_all :
      (OrderRow → Text) → (OrderRow → ℕ) → List (OrderRow × Uuid) → ℕ → ReconcilerDb → ReconcilerDb
  process_all country attempts [] now db = db
  process_all country attempts ((o, token) ∷ claimed) now db =
      process_all country attempts claimed now (process country attempts o token now db).1

  -- `sweep`: the claims at `now`, the answers of the suppliers at `later`.
  unfoldable pub sweep : (OrderRow → Text) → (OrderRow → ℕ) → ℕ → ℕ → ReconcilerDb → ReconcilerDb
  sweep country attempts now later db =
      let (claimed, books) = claim_all now (take 50 (due now db.books.orders)) db.books in
      process_all country attempts claimed later (record db { books = books })
