-- ===== src/Api/Purchase.antt =====
-- crates/api/src/number_routes.rs: `create_order`, which sells a phone number. The price is held in one
-- transaction, then a supplier is asked, and the order awaits its code, is refunded, or is left to an
-- operator. Instants are in milliseconds.
pub mod Shop
pub mod Quotes
pub mod Supply
pub mod Request
pub mod Hold
pub mod Holding
pub mod Finish
pub mod Claims
pub mod Buys
pub mod Ends
pub mod Asked
pub mod Created
pub mod Repeats
pub mod Keep
use naivolt.Base.{
  ℕ, ◌+◌, ltb, ◌==◌, ◌&&◌, ◌||◌, not, Bool, true, false, Option, none, some, is_some, List, [], ◌∷◌,
  ◌++◌, Result, ok, err, ◌>>=◌, ◌>>◌, if◌then◌else◌,
}
use naivolt.Base.Int.{ℤ, pos, neg, ltb_ℤ}
use naivolt.Base.Text.{Text, codes, text_eq, to_lower, to_upper, show_nat}
use naivolt.Core.Asset.{Asset}
use naivolt.Ledger.Account.{Uuid, AccountKind, user_facing_balance}
use naivolt.Ledger.Journal.{
  JournalKind, Reference, Scalar, Metadata, Journal, LedgerError, new, entry, with_metadata, build,
}
use naivolt.Ledger.Post.{LedgerDb, JournalRow, journal_id, post, balance}
use naivolt.Auth.Identifier.{trim}
use naivolt.Api.Error.{ApiError}
use naivolt.Api.Naira.{lock_user_ngn_account, platform_account}
use naivolt.Api.Orders.{
  claim_is_current, OrderStatus, reserved, awaiting_code, review_required, OrderRow, Source,
  OrdersDb, OrderError, not_found, conflict, internal, OrderTransition, refund, refund_failed,
  find_order, update_order, is_money_open, apply_inner,
}
use naivolt.Api.Orders.Messages.{coalesce}
use naivolt.Api.Orders.Checks.{is_alerted}
use naivolt.Api.Purchase.Request.{
  CreateOrderBody, Parsers, check_order, find_existing, same_request,
}
use naivolt.Api.Purchase.Hold.{seconds, reservation_key, hold_journal, insert_order}
use naivolt.Api.Purchase.Shop.{SourceRow, Catalog}
use naivolt.Api.Purchase.Quotes.{Config, Quote, quote}
use naivolt.Api.Purchase.Supply.{
  Activation, Suppliers, Bought, won, refused, unknown, try_sources, bought_by,
}

pub record ShopDb : Type 0 where
  pub books : OrdersDb
  pub catalog : Catalog

-- The transaction of a new order: the balance, the journal and the row.
unfoldable pub hold :
    Config
    → Uuid
    → Uuid
    → CreateOrderBody
    → Option ℤ
    → Text
    → ℕ
    → Quote
    → OrdersDb
    → Result ApiError OrderRow × OrdersDb
hold config user key body expected reference now q db =
    let (user_account, l₁) = lock_user_ngn_account user db.ledger in
    if ltb_ℤ (user_facing_balance AccountKind.user_ngn (balance user_account l₁)) (pos q.price_ngn)
    then (err ApiError.insufficient_balance, db)
    else let (pending, l₂) = platform_account AccountKind.number_payable_pending l₁ in
      elim (hold_journal user_account pending reference
        (reservation_key config.order_keys_required user key) q.price_ngn body) [
          | err e ↦ (err ApiError.internal, db)
          | ok journal ↦
              let (outcome, l₃) = post journal l₂ in
              insert_order (journal_id outcome) user key expected reference now q l₃ db
        ]

-- What a request has led to before a supplier is asked.
pub data Reservation : Type 0 where
  repeated : Uuid → Reservation
  held_for : OrderRow → Quote → Reservation

-- The reservation, under the lock of the user's account: a key that is known is answered with its order.
unfoldable pub reserve_order :
    Config
    → Uuid
    → Uuid
    → CreateOrderBody
    → Option ℤ
    → Text
    → ℕ
    → ShopDb
    → Result ApiError Reservation × OrdersDb
reserve_order config user key body expected reference now db =
    let books = db.books in
    elim (find_existing user key books.ledger.journals books.orders) [
      | some o ↦
          if same_request body expected o
          then (
            ok (repeated o.id),
            record books { ledger = (lock_user_ngn_account user books.ledger).1 },
          )
          else (err ApiError.conflict, books)
      | none ↦
          elim (quote config db.catalog books.orders now body.offer_id
            (to_lower (trim body.product_slug)) (to_upper (trim body.country_code)) expected) [
              | err e ↦ (err e, books)
              | ok q ↦
                  let (answer, after) = hold config user key body expected reference now q books in
                  elim answer [ err e ↦ (err e, after) | ok o ↦ (ok (held_for o q), after) ]
            ]
    ]

abbrev pub is_reserved : OrderStatus → Bool
is_reserved reserved = true
is_reserved _ = false

-- No claim that still runs.
abbrev pub is_unclaimed : ℕ → OrderRow → Bool
is_unclaimed now o = elim o.reconcile_claimed_until [ none ↦ true | some until ↦ ltb until now ]

abbrev pub claimed_at : ℕ → Uuid → OrderRow → OrderRow
claimed_at now token o = record o {
  purchase_started_at = some now;
  reconcile_claim_token = some token;
  reconcile_claimed_until = some (now + seconds 60);
}

-- The claim on an order whose number was not asked for yet; a token is drawn.
unfoldable pub claim_order : Uuid → ℕ → OrdersDb → Option Uuid × OrdersDb
claim_order id now db = elim (find_order id db.orders) [
  | none ↦ (none, db)
  | some o ↦
      let token = db.ledger.next_id in
      if is_reserved o.status && (not (is_some o.purchase_started_at) && is_unclaimed now o)
      then (
        some token,
        record db {
          ledger = record db.ledger { next_id = token + 1 };
          orders = update_order id (claimed_at now token) db.orders;
        },
      )
      else (none, db)
]

-- The suppliers, asked for the number of an order.
unfoldable pub ask : Suppliers → Quote → List SourceRow → Bought × List SourceRow
ask suppliers q rows = elim q.offer_id [
  | some offer_id ↦ try_sources suppliers.buy_source offer_id ApiError.conflict q.sources rows
  | none ↦ (bought_by q.provider_label (suppliers.buy q.provider_country q.provider_product), rows)
]

-- Both updates need an order that is found, still in a status, under the caller's claim.
unfoldable pub can_assign : Uuid → Uuid → ℕ → List OrderRow → Bool
can_assign id token now orders = elim (find_order id orders) [
  | none ↦ false
  | some o ↦ is_reserved o.status && claim_is_current (some token) now o
]

abbrev pub is_reviewable : OrderStatus → Bool
is_reviewable reserved = true
is_reviewable awaiting_code = true
is_reviewable _ = false

unfoldable pub can_review : Uuid → Uuid → ℕ → List OrderRow → Bool
can_review id token now orders = elim (find_order id orders) [
  | none ↦ false
  | some o ↦ is_reviewable o.status && claim_is_current (some token) now o
]

abbrev pub pinned_to : Text → Option Source → OrderRow → OrderRow
pinned_to provider none o = o
pinned_to provider (some s) o = record o { provider = provider; source = some s }

abbrev pub assigned_to : ℕ → Activation → OrderRow → OrderRow
assigned_to now a o = record o {
  status = awaiting_code;
  provider_order_id = some a.provider_order_id;
  phone_number = some a.phone;
  expires_at = some (coalesce a.expires_at (now + seconds 900));
  activation_open = true;
  reconcile_next_at = some (now + seconds 10);
  reconcile_claim_token = none;
  reconcile_claimed_until = none;
}

abbrev pub review_as : ℕ → Text → OrderRow → OrderRow
review_as now reason o = record o {
  status = review_required;
  review_reason = some reason;
  review_required_at = some now;
  reconcile_next_at = some (now + seconds 5);
  reconcile_claim_token = none;
  reconcile_claimed_until = none;
}

-- `… AND status = 'reserved'`, and the same for the statuses that can be reviewed.
unfoldable pub set_reserved : Uuid → (OrderRow → OrderRow) → List OrderRow → List OrderRow
set_reserved id f orders = update_order id (λ o. if is_reserved o.status then f o else o) orders

unfoldable pub set_reviewable : Uuid → (OrderRow → OrderRow) → List OrderRow → List OrderRow
set_reviewable id f orders = update_order id (λ o. if is_reviewable o.status then f o else o) orders

-- `mark_review_required` of number_reconciler.rs.
unfoldable pub mark_review_required :
    Uuid → Uuid → Text → ℕ → OrdersDb → Result ApiError (Unit {0}) × OrdersDb
mark_review_required id token reason now db =
    if can_review id token now db.orders
    then (
      ok tt,
      record db {
        orders = set_reviewable id (review_as now reason) db.orders;
        alerts = if is_alerted id db.alerts then db.alerts else db.alerts ++ id ∷ [];
      },
    )
    else (err ApiError.conflict, db)

-- The row that the answer is made of.
unfoldable pub load_order : Uuid → Uuid → List OrderRow → Result ApiError OrderRow
load_order user id orders = elim (find_order id orders) [
  | none ↦ err ApiError.not_found
  | some o ↦ if user == o.user_id then ok o else err ApiError.not_found
]

abbrev pub as_api_error : OrderError → ApiError
as_api_error not_found = ApiError.not_found
as_api_error conflict = ApiError.conflict
as_api_error internal = ApiError.internal

-- The answer to the client, the supplier's order that is given back, and the tables.
pub record Outcome : Type 0 where
  pub answer : Result ApiError OrderRow
  pub given_back : Option Text
  pub books : OrdersDb

-- What becomes of the order, by what the suppliers answered. A number whose order was taken over in the
-- meantime is given back.
unfoldable pub finish : Bool → Uuid → Uuid → Uuid → ℕ → Bought → OrdersDb → Outcome
finish numbers_is_live user id token now (won provider source a) db =
    let pinned = update_order id (pinned_to provider source) db.orders in
    let orders = set_reserved id (assigned_to now a) pinned in
    if can_assign id token now pinned
    then record {
      answer = load_order user id orders;
      given_back = none;
      books = record db { orders = orders };
    }
    else record {
      answer = load_order user id pinned;
      given_back = if numbers_is_live then some a.provider_order_id else none;
      books = record db { orders = pinned };
    }
finish numbers_is_live user id token now (refused e) db =
    let (result, after) =
      apply_inner id (refund refund_failed (codes "supplier_rejected")) (some token) now db in
    record {
      answer = elim result [ err f ↦ err (as_api_error f) | ok _ ↦ err e ];
      given_back = none;
      books = after;
    }
finish numbers_is_live user id token now unknown db =
    let (result, after) = mark_review_required id token (codes "purchase_outcome_unknown") now db in
    record {
      answer = elim result [ err f ↦ err f | ok _ ↦ load_order user id after.orders ];
      given_back = none;
      books = after;
    }

-- What other transactions do to the tables before the claim, and before the suppliers have answered.
pub record Others : Type 0 where
  pub before_claim : OrdersDb → OrdersDb
  pub before_answer : OrdersDb → OrdersDb

-- A new order from its claim on, at the instant of the claim and that of the suppliers' answer.
unfoldable pub buy_number :
    Config
    → Suppliers
    → Others
    → Uuid
    → OrderRow
    → Quote
    → ℕ
    → ℕ
    → OrdersDb
    → List SourceRow
    → Outcome × List SourceRow
buy_number config suppliers others user o q now later db rows =
    let (claim, claimed) = claim_order o.id now (others.before_claim db) in
    elim claim [
      | none ↦ (
        record { answer = load_order user o.id claimed.orders; given_back = none; books = claimed },
        rows,
      )
      | some token ↦
          let (bought, rows₁) = ask suppliers q rows in
          (
            finish config.numbers_is_live user o.id token later bought
                (others.before_answer claimed),
            rows₁,
          )
    ]

abbrev pub reference_of : Text → Text
reference_of code = codes "NVNO-" ++ code

-- `create_order`, with the code that it draws for the reference.
unfoldable pub create_order :
    Parsers
    → Config
    → Suppliers
    → Others
    → Uuid
    → Option Text
    → CreateOrderBody
    → Text
    → ℕ
    → ℕ
    → ShopDb
    → Outcome × List SourceRow
create_order parsers config suppliers others user header body code now later db =
    let rows = db.catalog.sources in
    let stop : Result ApiError OrderRow → OrdersDb → Outcome × List SourceRow =
      λ answer books. (record { answer = answer; given_back = none; books = books }, rows) in
    elim (check_order parsers config header body) [
      | err e ↦ stop (err e) db.books
      | ok (key, expected) ↦
          let (reservation, books) =
            reserve_order config user key body expected (reference_of code) now db in
          elim reservation [
            | err e ↦ stop (err e) books
            | ok (repeated id) ↦ stop (load_order user id books.orders) books
            | ok (held_for o q) ↦ buy_number config suppliers others user o q now later books rows
          ]
    ]
