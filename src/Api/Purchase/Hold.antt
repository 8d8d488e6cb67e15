-- ===== src/Api/Purchase/Hold.antt =====
-- The order for a number and the journal that holds its price.
use naivolt.Base.{
  ◌*◌, ℕ, ◌+◌, ◌==◌, ◌||◌, Bool, true, false, Option, none, some, List, [], ◌∷◌, ◌++◌, Result, ok,
  err, if◌then◌else◌,
}
use naivolt.Base.Int.{ℤ, pos, neg}
use naivolt.Base.Text.{Text, codes, text_eq, show_nat}
use naivolt.Core.Asset.{Asset}
use naivolt.Ledger.Account.{Uuid, AccountKind}
use naivolt.Ledger.Journal.{
  JournalKind, Reference, Scalar, Metadata, Journal, LedgerError, new, entry, with_metadata, build,
}
use naivolt.Ledger.Post.{LedgerDb}
use naivolt.Api.Error.{ApiError}
use naivolt.Api.Orders.{reserved, OrderRow, OrdersDb}
use naivolt.Api.Purchase.Quotes.{Quote}
use naivolt.Api.Purchase.Request.{CreateOrderBody}

-- Scoped to the user, once the database requires the order's own key.
unfoldable pub reservation_key : Bool → Uuid → Uuid → Text
reservation_key scoped user key =
    if scoped
    then codes "number-reserve:" ++ (show_nat user ++ codes ":" ++ show_nat key)
    else show_nat key

-- The price goes from what the user is owed to what is held for orders.
unfoldable pub hold_journal :
    Uuid → Uuid → Text → Text → ℕ → CreateOrderBody → Result LedgerError Journal
hold_journal user_account pending reference key price body = build (
    with_metadata
      (entry
        (entry (new JournalKind.number_reserve (Reference.text reference) key) user_account
          AccountKind.user_ngn Asset.ngn (pos price))
        pending AccountKind.number_payable_pending Asset.ngn (neg (pos price)))
      (Metadata.object (
        (codes "product", Scalar.str body.product_slug)
        ∷ (codes "country", Scalar.str body.country_code)
        ∷ [])))

abbrev pub seconds : ℕ → ℕ
seconds n = n * 1000

-- The row of a new order.
abbrev pub new_order : Uuid → Uuid → Uuid → Option ℤ → Text → ℕ → Quote → Uuid → OrderRow
new_order id user key expected reference now q journal = record {
  id = id;
  user_id = user;
  price_ngn = pos q.price_ngn;
  reference = reference;
  status = reserved;
  provider_order_id = none;
  created_at = now;
  expires_at = none;
  failure_reason = none;
  sms_code = none;
  sms_text = none;
  received_at = none;
  settled_journal_id = none;
  refunded_journal_id = none;
  activation_open = false;
  review_reason = none;
  review_required_at = none;
  reconcile_next_at = some (now + seconds 5);
  reconcile_claim_token = none;
  reconcile_claimed_until = none;
  reserved_journal_id = journal;
  product_slug = q.product_slug;
  country_code = q.country_code;
  idempotency_key = some key;
  expected_price_ngn = expected;
  payload_complete = true;
  offer_id = q.offer_id;
  provider = q.provider_label;
  source = none;
  phone_number = none;
  purchase_started_at = none;
  reconciliation_payload_complete = true;
}

-- The table's index on `reserved_journal_id`.
unfoldable pub is_reserving : Uuid → List OrderRow → Bool
is_reserving journal [] = false
is_reserving journal (o ∷ orders) =
    (journal == o.reserved_journal_id) || is_reserving journal orders

-- The table's unique `reference`.
unfoldable pub is_referenced : Text → List OrderRow → Bool
is_referenced reference [] = false
is_referenced reference (o ∷ orders) =
    text_eq reference o.reference || is_referenced reference orders

-- The order of a posted reservation.
unfoldable pub insert_order :
    Uuid
    → Uuid
    → Uuid
    → Option ℤ
    → Text
    → ℕ
    → Quote
    → LedgerDb
    → OrdersDb
    → Result ApiError OrderRow × OrdersDb
insert_order journal user key expected reference now q l db =
    if is_reserving journal db.orders || is_referenced reference db.orders
    then (err ApiError.internal, db)
    else let o = new_order l.next_id user key expected reference now q journal in
      (
        ok o,
        record db { ledger = record l { next_id = l.next_id + 1 }; orders = db.orders ++ o ∷ [] },
      )
