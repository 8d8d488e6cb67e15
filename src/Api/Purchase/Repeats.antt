-- ===== src/Api/Purchase/Repeats.antt =====
-- Requests for a number under a key that the user has used.
use naivolt.Base.{
  ◌∙◌, if◌then◌else◌, ◌+◌, ℕ, ◌<◌, ◌≡◌, refl, ap, true, Option, none, some, List, [], ◌∷◌, ◌==◌,
  ◌&&◌, Result, ok, err, inl, inr, Bool-cases, arith,
}
use naivolt.Base.Int.{ℤ}
use naivolt.Base.Text.{Text}
use naivolt.Ledger.Account.{Uuid, AccountKind}
use naivolt.Ledger.Post.{JournalRow}
use naivolt.Api.Naira.Transfer.{Opened, Opened-refl, account_id-Opened}
use naivolt.Api.Orders.{OrderRow, OrdersDb, find_order}
use naivolt.Api.Purchase.Shop.{SourceRow}
use naivolt.Api.Purchase.Quotes.{Config}
use naivolt.Api.Purchase.Supply.{Suppliers}
use naivolt.Api.Purchase.Request.{
  CreateOrderBody, Parsers, check_order, has_key, find_existing, same_request,
}
use naivolt.Ledger.Post.{find_journal}
use naivolt.Api.Error.{ApiError}
use naivolt.Api.Naira.{lock_user_ngn_account}
use naivolt.Api.Purchase.Quotes.{Quote}
use naivolt.Api.Purchase.Supply.{Bought, won, refused, unknown}
use naivolt.Api.Purchase.Hold.{reservation_key}
use naivolt.Api.Purchase.Finish.{SameOrder}
use naivolt.Api.Purchase.Claims.{alone}
use naivolt.Api.Purchase.Ends.{Ended}
use naivolt.Api.Purchase.Created.{IsNew, create_order-ends}
use naivolt.Api.Purchase.{
  Outcome, ShopDb, Others, Reservation, repeated, reserve_order, reference_of, create_order,
}

-- Nothing is bought: no order is made or changed, no stock is emptied, no number is given back, and
-- accounts are at most opened.
pub record BuysNothing (db : ShopDb) (end : Outcome × List SourceRow) : Type 0 where
  pub orders : end.0.books.orders ≡ db.books.orders
  pub messages : end.0.books.messages ≡ db.books.messages
  pub sources : end.1 ≡ db.catalog.sources
  pub given_back : end.0.given_back ≡ none
  pub opened : Opened db.books.ledger end.0.books.ledger

module _ (parsers : Parsers) (config : Config) (suppliers : Suppliers) (others : Others)
    (user : Uuid) (header : Option Text) (body : CreateOrderBody) (code : Text) (now later : ℕ)
    (db : ShopDb) (key : Uuid) (expected : Option ℤ) (o : OrderRow)
    (checked : check_order parsers config header body ≡ ok (key, expected))
    (known : find_existing user key db.books.ledger.journals db.books.orders ≡ some o) where
  abbrev answered : Result ApiError Reservation × OrdersDb
  answered =
      if same_request body expected o
      then (
        ok (repeated o.id),
        record db.books { ledger = (lock_user_ngn_account user db.books.ledger).1 },
      )
      else (err ApiError.conflict, db.books)

  reserve_order-known :
      reserve_order config user key body expected (reference_of code) now db ≡ answered
  unfolding reserve_order
  reserve_order-known = rw (known, reserve_order) refl

  create_order-known :
      BuysNothing db
        (create_order parsers config suppliers others user header body code now later db)
  unfolding create_order
  create_order-known = elim (Bool-cases (same_request body expected o)) [
    | inl same ↦
        let r = rw same at reserve_order-known in
        rw (checked, create_order, r, create_order, r)
          (record {
            orders = refl;
            messages = refl;
            sources = refl;
            given_back = refl;
            opened = account_id-Opened AccountKind.user_ngn (some user) db.books.ledger;
          })
    | inr other ↦
        let r = rw other at reserve_order-known in
        rw (checked, create_order, r, create_order, r)
          (record {
            orders = refl;
            messages = refl;
            sources = refl;
            given_back = refl;
            opened = Opened-refl db.books.ledger;
          })
  ]

-- A stored order is found by its key.
find_existing-there :
    (user key id : Uuid) (journals : List JournalRow) (orders : List OrderRow) (r : OrderRow)
    → find_order id orders ≡ some r
    → r.user_id ≡ user
    → r.idempotency_key ≡ some key
    → (o : OrderRow) × (find_existing user key journals orders ≡ some o)
unfolding find_order find_existing
find_existing-there user key id journals [] r found mine keyed = absurd (ground arith)
find_existing-there user key id journals (o ∷ orders) r found mine keyed =
    elim (Bool-cases ((user == o.user_id) && has_key key journals o)) [
      | inl yes_ ↦ (o, rw yes_ refl)
      | inr not_ ↦ elim (Bool-cases (id == o.id)) [
        | inl here ↦
            let same : o ≡ r = ground arith in
            let yes_ : ((user == o.user_id) && has_key key journals o) ≡ true =
              rw same (rw (mine, keyed) (ground arith)) in
            absurd (ground arith)
        | inr there ↦
            let (p, q) =
              find_existing-there user key id journals orders r (ground arith) mine keyed in
            (p, rw not_ q)
      ]
    ]

Ended-stored :
    (bought : Bought) (o : OrderRow) (db : OrdersDb) (out : Outcome)
    → Ended bought o db out
    → (id : Uuid) × (r : OrderRow) × (find_order id out.books.orders ≡ some r) × SameOrder r o
Ended-stored (won provider source a) o db out e = (e.0.id, e.0, e.1.1, e.2)
Ended-stored (refused f) o db out e = (o.id, e.0, e.2, e.3)
Ended-stored unknown o db out e = (e.0.id, e.0, e.1.1, e.2)

-- After a request under a new key that is quoted and covered, touched by no other transaction and answered
-- within a minute of its claim, a second request of the same user under the same key buys nothing,
-- whatever it asks for, whenever it comes, and whatever the suppliers would have answered.
pub create_order-once :
    (parsers : Parsers) (config : Config) (suppliers : Suppliers) (user : Uuid)
    (header : Option Text) (body : CreateOrderBody) (code : Text) (now later : ℕ) (db : ShopDb)
    (key : Uuid) (expected : Option ℤ) (q : Quote)
    → IsNew parsers config user header body code now db key expected q
    → later < now + 60000
    → find_journal (reservation_key config.order_keys_required user key) db.books.ledger.journals
      ≡ none
    → let first = create_order parsers config suppliers alone user header body code now later db in
      let db₁ : ShopDb = record {
        books = first.0.books;
        catalog = record db.catalog { sources = first.1 };
      } in
      (config' : Config) (suppliers' : Suppliers) (others : Others) (header' : Option Text)
      (body' : CreateOrderBody) (code' : Text) (now' later' : ℕ) (expected' : Option ℤ)
      → check_order parsers config' header' body' ≡ ok (key, expected')
      → BuysNothing db₁
          (create_order parsers config' suppliers' others user header' body' code' now' later' db₁)
create_order-once parsers config suppliers user header body code now later db key expected q h soon
      free config' suppliers' others header' body' code' now' later' expected' checked =
    let first = create_order parsers config suppliers alone user header body code now later db in
    let db₁ : ShopDb = record {
      books = first.0.books;
      catalog = record db.catalog { sources = first.1 };
    } in
    let (o, made, (bought, said, ended)) =
      create_order-ends parsers config suppliers user header body code now later db key expected q h
        soon free in
    let (id, r, found, (same, owner, keyed, price)) =
      Ended-stored bought o db.books first.0 ended in
    let (p, known) =
      find_existing-there user key id first.0.books.ledger.journals first.0.books.orders r found
        (owner ∙ ap (λ z. z.user_id) made) (keyed ∙ ap (λ z. z.idempotency_key) made) in
    create_order-known parsers config' suppliers' others user header' body' code' now' later' db₁
      key expected' p checked known
