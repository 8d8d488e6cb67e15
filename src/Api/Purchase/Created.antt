-- ===== src/Api/Purchase/Created.antt =====
-- The whole of a request for a number under a new key.
use naivolt.Base.{ℕ, ◌+◌, ◌<◌, ◌≡◌, refl, false, Option, none, some, List, ◌++◌, Result, ok}
use naivolt.Base.Int.{ℤ, pos, neg, ◌+ℤ◌, ltb_ℤ}
use naivolt.Base.Text.{Text, codes, to_lower, to_upper}
use naivolt.Ledger.Account.{Uuid, AccountKind}
use naivolt.Ledger.Post.{JournalRow, find_journal}
use naivolt.Auth.Identifier.{trim}
use naivolt.Api.Error.{ApiError}
use naivolt.Api.Naira.Held.{held}
use naivolt.Api.Naira.Transfer.{moved}
use naivolt.Api.Orders.{OrderRow, OrdersDb}
use naivolt.Api.Purchase.Shop.{SourceRow}
use naivolt.Api.Purchase.Quotes.{Config, Quote, quote}
use naivolt.Api.Purchase.Supply.{Suppliers, Bought, refused}
use naivolt.Api.Purchase.Request.{CreateOrderBody, Parsers, check_order, find_existing}
use naivolt.Api.Purchase.Hold.{reservation_key, new_order, is_reserving, is_referenced}
use naivolt.Api.Purchase.Holding.{IsDrawn, hold-new, hold-unfunded}
use naivolt.Api.Purchase.Claims.{alone}
use naivolt.Api.Purchase.Asked.{Answered, ask-Answered}
use naivolt.Api.Purchase.Ends.{Ended, held-Ended, unfunded-Refunded}
use naivolt.Api.Purchase.{
  Outcome, ShopDb, hold, held_for, reserve_order, ask, buy_number, reference_of, create_order,
}

module _ (parsers : Parsers) (config : Config) (suppliers : Suppliers) (user : Uuid)
    (header : Option Text) (body : CreateOrderBody) (code : Text) (now later : ℕ) (db : ShopDb)
    (key : Uuid) (expected : Option ℤ) (q : Quote) (o : OrderRow)
    (unused : find_existing user key db.books.ledger.journals db.books.orders ≡ none)
    (quoted : quote config db.catalog db.books.orders now body.offer_id
        (to_lower (trim body.product_slug))
        (to_upper (trim body.country_code))
        expected
      ≡ ok q)
    (told : (hold config user key body expected (reference_of code) now q db.books).0 ≡ ok o) where
  abbrev after : OrdersDb
  after = (hold config user key body expected (reference_of code) now q db.books).1

  reserve_order-held :
      reserve_order config user key body expected (reference_of code) now db
      ≡ (ok (held_for o q), after)
  unfolding reserve_order
  reserve_order-held = rw (unused, reserve_order, quoted, told) refl

  -- What `create_order` goes on with once the order is recorded.
  create_order-held :
      check_order parsers config header body ≡ ok (key, expected)
      → create_order parsers config suppliers alone user header body code now later db
        ≡ buy_number config suppliers alone user o q now later after db.catalog.sources
  unfolding create_order
  create_order-held checked =
      rw (checked, create_order, reserve_order-held, create_order, reserve_order-held) refl

-- A request for a number: checked, under a key that the user has not used, quoted, covered by the user's
-- balance, and with a reference that neither an order nor the journal of a refund has.
pub record IsNew (parsers : Parsers) (config : Config) (user : Uuid) (header : Option Text)
    (body : CreateOrderBody) (code : Text) (now : ℕ) (db : ShopDb) (key : Uuid)
    (expected : Option ℤ) (q : Quote) : Type 0 where
  pub drawn : IsDrawn db.books
  pub checked : check_order parsers config header body ≡ ok (key, expected)
  pub unused : find_existing user key db.books.ledger.journals db.books.orders ≡ none
  pub quoted :
      quote config db.catalog db.books.orders now body.offer_id
        (to_lower (trim body.product_slug))
        (to_upper (trim body.country_code))
        expected
      ≡ ok q
  pub positive : 0 < q.price_ngn
  pub covered :
      ltb_ℤ (neg (held AccountKind.user_ngn (some user) db.books.ledger)) (pos q.price_ngn) ≡ false
  pub unnamed : is_referenced (reference_of code) db.books.orders ≡ false
  pub unrefunded :
      find_journal (reference_of code ++ codes ":refund") db.books.ledger.journals ≡ none

module _ (parsers : Parsers) (config : Config) (suppliers : Suppliers) (user : Uuid)
    (header : Option Text) (body : CreateOrderBody) (code : Text) (now later : ℕ) (db : ShopDb)
    (key : Uuid) (expected : Option ℤ) (q : Quote)
    (h : IsNew parsers config user header body code now db key expected q)
    (soon : later < now + 60000) where
  abbrev end : Outcome × List SourceRow
  end = create_order parsers config suppliers alone user header body code now later db

  abbrev made : Result ApiError OrderRow × OrdersDb
  made = hold config user key body expected (reference_of code) now q db.books

  as_bought :
      (o : OrderRow)
      → made.0 ≡ ok o
      → end ≡ buy_number config suppliers alone user o q now later made.1 db.catalog.sources
  as_bought o told =
      create_order-held parsers config suppliers user header body code now later db key expected q o
        h.unused h.quoted told h.checked

  -- A request for a number that passes its checks, has a new key and a new reference, is quoted, is covered
  -- by the balance, is touched by no other transaction and is answered within a minute of its claim, makes
  -- an order of the user at the quoted price. It ends as the suppliers answer: sources are asked in their
  -- order until one does not say that it has no number, and without sources the one supplier is asked.
  -- With a number the order waits for its code and the price is held; refused, it has failed and everybody
  -- holds what they held; with an unknown outcome an operator is alerted and the price is held.
  pub create_order-ends :
      find_journal (reservation_key config.order_keys_required user key) db.books.ledger.journals
        ≡ none
      → (o : OrderRow) × (o
          ≡ new_order o.id user key expected (reference_of code) now q o.reserved_journal_id)
        × ((bought : Bought) × Answered suppliers q bought × Ended bought o db.books end.0)
  create_order-ends free =
      let (ordered, t) =
        hold-new config user key body expected (reference_of code) now q db.books h.drawn h.positive
          h.covered h.unnamed free in
      let e =
        held-Ended config suppliers user key expected code now later q db.books made h.drawn ordered
          h.positive soon h.unrefunded db.catalog.sources t in
      (
        ordered.order,
        ordered.made,
        (
          (ask suppliers q db.catalog.sources).0,
          ask-Answered suppliers q db.catalog.sources,
          rw (as_bought ordered.order ordered.told) e,
        ),
      )

  -- When the order's key in the ledger is that of a journal for no order, such as the reservation of a
  -- payout that the user named so, and the suppliers refuse, within a minute of the claim and with no other
  -- transaction in between, the user is owed the whole price more than before, and the account of
  -- reservations holds that much less: the order was never paid for.
  pub create_order-unfunded :
      (row : JournalRow) (e : ApiError)
      → find_journal (reservation_key config.order_keys_required user key) db.books.ledger.journals
        ≡ some row
      → is_reserving row.id db.books.orders ≡ false
      → (ask suppliers q db.catalog.sources).0 ≡ refused e
      → (k : AccountKind) (u : Option Uuid)
      → held k u end.0.books.ledger
        ≡ held k u db.books.ledger
          +ℤ moved AccountKind.number_payable_pending none
              (pos q.price_ngn)
              AccountKind.user_ngn
              (some user)
              (neg (pos q.price_ngn))
              k
              u
  create_order-unfunded row e taken absent refusal k u =
      let (ordered, opened) =
        hold-unfunded config user key body expected (reference_of code) now q db.books h.drawn
          h.positive h.covered h.unnamed row taken absent in
      rw (as_bought ordered.order ordered.told) (
        unfunded-Refunded config suppliers user key expected code now later q db.books made h.drawn
          ordered h.positive soon h.unrefunded db.catalog.sources e opened refusal k u)
