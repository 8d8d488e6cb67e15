-- ===== src/Api/Tests/Purchase.antt =====
-- Runs of orders for a number, and instances of their theorems: a user topped up 5,000 naira, and buys.
use naivolt.Base.{◌*◌, ◌≡◌, refl, true, false, none, some, [], ◌∷◌, ok, err, arith}
use naivolt.Base.Int.{pos, unit, neg, ◌+ℤ◌}
use naivolt.Base.Sums.{sum_where}
use naivolt.Base.Text.{Text, codes, text_eq, show_nat, show_from}
use naivolt.Core.Asset.{Asset, asset_index}
use naivolt.Ledger.Account.{AccountKind, kind_index}
use naivolt.Ledger.Post.{find_journal, balance}
use naivolt.Watcher.Store.{find_account, matches_account}
use naivolt.Auth.Identifier.{trim, trim_start, trim_end}
use naivolt.Api.Error.{ApiError}
use naivolt.Api.Naira.Held.{held}
use naivolt.Api.Orders.{OrderRow}
use naivolt.Api.Purchase.Shop.{Catalog, load, any_enabled, is_enabled}
use naivolt.Api.Purchase.Quotes.{
  Config, Quote, quote, quote_catalog, drop_stub, find_product, find_country, find_price,
}
use naivolt.Api.Purchase.Supply.{Suppliers, rejected}
use naivolt.Api.Purchase.Request.{
  CreateOrderBody, Parsers, check_order, check_key, check_expected, check_on_sale, find_existing,
}
use naivolt.Api.Purchase.Hold.{reservation_key, new_order, is_reserving, is_referenced}
use naivolt.Api.Orders.Checks.Keep.{IsSettled}
use naivolt.Api.Purchase.Keep.{create_order-keeps}
use naivolt.Api.Purchase.Claims.{alone}
use naivolt.Api.Purchase.Asked.{Answered}
use naivolt.Api.Purchase.Supply.{Bought}
use naivolt.Api.Purchase.Ends.{Ended}
use naivolt.Api.Purchase.Created.{IsNew, create_order-ends, create_order-unfunded}
use naivolt.Api.Purchase.Repeats.{BuysNothing, create_order-once}
use naivolt.Api.Purchase.{ShopDb, ask, create_order, reference_of}
use naivolt.Base.{◌++◌}
use naivolt.Ledger.Account.{user_facing_balance, is_liability}
use naivolt.Base.Int.{◌-ℤ◌}
use naivolt.Ledger.Journal.{
  JournalKind, Reference, Metadata, Scalar, new, entry, with_metadata, build, sum_entries, add_to,
  check_sums, check_custody, is_custody_only,
}
use naivolt.Ledger.Post.{LedgerDb, JournalRow, post}
use naivolt.Auth.Tier.{from_i16, daily_payout_cap, check_payout}
use naivolt.Watcher.Store.{account_id}
use naivolt.Watcher.Store.Owed.{IsNumbered}
use naivolt.Api.Naira.Transfer.{moved}
use naivolt.Api.Purchase.Supply.{refused}
use naivolt.Api.Payouts.{
  check_request, check_amount, check_pin, check_cap, resolve_destination, find_bank, reserve,
  reserve_journal, record_payout, PayoutsDb, create_payout, used_today, find_payout,
}
use naivolt.Api.Payouts.Request.{create_payout-IsSafe}
use naivolt.Api.Tests.Payouts as Withdrawals

abbrev catalog : Catalog
catalog = record {
  products =
      record {
        slug = codes "whatsapp";
        provider_product = codes "wa";
        min_provider_cost_usd = 0;
        active = true;
      }
      ∷ [];
  countries = record { code = codes "GB"; provider_country = codes "england"; active = true } ∷ [];
  prices =
      record {
        product_slug = codes "whatsapp";
        country_code = codes "GB";
        price_ngn = 900 * unit;
        active = true;
      }
      ∷ [];
  offers = [];
  sources = [];
  sell = [];
}

abbrev start : ShopDb
start = record {
  books = record { ledger = Withdrawals.funded; orders = []; messages = []; alerts = [] };
  catalog = catalog;
}

-- The suppliers of a test, where the key is of an order that the database requires.
abbrev config : Config
config = record {
  funding_is_live = false;
  primary_is_live = false;
  numbers_is_live = false;
  min_price_fraction = 0;
  order_keys_required = true;
}

abbrev parsers : Parsers
parsers = record { parse_uuid = λ s. some 9; from_str = λ s. none }

abbrev body : CreateOrderBody
body = record {
  offer_id = none;
  product_slug = codes "whatsapp";
  country_code = codes "gb";
  expected_price_ngn = none;
}

abbrev selling : Suppliers
selling = record {
  buy = λ country product.
      ok (record {
        provider_order_id = codes "p1";
        phone = codes "+447700900000";
        expires_at = none;
      });
  buy_source = λ s. err (rejected ApiError.service_unavailable []);
}

abbrev refusing : Suppliers
refusing = record {
  buy = λ country product. err (rejected ApiError.service_unavailable []);
  buy_source = λ s. err (rejected ApiError.service_unavailable []);
}

abbrev quoted : Quote
quoted = record {
  product_slug = codes "whatsapp";
  country_code = codes "GB";
  price_ngn = 900 * unit;
  provider_product = codes "wa";
  provider_country = codes "england";
  provider_label = codes "stub";
  offer_id = none;
  sources = [];
}

abbrev key : Text
key = codes "00000000-0000-0000-0000-000000000009"

start-IsNew : IsNew parsers config 7 (some key) body (codes "AB") 1000 start 9 none quoted
unfolding check_order check_key check_expected check_on_sale find_existing quote quote_catalog
    drop_stub find_product find_country find_price load any_enabled is_enabled text_eq trim
    trim_start trim_end held balance find_account matches_account kind_index asset_index sum_where
    ◌+ℤ◌ neg find_journal is_referenced
start-IsNew = record {
  drawn = record {
    numbered = Withdrawals.implemented.numbered;
    ids_drawn = tt;
    journals_drawn = tt;
  };
  checked = refl;
  unused = refl;
  quoted = refl;
  positive = omega arith;
  covered = refl;
  unnamed = refl;
  unrefunded = refl;
}

free : find_journal (reservation_key true 7 9) Withdrawals.funded.journals ≡ none
unfolding find_journal reservation_key text_eq show_nat show_from
free = refl

create_order-ends_example :
    (o : OrderRow) × (o
      ≡ new_order o.id 7 9 none (reference_of (codes "AB")) 1000 quoted o.reserved_journal_id)
    × ((bought : Bought) × Answered selling quoted bought
        × Ended bought o start.books
            (create_order parsers config selling alone 7
              (some key)
              body
              (codes "AB")
              1000
              2000
              start).0)
create_order-ends_example =
    create_order-ends parsers config selling 7 (some key) body (codes "AB") 1000 2000 start 9 none
      quoted start-IsNew (omega arith) free

-- A second request under the key buys nothing, whatever the suppliers would sell.
create_order-once_example :
    (let first =
        create_order parsers config refusing alone 7 (some key) body (codes "AB") 1000 2000 start in
      let db₁ : ShopDb = record {
        books = first.0.books;
        catalog = record catalog { sources = first.1 };
      } in
      BuysNothing db₁
        (create_order parsers config selling alone 7 (some key) body (codes "AC") 5000 6000 db₁))
create_order-once_example =
    create_order-once parsers config refusing 7 (some key) body (codes "AB") 1000 2000 start 9 none
      quoted start-IsNew (omega arith) free config selling alone (some key) body (codes "AC") 5000
      6000 none start-IsNew.checked

-- The user has named a withdrawal of 1,000 naira as the reservation of the order to come.
abbrev named : PayoutsDb
named =
    (create_payout Withdrawals.outside Withdrawals.ada (some (reservation_key true 7 9))
      Withdrawals.body (codes "NVLT-1") 1000 Withdrawals.start).1

abbrev named_row : JournalRow
named_row = record {
  id = 24;
  kind = JournalKind.payout_reserve;
  reference = Reference.text (codes "NVLT-1");
  idempotency_key = codes "number-reserve:7:9";
  metadata = Metadata.object (
      (codes "bank_account_id", Scalar.num (pos 5))
      ∷ (codes "bank_code", Scalar.str (codes "058"))
      ∷ []);
}

abbrev named_ledger : LedgerDb
named_ledger = record {
  accounts =
      Withdrawals.funded.accounts
      ++ record {
        id = 23;
        kind = AccountKind.ngn_payable_pending;
        user_id = none;
        asset = Asset.ngn;
      }
        ∷ [];
  journals = Withdrawals.funded.journals ++ named_row ∷ [];
  entries =
      Withdrawals.funded.entries
      ++ record { journal_id = 24; account_id = 20; asset = Asset.ngn; amount = pos (1000 * unit) }
        ∷ record {
          journal_id = 24;
          account_id = 23;
          asset = Asset.ngn;
          amount = neg (pos (1000 * unit));
        }
        ∷ [];
  next_id = 26;
}

named-run : named.ledger ≡ named_ledger
unfolding create_payout check_request check_amount check_pin check_cap resolve_destination find_bank
    reserve reserve_journal record_payout find_payout used_today sum_where user_facing_balance
    is_liability new entry with_metadata build sum_entries add_to check_sums check_custody
    is_custody_only account_id find_account matches_account find_journal post balance asset_index
    kind_index ◌+ℤ◌ ◌-ℤ◌ neg text_eq trim trim_start trim_end from_i16 daily_payout_cap check_payout
    reservation_key show_nat show_from
named-run = refl

abbrev named_shop : ShopDb
named_shop = record start { books = record start.books { ledger = named_ledger } }

named-IsNumbered : IsNumbered named_ledger
named-IsNumbered =
    rw named-run at
      (create_payout-IsSafe Withdrawals.outside Withdrawals.ada (some (reservation_key true 7 9))
        Withdrawals.body (codes "NVLT-1") 1000 Withdrawals.start
        Withdrawals.start-IsSafe).drawn.numbered

named-IsNew : IsNew parsers config 7 (some key) body (codes "AB") 1000 named_shop 9 none quoted
unfolding check_order check_key check_expected check_on_sale find_existing quote quote_catalog
    drop_stub find_product find_country find_price load any_enabled is_enabled text_eq trim
    trim_start trim_end held balance find_account matches_account kind_index asset_index sum_where
    ◌+ℤ◌ neg find_journal is_referenced
named-IsNew = record {
  drawn = record { numbered = named-IsNumbered; ids_drawn = tt; journals_drawn = tt };
  checked = refl;
  unused = refl;
  quoted = refl;
  positive = omega arith;
  covered = refl;
  unnamed = refl;
  unrefunded = refl;
}

named-taken : find_journal (reservation_key true 7 9) named_ledger.journals ≡ some named_row
unfolding find_journal reservation_key text_eq show_nat show_from
named-taken = refl

refusal : (ask refusing quoted []).0 ≡ refused ApiError.service_unavailable
unfolding ask
refusal = refl

unheld : is_reserving 24 [] ≡ false
unfolding is_reserving
unheld = refl

create_order-unfunded_example :
    held AccountKind.user_ngn
      (some 7)
      (create_order parsers config refusing alone 7
        (some key)
        body
        (codes "AB")
        1000
        2000
        named_shop).0.books.ledger
    ≡ held AccountKind.user_ngn (some 7) named_ledger
      +ℤ moved AccountKind.number_payable_pending none
          (pos (900 * unit))
          AccountKind.user_ngn
          (some 7)
          (neg (pos (900 * unit)))
          AccountKind.user_ngn
          (some 7)
create_order-unfunded_example =
    create_order-unfunded parsers config refusing 7 (some key) body (codes "AB") 1000 2000
      named_shop 9 none quoted named-IsNew (omega arith) named_row ApiError.service_unavailable
      named-taken unheld refusal AccountKind.user_ngn (some 7)

create_order-keeps_example :
    IsSettled
      (create_order parsers config refusing alone 7
        (some key)
        body
        (codes "AB")
        1000
        2000
        start).0.books
create_order-keeps_example =
    create_order-keeps parsers config refusing alone 7 (some key) body (codes "AB") 1000 2000 start
      (λ db h. h, λ db h. h) (Withdrawals.implemented.balanced, tt)
