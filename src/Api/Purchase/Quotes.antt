-- ===== src/Api/Purchase/Quotes.antt =====
-- What an order costs and who is asked for its number, in `create_order` of number_routes.rs: from an
-- offer or from the catalogue.
use naivolt.Base.{
  ℕ, ◌*◌, ltb, ◌==◌, ◌&&◌, not, Bool, true, false, Option, none, some, List, [], ◌∷◌, max, map,
  Result, ok, err, ◌>>=◌, ◌>>◌, if◌then◌else◌,
}
use naivolt.Base.Int.{ℤ, pos, ltb_ℤ, unit}
use naivolt.Base.Text.{Text, codes, text_eq}
use naivolt.Ledger.Account.{Uuid}
use naivolt.Api.Error.{ApiError}
use naivolt.Api.Orders.{OrderRow, Source}
use naivolt.Api.Purchase.Shop.{
  ProductRow, CountryRow, PriceRow, OfferRow, SourceRow, Catalog, load, source_providers,
  allows_live_fivesim_catalog, ranked_sources,
}

-- How the process is configured, and whether the key of an order is required in the database. The
-- fraction is in units of 10^-18.
pub record Config : Type 0 where
  pub funding_is_live : Bool
  pub primary_is_live : Bool
  pub numbers_is_live : Bool
  pub min_price_fraction : ℕ
  pub order_keys_required : Bool

pub record Quote : Type 0 where
  pub product_slug : Text
  pub country_code : Text
  pub price_ngn : ℕ
  pub provider_product : Text
  pub provider_country : Text
  pub provider_label : Text
  pub offer_id : Option Uuid
  pub sources : List Source

unfoldable pub find_offer : Uuid → List OfferRow → Option OfferRow
find_offer id [] = none
find_offer id (o ∷ offers) = if id == o.id then some o else find_offer id offers

unfoldable pub find_product : Text → List ProductRow → Option ProductRow
find_product slug [] = none
find_product slug (p ∷ products) =
    if text_eq slug p.slug then some p else find_product slug products

unfoldable pub find_country : Text → List CountryRow → Option CountryRow
find_country code [] = none
find_country code (c ∷ countries) =
    if text_eq code c.code && c.active then some c else find_country code countries

unfoldable pub find_price : Text → Text → List PriceRow → Option PriceRow
find_price slug code [] = none
find_price slug code (p ∷ prices) =
    if text_eq slug p.product_slug && (text_eq code p.country_code && p.active)
    then some p
    else find_price slug code prices

unfoldable pub has_stock : Uuid → List SourceRow → Bool
has_stock offer_id [] = false
has_stock offer_id (s ∷ sources) =
    if (offer_id == s.offer_id) && ltb_ℤ (pos 0) s.stock then true else has_stock offer_id sources

-- `max(o.price_ngn)`, 0 without such an offer, over which the floor refuses nothing.
unfoldable pub top_price : Text → Text → List SourceRow → List OfferRow → ℕ
top_price slug code sources [] = 0
top_price slug code sources (o ∷ offers) =
    let rest = top_price slug code sources offers in
    if text_eq slug o.product_slug
      && (text_eq code o.country_code && (o.active && has_stock o.id sources))
    then max o.price_ngn rest
    else rest

-- `price_ngn > expected`
abbrev pub price_moved : ℕ → ℤ → Result ApiError (Unit {0})
price_moved price expected =
    if ltb_ℤ expected (pos price) then err (ApiError.price_moved (pos price)) else ok tt

abbrev pub refuse_if {ℓ} : {E : Type ℓ} → Bool → E → Result E (Unit {0})
refuse_if refused e = if refused then err e else ok tt

abbrev pub or_else {ℓ κ} : {A : Type ℓ} {E : Type κ} → Option A → E → Result E A
or_else none e = err e
or_else (some a) e = ok a

abbrev pub min_cost : Text → List ProductRow → ℕ
min_cost slug products = elim (find_product slug products) [
  | none ↦ 0
  | some p ↦ p.min_provider_cost_usd
]

abbrev pub first_source : List Source → Option Source
first_source [] = none
first_source (s ∷ sources) = some s

-- The offer at the price that was shown, not below the floor, from its sources in order.
unfoldable pub quote_offer :
    Config → Catalog → List OrderRow → ℕ → Uuid → Option ℤ → Result ApiError Quote
quote_offer config c orders now offer_id expected = do
  shown ← or_else expected ApiError.bad_request
  offer ← or_else (find_offer offer_id c.offers) ApiError.not_found
  refuse_if (not (offer.active && ltb_ℤ (pos 0) offer.quantity)) ApiError.conflict
  price_moved offer.price_ngn shown
  refuse_if
      (ltb (offer.price_ngn * unit) (
        top_price offer.product_slug offer.country_code c.sources c.offers
        * config.min_price_fraction))
      ApiError.conflict
  let ranked =
      ranked_sources offer_id (min_cost offer.product_slug c.products)
        (source_providers (not config.funding_is_live) (load c.sell)) now orders c.sources
  let sources = map (λ r. r.row.source) ranked
  first ← or_else (first_source sources) ApiError.conflict
  ok (record {
    product_slug = offer.product_slug;
    country_code = offer.country_code;
    price_ngn = offer.price_ngn;
    provider_product = first.product;
    provider_country = first.country;
    provider_label = first.provider;
    offer_id = some offer_id;
    sources = sources;
  })

-- The active product and country at their price.
unfoldable pub quote_catalog : Config → Catalog → Text → Text → Option ℤ → Result ApiError Quote
quote_catalog config c slug code expected = do
  product ← or_else (find_product slug c.products) ApiError.bad_request
  refuse_if (not product.active) ApiError.bad_request
  country ← or_else (find_country code c.countries) ApiError.bad_request
  price ← or_else (find_price slug code c.prices) ApiError.bad_request
  elim expected [ none ↦ ok tt | some shown ↦ price_moved price.price_ngn shown ]
  refuse_if (not (allows_live_fivesim_catalog config.primary_is_live (load c.sell)))
      ApiError.conflict
  ok (record {
    product_slug = slug;
    country_code = code;
    price_ngn = price.price_ngn;
    provider_product = product.provider_product;
    provider_country = country.provider_country;
    provider_label = if config.primary_is_live then codes "5sim" else codes "stub";
    offer_id = none;
    sources = [];
  })

unfoldable pub without_stub : List Source → List Source
without_stub [] = []
without_stub (s ∷ sources) =
    let rest = without_stub sources in if text_eq s.provider (codes "stub") then rest else s ∷ rest

-- Real money buys no made-up number.
unfoldable pub drop_stub : Config → Quote → Result ApiError Quote
drop_stub config q =
    if config.funding_is_live
    then elim (without_stub q.sources) [
      | [] ↦ elim q.offer_id [
        | none ↦ ok (record q { sources = [] })
        | some id ↦ err ApiError.service_unavailable
      ]
      | s ∷ sources ↦ ok (record q { sources = s ∷ sources })
    ]
    else ok q

unfoldable pub quote :
    Config
    → Catalog
    → List OrderRow
    → ℕ
    → Option Uuid
    → Text
    → Text
    → Option ℤ
    → Result ApiError Quote
quote config c orders now none slug code expected =
    quote_catalog config c slug code expected >>= drop_stub config
quote config c orders now (some offer_id) slug code expected =
    quote_offer config c orders now offer_id expected >>= drop_stub config
