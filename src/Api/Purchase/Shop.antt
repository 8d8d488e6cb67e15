-- ===== src/Api/Purchase/Shop.antt =====
-- What is for sale: the tables of the number catalogue, number_sell.rs (which suppliers the shop sells
-- from) and the ranking of an offer's sources in number_aggregator.rs. A product is named by its slug
-- and a country by its code, which are unique.
use naivolt.Base.{
  ℕ, ◌+◌, ◌*◌, ltb, leb, ◌==◌, ◌&&◌, ◌||◌, not, Bool, false, none, some, is_some, List, [], ◌∷◌,
  ◌++◌, map, if◌then◌else◌,
}
use naivolt.Base.Int.{ℤ, pos, ltb_ℤ, unit}
use naivolt.Base.Text.{Text, codes, text_eq}
use naivolt.Ledger.Account.{Uuid}
use naivolt.Api.Orders.{OrderRow, Source}

pub record ProductRow : Type 0 where
  pub slug : Text
  pub provider_product : Text
  pub min_provider_cost_usd : ℕ
  pub active : Bool

pub record CountryRow : Type 0 where
  pub code : Text
  pub provider_country : Text
  pub active : Bool

pub record PriceRow : Type 0 where
  pub product_slug : Text
  pub country_code : Text
  pub price_ngn : ℕ
  pub active : Bool

pub record OfferRow : Type 0 where
  pub id : Uuid
  pub product_slug : Text
  pub country_code : Text
  pub price_ngn : ℕ
  pub quantity : ℤ
  pub active : Bool

pub record SourceRow : Type 0 where
  pub offer_id : Uuid
  pub source : Source
  pub provider_cost : ℕ
  pub provider_cost_currency : Text
  pub stock : ℤ
  pub provider_success_rate : ℕ

-- The tables, with the flags of `number_sell_providers`.
pub record Catalog : Type 0 where
  pub products : List ProductRow
  pub countries : List CountryRow
  pub prices : List PriceRow
  pub offers : List OfferRow
  pub sources : List SourceRow
  pub sell : List (Text × Bool)

abbrev pub known_providers : List Text
known_providers =
    codes "fivesim"
    ∷ codes "smspool"
    ∷ codes "smsactivate"
    ∷ codes "daisysms"
    ∷ codes "smshub"
    ∷ codes "tigersms"
    ∷ []

unfoldable pub is_enabled : Text → List (Text × Bool) → Bool
is_enabled provider [] = false
is_enabled provider ((name, on) ∷ settings) =
    if text_eq provider name then on else is_enabled provider settings

unfoldable pub any_enabled : List (Text × Bool) → Bool
any_enabled [] = false
any_enabled ((name, on) ∷ settings) = on || any_enabled settings

abbrev pub seed : List (Text × Bool)
seed = map (λ name. (name, text_eq name (codes "fivesim"))) known_providers

-- The settings that `load` returns; when no supplier is on it also stores the seed.
unfoldable pub load : List (Text × Bool) → List (Text × Bool)
load rows = if any_enabled rows then rows else seed

unfoldable pub filter_enabled : List (Text × Bool) → List Text → List Text
filter_enabled settings [] = []
filter_enabled settings (name ∷ names) =
    let rest = filter_enabled settings names in
    if is_enabled name settings then name ∷ rest else rest

unfoldable pub source_providers : Bool → List (Text × Bool) → List Text
source_providers include_stub settings =
    filter_enabled settings known_providers ++ (if include_stub then codes "stub" ∷ [] else [])

abbrev pub allows_live_fivesim_catalog : Bool → List (Text × Bool) → Bool
allows_live_fivesim_catalog live_primary settings =
    not live_primary || is_enabled (codes "fivesim") settings

abbrev pub prior_weight : ℕ
prior_weight = 5

abbrev pub window : ℕ
window = 30 * 86_400_000

unfoldable pub is_among : Text → List Text → Bool
is_among s [] = false
is_among s (t ∷ ts) = text_eq s t || is_among s ts

-- An order that the supplier filled from this source in the last 30 days.
unfoldable pub is_attempt : Source → ℕ → OrderRow → Bool
is_attempt s now o = elim o.source [
  | none ↦ false
  | some t ↦
      text_eq o.provider s.provider
      && (text_eq t.product s.product
          && (text_eq t.country s.country
              && (text_eq t.operator s.operator
                  && (is_some o.phone_number && ltb now (o.created_at + window)))))
]

unfoldable pub count_where : (OrderRow → Bool) → List OrderRow → ℕ
count_where p [] = 0
count_where p (o ∷ orders) = (if p o then 1 else 0) + count_where p orders

-- The score of a source is `wins / trials`, in hundredths of 10^-18.
pub record Ranked : Type 0 where
  pub row : SourceRow
  pub wins : ℕ
  pub trials : ℕ

unfoldable pub score : ℕ → List OrderRow → SourceRow → Ranked
score now orders s = record {
  row = s;
  wins =
      count_where (λ o. is_attempt s.source now o && is_some o.received_at) orders * (100 * unit)
      + prior_weight * s.provider_success_rate;
  trials = (count_where (is_attempt s.source now) orders + prior_weight) * (100 * unit);
}

-- `ORDER BY score DESC, provider_cost ASC, stock DESC`
unfoldable pub comes_before : Ranked → Ranked → Bool
comes_before a b =
    let x = a.wins * b.trials in
    let y = b.wins * a.trials in
    ltb y x
    || ((x == y)
        && (ltb a.row.provider_cost b.row.provider_cost
            || ((a.row.provider_cost == b.row.provider_cost) && ltb_ℤ b.row.stock a.row.stock)))

unfoldable pub insert_ranked : Ranked → List Ranked → List Ranked
insert_ranked a [] = a ∷ []
insert_ranked a (b ∷ bs) =
    let rest = insert_ranked a bs in if comes_before b a then b ∷ rest else a ∷ b ∷ bs

-- What the ranking keeps of the sources: stock, a published rate, a supplier that is sold from, and the
-- floor on what the supplier charges.
unfoldable pub is_eligible : Uuid → ℕ → List Text → SourceRow → Bool
is_eligible offer_id min_cost providers s =
    (offer_id == s.offer_id)
    && (ltb_ℤ (pos 0) s.stock
        && (ltb 0 s.provider_success_rate
            && (is_among s.source.provider providers
                && ((min_cost == 0)
                    || (text_eq s.provider_cost_currency (codes "USD")
                        && leb min_cost s.provider_cost)))))

-- `ranked_sources_sql`
unfoldable pub ranked_sources :
    Uuid → ℕ → List Text → ℕ → List OrderRow → List SourceRow → List Ranked
ranked_sources offer_id min_cost providers now orders [] = []
ranked_sources offer_id min_cost providers now orders (s ∷ sources) =
    let rest = ranked_sources offer_id min_cost providers now orders sources in
    if is_eligible offer_id min_cost providers s
    then insert_ranked (score now orders s) rest
    else rest
