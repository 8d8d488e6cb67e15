-- ===== src/Api/Purchase/Supply.antt =====
-- Asking the suppliers for a number: `PurchaseError`, `Activation` and `try_next_source` of
-- number_provider.rs, and the loop over the sources in `create_order` of number_routes.rs.
use naivolt.Base.{
  ℕ, ◌==◌, ◌&&◌, ◌||◌, Bool, true, false, Option, none, some, List, [], ◌∷◌, Result, ok, err,
  if◌then◌else◌,
}
use naivolt.Base.Int.{pos}
use naivolt.Base.Text.{Text, codes, text_eq}
use naivolt.Ledger.Account.{Uuid}
use naivolt.Api.Error.{ApiError}
use naivolt.Api.Orders.{Source}
use naivolt.Api.Purchase.Shop.{SourceRow}

-- A refusal, with the prose of its error.
pub data PurchaseError : Type 0 where
  rejected : ApiError → Text → PurchaseError
  ambiguous : PurchaseError

pub record Activation : Type 0 where
  pub provider_order_id : Text
  pub phone : Text
  pub expires_at : Option ℕ

-- What the suppliers answer to an order for a number.
pub record Suppliers : Type 0 where
  pub buy : (country product : Text) → Result PurchaseError Activation
  pub buy_source : Source → Result PurchaseError Activation

unfoldable pub starts_with : Text → Text → Bool
starts_with [] s = true
starts_with (c ∷ cs) [] = false
starts_with (c ∷ cs) (d ∷ s) = (c == d) && starts_with cs s

unfoldable pub contains_text : Text → Text → Bool
contains_text part [] = starts_with part []
contains_text part (c ∷ s) = starts_with part (c ∷ s) || contains_text part s

abbrev pub is_out_of_stock : Text → Bool
is_out_of_stock msg = contains_text (codes "out of stock") msg

unfoldable pub try_next_source : Text → Bool
try_next_source msg = is_out_of_stock msg || contains_text (codes "isn't available right now") msg

-- How the suppliers have answered, in the end.
pub data Bought : Type 0 where
  won : Text → Option Source → Activation → Bought
  refused : ApiError → Bought
  unknown : Bought

abbrev pub same_source : Source → Source → Bool
same_source s t =
    text_eq s.provider t.provider
    && (text_eq s.country t.country
        && (text_eq s.product t.product && text_eq s.operator t.operator))

-- `UPDATE number_offer_sources SET stock = 0`
unfoldable pub empty_stock : Uuid → Source → List SourceRow → List SourceRow
empty_stock offer_id s [] = []
empty_stock offer_id s (r ∷ rows) =
    (if (offer_id == r.offer_id) && same_source s r.source then record r { stock = pos 0 } else r)
    ∷ empty_stock offer_id s rows

abbrev pub if_out_of_stock : Uuid → Source → Text → List SourceRow → List SourceRow
if_out_of_stock offer_id s msg rows =
    if is_out_of_stock msg then empty_stock offer_id s rows else rows

-- The loop over the sources: `last` is the last refusal.
unfoldable pub try_sources :
    (Source → Result PurchaseError Activation)
    → Uuid
    → ApiError
    → List Source
    → List SourceRow
    → Bought × List SourceRow
try_sources buy offer_id last [] rows = (refused last, rows)
try_sources buy offer_id last (s ∷ sources) rows = elim (buy s) [
  | ok a ↦ (won s.provider (some s) a, rows)
  | err ambiguous ↦ (unknown, rows)
  | err (rejected e msg) ↦
      if try_next_source msg
      then try_sources buy offer_id e sources (if_out_of_stock offer_id s msg rows)
      else (refused e, if_out_of_stock offer_id s msg rows)
]

-- The primary supplier's answer to an order from the catalogue.
abbrev pub bought_by : Text → Result PurchaseError Activation → Bought
bought_by provider (ok a) = won provider none a
bought_by provider (err ambiguous) = unknown
bought_by provider (err (rejected e msg)) = refused e
