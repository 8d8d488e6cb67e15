-- ===== src/Api/Purchase/Request.antt =====
-- What a request for a number is checked for before its price is held, and which order it repeats.
use naivolt.Base.{
  ◌==◌, ◌&&◌, ◌||◌, not, Bool, true, false, Option, none, some, is_some, List, [], ◌∷◌, Result, ok,
  err, ◌>>=◌, ◌>>◌, if◌then◌else◌,
}
use naivolt.Base.Int.{ℤ, ltb_ℤ}
use naivolt.Base.Text.{Text, text_eq, to_lower, to_upper, show_nat}
use naivolt.Ledger.Account.{Uuid}
use naivolt.Ledger.Post.{JournalRow}
use naivolt.Auth.Identifier.{trim}
use naivolt.Api.Error.{ApiError}
use naivolt.Api.Orders.{OrderRow}
use naivolt.Api.Purchase.Quotes.{Config}

pub record CreateOrderBody : Type 0 where
  pub offer_id : Option Uuid
  pub product_slug : Text
  pub country_code : Text
  pub expected_price_ngn : Option Text

-- What the handler uses that is not of this crate: the parsers of uuids and of decimals.
pub record Parsers : Type 0 where
  pub parse_uuid : Text → Option Uuid
  pub from_str : Text → Option ℤ

unfoldable pub check_expected : (Text → Option ℤ) → Option Text → Result ApiError (Option ℤ)
check_expected from_str none = ok none
check_expected from_str (some s) = elim (from_str (trim s)) [
  | none ↦ err ApiError.bad_request
  | some price ↦ ok (some price)
]

unfoldable pub check_key : (Text → Option Uuid) → Option Text → Result ApiError Uuid
check_key parse_uuid none = err ApiError.bad_request
check_key parse_uuid (some header) = elim (parse_uuid header) [
  | none ↦ err ApiError.bad_request
  | some key ↦ ok key
]

-- Real money is not taken for made-up numbers.
unfoldable pub check_on_sale : Config → Option Uuid → Result ApiError (Unit {0})
check_on_sale config offer_id =
    if config.funding_is_live && (not config.primary_is_live && not (is_some offer_id))
    then err ApiError.service_unavailable
    else if not config.numbers_is_live && config.funding_is_live
    then err ApiError.service_unavailable
    else ok tt

-- The checks before the transaction: the key and the price that the client was shown.
unfoldable pub check_order :
    Parsers → Config → Option Text → CreateOrderBody → Result ApiError (Uuid × Option ℤ)
check_order parsers config header body = do
  key ← check_key parsers.parse_uuid header
  expected ← check_expected parsers.from_str body.expected_price_ngn
  check_on_sale config body.offer_id
  ok (key, expected)

unfoldable pub journal_has_key : Uuid → Text → List JournalRow → Bool
journal_has_key id key [] = false
journal_has_key id key (j ∷ rows) =
    ((id == j.id) && text_eq key j.idempotency_key) || journal_has_key id key rows

-- An order without a key of its own is known by the key of its journal.
abbrev pub has_key : Uuid → List JournalRow → OrderRow → Bool
has_key key journals o = elim o.idempotency_key [
  | some k ↦ key == k
  | none ↦ journal_has_key o.reserved_journal_id (show_nat key) journals
]

unfoldable pub find_existing : Uuid → Uuid → List JournalRow → List OrderRow → Option OrderRow
find_existing user key journals [] = none
find_existing user key journals (o ∷ orders) =
    if (user == o.user_id) && has_key key journals o
    then some o
    else find_existing user key journals orders

abbrev pub same_uuid : Option Uuid → Uuid → Bool
same_uuid none b = false
same_uuid (some a) b = a == b

abbrev pub same_price : Option ℤ → Option ℤ → Bool
same_price none none = true
same_price (some a) (some b) = not (ltb_ℤ a b) && not (ltb_ℤ b a)
same_price _ _ = false

-- The stored order is the one that is asked for.
unfoldable pub same_request : CreateOrderBody → Option ℤ → OrderRow → Bool
same_request body expected o =
    let shown : Bool = not o.payload_complete || same_price o.expected_price_ngn expected in
    elim body.offer_id [
      | some offer_id ↦ same_uuid o.offer_id offer_id && shown
      | none ↦
          text_eq o.product_slug (to_lower (trim body.product_slug))
          && (text_eq o.country_code (to_upper (trim body.country_code)) && shown)
    ]
