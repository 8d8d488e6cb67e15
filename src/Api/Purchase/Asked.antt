-- ===== src/Api/Purchase/Asked.antt =====
-- What the suppliers answer to an order, stated without the loop over the sources.
use naivolt.Base.{
  ◌≡◌, refl, ap, ◌∙◌, ◌⊎◌, ◌||◌, Bool, true, false, none, some, List, [], ◌∷◌, ◌++◌, All, Result,
  ok, err, inl, inr, Bool-cases, Option-cases, Result-cases,
}
use naivolt.Base.Text.{Text, codes}
use naivolt.Ledger.Account.{Uuid}
use naivolt.Api.Error.{ApiError}
use naivolt.Api.Orders.{Source}
use naivolt.Api.Purchase.Shop.{SourceRow}
use naivolt.Api.Purchase.Quotes.{Quote}
use naivolt.Api.Purchase.Supply.{
  PurchaseError, rejected, ambiguous, Activation, Suppliers, contains_text, if_out_of_stock,
  try_next_source, Bought, won, refused, unknown, try_sources, bought_by,
}
use naivolt.Api.Purchase.{ask}

abbrev says_none : Text → Bool
says_none msg =
    contains_text (codes "out of stock") msg
    || contains_text (codes "isn't available right now") msg

-- A source that has no number now, and says so.
abbrev pub HasNone : (Source → Result PurchaseError Activation) → Source → Type 0
HasNone buy s =
    (e : ApiError) × (msg : Text) × (buy s ≡ err (rejected e msg)) × (says_none msg ≡ true)

-- A source before which every source has none.
abbrev pub ReachedAt :
    (Source → Result PurchaseError Activation) → List Source → Source → List Source → Type 0
ReachedAt buy sources s after =
    (before : List Source) × (sources ≡ before ++ s ∷ after) × All (HasNone buy) before

-- Sources are asked in their order until one does not say that it has none: its answer decides, and the
-- last refusal when none is left, or `last` when there was none.
abbrev pub Tried :
    (Source → Result PurchaseError Activation) → ApiError → List Source → Bought → Type 0
Tried buy last sources (won provider none a) = ⊥
Tried buy last sources (won provider (some s) a) =
    (after : List Source) × ReachedAt buy sources s after × (provider ≡ s.provider) × (buy s ≡ ok a)
Tried buy last sources (refused e) =
    ((sources ≡ []) × (e ≡ last))
    ⊎ ((s : Source) × (after : List Source) × (msg : Text) × ReachedAt buy sources s after
        × (buy s ≡ err (rejected e msg))
        × ((after ≡ []) ⊎ (says_none msg ≡ false)))
Tried buy last sources unknown =
    (s : Source) × (after : List Source) × ReachedAt buy sources s after × (buy s ≡ err ambiguous)

-- The one answer to an order from the catalogue.
abbrev pub Direct : Text → Result PurchaseError Activation → Bought → Type 0
Direct label answer (won provider none a) = (provider ≡ label) × (answer ≡ ok a)
Direct label answer (won provider (some s) a) = ⊥
Direct label answer (refused e) = (msg : Text) × (answer ≡ err (rejected e msg))
Direct label answer unknown = answer ≡ err ambiguous

-- How the suppliers' answers to a quoted order end.
abbrev pub Answered : Suppliers → Quote → Bought → Type 0
Answered suppliers q bought =
    ((q.offer_id ≡ none)
      × Direct q.provider_label (suppliers.buy q.provider_country q.provider_product) bought)
    ⊎ ((offer : Uuid) × (q.offer_id ≡ some offer)
        × Tried suppliers.buy_source ApiError.conflict q.sources bought)

reached_later :
    (buy : Source → Result PurchaseError Activation) (t : Source) (sources : List Source)
    (s : Source) (after : List Source)
    → HasNone buy t
    → ReachedAt buy sources s after
    → ReachedAt buy (t ∷ sources) s after
reached_later buy t sources s after h (before, e, none_before) =
    (t ∷ before, ap (λ z. t ∷ z) e, (h, none_before))

Tried-next :
    (buy : Source → Result PurchaseError Activation) (last e : ApiError) (msg : Text) (s : Source)
    (sources : List Source) (bought : Bought)
    → buy s ≡ err (rejected e msg)
    → says_none msg ≡ true
    → Tried buy e sources bought
    → Tried buy last (s ∷ sources) bought
Tried-next buy last e msg s sources (won provider none a) said empty h = h
Tried-next buy last e msg s sources (won provider (some t) a) said empty (after, r, same, h) =
    (after, reached_later buy s sources t after (e, msg, said, empty) r, same, h)
Tried-next buy last e msg s sources (refused f) said empty (inl (all_tried, same)) =
    inr (s, sources, msg, ([], refl, tt), rw same said, inl all_tried)
Tried-next buy last e msg s sources (refused f) said empty (inr (t, after, m, r, answer, h)) =
    inr (t, after, m, reached_later buy s sources t after (e, msg, said, empty) r, answer, h)
Tried-next buy last e msg s sources unknown said empty (t, after, r, h) =
    (t, after, reached_later buy s sources t after (e, msg, said, empty) r, h)

PurchaseError-cases :
    (x : PurchaseError) → ((e : ApiError) × (msg : Text) × (x ≡ rejected e msg)) ⊎ (x ≡ ambiguous)
PurchaseError-cases (rejected e msg) = inl (e, msg, refl)
PurchaseError-cases ambiguous = inr refl

try_sources-Tried :
    (buy : Source → Result PurchaseError Activation) (offer : Uuid) (last : ApiError)
    (sources : List Source) (rows : List SourceRow)
    → Tried buy last sources (try_sources buy offer last sources rows).0
unfolding try_sources try_next_source
try_sources-Tried buy offer last [] rows = inl (refl, refl)
try_sources-Tried buy offer last (s ∷ sources) rows = elim (Result-cases (buy s)) [
  | inl (a, q) ↦ rw (q, try_sources) (sources, ([], refl, tt), refl, q)
  | inr (x, q) ↦ elim (PurchaseError-cases x) [
    | inr p ↦ rw (q, p, try_sources) (s, sources, ([], refl, tt), q ∙ ap err p)
    | inl (e, msg, p) ↦ elim (Bool-cases (says_none msg)) [
      | inl empty ↦
          rw (q, p, empty, try_sources)
            (Tried-next buy last e msg s sources _ (q ∙ ap err p) empty
              (try_sources-Tried buy offer e sources (if_out_of_stock offer s msg rows)))
      | inr other ↦
          rw (q, p, other, try_sources)
            (inr (s, sources, msg, ([], refl, tt), q ∙ ap err p, inr other))
    ]
  ]
]

bought_by-Direct :
    (label : Text) (answer : Result PurchaseError Activation)
    → Direct label answer (bought_by label answer)
bought_by-Direct label (ok a) = (refl, refl)
bought_by-Direct label (err ambiguous) = refl
bought_by-Direct label (err (rejected e msg)) = (msg, refl)

-- The suppliers are asked as they should be.
pub ask-Answered :
    (suppliers : Suppliers) (q : Quote) (rows : List SourceRow)
    → Answered suppliers q (ask suppliers q rows).0
unfolding ask
ask-Answered suppliers q rows = elim (Option-cases q.offer_id) [
  | inl direct ↦
      rw (direct, ask)
        (inl (
          refl,
          bought_by-Direct q.provider_label (suppliers.buy q.provider_country q.provider_product),
        ))
  | inr (offer, q₁) ↦
      rw (q₁, ask)
        (inr (
          offer,
          refl,
          try_sources-Tried suppliers.buy_source offer ApiError.conflict q.sources rows,
        ))
]
