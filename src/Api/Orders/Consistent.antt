-- ===== src/Api/Orders/Consistent.antt =====
-- The financial state that the table wants of an order, and the updates that keep it.
use naivolt.Base.{
  ℕ, ◌≡◌, ◌≢◌, refl, true, none, some, is_some, List, [], ◌∷◌, All, length, ◌==◌, if◌then◌else◌,
  inl, inr, Bool-cases, arith,
}
use naivolt.Base.Text.{Text}
use naivolt.Ledger.Account.{Uuid}
use naivolt.Auth.Identifier.{trim}
use naivolt.Api.Orders.{
  delivered, review_required, OrderRow, RefundStatus, is_money_open, is_refunded, update_order,
  as_status, delivered_as, refunded_as,
}

-- An order that is left to an operator says since when and why.
abbrev pub IsReviewed : OrderRow → Type 0
IsReviewed r =
    r.status ≡ review_required
    → (is_some r.review_required_at ≡ true)
      × ((reason : Text) × (r.review_reason ≡ some reason) × (length (trim reason) ≢ 0))

-- The table's check of the financial state, and that an order in review has no reason of failure, which
-- the table would allow.
pub record IsConsistent (r : OrderRow) : Type 0 where
  pub open_ :
      is_money_open r.status ≡ true
      → (r.settled_journal_id ≡ none) × (r.refunded_journal_id ≡ none) × (r.failure_reason ≡ none)
  pub settled :
      r.status ≡ delivered
      → (is_some r.settled_journal_id ≡ true)
        × (r.refunded_journal_id ≡ none)
        × (r.failure_reason ≡ none)
  pub refunded :
      is_refunded r.status ≡ true
      → (r.settled_journal_id ≡ none)
        × (is_some r.refunded_journal_id ≡ true)
        × ((reason : Text) × (r.failure_reason ≡ some reason) × (length (trim reason) ≢ 0))
  pub reviewed : IsReviewed r

pub refunded-IsConsistent :
    (status : RefundStatus) (reason : Text) (j : Uuid) (r : OrderRow)
    → length (trim reason) ≢ 0
    → is_money_open r.status ≡ true
    → IsConsistent r
    → IsConsistent (refunded_as (as_status status) reason j r)
refunded-IsConsistent status reason j r given_ o h = record {
  open_ = λ e. absurd (ground arith);
  settled = λ e. absurd (ground arith);
  refunded = λ e. ((h.open_ o).0, refl, (reason, refl, given_));
  reviewed = λ e. absurd (ground arith);
}

pub delivered-IsConsistent :
    (now : ℕ) (code text : Text) (j : Uuid) (r : OrderRow)
    → is_money_open r.status ≡ true
    → IsConsistent r
    → IsConsistent (delivered_as now code text j r)
delivered-IsConsistent now code text j r o h = record {
  open_ = λ e. absurd (ground arith);
  settled = λ e. (refl, (h.open_ o).1, refl);
  refunded = λ e. absurd (ground arith);
  reviewed = λ e. absurd (ground arith);
}

-- An update of open orders only, as a function of any row.
abbrev pub if_open : (OrderRow → OrderRow) → OrderRow → OrderRow
if_open f r = if is_money_open r.status then f r else r

pub update_order-All :
    (id : Uuid) (g : OrderRow → OrderRow) (rows : List OrderRow)
    → ((r : OrderRow) → IsConsistent r → IsConsistent (g r))
    → All IsConsistent rows
    → All IsConsistent (update_order id g rows)
unfolding update_order
update_order-All id g [] k h = tt
update_order-All id g (r ∷ rows) k h = elim (Bool-cases (id == r.id)) [
  | inl hit ↦ rw hit (k r h.0, update_order-All id g rows k h.1)
  | inr miss ↦ rw miss (h.0, update_order-All id g rows k h.1)
]

-- An update of open orders needs to keep only those consistent.
pub open_only :
    (f : OrderRow → OrderRow)
    → ((r : OrderRow) → is_money_open r.status ≡ true → IsConsistent r → IsConsistent (f r))
    → (r : OrderRow) → IsConsistent r
    → IsConsistent (if_open f r)
open_only f k r h = elim (Bool-cases (is_money_open r.status)) [
  | inl o ↦ rw o (k r o h)
  | inr c ↦ rw c h
]
