-- ===== src/Api/Orders/Once.antt =====
-- A transition moves the money of an order at most once, and leaves the row as the table wants it.
use mathlib.Core.Path.{subst}
use naivolt.Base.{
  ℕ, ◌≡◌, ◌≢◌, refl, sym, ap, ◌∙◌, true, false, Option, some, List, [], ◌∷◌, All, length, ◌==◌,
  Result, ok, inl, inr, ◌⊎◌, Bool-cases, Option-cases, arith,
}
use naivolt.Base.Text.{Text}
use naivolt.Ledger.Account.{Uuid}
use naivolt.Ledger.Post.Balance.{IsBalanced}
use naivolt.Auth.Identifier.{trim}
use naivolt.Api.Orders.{
  OrderRow, OrdersDb, OrderTransition, deliver, refund, RefundStatus, TransitionOutcome, applied,
  OrderError, is_money_open, find_order, update_order, set_open, as_status, claim_is_current,
  post_settlement, post_refund, refund_open, move_open, delivered_as, refunded_as, apply_inner,
}
use naivolt.Api.Orders.Consistent.{
  IsConsistent, refunded-IsConsistent, delivered-IsConsistent, if_open, update_order-All,
}
use naivolt.Api.Orders.Money.{post_settlement-IsBalanced, post_refund-IsBalanced}

-- What a transition that is applied does: it closes an open order, with a ledger that is balanced if
-- it was.
pub record Moves (db after : OrdersDb) (id : Uuid) : Type 0 where
  pub row : OrderRow
  pub found : find_order id db.orders ≡ some row
  pub was_open : is_money_open row.status ≡ true
  pub change : OrderRow → OrderRow
  pub closes : (r : OrderRow) → is_money_open (change r).status ≡ false
  pub same_id : (r : OrderRow) → (change r).id ≡ r.id
  pub consistent :
      (r : OrderRow) → is_money_open r.status ≡ true → IsConsistent r → IsConsistent (change r)
  pub orders : after.orders ≡ set_open row.id change db.orders
  pub balanced : IsBalanced db.ledger → IsBalanced after.ledger

-- A transition is refused without a change, or moves the money of an open order.
abbrev pub Refused : OrdersDb → Result OrderError TransitionOutcome × OrdersDb → Type 0
Refused db s = (s.1 ≡ db) × (s.0 ≢ ok applied)

refund_open-Moves :
    (id : Uuid) (o : OrderRow) (status : RefundStatus) (reason : Text) (db : OrdersDb)
    → find_order id db.orders ≡ some o
    → is_money_open o.status ≡ true
    → Refused db (refund_open o status reason db) ⊎ Moves db (refund_open o status reason db).1 id
unfolding refund_open
refund_open-Moves id o status reason db found open_ =
    elim (Bool-cases (length (trim reason) == 0)) [
      | inl blank ↦ inl (rw blank (refl, λ e. ground arith))
      | inr given_ ↦ elim (Option-cases (post_refund o reason db.ledger)) [
        | inl broken ↦ inl (rw (given_, broken) (refl, λ e. ground arith))
        | inr ((j, l), q) ↦ inr (
            rw (given_, q)
              (record {
                row = o;
                found = found;
                was_open = open_;
                change = refunded_as (as_status status) reason j;
                closes = λ r. ground arith;
                same_id = λ r. refl;
                consistent = λ r. refunded-IsConsistent status reason j r (λ e. ground arith);
                orders = refl;
                balanced = post_refund-IsBalanced o reason db.ledger {id = j} {l' = l} q;
              }))
      ]
    ]

move_open-Moves :
    (id : Uuid) (t : OrderTransition) (o : OrderRow) (now : ℕ) (db : OrdersDb)
    → find_order id db.orders ≡ some o
    → is_money_open o.status ≡ true
    → Refused db (move_open t o now db) ⊎ Moves db (move_open t o now db).1 id
unfolding move_open
move_open-Moves id (refund status reason) o now db found open_ =
    refund_open-Moves id o status reason db found open_
move_open-Moves id (deliver code text) o now db found open_ =
    elim (Option-cases (post_settlement o db.ledger)) [
      | inl broken ↦ inl (rw (broken, move_open) (refl, λ e. ground arith))
      | inr ((j, l), q) ↦ inr (
          rw (q, move_open)
            (record {
              row = o;
              found = found;
              was_open = open_;
              change = delivered_as now code text j;
              closes = λ r. refl;
              same_id = λ r. refl;
              consistent = delivered-IsConsistent now code text j;
              orders = refl;
              balanced = post_settlement-IsBalanced o db.ledger {id = j} {l' = l} q;
            }))
    ]

apply_inner-Moves :
    (id : Uuid) (t : OrderTransition) (claim : Option Uuid) (now : ℕ) (db : OrdersDb)
    → Refused db (apply_inner id t claim now db) ⊎ Moves db (apply_inner id t claim now db).1 id
unfolding apply_inner
apply_inner-Moves id t claim now db = elim (Option-cases (find_order id db.orders)) [
  | inl absent ↦ inl (rw (absent, apply_inner) (refl, λ e. ground arith))
  | inr (o, found) ↦ elim (Bool-cases (claim_is_current claim now o)) [
    | inr stale ↦ inl (rw (found, apply_inner) (rw stale (refl, λ e. ground arith)))
    | inl current ↦ elim (Bool-cases (is_money_open o.status)) [
      | inr closed ↦ inl (rw (found, apply_inner) (rw (current, closed) (refl, λ e. ground arith)))
      | inl open_ ↦
          rw (found, apply_inner) (rw (current, open_) (move_open-Moves id t o now db found open_))
    ]
  ]
]

pub find_order-id :
    (id : Uuid) (rows : List OrderRow) {row : OrderRow}
    → find_order id rows ≡ some row
    → id ≡ row.id
unfolding find_order
find_order-id id [] e = absurd (ground arith)
find_order-id id (r ∷ rows) {row} e = elim (Bool-cases (id == r.id)) [
  | inl hit ↦ ground arith
  | inr miss ↦ find_order-id id rows {row = row} (ground arith)
]

pub find_order-update :
    (id : Uuid) (g : OrderRow → OrderRow) (rows : List OrderRow) {row : OrderRow}
    → ((r : OrderRow) → (g r).id ≡ r.id)
    → find_order id rows ≡ some row
    → find_order id (update_order id g rows) ≡ some (g row)
unfolding find_order update_order
find_order-update id g [] same e = absurd (ground arith)
find_order-update id g (r ∷ rows) {row} same e = elim (Bool-cases (id == r.id)) [
  | inl hit ↦
      let i : r ≡ row = ground arith in
      let here : (id == (g r).id) ≡ true = rw (same r) hit in
      rw hit (rw here (ap (λ z. some (g z)) i))
  | inr miss ↦ rw miss (rw miss (find_order-update id g rows {row = row} same (ground arith)))
]

-- The row that was moved is found again, closed.
Moves-closed :
    (db after : OrdersDb) (id : Uuid)
    → Moves db after id
    → (row' : OrderRow) × (find_order id after.orders ≡ some row')
      × (is_money_open row'.status ≡ false)
unfolding set_open
Moves-closed db after id m =
    let i = find_order-id id db.orders {row = m.row} m.found in
    let updated =
      find_order-update id (if_open m.change) db.orders {row = m.row}
        (λ r. elim (Bool-cases (is_money_open r.status)) [
          | inl o ↦ rw o (m.same_id r)
          | inr c ↦ rw c refl
        ])
        m.found in
    (
      if_open m.change m.row,
      rw m.orders (
          subst
            (λ z.
              find_order id (update_order z (if_open m.change) db.orders)
              ≡ some (if_open m.change m.row))
            i updated),
      rw m.was_open (m.closes m.row),
    )

-- A closed order is left alone.
closed-Refused :
    (id : Uuid) (t : OrderTransition) (claim : Option Uuid) (now : ℕ) (db : OrdersDb)
    (row : OrderRow)
    → find_order id db.orders ≡ some row
    → is_money_open row.status ≡ false
    → Refused db (apply_inner id t claim now db)
closed-Refused id t claim now db row found closed = elim (apply_inner-Moves id t claim now db) [
  | inl refused ↦ refused
  | inr m ↦
      let both : some row ≡ some m.row = sym found ∙ m.found in
      let same : row ≡ m.row = ground arith in
      absurd (cc (m.was_open, closed, ap (λ r. is_money_open r.status) same))
]

-- Once a transition of an order has been applied, every later one, a delivery or a refund, under any
-- claim and at any time, is refused and changes nothing: the money of an order moves at most once.
pub apply_inner_once :
    (id : Uuid) (t later : OrderTransition) (claim claim' : Option Uuid) (now now' : ℕ)
    (db : OrdersDb)
    → (apply_inner id t claim now db).0 ≡ ok applied
    → Refused
        (apply_inner id t claim now db).1
        (apply_inner id later claim' now' (apply_inner id t claim now db).1)
apply_inner_once id t later claim claim' now now' db e =
    elim (apply_inner-Moves id t claim now db) [
      | inl refused ↦ absurd (refused.1 e)
      | inr m ↦
          let (row', found, closed) = Moves-closed db (apply_inner id t claim now db).1 id m in
          closed-Refused id later claim' now' (apply_inner id t claim now db).1 row' found closed
    ]

-- Every transition keeps the ledger balanced and the financial state of every order consistent: an
-- open order has neither a journal of its own nor a reason, a delivered one was settled and not refunded, and a failed,
-- expired or cancelled one was refunded, not settled, and says why.
pub apply_inner-keeps :
    (id : Uuid) (t : OrderTransition) (claim : Option Uuid) (now : ℕ) (db : OrdersDb)
    → IsBalanced db.ledger
    → All IsConsistent db.orders
    → IsBalanced (apply_inner id t claim now db).1.ledger
      × All IsConsistent (apply_inner id t claim now db).1.orders
unfolding set_open
apply_inner-keeps id t claim now db balanced consistent =
    elim (apply_inner-Moves id t claim now db) [
      | inl refused ↦ rw refused.0 (balanced, consistent)
      | inr m ↦ (
        m.balanced balanced,
        rw m.orders (
            update_order-All m.row.id (if_open m.change) db.orders
              (λ r h. elim (Bool-cases (is_money_open r.status)) [
                | inl o ↦ rw o (m.consistent r o h)
                | inr c ↦ rw c h
              ])
              consistent),
      )
    ]
