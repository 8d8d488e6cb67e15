-- ===== src/Api/Purchase/Claims.antt =====
-- The claim on a new order, and what lets its refund go through.
use naivolt.Base.{
  ℕ, ◌+◌, ◌<◌, ◌≤◌, ◌≡◌, refl, true, false, Bool, Option, none, some, List, [], ◌∷◌, ◌++◌, All, inl,
  inr, Bool-cases, arith,
}
use naivolt.Base.Int.{ℤ, neg, ◌+ℤ◌, int_laws}
use naivolt.Base.Text.{Text, codes, text_eq, show_nat, show_nat-IsDigits, IsDigits}
use naivolt.Ledger.Account.{Uuid, AccountKind}
use naivolt.Api.Naira.Held.{same_holder}
use naivolt.Api.Naira.Transfer.{moved}
use naivolt.Api.Orders.{reserved, OrderRow, OrdersDb, find_order, update_order, claim_is_current}
use naivolt.Api.Purchase.Hold.{reservation_key}
use naivolt.Api.Purchase.{Others, claimed_at, claim_order, reference_of}

-- No other transaction.
abbrev pub alone : Others
alone = record { before_claim = λ db. db; before_answer = λ db. db }

-- A reference begins with a capital letter, which neither form of a reservation's key does.
pub refund_key-other :
    (scoped : Bool) (user key : Uuid) (code : Text)
    → text_eq (reference_of code ++ codes ":refund") (reservation_key scoped user key) ≡ false
unfolding reservation_key text_eq
refund_key-other true user key code = ground arith
refund_key-other false user key code = digits (show_nat key) (show_nat-IsDigits key)
  where
    digits : (s : Text) → IsDigits s → text_eq (reference_of code ++ codes ":refund") s ≡ false
    digits [] h = refl
    digits (c ∷ s) h = ground arith

-- The ids of a table are drawn, so that a row with a later id is found.
pub find_order-snoc :
    (n : ℕ) (orders : List OrderRow) (o : OrderRow)
    → All (λ r. r.id < n) orders
    → n ≤ o.id
    → find_order o.id (orders ++ o ∷ []) ≡ some o
unfolding find_order
find_order-snoc n [] o h le = ground arith
find_order-snoc n (r ∷ orders) o h le = ground (arith, find_order-snoc n orders o h.1 le)

-- What a hold moved and a refund moved back.
pub moved_back :
    (k : AccountKind) (u : Option Uuid) (user : Option Uuid) (x a : ℤ)
    → a
        +ℤ moved AccountKind.user_ngn user x AccountKind.number_payable_pending none (neg x) k u
        +ℤ moved AccountKind.number_payable_pending none x AccountKind.user_ngn user (neg x) k u
      ≡ a
moved_back k u user x a = elim (Bool-cases (same_holder k u AccountKind.user_ngn user)) [
  | inl mine ↦ elim (Bool-cases (same_holder k u AccountKind.number_payable_pending none)) [
    | inl both ↦ rw (mine, both) (omega int_laws)
    | inr one ↦ rw (mine, one) (omega int_laws)
  ]
  | inr other ↦ elim (Bool-cases (same_holder k u AccountKind.number_payable_pending none)) [
    | inl one ↦ rw (other, one) (omega int_laws)
    | inr neither ↦ rw (other, neither) (omega int_laws)
  ]
]

pub claim_order-found :
    (id : Uuid) (now : ℕ) (db : OrdersDb) (o : OrderRow)
    → find_order id db.orders ≡ some o
    → o.status ≡ reserved
    → o.purchase_started_at ≡ none
    → o.reconcile_claimed_until ≡ none
    → claim_order id now db ≡ (
      some db.ledger.next_id,
      record db {
        ledger = record db.ledger { next_id = db.ledger.next_id + 1 };
        orders = update_order id (claimed_at now db.ledger.next_id) db.orders;
      },
    )
unfolding claim_order
claim_order-found id now db o found open_ unasked unclaimed =
    rw (found, claim_order, open_, unasked, unclaimed) refl

pub claimed-current :
    (token : Uuid) (now later : ℕ) (o : OrderRow)
    → later < now + 60000
    → claim_is_current (some token) later (claimed_at now token o) ≡ true
unfolding claim_is_current
claimed-current token now later o h = ground arith
