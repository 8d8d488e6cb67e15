-- ===== src/Api/Cancel/Refunds.antt =====
-- A cancellation that goes through gives the price back.
use naivolt.Base.{
  Result, err, ℕ, ◌+◌, ◌<◌, ◌==◌, ◌&&◌, not, ◌≡◌, refl, true, false, none, some, ok, length, inl,
  inr, Option-cases, arith,
}
use naivolt.Base.Int.{neg, is_zero}
use naivolt.Base.Text.{Text, codes}
use naivolt.Ledger.Account.{Uuid, AccountKind}
use naivolt.Ledger.Post.{find_journal}
use naivolt.Watcher.Store.Owed.{IsNumbered}
use naivolt.Auth.Identifier.{trim, trim_start, trim_end}
use naivolt.Api.Error.{ApiError}
use naivolt.Api.Purchase.Finish.{load_order-found}
use naivolt.Api.Naira.Transfer.{draw-Opened, Opened-Transferred}
use naivolt.Api.Orders.{
  OrderStatus, OrderError, TransitionOutcome, applied, OrderRow, Sms, OrdersDb, cancelled,
  refund_cancelled, refund, refunded_as, is_money_open, find_order, update_order, claim_is_current,
  apply_inner,
}
use naivolt.Api.Orders.Once.{find_order-update}
use naivolt.Api.Orders.Returns.{refund_key, Returned, apply_inner-Returned}
use naivolt.Api.Orders.Checks.{ActivationCheck, is_closed}
use naivolt.Api.Purchase.{is_reviewable, is_unclaimed, load_order}
use naivolt.Api.Reconcile.{is_review, taken_at}
use naivolt.Api.Cancel.{
  Suppliers, Answer, is_cancellable, try_claim_order, and_then, refund_claimed, cancel_checked,
  cancel_at, cancel_claimed, cancel_order,
}

-- The supplier's order, if there is one, is still open without a message, and is taken back.
abbrev pub Agrees : Suppliers → OrderRow → Type 0
Agrees suppliers o = elim o.provider_order_id [
  | none ↦ Unit
  | some provider_id ↦
      (check : ActivationCheck) × (suppliers.check_for o.provider provider_id ≡ some check)
      × ((length check.messages == 0) ≡ true)
      × (is_closed check.lifecycle ≡ false)
      × ((suppliers.is_live && not (suppliers.cancel_for o.provider provider_id)) ≡ false)
]

-- The order has been cancelled, and its price is back with the user.
abbrev pub Cancelled : OrderRow → OrdersDb → Answer → Type 0
Cancelled o db answer =
    (r : OrderRow) × (answer.0 ≡ ok r)
    × (find_order o.id answer.1.orders ≡ some r)
    × (r.status ≡ cancelled)
    × Returned o db.ledger answer.1.ledger

and_then-ok :
    (next : OrdersDb → Result ApiError OrderRow)
    (s : Result OrderError TransitionOutcome × OrdersDb) {t : TransitionOutcome}
    → s.0 ≡ ok t
    → and_then next s ≡ (next s.1, s.1)
unfolding and_then
and_then-ok next (ok t, db) e = refl
and_then-ok next (err f, db) e = absurd (ground arith)

module _ (suppliers : Suppliers) (digest : Text → Sms → Text) (now later : ℕ) (db : OrdersDb)
    (o : OrderRow) (found : find_order o.id db.orders ≡ some o)
    (cancellable : is_cancellable db o ≡ true) (unclaimed : is_unclaimed now o ≡ true)
    (soon : later < now + 60000) (numbered : IsNumbered db.ledger)
    (priced : is_zero o.price_ngn ≡ false)
    (free : find_journal (refund_key o) db.ledger.journals ≡ none) where
  abbrev token : Uuid
  token = db.ledger.next_id

  abbrev claimed : OrdersDb
  claimed = record db {
    ledger = record db.ledger { next_id = token + 1 };
    orders = update_order o.id (taken_at now token) db.orders;
  }

  open_ : is_reviewable o.status ≡ true
  unfolding is_cancellable
  open_ = ground (arith, cancellable)

  claims : try_claim_order o.id now db ≡ (some token, claimed)
  unfolding try_claim_order
  claims = rw (found, try_claim_order, open_, unclaimed) refl

  current : claim_is_current (some token) later (taken_at now token o) ≡ true
  unfolding claim_is_current
  current = ground arith

  money_open : (s : OrderStatus) → is_reviewable s ≡ true → is_money_open s ≡ true
  money_open s e = ground arith

  not_review : (s : OrderStatus) → is_reviewable s ≡ true → is_review s ≡ false
  not_review s e = ground arith

  refund_claimed-Cancelled :
      Cancelled o db (refund_claimed suppliers digest o.user_id o.id token later claimed)
  unfolding refund_claimed trim trim_start trim_end
  refund_claimed-Cancelled =
      let c = taken_at now token o in
      let s =
        apply_inner o.id (refund refund_cancelled (codes "cancelled")) (some token) later claimed in
      let there : find_order o.id claimed.orders ≡ some c =
        find_order-update o.id (taken_at now token) db.orders {row = o} (λ r. refl) found in
      let (journal, done, row, t) =
        apply_inner-Returned o.id c refund_cancelled (codes "cancelled") (some token) later claimed
          there current (money_open o.status open_) refl ((draw-Opened db.ledger).numbered numbered)
          priced free in
      rw (and_then-ok (λ after. load_order o.user_id o.id after.orders) s {t = applied} done) (
        refunded_as cancelled (codes "cancelled") journal c,
        load_order-found o.user_id o.id s.1.orders
            (refunded_as cancelled (codes "cancelled") journal c) row refl,
        row,
        refl,
        Opened-Transferred db.ledger claimed.ledger s.1.ledger AccountKind.number_payable_pending
            AccountKind.user_ngn none (some o.user_id) o.price_ngn (neg o.price_ngn) (refund_key o)
            numbered (draw-Opened db.ledger) t,
      )

  cancel_at-Cancelled :
      (provider_id : Text) (check : ActivationCheck)
      → suppliers.check_for o.provider provider_id ≡ some check
      → (length check.messages == 0) ≡ true
      → is_closed check.lifecycle ≡ false
      → (suppliers.is_live && not (suppliers.cancel_for o.provider provider_id)) ≡ false
      → Cancelled o db (cancel_at suppliers digest o.user_id o.id o provider_id token later claimed)
  unfolding cancel_at cancel_checked
  cancel_at-Cancelled provider_id check seen nothing going taken =
      rw (seen, cancel_at, nothing, going, taken) refund_claimed-Cancelled

  cancel_claimed-Cancelled :
      Agrees suppliers o
      → Cancelled o db (cancel_claimed suppliers digest o.user_id o.id o now later db)
  unfolding cancel_claimed
  cancel_claimed-Cancelled agrees = elim (Option-cases o.provider_order_id) [
    | inl nowhere ↦
        rw (claims, cancel_claimed, nowhere, cancel_claimed, claims) refund_claimed-Cancelled
    | inr (provider_id, q) ↦
        let (check, seen, nothing, going, taken) = rw q at agrees in
        rw (claims, cancel_claimed, q, cancel_claimed, claims)
          (cancel_at-Cancelled provider_id check seen nothing going taken)
  ]

  -- The cancellation of an order that has received nothing and that nobody holds a claim on goes through
  -- if the supplier still has it open without a message and takes it back: the order is then cancelled,
  -- and its price moves back, in one journal, from what is held for orders to what its user is owed.
  pub cancel_order-refunds :
      Agrees suppliers o
      → Cancelled o db (cancel_order suppliers digest o.user_id o.id now later db)
  unfolding cancel_order
  cancel_order-refunds agrees =
      let mine : (not (o.user_id == o.user_id)) ≡ false = ground arith in
      rw (found, cancel_order, mine, not_review o.status open_, cancellable)
        (cancel_claimed-Cancelled agrees)
