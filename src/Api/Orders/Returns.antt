-- ===== src/Api/Orders/Returns.antt =====
-- A refund of a claimed order goes through, and moves the price back.
use mathlib.Core.Path.{subst}
use naivolt.Base.{
  ℕ, ◌≡◌, refl, true, false, Option, none, some, ◌++◌, length, ok, ◌==◌, arith, inl, inr,
  Bool-cases,
}
use naivolt.Base.Int.{neg, is_zero, neg_parts, +ℤ-neg}
use naivolt.Base.Text.{Text, codes}
use naivolt.Ledger.Account.{Uuid, AccountKind}
use naivolt.Ledger.Journal.{Journal, new, entry, with_metadata, is_custody_only}
use naivolt.Ledger.Journal.Build.{IsSound}
use naivolt.Ledger.Post.{LedgerDb, find_journal, post, journal_id}
use naivolt.Watcher.Store.Owed.{IsNumbered}
use naivolt.Auth.Identifier.{trim}
use naivolt.Api.Naira.Transfer.{Transferred, pair, two_opened, post-Transferred}
use naivolt.Api.Naira.Sound.{build-pair}
use naivolt.Api.Orders.{
  OrderRow, OrdersDb, RefundStatus, refund, applied, is_money_open, find_order, set_open,
  update_order, as_status, claim_is_current, refund_journal, post_refund, refund_open, move_open,
  refunded_as, apply_inner,
}
use naivolt.Api.Orders.Consistent.{if_open}
use naivolt.Api.Orders.Money.{refunding}
use naivolt.Api.Orders.Once.{find_order-id, find_order-update}

-- The key of an order's refund.
abbrev pub refund_key : OrderRow → Text
refund_key o = o.reference ++ codes ":refund"

refund_journal-ok :
    (pending user_account : Uuid) (o : OrderRow) (reason : Text)
    → is_zero o.price_ngn ≡ false
    → (j : Journal) × (refund_journal pending user_account o reason ≡ ok j)
      × (j.idempotency_key ≡ refund_key o)
      × (j.entries
          ≡ pair pending AccountKind.number_payable_pending o.price_ngn user_account
              AccountKind.user_ngn
              (neg o.price_ngn))
      × IsSound j.kind j.entries
unfolding refund_journal new entry with_metadata is_custody_only
refund_journal-ok pending user_account o reason h =
    let (built, sound) =
      build-pair _ pending user_account AccountKind.number_payable_pending AccountKind.user_ngn
        o.price_ngn (neg o.price_ngn) refl refl h (ground (arith, neg_parts o.price_ngn))
        (+ℤ-neg o.price_ngn) in
    (_, built, refl, refl, sound)

-- The price moved back.
abbrev pub Returned : OrderRow → LedgerDb → LedgerDb → Type 0
Returned o l after =
    Transferred l after AccountKind.number_payable_pending none o.price_ngn AccountKind.user_ngn
      (some o.user_id) (neg o.price_ngn) (refund_key o)

post_refund-Returned :
    (o : OrderRow) (reason : Text) (l : LedgerDb)
    → IsNumbered l
    → is_zero o.price_ngn ≡ false
    → find_journal (refund_key o) l.journals ≡ none
    → (id : Uuid) × (after : LedgerDb) × (post_refund o reason l ≡ some (id, after))
      × Returned o l after
unfolding post_refund
post_refund-Returned o reason l n h free =
    let (j, built, keyed, shape, sound) =
      refund_journal-ok (refunding o l).1.0 (refunding o l).0 o reason h in
    let (opens, user_found, pending_found) =
      two_opened AccountKind.user_ngn AccountKind.number_payable_pending (some o.user_id) none l in
    let t =
      post-Transferred l (refunding o l).1.1 AccountKind.number_payable_pending AccountKind.user_ngn
        none (some o.user_id) (refunding o l).1.0 (refunding o l).0 o.price_ngn (neg o.price_ngn) j
        n opens pending_found user_found shape sound (rw keyed free) in
    (
      journal_id (post j (refunding o l).1.1).0,
      (post j (refunding o l).1.1).1,
      rw (built, post_refund) refl,
      rw keyed at t,
    )

-- A refund of an open order under a current claim is applied, closes the order and returns its price.
pub apply_inner-Returned :
    (id : Uuid) (o : OrderRow) (status : RefundStatus) (reason : Text) (claim : Option Uuid)
    (now : ℕ) (db : OrdersDb)
    → find_order id db.orders ≡ some o
    → claim_is_current claim now o ≡ true
    → is_money_open o.status ≡ true
    → (length (trim reason) == 0) ≡ false
    → IsNumbered db.ledger
    → is_zero o.price_ngn ≡ false
    → find_journal (refund_key o) db.ledger.journals ≡ none
    → let result = apply_inner id (refund status reason) claim now db in
      (journal : Uuid) × (result.0 ≡ ok applied)
      × (find_order id result.1.orders ≡ some (refunded_as (as_status status) reason journal o))
      × Returned o db.ledger result.1.ledger
unfolding apply_inner move_open refund_open set_open
apply_inner-Returned id o status reason claim now db found current open_ given_ n h free =
    let (journal, after, posted, t) = post_refund-Returned o reason db.ledger n h free in
    let change = refunded_as (as_status status) reason journal in
    let same = find_order-id id db.orders {row = o} found in
    let updated =
      find_order-update id (if_open change) db.orders {row = o}
        (λ r. elim (Bool-cases (is_money_open r.status)) [ inl y ↦ rw y refl | inr z ↦ rw z refl ])
        found in
    let row : find_order id (update_order o.id (if_open change) db.orders) ≡ some (change o) =
      subst (λ z. find_order id (update_order z (if_open change) db.orders) ≡ some (change o)) same
        (rw open_ at updated) in
    (
      journal,
      rw (found, apply_inner, current, open_, given_, posted) refl,
      rw (found, apply_inner, current, open_, given_, posted) row,
      rw (found, apply_inner, current, open_, given_, posted) t,
    )
