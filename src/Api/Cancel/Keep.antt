-- ===== src/Api/Cancel/Keep.antt =====
-- A cancellation keeps the ledger balanced and the orders consistent.
use naivolt.Base.{
  length, ℕ, ◌+◌, ◌==◌, ◌&&◌, not, refl, none, some, Result, ok, err, inl, inr, Bool-cases,
  Option-cases,
}
use naivolt.Base.Text.{Text, codes}
use naivolt.Ledger.Account.{Uuid}
use naivolt.Api.Error.{ApiError}
use naivolt.Api.Orders.{
  OrderRow, Sms, OrdersDb, refund, refund_cancelled, find_order, TransitionOutcome, OrderError,
  apply_inner,
}
use naivolt.Api.Orders.Once.{apply_inner-keeps}
use naivolt.Api.Orders.Checks.{ActivationCheck, is_closed, apply_check}
use naivolt.Api.Orders.Checks.Keep.{IsSettled, IsBalanced-next, apply_check-keeps}
use naivolt.Api.Purchase.{is_reviewable, is_unclaimed, load_order}
use naivolt.Api.Purchase.Keep.{SameMoney-IsSettled}
use naivolt.Api.Reconcile.{is_review, is_token, taken_at}
use naivolt.Api.Cancel.{
  cancel_checked, Suppliers, is_cancellable, try_claim_order, unclaimed_as, drop_claim, and_then,
  refund_claimed, cancel_at, refuse_received, cancel_claimed, cancel_order,
}

drop_claim-keeps :
    (id token : Uuid) (db : OrdersDb) → IsSettled db → IsSettled (drop_claim id token db)
unfolding drop_claim
drop_claim-keeps id token db h =
    SameMoney-IsSettled id (unclaimed_as token) db
      (λ r. elim (Bool-cases (is_token r.reconcile_claim_token token)) [
        | inl mine ↦ rw mine (refl, refl, refl, refl, refl, refl)
        | inr other ↦ rw other (refl, refl, refl, refl, refl, refl)
      ])
      h

and_then-keeps :
    (next : OrdersDb → Result ApiError OrderRow)
    (s : Result OrderError TransitionOutcome × OrdersDb)
    → IsSettled s.1
    → IsSettled (and_then next s).1
unfolding and_then
and_then-keeps next (err e, db) h = h
and_then-keeps next (ok t, db) h = h

try_claim_order-keeps :
    (id : Uuid) (now : ℕ) (db : OrdersDb) → IsSettled db → IsSettled (try_claim_order id now db).1
unfolding try_claim_order
try_claim_order-keeps id now db h = elim (Option-cases (find_order id db.orders)) [
  | inl absent ↦ rw (absent, try_claim_order) h
  | inr (o, found) ↦ elim (Bool-cases (is_reviewable o.status && is_unclaimed now o)) [
    | inr busy ↦ rw (found, try_claim_order) (rw busy h)
    | inl free ↦
        rw (found, try_claim_order)
          (rw free (
            SameMoney-IsSettled id (taken_at now db.ledger.next_id)
              (record db { ledger = record db.ledger { next_id = db.ledger.next_id + 1 } })
              (λ r. (refl, refl, refl, refl, refl, refl)) (IsBalanced-next db.ledger h.0, h.1)))
  ]
]

module _ (suppliers : Suppliers) (digest : Text → Sms → Text) (user id : Uuid) where
  refund_claimed-keeps :
      (token : Uuid) (now : ℕ) (db : OrdersDb)
      → IsSettled db
      → IsSettled (refund_claimed suppliers digest user id token now db).1
  unfolding refund_claimed
  refund_claimed-keeps token now db h =
      and_then-keeps (λ after. load_order user id after.orders)
        (apply_inner id (refund refund_cancelled (codes "cancelled")) (some token) now db)
        (apply_inner-keeps id (refund refund_cancelled (codes "cancelled")) (some token) now db h.0
          h.1)

  cancel_checked-keeps :
      (o : OrderRow) (provider_id : Text) (check : ActivationCheck) (token : Uuid) (now : ℕ)
      (db : OrdersDb)
      → IsSettled db
      → IsSettled (cancel_checked suppliers digest user id o provider_id check token now db).1
  unfolding cancel_checked
  cancel_checked-keeps o provider_id check token now db h =
      let checked = apply_check-keeps digest id (some token) check now db h in
      elim (Bool-cases (not (length check.messages == 0))) [
        | inl received ↦ rw received (
            and_then-keeps (λ after. err ApiError.conflict)
              (apply_check digest id (some token) check now db) checked)
        | inr nothing ↦ elim (Bool-cases (is_closed check.lifecycle)) [
          | inl over ↦
              rw (nothing, over)
                (and_then-keeps (λ after. load_order user id after.orders)
                  (apply_check digest id (some token) check now db) checked)
          | inr going ↦
              elim (Bool-cases
                (suppliers.is_live && not (suppliers.cancel_for o.provider provider_id))) [
                  | inl refused_ ↦ rw (nothing, going, refused_) (drop_claim-keeps id token db h)
                  | inr taken ↦ rw (nothing, going, taken) (refund_claimed-keeps token now db h)
                ]
        ]
      ]

  cancel_at-keeps :
      (o : OrderRow) (provider_id : Text) (token : Uuid) (now : ℕ) (db : OrdersDb)
      → IsSettled db
      → IsSettled (cancel_at suppliers digest user id o provider_id token now db).1
  unfolding cancel_at
  cancel_at-keeps o provider_id token now db h =
      elim (Option-cases (suppliers.check_for o.provider provider_id)) [
        | inl silent ↦ rw (silent, cancel_at) (drop_claim-keeps id token db h)
        | inr (check, q) ↦
            rw (q, cancel_at) (cancel_checked-keeps o provider_id check token now db h)
      ]

  refuse_received-keeps :
      (o : OrderRow) (now : ℕ) (db : OrdersDb)
      → IsSettled db
      → IsSettled (refuse_received suppliers digest user id o now db).1
  unfolding refuse_received
  refuse_received-keeps o now db h = elim (Bool-cases (is_reviewable o.status)) [
    | inr other ↦ rw other h
    | inl open_ ↦ elim (Option-cases o.provider_order_id) [
      | inl nowhere ↦ rw (open_, nowhere, refuse_received) h
      | inr (provider_id, q) ↦ elim (Option-cases (suppliers.check_for o.provider provider_id)) [
        | inl silent ↦ rw (open_, q, refuse_received, silent) h
        | inr (check, r) ↦
            rw (open_, q, refuse_received, r) (apply_check-keeps digest id none check now db h)
      ]
    ]
  ]

  cancel_claimed-keeps :
      (o : OrderRow) (now later : ℕ) (db : OrdersDb)
      → IsSettled db
      → IsSettled (cancel_claimed suppliers digest user id o now later db).1
  unfolding cancel_claimed
  cancel_claimed-keeps o now later db h =
      let claimed = try_claim_order id now db in
      let c = try_claim_order-keeps id now db h in
      elim (Option-cases claimed.0) [
        | inl busy ↦ rw (busy, cancel_claimed) c
        | inr (token, q) ↦ elim (Option-cases o.provider_order_id) [
          | inl nowhere ↦
              rw (q, cancel_claimed, nowhere, cancel_claimed)
                (refund_claimed-keeps token later claimed.1 c)
          | inr (provider_id, r) ↦
              rw (q, cancel_claimed, r, cancel_claimed)
                (cancel_at-keeps o provider_id token later claimed.1 c)
        ]
      ]

  -- A cancellation, whatever the order is and whatever the supplier answers, keeps the ledger balanced and
  -- the financial state of every order consistent.
  pub cancel_order-keeps :
      (now later : ℕ) (db : OrdersDb)
      → IsSettled db
      → IsSettled (cancel_order suppliers digest user id now later db).1
  unfolding cancel_order
  cancel_order-keeps now later db h = elim (Option-cases (find_order id db.orders)) [
    | inl absent ↦ rw (absent, cancel_order) h
    | inr (o, found) ↦ elim (Bool-cases (not (user == o.user_id))) [
      | inl other ↦ rw (found, cancel_order, other) h
      | inr mine ↦ elim (Bool-cases (is_review o.status)) [
        | inl review ↦ rw (found, cancel_order, mine, review) h
        | inr going ↦ elim (Bool-cases (not (is_cancellable db o))) [
          | inl received ↦
              rw (found, cancel_order, mine, going, received) (refuse_received-keeps o later db h)
          | inr fine ↦
              rw (found, cancel_order, mine, going, fine) (cancel_claimed-keeps o now later db h)
        ]
      ]
    ]
  ]
