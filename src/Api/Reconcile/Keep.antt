-- ===== src/Api/Reconcile/Keep.antt =====
-- The reconciler keeps the ledger balanced and the orders consistent.
use naivolt.Base.{
  if◌then◌else◌, ℕ, ◌+◌, ◌*◌, ◌^◌, min, ltb, ◌&&◌, not, ◌≡◌, refl, true, Option, none, some,
  is_some, List, [], ◌∷◌, take, Result, ok, err, inl, inr, Bool-cases, Option-cases, arith,
}
use naivolt.Base.Text.{Text, codes}
use naivolt.Ledger.Account.{Uuid}
use naivolt.Api.Orders.{
  OrderRow, Sms, OrdersDb, OrderStatus, reserved, awaiting_code, review_required, delivered, failed,
  expired, cancelled, refund, refund_failed, is_money_open, find_order, update_order,
  TransitionOutcome, OrderError, apply_inner,
}
use naivolt.Api.Orders.Once.{apply_inner-keeps}
use naivolt.Api.Orders.Checks.{ActivationCheck, has_passed, apply_check}
use naivolt.Api.Orders.Checks.Keep.{IsSettled, IsBalanced-next, apply_check-keeps}
use naivolt.Api.Purchase.Supply.{Activation}
use naivolt.Api.Purchase.Keep.{
  SameMoney-IsSettled, open-IsSettled, mark_review_required-keeps, outcome_unknown-worded,
}
use naivolt.Api.Reconcile.{
  is_delivered, closed, ReconcilerDb, Answers, outcome, taken_at, claim_all, claim_slot,
  released_as, release_order, is_token, is_taken, is_review, recovered_as, set_review, try_recover,
  minutes, recover_unknown_purchase, answered, process_reserved, look, process, process_all, sweep,
  due,
}

outcome-keeps :
    (s : Result OrderError TransitionOutcome × OrdersDb) → IsSettled s.1 → IsSettled (outcome s).1
unfolding outcome
outcome-keeps (ok t, db) h = h
outcome-keeps (err e, db) h = h

release_order-keeps :
    (id token : Uuid) (delay now : ℕ) (db : OrdersDb)
    → IsSettled db
    → IsSettled (release_order id token delay now db)
unfolding release_order
release_order-keeps id token delay now db h =
    SameMoney-IsSettled id (released_as token delay now) db
      (λ r. elim (Bool-cases (is_token r.reconcile_claim_token token)) [
        | inl mine ↦ rw mine (refl, refl, refl, refl, refl, refl)
        | inr other ↦ rw other (refl, refl, refl, refl, refl, refl)
      ])
      h

claim_all-keeps :
    (now : ℕ) (orders : List OrderRow) (db : OrdersDb)
    → IsSettled db
    → IsSettled (claim_all now orders db).1
unfolding claim_all
claim_all-keeps now [] db h = h
claim_all-keeps now (o ∷ orders) db h = claim_all-keeps now orders _ (
    SameMoney-IsSettled o.id (taken_at now db.ledger.next_id)
      (record db { ledger = record db.ledger { next_id = db.ledger.next_id + 1 } })
      (λ r. (refl, refl, refl, refl, refl, refl)) (IsBalanced-next db.ledger h.0, h.1))

try_recover-keeps :
    (found : Option Activation) (id token : Uuid) (now : ℕ) (db : OrdersDb) (a : Activation)
    (after : OrdersDb)
    → IsSettled db
    → try_recover found id token now db ≡ some (a, after)
    → IsSettled after
unfolding try_recover set_review
try_recover-keeps none id token now db a after h e = absurd (ground arith)
try_recover-keeps (some b) id token now db a after h e =
    elim (Option-cases (find_order id db.orders)) [
      | inl absent ↦ let k = rw (absent, try_recover) at e in absurd (ground arith)
      | inr (o, found) ↦
          elim (Bool-cases (
            not (is_taken b.provider_order_id id db.orders)
            && (is_review o.status && is_token o.reconcile_claim_token token))) [
              | inr refused ↦ let k = rw (found, try_recover, refused) at e in absurd (ground arith)
              | inl fine ↦
                  let k = rw (found, try_recover, fine) at e in
                  let same : record db {
                    orders =
                        update_order id
                          (λ r. if is_review r.status then recovered_as now b r else r) db.orders;
                  }
                      ≡ after =
                    ground arith in
                  rw (← same) (
                    open-IsSettled id (λ r. is_review r.status) (recovered_as now b) db
                      (λ r e. review-open r.status e) (λ r. (refl, refl, refl, refl))
                      (λ r e. absurd (ground arith)) h)
            ]
    ]
  where
    review-open : (s : OrderStatus) → is_review s ≡ true → is_money_open s ≡ true
    review-open s e = ground arith

module _ (answers : Answers) (digest : Text → Sms → Text) where
  recover-keeps :
      (o : OrderRow) (token : Uuid) (country : Text) (now : ℕ) (db : OrdersDb)
      → IsSettled db
      → IsSettled (recover_unknown_purchase answers digest o token country now db).1
  unfolding recover_unknown_purchase
  recover-keeps o token country now db h =
      elim (Option-cases
        (try_recover (answers.recover_activation country o.product_slug) o.id token now db)) [
          | inr ((a, after), q) ↦
              let k =
                try_recover-keeps (answers.recover_activation country o.product_slug) o.id token now
                  db a after h q in
              elim (Option-cases (answers.check_for o.provider a.provider_order_id)) [
                | inl silent ↦ rw (q, recover_unknown_purchase, silent) k
                | inr (check, r) ↦
                    rw (q, recover_unknown_purchase, r)
                      (outcome-keeps (apply_check digest o.id none check now after)
                        (apply_check-keeps digest o.id none check now after k))
              ]
          | inl nothing ↦ elim (Bool-cases (ltb (o.created_at + minutes 20) now)) [
            | inl late ↦
                rw (nothing, recover_unknown_purchase, late)
                  (outcome-keeps
                    (apply_inner o.id (refund refund_failed (codes "purchase_unconfirmed"))
                      (some token) now db)
                    (apply_inner-keeps o.id (refund refund_failed (codes "purchase_unconfirmed"))
                      (some token) now db h.0 h.1))
            | inr early ↦
                rw (nothing, recover_unknown_purchase, early)
                  (release_order-keeps o.id token 15 now db h)
          ]
        ]

  answered-keeps :
      (o : OrderRow) (token : Uuid) (attempts now : ℕ) (check : Option ActivationCheck)
      (db : OrdersDb)
      → IsSettled db
      → IsSettled (answered answers digest o token attempts now check db).1
  unfolding answered
  answered-keeps o token attempts now (some check) db h =
      outcome-keeps (apply_check digest o.id (some token) check now db)
        (apply_check-keeps digest o.id (some token) check now db h)
  answered-keeps o token attempts now none db h =
      elim (Bool-cases (is_delivered o.status && has_passed o.expires_at now)) [
        | inl over ↦ rw over (
            outcome-keeps (apply_check digest o.id (some token) closed now db)
              (apply_check-keeps digest o.id (some token) closed now db h))
        | inr again ↦
            rw again (release_order-keeps o.id token (min (15 * 2 ^ min attempts 3) 120) now db h)
      ]

  process_reserved-keeps :
      (o : OrderRow) (token : Uuid) (now : ℕ) (db : OrdersDb)
      → IsSettled db
      → IsSettled (process_reserved answers digest o token now db).1
  unfolding process_reserved
  process_reserved-keeps o token now db h =
      elim (Bool-cases (not (is_some o.purchase_started_at))) [
        | inl unasked ↦ rw unasked (
            outcome-keeps
              (apply_inner o.id (refund refund_failed (codes "purchase_not_started")) (some token)
                now db)
              (apply_inner-keeps o.id (refund refund_failed (codes "purchase_not_started"))
                (some token) now db h.0 h.1))
        | inr asked ↦ elim (Bool-cases (not (is_some o.provider_order_id))) [
          | inl unknown_ ↦
              rw (asked, unknown_)
                (mark_review_required-keeps o.id token (codes "purchase_outcome_unknown") now db
                  outcome_unknown-worded h)
          | inr known ↦ rw (asked, known) h
        ]
      ]

  look-keeps :
      (o : OrderRow) (token : Uuid) (attempts now : ℕ) (db : ReconcilerDb)
      → IsSettled db.books
      → IsSettled (look answers digest o token attempts now db).1.books
  unfolding look
  look-keeps o token attempts now db h = elim (Option-cases o.provider_order_id) [
    | inl nowhere ↦ rw (nowhere, look) h
    | inr (id, q) ↦ elim (Option-cases (claim_slot token now db.slots).0) [
      | inl full ↦ rw (q, look, full, look) (release_order-keeps o.id token 1 now db.books h)
      | inr (n, r) ↦
          rw (q, look, r, look)
            (answered-keeps o token attempts now (answers.check_for o.provider id) db.books h)
    ]
  ]

  process-keeps :
      (country : OrderRow → Text) (attempts : OrderRow → ℕ) (o : OrderRow) (token : Uuid) (now : ℕ)
      (db : ReconcilerDb)
      → IsSettled db.books
      → IsSettled (process answers digest country attempts o token now db).1.books
  unfolding process
  process-keeps country attempts o token now db h = by_status o.status refl
    where
      by_status :
          (s : OrderStatus)
          → o.status ≡ s
          → IsSettled (process answers digest country attempts o token now db).1.books
      by_status reserved e = rw (e, process) (process_reserved-keeps o token now db.books h)
      by_status review_required e =
          rw (e, process) (recover-keeps o token (country o) now db.books h)
      by_status awaiting_code e = rw (e, process) (look-keeps o token (attempts o) now db h)
      by_status delivered e = rw (e, process) (look-keeps o token (attempts o) now db h)
      by_status failed e = rw (e, process) (look-keeps o token (attempts o) now db h)
      by_status expired e = rw (e, process) (look-keeps o token (attempts o) now db h)
      by_status cancelled e = rw (e, process) (look-keeps o token (attempts o) now db h)

  process_all-keeps :
      (country : OrderRow → Text) (attempts : OrderRow → ℕ) (claimed : List (OrderRow × Uuid))
      (now : ℕ) (db : ReconcilerDb)
      → IsSettled db.books
      → IsSettled (process_all answers digest country attempts claimed now db).books
  unfolding process_all
  process_all-keeps country attempts [] now db h = h
  process_all-keeps country attempts ((o, token) ∷ claimed) now db h =
      process_all-keeps country attempts claimed now
        (process answers digest country attempts o token now db).1
        (process-keeps country attempts o token now db h)

  -- A sweep of the reconciler, whatever the suppliers answer and whenever, keeps the ledger balanced and
  -- the financial state of every order consistent.
  pub sweep-keeps :
      (country : OrderRow → Text) (attempts : OrderRow → ℕ) (now later : ℕ) (db : ReconcilerDb)
      → IsSettled db.books
      → IsSettled (sweep answers digest country attempts now later db).books
  unfolding sweep
  sweep-keeps country attempts now later db h =
      process_all-keeps country attempts _ later _
        (claim_all-keeps now (take 50 (due now db.books.orders)) db.books h)
