-- ===== src/Api/Orders/Checks/Keep.antt =====
-- A supplier's answer keeps the ledger balanced and the orders consistent, and moves no money of an
-- order that is closed.
use naivolt.Base.{
  ◌≢◌, if◌then◌else◌, ℕ, ◌+◌, ◌≡◌, refl, sym, Bool, true, not, ◌&&◌, ◌||◌, some, List, [], ◌∷◌, All,
  All-map, length, ◌==◌, Result, ok, err, inl, inr, Bool-cases, Option-cases, arith,
}
use naivolt.Base.Text.{Text}
use naivolt.Ledger.Account.{Uuid}
use naivolt.Ledger.Post.{LedgerDb}
use naivolt.Ledger.Post.Balance.{IsBalanced, journal_total, asset_total}
use naivolt.Auth.Identifier.{trim_end, trim_start, trim}
use naivolt.Api.Orders.{
  is_refunded, claim_is_current, find_order, Option, OrderStatus, delivered, OrderRow, Sms,
  OrdersDb, RefundStatus, refund_expired, TransitionOutcome, OrderError, is_money_open,
  update_order, set_open, as_status, post_settlement, post_refund, refund_open, refunded_as,
}
use naivolt.Api.Orders.Money.{post_settlement-IsBalanced, post_refund-IsBalanced}
use naivolt.Api.Orders.Consistent.{
  IsConsistent, if_open, update_order-All, open_only, refunded-IsConsistent,
}
use naivolt.Api.Orders.Messages.{insert_messages, has_message, message_key, qualifying, any_message}
use naivolt.Api.Orders.Checks.{
  expiring_at, extends, ActivationCheck, apply_check, ActivationLifecycle, scheduled_as,
  schedule_open, settled_as, settle_open, reviewed_as, review_open, ended, ended_without_code,
  decide, revisit, or_rollback, record_messages, is_closed, delay,
}

-- The ledger is balanced, and the state of every order consistent.
abbrev pub IsSettled : OrdersDb → Type 0
IsSettled db = IsBalanced db.ledger × All IsConsistent db.orders

pub IsBalanced-next :
    (l : LedgerDb) → IsBalanced l → IsBalanced (record l { next_id = l.next_id + 1 })
unfolding journal_total asset_total
IsBalanced-next l h = record {
  numbered = All-map _ _ (λ e lt. omega arith) l.entries h.numbered;
  by_journal = h.by_journal;
  by_asset = h.by_asset;
}

insert_messages-IsSettled :
    (digest : Text → Sms → Text) (id : Uuid) (provider : Text) (now : ℕ) (ms : List Sms)
    (db : OrdersDb)
    → IsSettled db
    → IsSettled (insert_messages digest id provider now ms db)
unfolding insert_messages
insert_messages-IsSettled digest id provider now [] db h = h
insert_messages-IsSettled digest id provider now (m ∷ ms) db h =
    elim (Bool-cases (has_message id (message_key digest provider m) db.messages)) [
      | inl old ↦
          rw (old, insert_messages) (insert_messages-IsSettled digest id provider now ms db h)
      | inr fresh ↦
          rw (fresh, insert_messages)
            (insert_messages-IsSettled digest id provider now ms _
              (IsBalanced-next db.ledger h.0, h.1))
    ]

record_messages-IsSettled :
    (digest : Text → Sms → Text) (o : OrderRow) (ms : List Sms) (now : ℕ) (db : OrdersDb)
    {after : OrdersDb}
    → record_messages digest o ms now db ≡ some after
    → IsSettled db
    → IsSettled after
unfolding record_messages
record_messages-IsSettled digest o [] now db {after} e h =
    let same : db ≡ after = ground arith in rw (sym same) h
record_messages-IsSettled digest o (m ∷ ms) now db {after} e h =
    elim (Option-cases o.provider_order_id) [
      | inl nowhere ↦ absurd (ground arith)
      | inr (provider, q) ↦
          let same : insert_messages digest o.id provider now (m ∷ ms) db ≡ after = ground arith in
          rw (sym same) (insert_messages-IsSettled digest o.id provider now (m ∷ ms) db h)
    ]

-- An update of the order that leaves its status, its journals and its reason alone.
pub update-IsSettled :
    (id : Uuid) (f : OrderRow → OrderRow) (db : OrdersDb)
    → ((r : OrderRow) → IsConsistent r → IsConsistent (f r))
    → IsSettled db
    → IsSettled (record db { orders = update_order id f db.orders })
update-IsSettled id f db k h = (h.0, update_order-All id f db.orders k h.1)

settled_as-IsConsistent :
    (code text : Text) (stay : Bool) (wait now : ℕ) (j : Uuid) (r : OrderRow)
    → is_money_open r.status ≡ true
    → IsConsistent r
    → IsConsistent (settled_as code text stay wait now j r)
settled_as-IsConsistent code text stay wait now j r o h = record {
  open_ = λ e. absurd (ground arith);
  settled = λ e. (refl, (h.open_ o).1, (h.open_ o).2);
  refunded = λ e. absurd (ground arith);
  reviewed = λ e. absurd (ground arith);
}

reviewed_as-IsConsistent :
    (reason : Text) (now : ℕ) (r : OrderRow)
    → length (trim reason) ≢ 0
    → is_money_open r.status ≡ true
    → IsConsistent r
    → IsConsistent (reviewed_as reason now r)
reviewed_as-IsConsistent reason now r worded o h = record {
  open_ = λ e. h.open_ o;
  settled = λ e. absurd (ground arith);
  refunded = λ e. absurd (ground arith);
  reviewed = λ e. (refl, (reason, refl, worded));
}

or_rollback-IsSettled :
    (db : OrdersDb) (s : Result OrderError TransitionOutcome × OrdersDb)
    → IsSettled db
    → IsSettled s.1
    → IsSettled (or_rollback db s).1
or_rollback-IsSettled db (ok outcome, after) h k = k
or_rollback-IsSettled db (err e, after) h k = h

ended_without_code-worded :
    (lifecycle : ActivationLifecycle) → length (trim (ended_without_code lifecycle)) ≢ 0
unfolding trim trim_start trim_end
ended_without_code-worded lifecycle = elim (Bool-cases (is_closed lifecycle)) [
  | inl closed ↦ rw closed (λ e. ground arith)
  | inr going ↦ rw going (λ e. ground arith)
]

module _ (o : OrderRow) (db : OrdersDb) (h : IsSettled db) where
  refund_open-IsSettled :
      (status : RefundStatus) (reason : Text) → IsSettled (refund_open o status reason db).1
  unfolding refund_open set_open
  refund_open-IsSettled status reason = elim (Bool-cases (length (trim reason) == 0)) [
    | inl blank ↦ rw blank h
    | inr worded ↦ elim (Option-cases (post_refund o reason db.ledger)) [
      | inl broken ↦ rw (worded, broken) h
      | inr ((j, l), q) ↦
          rw (worded, q)
            (
              post_refund-IsBalanced o reason db.ledger {id = j} {l' = l} q h.0,
              update_order-All o.id (if_open (refunded_as (as_status status) reason j)) db.orders
                  (open_only _ (λ r. refunded-IsConsistent status reason j r (λ e. ground arith)))
                  h.1,
            )
    ]
  ]

  settle_open-IsSettled :
      (code text : Text) (stay : Bool) (now : ℕ) → IsSettled (settle_open o code text stay now db).1
  unfolding settle_open set_open
  settle_open-IsSettled code text stay now = elim (Option-cases (post_settlement o db.ledger)) [
    | inl broken ↦ rw (broken, settle_open) h
    | inr ((j, l), q) ↦
        rw (q, settle_open)
          (
            post_settlement-IsBalanced o db.ledger {id = j} {l' = l} q h.0,
            update_order-All o.id
                (if_open (settled_as code text stay (delay o.created_at now) now j)) db.orders
                (open_only _
                  (settled_as-IsConsistent code text stay (delay o.created_at now) now j))
                h.1,
          )
  ]

  review_open-IsSettled :
      (reason : Text) (now : ℕ) → length (trim reason) ≢ 0 → IsSettled (review_open o reason now db)
  unfolding review_open set_open
  review_open-IsSettled reason now worded =
      update-IsSettled o.id (if_open (reviewed_as reason now)) db
        (open_only _ (λ r. reviewed_as-IsConsistent reason now r worded)) h

  schedule_open-IsSettled : (open_ : Bool) (now : ℕ) → IsSettled (schedule_open o open_ now db)
  unfolding schedule_open
  schedule_open-IsSettled open_ now =
      update-IsSettled o.id (scheduled_as open_ (delay o.created_at now) now) db
        (λ r c. record {
          open_ = c.open_;
          settled = c.settled;
          refunded = c.refunded;
          reviewed = c.reviewed;
        })
        h

  revisit-IsSettled :
      (s : OrderStatus) (stay : Bool) (now : ℕ) → IsSettled (revisit o s stay now db).1
  unfolding revisit
  revisit-IsSettled delivered stay now = schedule_open-IsSettled stay now
  revisit-IsSettled _ stay now = h

  decide-IsSettled :
      (lifecycle : ActivationLifecycle) (over : Bool) (now : ℕ)
      → IsSettled (decide o lifecycle over now db).1
  unfolding decide
  decide-IsSettled lifecycle over now = elim (Bool-cases (is_money_open o.status)) [
    | inr closed ↦
        rw (closed, decide) (revisit-IsSettled o.status (not (is_closed lifecycle) && not over) now)
    | inl open_ ↦ elim (Option-cases (qualifying o.id db.messages)) [
      | inr ((m, code), q) ↦ rw (open_, decide) (rw q (settle_open-IsSettled code m.text _ now))
      | inl none_yet ↦ elim (Bool-cases (is_closed lifecycle || over)) [
        | inr going ↦ rw (open_, decide) (rw (none_yet, going) (schedule_open-IsSettled true now))
        | inl ended_ ↦ elim (Bool-cases (any_message o.id db.messages)) [
          | inl some_ ↦
              rw (open_, decide)
                (rw (none_yet, ended_)
                  (rw some_ (
                    review_open-IsSettled (ended_without_code lifecycle) now
                      (ended_without_code-worded lifecycle))))
          | inr silent ↦
              rw (open_, decide)
                (rw (none_yet, ended_)
                  (rw silent (refund_open-IsSettled refund_expired (ended lifecycle))))
        ]
      ]
    ]
  ]

-- A supplier's answer, whatever it says and whenever, keeps the ledger balanced and the financial
-- state of every order consistent, errors and their rollback included.
pub apply_check-keeps :
    (digest : Text → Sms → Text) (id : Uuid) (claim : Option Uuid) (check : ActivationCheck)
    (now : ℕ) (db : OrdersDb)
    → IsSettled db
    → IsSettled (apply_check digest id claim check now db).1
unfolding apply_check
apply_check-keeps digest id claim check now db h = elim (Option-cases (find_order id db.orders)) [
  | inl absent ↦ rw (absent, apply_check) h
  | inr (o, found) ↦ elim (Bool-cases (claim_is_current claim now o)) [
    | inr stale ↦ rw (found, apply_check) (rw stale h)
    | inl current ↦ elim (Bool-cases (is_refunded o.status)) [
      | inl gone ↦ rw (found, apply_check) (rw (current, gone) h)
      | inr live ↦
          let newer = extends check.expires_at o.expires_at in
          let db₁ : OrdersDb =
            if newer
            then record db { orders = update_order id (expiring_at check.expires_at) db.orders }
            else db in
          let h₁ : IsSettled db₁ = elim (Bool-cases newer) [
            | inl longer ↦ rw longer (
                update-IsSettled id (expiring_at check.expires_at) db
                  (λ r c. record {
                    open_ = c.open_;
                    settled = c.settled;
                    refunded = c.refunded;
                    reviewed = c.reviewed;
                  })
                  h)
            | inr not_longer ↦ rw not_longer h
          ] in
          elim (Option-cases (record_messages digest o check.messages now db₁)) [
            | inl nowhere ↦ rw (found, apply_check) (rw (current, live) (rw nowhere h))
            | inr (db₂, q) ↦
                rw (found, apply_check)
                  (rw (current, live)
                    (rw q (
                      or_rollback-IsSettled db _ h (
                        decide-IsSettled o db₂
                          (record_messages-IsSettled digest o check.messages now db₁ {after = db₂} q
                            h₁)
                          check.lifecycle _ now))))
          ]
    ]
  ]
]
