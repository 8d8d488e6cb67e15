-- ===== src/Api/Orders/Checks/Closed.antt =====
-- A supplier's answer moves no money of an order that is delivered or refunded.
use mathlib.Core.Path.{subst}
use naivolt.Base.{
  ℕ, ◌≡◌, refl, sym, Bool, false, not, ◌&&◌, Option, some, List, [], ◌∷◌, Result, ok, err,
  if◌then◌else◌, inl, inr, Bool-cases, Option-cases, arith,
}
use naivolt.Base.Text.{Text}
use naivolt.Ledger.Account.{Uuid}
use naivolt.Ledger.Post.{LedgerDb}
use naivolt.Api.Orders.{
  OrderStatus, delivered, OrderRow, Sms, OrdersDb, TransitionOutcome, OrderError, is_money_open,
  is_refunded, find_order, update_order, claim_is_current,
}
use naivolt.Api.Orders.Messages.{insert_messages, has_message, message_key}
use naivolt.Api.Orders.Checks.{
  ActivationLifecycle, ActivationCheck, schedule_open, extends, has_passed, decide, revisit,
  or_rollback, record_messages, expiring_at, apply_check, is_closed,
}

-- The accounts, the journals and the entries are as before.
abbrev pub SameBooks : LedgerDb → LedgerDb → Type 0
SameBooks l l' = (l'.accounts ≡ l.accounts) × (l'.journals ≡ l.journals) × (l'.entries ≡ l.entries)

insert_messages-SameBooks :
    (digest : Text → Sms → Text) (id : Uuid) (provider : Text) (now : ℕ) (ms : List Sms)
    (db : OrdersDb)
    → SameBooks db.ledger (insert_messages digest id provider now ms db).ledger
unfolding insert_messages
insert_messages-SameBooks digest id provider now [] db = (refl, refl, refl)
insert_messages-SameBooks digest id provider now (m ∷ ms) db =
    elim (Bool-cases (has_message id (message_key digest provider m) db.messages)) [
      | inl old ↦ rw (old, insert_messages) (insert_messages-SameBooks digest id provider now ms db)
      | inr fresh ↦
          rw (fresh, insert_messages) (insert_messages-SameBooks digest id provider now ms _)
    ]

record_messages-SameBooks :
    (digest : Text → Sms → Text) (o : OrderRow) (ms : List Sms) (now : ℕ) (db : OrdersDb)
    {after : OrdersDb}
    → record_messages digest o ms now db ≡ some after
    → SameBooks db.ledger after.ledger
unfolding record_messages
record_messages-SameBooks digest o [] now db {after} e =
    let same : db ≡ after = ground arith in rw (sym same) (refl, refl, refl)
record_messages-SameBooks digest o (m ∷ ms) now db {after} e =
    elim (Option-cases o.provider_order_id) [
      | inl nowhere ↦ absurd (ground arith)
      | inr (provider, q) ↦
          let same : insert_messages digest o.id provider now (m ∷ ms) db ≡ after = ground arith in
          rw (sym same) (insert_messages-SameBooks digest o.id provider now (m ∷ ms) db)
    ]

or_rollback-SameBooks :
    (db : OrdersDb) (s : Result OrderError TransitionOutcome × OrdersDb)
    → SameBooks db.ledger s.1.ledger
    → SameBooks db.ledger (or_rollback db s).1.ledger
or_rollback-SameBooks db (ok outcome, after) k = k
or_rollback-SameBooks db (err e, after) k = (refl, refl, refl)

revisit-SameBooks :
    (o : OrderRow) (s : OrderStatus) (stay : Bool) (now : ℕ) (db : OrdersDb)
    → (revisit o s stay now db).1.ledger ≡ db.ledger
unfolding revisit schedule_open
revisit-SameBooks o delivered stay now db = refl
revisit-SameBooks o _ stay now db = refl

decide-closed :
    (o : OrderRow) (lifecycle : ActivationLifecycle) (over : Bool) (now : ℕ) (db : OrdersDb)
    → is_money_open o.status ≡ false
    → (decide o lifecycle over now db).1.ledger ≡ db.ledger
unfolding decide
decide-closed o lifecycle over now db closed =
    rw (closed, decide)
      (revisit-SameBooks o o.status (not (is_closed lifecycle) && not over) now db)

-- A supplier's answer about an order that is delivered or refunded, whatever it says, leaves the
-- accounts, the journals and the entries of the ledger as they were: its money has been moved.
pub apply_check-closed :
    (digest : Text → Sms → Text) (id : Uuid) (claim : Option Uuid) (check : ActivationCheck)
    (now : ℕ) (db : OrdersDb) (o : OrderRow)
    → find_order id db.orders ≡ some o
    → is_money_open o.status ≡ false
    → SameBooks db.ledger (apply_check digest id claim check now db).1.ledger
unfolding apply_check
apply_check-closed digest id claim check now db o found closed =
    elim (Bool-cases (claim_is_current claim now o)) [
      | inr stale ↦ rw (found, apply_check) (rw stale (refl, refl, refl))
      | inl current ↦ elim (Bool-cases (is_refunded o.status)) [
        | inl gone ↦ rw (found, apply_check) (rw (current, gone) (refl, refl, refl))
        | inr live ↦
            let newer = extends check.expires_at o.expires_at in
            let db₁ : OrdersDb =
              if newer
              then record db { orders = update_order id (expiring_at check.expires_at) db.orders }
              else db in
            let books : db₁.ledger ≡ db.ledger = elim (Bool-cases newer) [
              | inl longer ↦ rw longer refl
              | inr not_longer ↦ rw not_longer refl
            ] in
            elim (Option-cases (record_messages digest o check.messages now db₁)) [
              | inl nowhere ↦
                  rw (found, apply_check) (rw (current, live) (rw nowhere (refl, refl, refl)))
              | inr (db₂, q) ↦
                  let same : SameBooks db₁.ledger db₂.ledger =
                    record_messages-SameBooks digest o check.messages now db₁ {after = db₂} q in
                  let kept : SameBooks db.ledger db₂.ledger =
                    subst (λ l. SameBooks l db₂.ledger) books same in
                  let over = has_passed (if newer then check.expires_at else o.expires_at) now in
                  let after : SameBooks db.ledger (decide o check.lifecycle over now db₂).1.ledger =
                    subst (SameBooks db.ledger)
                      (sym (decide-closed o check.lifecycle over now db₂ closed)) kept in
                  rw (found, apply_check)
                    (rw (current, live) (rw q (or_rollback-SameBooks db _ after)))
            ]
      ]
    ]
