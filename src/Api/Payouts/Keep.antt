-- ===== src/Api/Payouts/Keep.antt =====
-- Whatever is asked for, no user is ever owed less than nothing, and the ledger stays balanced.
use naivolt.Base.{
  ℕ, ◌<◌, ◌≤◌, refl, some, List, All, All-append, All-map, inl, inr, Bool-cases, Option-cases,
  arith,
}
use naivolt.Base.Int.{ℤ, pos, neg, ◌≤ℤ◌, ltb_ℤ}
use naivolt.Base.Text.{Text}
use naivolt.Ledger.Account.{Uuid, AccountKind, kind_index}
use naivolt.Ledger.Post.{LedgerDb, find_journal}
use naivolt.Ledger.Post.Balance.{IsBalanced}
use naivolt.Api.Naira.Held.{held}
use naivolt.Api.Naira.Transfer.{Opened}
use naivolt.Api.Naira.Solvent.{IsSolvent, debit-IsSolvent, Opened-IsSolvent}
use naivolt.Api.Payouts.{PayoutRow, BankRow, PayoutsDb, find_payout, reserve}
use naivolt.Api.Payouts.Reserve.{
  IsDrawn, reserve-poor, reserve-new, reserve-again, reserve-unfunded,
}

-- What every payout keeps.
pub record IsSafe (db : PayoutsDb) : Type 0 where
  pub drawn : IsDrawn db
  pub balanced : IsBalanced db.ledger
  pub solvent : IsSolvent db.ledger

pub Opened-ids :
    (l after : LedgerDb)
    → Opened l after
    → All (λ r. r.id < l.next_id) l.journals
    → All (λ r. r.id < after.next_id) after.journals
Opened-ids l after o h = rw o.journals (All-map _ _ (λ r lt. omega (arith, o.grows)) l.journals h)

pub payouts-drawn :
    (n m : ℕ) (rows : List PayoutRow)
    → n ≤ m
    → All (λ p. p.reserved_journal_id < n) rows
    → All (λ p. p.reserved_journal_id < m) rows
payouts-drawn n m rows le h = All-map _ _ (λ p lt. omega arith) rows h

-- Opening accounts, with or without a new payout, keeps the tables safe.
pub Opened-IsSafe :
    (db after : PayoutsDb)
    → IsSafe db
    → Opened db.ledger after.ledger
    → All (λ p. p.reserved_journal_id < after.ledger.next_id) after.payouts
    → IsSafe after
Opened-IsSafe db after h o ps = record {
  drawn = record {
    numbered = o.numbered h.drawn.numbered;
    ids_drawn = Opened-ids db.ledger after.ledger o h.drawn.ids_drawn;
    journals_drawn = ps;
  };
  balanced = o.balanced h.balanced;
  solvent = Opened-IsSolvent db.ledger after.ledger h.drawn.numbered o h.solvent;
}

pub reserve-IsSafe :
    (user : Uuid) (bank : BankRow) (x : ℤ) (key reference : Text) (now : ℕ) (db : PayoutsDb)
    → pos 1 ≤ℤ x
    → IsSafe db
    → IsSafe (reserve user bank x key reference now db).1
unfolding kind_index
reserve-IsSafe user bank x key reference now db positive h =
    let d = h.drawn in
    let after = (reserve user bank x key reference now db).1 in
    elim (Bool-cases (ltb_ℤ (neg (held AccountKind.user_ngn (some user) db.ledger)) x)) [
      | inl poor ↦ rw (reserve-poor user bank x key reference now db d.numbered poor) h
      | inr covered ↦ elim (Option-cases (find_journal key db.ledger.journals)) [
        | inl free ↦
            let (adds, t) = reserve-new user bank x key reference now db d positive covered free in
            record {
              drawn = record {
                numbered = t.numbered;
                ids_drawn = rw t.journals (
                    All-append _ db.ledger.journals _
                      (All-map _ _ (λ r lt. omega (arith, t.grows)) db.ledger.journals d.ids_drawn)
                      (t.drawn, tt));
                journals_drawn = rw adds.payouts (
                    All-append _ db.payouts _
                      (payouts-drawn db.ledger.next_id after.ledger.next_id db.payouts
                        (omega (arith, t.grows)) d.journals_drawn)
                      (adds.drawn, tt));
              };
              balanced = t.balanced h.balanced;
              solvent =
                  debit-IsSolvent db.ledger after.ledger user x AccountKind.ngn_payable_pending key
                    refl t covered h.solvent;
            }
        | inr (row, taken) ↦ elim (Option-cases (find_payout row.id db.payouts)) [
          | inl absent ↦
              let (adds, o) =
                reserve-unfunded user bank x key reference now db d positive covered row taken
                  absent in
              Opened-IsSafe db after h o (
                rw adds.payouts (
                  All-append _ db.payouts _
                    (payouts-drawn db.ledger.next_id after.ledger.next_id db.payouts o.grows
                      d.journals_drawn)
                    (adds.drawn, tt)))
          | inr (p, there) ↦
              let (told, same, o) =
                reserve-again user bank x key reference now db d positive covered row p taken
                  there in
              Opened-IsSafe db after h o (
                rw same (
                  payouts-drawn db.ledger.next_id after.ledger.next_id db.payouts o.grows
                    d.journals_drawn))
        ]
      ]
    ]
