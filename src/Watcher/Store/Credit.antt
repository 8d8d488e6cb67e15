-- ===== src/Watcher/Store/Credit.antt =====
-- Crediting a deposit: once, by its amount, to its user alone.
use naivolt.Base.{◌≡◌, refl, ◌∙◌, true, false, none, some, [], ◌∷◌, ◌++◌, ok, arith}
use naivolt.Base.Int.{neg, ◌+ℤ◌}
use naivolt.Base.Text.{codes}
use naivolt.Core.Asset.{Asset}
use naivolt.Ledger.Account.{Uuid}
use naivolt.Ledger.Journal.{Journal}
use naivolt.Ledger.Post.{JournalRow, find_journal, journal_id, post}
use naivolt.Watcher.Deposit.{ObservedTransfer, idempotency_key}
use naivolt.Watcher.Deposit.Journals.{credited, credit_journal_lem}
use naivolt.Watcher.Deposit.Keys.{reversal_key_ne}
use naivolt.Watcher.Store.{
  DepositRow, StoreDb, confirmed, is_settled, find_deposit, update_deposit, credit_deposit,
}
use naivolt.Watcher.Store.Owed.{owed}
use naivolt.Watcher.Store.Movements.{at_account}
use naivolt.Watcher.Store.RowLaws.{find_deposit-All, find_deposit-update}
use naivolt.Watcher.Store.Tracking.{
  IsFor, key-IsFor, RowTracked, IsTracked, find_journal-other, deposit-NoColon,
}
use naivolt.Watcher.Store.Settlement.{custody_of, user_of, owed-settled, settled-IsTracked}

-- The update of the row.
abbrev pub mark_credited : Uuid → DepositRow → DepositRow
mark_credited j r = record r { status = confirmed; credited_journal_id = some j }

pub credit_deposit-absent :
    (db : StoreDb) (id : Uuid) (t : ObservedTransfer)
    → find_deposit id db.deposits ≡ none
    → credit_deposit id t db ≡ (ok false, db)
unfolding credit_deposit
credit_deposit-absent db id t e = rw (e, credit_deposit)

pub credit_deposit-settled :
    (db : StoreDb) (id : Uuid) (t : ObservedTransfer) (row : DepositRow)
    → find_deposit id db.deposits ≡ some row
    → is_settled row.status ≡ true
    → credit_deposit id t db ≡ (ok false, db)
unfolding credit_deposit
credit_deposit-settled db id t row e s = rw (e, credit_deposit) (rw s)

module _ (db : StoreDb) (id : Uuid) (t : ObservedTransfer) (row : DepositRow) where
  abbrev pub credit_entry : Journal
  credit_entry =
      credited id (custody_of t.asset db.ledger).0 (user_of row.user_id t.asset db.ledger).0 t.asset
        row.amount t

  abbrev pub after_credit : StoreDb
  after_credit =
      let (outcome, l) = post credit_entry (user_of row.user_id t.asset db.ledger).1 in
      record db {
        ledger = l;
        deposits = update_deposit id (mark_credited (journal_id outcome)) db.deposits;
      }

  module _ (h : IsTracked db) (found : find_deposit id db.deposits ≡ some row)
      (open_row : is_settled row.status ≡ false) (source : IsFor t row) where
    row_tracked : RowTracked db.ledger.journals row
    row_tracked =
        find_deposit-All (RowTracked db.ledger.journals) id db.deposits {row = row} h.tracked found

    pub credit_deposit_lem : credit_deposit id t db ≡ (ok true, after_credit)
    unfolding credit_deposit
    credit_deposit_lem =
        rw (found, credit_deposit)
          (rw open_row (
            rw (
              credit_journal_lem id (custody_of t.asset db.ledger).0
                (user_of row.user_id t.asset db.ledger).0 t.asset row.amount t row_tracked.amount)))

    new_key : find_journal (idempotency_key (codes "deposit") t) db.ledger.journals ≡ none
    new_key = rw (key-IsFor (codes "deposit") t row source) (row_tracked.uncredited open_row)

    marked :
        (j : JournalRow) (i : Uuid)
        → j.idempotency_key ≡ idempotency_key (codes "deposit") t
        → RowTracked db.ledger.journals row
        → RowTracked (db.ledger.journals ++ j ∷ []) (mark_credited i row)
    marked j i key tracked = record {
      hash = tracked.hash;
      amount = tracked.amount;
      uncredited = λ s. ground arith;
      unreversed = λ s.
          find_journal-other _ db.ledger.journals j (λ e. reversal_key_ne _ t (e ∙ key))
            (tracked.unreversed (ground arith));
    }

    after_credit-IsTracked : IsTracked after_credit
    after_credit-IsTracked =
        settled-IsTracked db h id row found t.asset row.amount (neg row.amount) credit_entry
          (codes "deposit") deposit-NoColon (mark_credited _) (λ r. (refl, (refl, refl, refl))) refl
          (key-IsFor (codes "deposit") t row source) new_key (marked _ _ refl)

-- Crediting a deposit that was recorded from the transfer and is not settled succeeds: its row is
-- confirmed, its user is owed more by exactly its amount in its asset, nobody else is owed anything
-- more or less, nor the user in another asset, and the tables stay in agreement.
pub credit_deposit-credits :
    (db : StoreDb) (id : Uuid) (t : ObservedTransfer) (row : DepositRow)
    → IsTracked db
    → find_deposit id db.deposits ≡ some row
    → is_settled row.status ≡ false
    → IsFor t row
    → let (r, after) = credit_deposit id t db in
      (r ≡ ok true)
      × IsTracked after
      × ((row' : DepositRow) × (find_deposit id after.deposits ≡ some row')
          × (row'.status ≡ confirmed))
      × ((v : Uuid) (b : Asset)
          → owed v b after.ledger
            ≡ owed v b db.ledger +ℤ at_account row.user_id row.asset (neg row.amount) v b)
credit_deposit-credits db id t row h found open_row source =
    rw (credit_deposit_lem db id t row h found open_row source) (
      refl,
      after_credit-IsTracked db id t row h found open_row source,
      (
        mark_credited _ row,
        find_deposit-update id _ db.deposits {row = row} (λ r. (refl, (refl, refl, refl))) found,
        refl,
      ),
      λ v b.
          owed-settled row.user_id t.asset db.ledger h.numbered row.amount (neg row.amount)
            (credit_entry db id t row) refl (new_key db id t row h found open_row source) v b
          ∙ rw source.asset,
    )
