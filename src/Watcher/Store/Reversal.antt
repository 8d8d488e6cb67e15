-- ===== src/Watcher/Store/Reversal.antt =====
-- Reversing a credit: once, by its amount, from its user alone.
use naivolt.Base.{false, ◌≡◌, refl, ◌∙◌, true, none, some, [], ◌∷◌, ◌++◌, ok, arith}
use naivolt.Base.Int.{neg, ◌+ℤ◌}
use naivolt.Base.Text.{codes}
use naivolt.Core.Asset.{Asset}
use naivolt.Ledger.Account.{Uuid}
use naivolt.Ledger.Journal.{Journal}
use naivolt.Ledger.Post.{JournalRow, find_journal, journal_id, post}
use naivolt.Watcher.Deposit.{ObservedTransfer, idempotency_key}
use naivolt.Watcher.Deposit.Journals.{reversed as reversal_entry_of, reversal_journal_lem}
use naivolt.Watcher.Store.{
  DepositRow, StoreDb, reversed, is_confirmed, find_deposit, update_deposit, reverse_deposit,
}
use naivolt.Watcher.Store.Owed.{owed}
use naivolt.Watcher.Store.Movements.{at_account}
use naivolt.Watcher.Store.RowLaws.{find_deposit-All, find_deposit-update}
use naivolt.Watcher.Store.Tracking.{IsFor, key-IsFor, RowTracked, IsTracked, reversal-NoColon}
use naivolt.Watcher.Store.Settlement.{custody_of, user_of, owed-settled, settled-IsTracked}

-- The update of the row.
abbrev pub mark_reversed : Uuid → DepositRow → DepositRow
mark_reversed j r = record r { status = reversed; reversed_journal_id = some j }

pub reverse_deposit-absent :
    (db : StoreDb) (id : Uuid) (t : ObservedTransfer)
    → find_deposit id db.deposits ≡ none
    → reverse_deposit id t db ≡ (ok false, db)
unfolding reverse_deposit
reverse_deposit-absent db id t e = rw (e, reverse_deposit)

pub reverse_deposit-unconfirmed :
    (db : StoreDb) (id : Uuid) (t : ObservedTransfer) (row : DepositRow)
    → find_deposit id db.deposits ≡ some row
    → is_confirmed row.status ≡ false
    → reverse_deposit id t db ≡ (ok false, db)
unfolding reverse_deposit
reverse_deposit-unconfirmed db id t row e s = rw (e, reverse_deposit) (rw s)

module _ (db : StoreDb) (id : Uuid) (t : ObservedTransfer) (row : DepositRow) where
  abbrev pub reversal_entry : Journal
  reversal_entry =
      reversal_entry_of id (custody_of t.asset db.ledger).0
        (user_of row.user_id t.asset db.ledger).0 t.asset row.amount t

  abbrev pub after_reversal : StoreDb
  after_reversal =
      let (outcome, l) = post reversal_entry (user_of row.user_id t.asset db.ledger).1 in
      record db {
        ledger = l;
        deposits = update_deposit id (mark_reversed (journal_id outcome)) db.deposits;
      }

  module _ (h : IsTracked db) (found : find_deposit id db.deposits ≡ some row)
      (was_confirmed : is_confirmed row.status ≡ true) (source : IsFor t row) where
    row_tracked : RowTracked db.ledger.journals row
    row_tracked =
        find_deposit-All (RowTracked db.ledger.journals) id db.deposits {row = row} h.tracked found

    pub reverse_deposit_lem : reverse_deposit id t db ≡ (ok true, after_reversal)
    unfolding reverse_deposit
    reverse_deposit_lem =
        rw (found, reverse_deposit)
          (rw was_confirmed (
            rw (
              reversal_journal_lem id (custody_of t.asset db.ledger).0
                (user_of row.user_id t.asset db.ledger).0 t.asset row.amount t row_tracked.amount)))

    new_key : find_journal (idempotency_key (codes "reversal") t) db.ledger.journals ≡ none
    new_key = rw (key-IsFor (codes "reversal") t row source) (row_tracked.unreversed (ground arith))

    marked :
        (j : JournalRow) (i : Uuid)
        → j.idempotency_key ≡ idempotency_key (codes "reversal") t
        → RowTracked db.ledger.journals row
        → RowTracked (db.ledger.journals ++ j ∷ []) (mark_reversed i row)
    marked j i key tracked = record {
      hash = tracked.hash;
      amount = tracked.amount;
      uncredited = λ s. ground arith;
      unreversed = λ s. ground arith;
    }

    after_reversal-IsTracked : IsTracked after_reversal
    after_reversal-IsTracked =
        settled-IsTracked db h id row found t.asset (neg row.amount) row.amount reversal_entry
          (codes "reversal") reversal-NoColon (mark_reversed _) (λ r. (refl, (refl, refl, refl)))
          refl (key-IsFor (codes "reversal") t row source) new_key (marked _ _ refl)

-- Reversing a confirmed deposit succeeds: its row is reversed, its user is owed less by exactly its
-- amount in its asset, nobody else is owed anything more or less, nor the user in another asset, and
-- the tables stay in agreement.
pub reverse_deposit-reverses :
    (db : StoreDb) (id : Uuid) (t : ObservedTransfer) (row : DepositRow)
    → IsTracked db
    → find_deposit id db.deposits ≡ some row
    → is_confirmed row.status ≡ true
    → IsFor t row
    → let (r, after) = reverse_deposit id t db in
      (r ≡ ok true)
      × IsTracked after
      × ((row' : DepositRow) × (find_deposit id after.deposits ≡ some row')
          × (row'.status ≡ reversed))
      × ((v : Uuid) (b : Asset)
          → owed v b after.ledger
            ≡ owed v b db.ledger +ℤ at_account row.user_id row.asset row.amount v b)
reverse_deposit-reverses db id t row h found was_confirmed source =
    rw (reverse_deposit_lem db id t row h found was_confirmed source) (
      refl,
      after_reversal-IsTracked db id t row h found was_confirmed source,
      (
        mark_reversed _ row,
        find_deposit-update id _ db.deposits {row = row} (λ r. (refl, (refl, refl, refl))) found,
        refl,
      ),
      λ v b.
          owed-settled row.user_id t.asset db.ledger h.numbered (neg row.amount) row.amount
            (reversal_entry db id t row) refl (new_key db id t row h found was_confirmed source) v b
          ∙ rw source.asset,
    )
