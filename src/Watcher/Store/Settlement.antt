-- ===== src/Watcher/Store/Settlement.antt =====
-- What crediting and reversing have in common: both accounts are opened, a journal of two entries is
-- posted, and the row is marked.
use naivolt.Base.{◌≡◌, ◌∙◌, none, some, [], ◌∷◌, ◌++◌}
use naivolt.Base.Int.{ℤ, ◌+ℤ◌}
use naivolt.Base.Text.{Text}
use naivolt.Core.Asset.{Asset}
use naivolt.Ledger.Account.{Uuid, AccountKind}
use naivolt.Ledger.Journal.{Journal}
use naivolt.Ledger.Post.{LedgerDb, find_journal, journal_row, post}
use naivolt.Ledger.Post.Replay.{post_new}
use naivolt.Watcher.Deposit.Keys.{NoColon}
use naivolt.Watcher.Deposit.Journals.{deposit_entries}
use naivolt.Watcher.Store.{
  DepositRow, StoreDb, find_account, account_id, find_deposit, update_deposit,
}
use naivolt.Watcher.Store.Owed.{
  IsNumbered, owed, account_id-found, account_id-keeps, account_id-IsNumbered, owed-account_id,
  account_id-journals, find_account-drawn,
}
use naivolt.Watcher.Store.Movements.{at_account, owed-post, post-IsNumbered}
use naivolt.Watcher.Store.RowLaws.{
  Keeps, find_deposit-All, update_deposit-All, update_deposit-DistinctRows,
}
use naivolt.Watcher.Store.Tracking.{row_key, RowTracked, RowTracked-Apart, IsTracked}

-- The custody account, the user's account and the ledger that has them.
abbrev pub custody_of : Asset → LedgerDb → Uuid × LedgerDb
custody_of a l = account_id AccountKind.custody_deposit_addrs none a l

abbrev pub user_of : Uuid → Asset → LedgerDb → Uuid × LedgerDb
user_of u a l = account_id AccountKind.user_crypto (some u) a (custody_of a l).1

module _ (u : Uuid) (a : Asset) (l : LedgerDb) (h : IsNumbered l) where
  custody_found :
      find_account AccountKind.custody_deposit_addrs none a (user_of u a l).1.accounts
      ≡ some (custody_of a l).0
  custody_found =
      account_id-keeps AccountKind.user_crypto AccountKind.custody_deposit_addrs (some u) none a a
        (custody_of a l).1 (account_id-found AccountKind.custody_deposit_addrs none a l)

  user_found :
      find_account AccountKind.user_crypto (some u) a (user_of u a l).1.accounts
      ≡ some (user_of u a l).0
  user_found = account_id-found AccountKind.user_crypto (some u) a (custody_of a l).1

  opened-IsNumbered : IsNumbered (user_of u a l).1
  opened-IsNumbered =
      account_id-IsNumbered AccountKind.user_crypto (some u) a (custody_of a l).1
        (account_id-IsNumbered AccountKind.custody_deposit_addrs none a l h)

  pub opened-journals : (user_of u a l).1.journals ≡ l.journals
  opened-journals =
      account_id-journals AccountKind.user_crypto (some u) a (custody_of a l).1
      ∙ account_id-journals AccountKind.custody_deposit_addrs none a l

  owed-opened : (v : Uuid) (b : Asset) → owed v b (user_of u a l).1 ≡ owed v b l
  owed-opened v b =
      owed-account_id v b AccountKind.user_crypto (some u) a (custody_of a l).1
        (account_id-IsNumbered AccountKind.custody_deposit_addrs none a l h)
      ∙ owed-account_id v b AccountKind.custody_deposit_addrs none a l h

  module _ (x y : ℤ) (j : Journal)
      (shape : j.entries ≡ deposit_entries (custody_of a l).0 (user_of u a l).0 a x y)
      (new : find_journal j.idempotency_key l.journals ≡ none) where
    new_opened : find_journal j.idempotency_key (user_of u a l).1.journals ≡ none
    new_opened = rw opened-journals new

    -- The journal moves what its user is owed by its second entry, and nothing else that is owed.
    pub owed-settled :
        (v : Uuid) (b : Asset)
        → owed v b (post j (user_of u a l).1).1 ≡ owed v b l +ℤ at_account u a y v b
    owed-settled v b =
        owed-post u a (custody_of a l).0 (user_of u a l).0 x y (user_of u a l).1 opened-IsNumbered
          user_found custody_found j shape new_opened v b
        ∙ rw (owed-opened v b)

    pub settled-IsNumbered : IsNumbered (post j (user_of u a l).1).1
    settled-IsNumbered =
        let drawn = opened-IsNumbered.drawn in
        post-IsNumbered j (user_of u a l).1 new_opened
          (rw shape (
            find_account-drawn AccountKind.custody_deposit_addrs none a _ _
                {id = (custody_of a l).0} drawn custody_found,
            (
              find_account-drawn AccountKind.user_crypto (some u) a _ _ {id = (user_of u a l).0}
                  drawn user_found,
              tt,
            ),
          ))
          opened-IsNumbered

    -- The journals afterwards.
    pub settled-journals :
        (post j (user_of u a l).1).1.journals
        ≡ l.journals ++ journal_row (user_of u a l).1.next_id j ∷ []
    settled-journals = rw (post_new j (user_of u a l).1 new_opened, opened-journals)

module _ (db : StoreDb) (h : IsTracked db) (id : Uuid) (row : DepositRow)
    (found : find_deposit id db.deposits ≡ some row) (a : Asset) (x y : ℤ) (j : Journal)
    (kind : Text) (kind_ok : NoColon kind) where
  -- The tables stay tracked when the marked row is tracked by the new journals.
  pub settled-IsTracked :
      (f : DepositRow → DepositRow)
      → Keeps f
      → j.entries
        ≡ deposit_entries (custody_of a db.ledger).0 (user_of row.user_id a db.ledger).0 a x y
      → j.idempotency_key ≡ row_key kind row
      → find_journal j.idempotency_key db.ledger.journals ≡ none
      → (RowTracked db.ledger.journals row
          → RowTracked
              (db.ledger.journals ++ journal_row (user_of row.user_id a db.ledger).1.next_id j ∷ [])
              (f row))
      → IsTracked (record db {
        ledger = (post j (user_of row.user_id a db.ledger).1).1;
        deposits = update_deposit id f db.deposits;
      })
  settled-IsTracked f keeps shape key new mark = record {
    numbered = settled-IsNumbered row.user_id a db.ledger h.numbered x y j shape new;
    distinct = update_deposit-DistinctRows id f db.deposits keeps h.distinct;
    tracked = rw (settled-journals row.user_id a db.ledger h.numbered x y j shape new) (
        update_deposit-All id f (RowTracked db.ledger.journals) _ db.deposits {row = row} h.distinct
          found mark
          (λ q apart.
            RowTracked-Apart db.ledger.journals _ kind row q kind_ok
              (find_deposit-All (RowTracked db.ledger.journals) id db.deposits {row = row} h.tracked
                found).hash
              key apart)
          h.tracked);
  }
