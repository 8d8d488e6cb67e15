-- ===== src/Watcher/Store.antt =====
-- crates/watcher/src/store.rs: the deposits table, and the transactions that credit a deposit to the
-- ledger and reverse it.
mod Accounts
pub mod Rows
pub mod Owed
pub mod Movements
pub mod RowLaws
pub mod Tracking
pub mod Settlement
pub mod Credit
pub mod Reversal
pub mod Conservation
pub use Rows.*
unfoldable pub use Rows.{find_deposit, update_deposit, find_natural, is_settled}
unfoldable pub use Accounts.{matches_account, find_account, account_id}
pub use Accounts.{same_user}
use naivolt.Base.{
  ℕ, suc, ◌+◌, ◌-◌, ◌%◌, ◌^◌, ltb, leb, Bool, true, false, Option, none, some, List, [], ◌∷◌, ◌++◌,
  ◌==◌, ◌&&◌, ◌||◌, Result, ok, err, if◌then◌else◌,
}
use naivolt.Base.Int.{ℤ, pos, negsuc, ltb_ℤ}
use naivolt.Base.Text.{Text, text_eq, to_lower}
use naivolt.Core.Asset.{Asset}
use naivolt.Core.Chain.{Chain, chain_index}
use naivolt.Ledger.Account.{Uuid, AccountKind}
use naivolt.Ledger.Journal.{LedgerError}
use naivolt.Ledger.Post.{LedgerDb, journal_id, post}
use naivolt.Watcher.Network.{Network, chain, network_index}
use naivolt.Watcher.Deposit.{ObservedTransfer, credit_journal, reversal_journal}

-- A row of `wallets`.
pub record WalletRow : Type 0 where
  pub id : Uuid
  pub user_id : Uuid
  pub chain : Chain
  pub address : Text

-- A row of `chain_cursors`.
pub record CursorRow : Type 0 where
  pub network : Network
  pub last_block : ℕ
  pub last_block_hash : Option Text

-- The tables that the watcher reads and writes.
pub record StoreDb : Type 0 where
  pub ledger : LedgerDb
  pub deposits : List DepositRow
  pub wallets : List WalletRow
  pub cursors : List CursorRow

-- What a call of the store can fail with: a refused journal, or the table's `CHECK (amount > 0)`.
pub data StoreError : Type 0 where
  refused_journal : LedgerError → StoreError
  check_violation : StoreError

-- `confirmations as i32`
abbrev pub as_i32 : ℕ → ℤ
as_i32 c = let r = c % 2 ^ 32 in if ltb r (2 ^ 31) then pos r else negsuc (2 ^ 32 - r - 1)

find_cursor : Network → List CursorRow → Option (ℕ × Option Text)
find_cursor n [] = none
find_cursor n (r ∷ rows) =
    if network_index n == network_index r.network
    then some (r.last_block, r.last_block_hash)
    else find_cursor n rows

unfoldable pub cursor : Network → StoreDb → Option (ℕ × Option Text)
unfolding find_cursor
cursor n db = find_cursor n db.cursors

put_cursor : CursorRow → List CursorRow → List CursorRow
put_cursor c [] = c ∷ []
put_cursor c (r ∷ rows) =
    if network_index c.network == network_index r.network then c ∷ rows else r ∷ put_cursor c rows

unfoldable pub save_cursor : Network → ℕ → Option Text → StoreDb → StoreDb
unfolding put_cursor
save_cursor n block hash db = record db {
  cursors =
      put_cursor (record { network = n; last_block = block; last_block_hash = hash }) db.cursors;
}

find_wallet : Chain → Text → List WalletRow → Option (Uuid × Uuid)
find_wallet c address [] = none
find_wallet c address (w ∷ rows) =
    if (chain_index c == chain_index w.chain) && text_eq (to_lower w.address) (to_lower address)
    then some (w.id, w.user_id)
    else find_wallet c address rows

-- The wallet and the user of an address, in any case of the letters.
unfoldable pub wallet_for : Network → Text → StoreDb → Option (Uuid × Uuid)
unfolding find_wallet
wallet_for n address db = find_wallet (chain n) address db.wallets

-- `INSERT INTO deposits … ON CONFLICT (chain, tx_hash, output_index) DO UPDATE`
unfoldable pub upsert_deposit :
    ObservedTransfer
    → Uuid
    → Uuid
    → ℕ
    → DepositStatus
    → StoreDb
    → Result StoreError (Uuid × DepositStatus) × StoreDb
upsert_deposit t user_id wallet_id confirmations status db =
    if ltb_ℤ (pos 0) t.amount
    then elim (find_natural (chain t.network) t.tx_hash t.output_index db.deposits) [
      | some row ↦ (
        ok (row.id, row.status),
        record db {
          deposits =
              update_deposit row.id (λ r. record r { confirmations = as_i32 confirmations })
                db.deposits;
        },
      )
      | none ↦
          let id = db.ledger.next_id in
          let row : DepositRow = record {
            id = id;
            user_id = user_id;
            wallet_id = wallet_id;
            chain = chain t.network;
            network = t.network;
            asset = t.asset;
            tx_hash = t.tx_hash;
            output_index = t.output_index;
            amount = t.amount;
            block_number = t.block_number;
            block_hash = some t.block_hash;
            confirmations = as_i32 confirmations;
            status = status;
            credited_journal_id = none;
            reversed_journal_id = none;
          } in
          (
            ok (id, status),
            record db {
              ledger = record db.ledger { next_id = id + 1 };
              deposits = db.deposits ++ row ∷ [];
            },
          )
    ]
    else (err check_violation, db)

-- Credits a deposit once; an error rolls the transaction back.
unfoldable pub credit_deposit : Uuid → ObservedTransfer → StoreDb → Result StoreError Bool × StoreDb
credit_deposit deposit_id t db = elim (find_deposit deposit_id db.deposits) [
  | none ↦ (ok false, db)
  | some row ↦
      if is_settled row.status
      then (ok false, db)
      else let (custody, l₁) =
          account_id AccountKind.custody_deposit_addrs none t.asset db.ledger in
        let (user_account, l₂) = account_id AccountKind.user_crypto (some row.user_id) t.asset l₁ in
        elim (credit_journal deposit_id custody user_account t.asset row.amount t) [
          | err e ↦ (err (refused_journal e), db)
          | ok journal ↦
              let (outcome, l₃) = post journal l₂ in
              (
                ok true,
                record db {
                  ledger = l₃;
                  deposits =
                      update_deposit deposit_id
                        (λ r. record r {
                          status = confirmed;
                          credited_journal_id = some (journal_id outcome);
                        })
                        db.deposits;
                },
              )
        ]
]

-- Undoes the credit of a deposit, if it was credited.
unfoldable pub reverse_deposit :
    Uuid → ObservedTransfer → StoreDb → Result StoreError Bool × StoreDb
reverse_deposit deposit_id t db = elim (find_deposit deposit_id db.deposits) [
  | none ↦ (ok false, db)
  | some row ↦
      if is_confirmed row.status
      then (let (custody, l₁) =
            account_id AccountKind.custody_deposit_addrs none t.asset db.ledger in
          let (user_account, l₂) =
            account_id AccountKind.user_crypto (some row.user_id) t.asset l₁ in
          elim (reversal_journal deposit_id custody user_account t.asset row.amount t) [
            | err e ↦ (err (refused_journal e), db)
            | ok journal ↦
                let (outcome, l₃) = post journal l₂ in
                (
                  ok true,
                  record db {
                    ledger = l₃;
                    deposits =
                        update_deposit deposit_id
                          (λ r. record r {
                            status = reversed;
                            reversed_journal_id = some (journal_id outcome);
                          })
                          db.deposits;
                  },
                )
          ])
      else (ok false, db)
]

-- Follows a deposit to the block that holds its transaction now.
unfoldable pub relocate_deposit : Uuid → ℕ → Text → StoreDb → StoreDb
relocate_deposit deposit_id block_number block_hash db = record db {
  deposits =
      update_deposit deposit_id
        (λ r. record r { block_number = block_number; block_hash = some block_hash }) db.deposits;
}

-- Only a deposit that is still `seen` is updated.
unfoldable pub set_confirmations : Uuid → ℕ → StoreDb → StoreDb
set_confirmations deposit_id confirmations db = record db {
  deposits =
      update_deposit deposit_id
        (λ r.
          if is_seen r.status
          then record r { confirmations = as_i32 confirmations; status = confirming }
          else r)
        db.deposits;
}
