-- ===== src/Watcher/Tests.antt =====
-- Runs of the watcher, and instances of its theorems.
mod Scans
mod Topics
use naivolt.Base.{ℕ, ◌+◌, ◌*◌, ◌≤◌, ◌≡◌, ◌≢◌, ◌↔◌, refl, true, ok, none, some, [], ◌∷◌, arith}
use naivolt.Base.Int.{pos, neg, ◌+ℤ◌, ◌≤ℤ◌, unit}
use naivolt.Base.Text.{codes}
use naivolt.Core.Asset.{Asset}
use naivolt.Core.Chain.{Chain}
use naivolt.Ledger.Account.{Uuid}
use naivolt.Ledger.Journal.{Journal}
use naivolt.Ledger.Journal.Build.{IsSound}
use naivolt.Ledger.Post.{LedgerDb, find_journal}
use naivolt.Ledger.Post.Custody.{account_sum}
use naivolt.Watcher.Network.{Network, min_confirmations, chain, from_str, as_str, is_evm}
use naivolt.Watcher.Network.Names.{from_str-as_str}
use naivolt.Watcher.Deposit.{
  ObservedTransfer, DepositAction, minimum_deposit, confirmations_at, classify, credit_journal,
  reversal_journal,
}
use naivolt.Watcher.Deposit.Classify.{classify_iff, classify_grows}
use naivolt.Watcher.Deposit.Keys.{idempotency_key-injective}
use naivolt.Watcher.Deposit.Journals.{credit_reversal_cancel}
use naivolt.Watcher.Store.{
  DepositStatus, DepositRow, StoreDb, seen, confirmed, reversed, find_deposit, credit_deposit,
  reverse_deposit,
}
use naivolt.Watcher.Store.Owed.{owed}
use naivolt.Watcher.Store.Movements.{at_account}
use naivolt.Watcher.Store.Tracking.{IsFor, IsTracked}
use naivolt.Watcher.Store.Credit.{credit_deposit-credits}
use naivolt.Watcher.Store.Reversal.{reverse_deposit-reverses}
use naivolt.Watcher.Store.Conservation.{
  Conserves, credit_deposit-Conserves, reverse_deposit-Conserves,
}

-- Two dollars on Tron.
abbrev transfer : ObservedTransfer
transfer = record {
  network = Network.tron;
  tx_hash = codes "aa01";
  output_index = pos 0;
  to_address = codes "TXyz";
  asset = Asset.usdt;
  amount = pos (2 * unit);
  block_number = 100;
  block_hash = codes "bb02";
}

abbrev row_with : DepositStatus → DepositRow
row_with s = record {
  id = 5;
  user_id = 7;
  wallet_id = 8;
  chain = Chain.tron;
  network = Network.tron;
  asset = Asset.usdt;
  tx_hash = codes "aa01";
  output_index = pos 0;
  amount = pos (2 * unit);
  block_number = 100;
  block_hash = some (codes "bb02");
  confirmations = pos 1;
  status = s;
  credited_journal_id = none;
  reversed_journal_id = none;
}

abbrev empty_ledger : LedgerDb
empty_ledger = record { accounts = []; journals = []; entries = []; next_id = 20 }

abbrev db_with : DepositStatus → StoreDb
db_with s = record { ledger = empty_ledger; deposits = row_with s ∷ []; wallets = []; cursors = [] }

db_with-IsTracked : (s : DepositStatus) → IsTracked (db_with s)
unfolding find_journal
db_with-IsTracked s = record {
  numbered = record { drawn = tt; distinct = tt; entries_drawn = tt };
  distinct = (tt, tt);
  tracked = (
    record {
      hash = omega arith;
      amount = λ e. ground arith;
      uncredited = λ e. refl;
      unreversed = λ e. refl;
    },
    tt,
  );
}

row_found : (s : DepositStatus) → find_deposit 5 (row_with s ∷ []) ≡ some (row_with s)
unfolding find_deposit
row_found s = refl

transfer-IsFor : (s : DepositStatus) → IsFor transfer (row_with s)
transfer-IsFor s = record { network = refl; tx_hash = refl; output_index = refl; asset = refl }

source :
    (s : DepositStatus) (row : DepositRow)
    → find_deposit 5 (row_with s ∷ []) ≡ some row
    → IsFor transfer row
unfolding find_deposit
source s row e = record {
  network = ground arith;
  tx_hash = ground arith;
  output_index = ground arith;
  asset = ground arith;
}

deep_enough : classify transfer 119 ≡ DepositAction.credit 20
unfolding classify minimum_deposit min_confirmations
deep_enough = refl

idempotency_key-injective_example :
    (codes "deposit" ≡ codes "deposit")
    × (Network.tron ≡ Network.tron)
    × (codes "aa01" ≡ codes "aa01")
    × (pos 0 ≡ pos 0)
idempotency_key-injective_example =
    idempotency_key-injective (codes "deposit") (codes "deposit") transfer transfer (omega arith)
      (omega arith) (omega arith) (omega arith) refl

credit_deposit-credits_example :
    (let (r, after) = credit_deposit 5 transfer (db_with seen) in
      (r ≡ ok true)
      × IsTracked after
      × ((row' : DepositRow) × (find_deposit 5 after.deposits ≡ some row')
          × (row'.status ≡ confirmed))
      × ((v : Uuid) (b : Asset)
          → owed v b after.ledger
            ≡ owed v b empty_ledger +ℤ at_account 7 Asset.usdt (neg (pos (2 * unit))) v b))
credit_deposit-credits_example =
    credit_deposit-credits (db_with seen) 5 transfer (row_with seen) (db_with-IsTracked seen)
      (row_found seen) refl (transfer-IsFor seen)

reverse_deposit-reverses_example :
    (let (r, after) = reverse_deposit 5 transfer (db_with confirmed) in
      (r ≡ ok true)
      × IsTracked after
      × ((row' : DepositRow) × (find_deposit 5 after.deposits ≡ some row')
          × (row'.status ≡ reversed))
      × ((v : Uuid) (b : Asset)
          → owed v b after.ledger
            ≡ owed v b empty_ledger +ℤ at_account 7 Asset.usdt (pos (2 * unit)) v b))
reverse_deposit-reverses_example =
    reverse_deposit-reverses (db_with confirmed) 5 transfer (row_with confirmed)
      (db_with-IsTracked confirmed) (row_found confirmed) refl (transfer-IsFor confirmed)
