-- ===== src/Watcher/Deposit.antt =====
-- crates/watcher/src/deposit.rs: what happens to an observed transfer, and the journals that credit
-- it and undo the credit.
pub mod Classify
pub mod Keys
pub mod Journals
use naivolt.Base.{ℕ, ◌+◌, ◌-◌, ◌*◌, ◌^◌, leb, List, [], ◌∷◌, ◌++◌, Result, if◌then◌else◌}
use naivolt.Base.Int.{ℤ, pos, neg, ltb_ℤ, unit}
use naivolt.Base.Text.{Text, codes, show_int}
use naivolt.Core.Asset.{Asset}
use naivolt.Ledger.Account.{Uuid, AccountKind}
use naivolt.Ledger.Journal.{
  JournalKind, Reference, Scalar, Metadata, Journal, JournalBuilder, LedgerError, new, entry,
  with_metadata, build,
}
use naivolt.Watcher.Network.{Network, min_confirmations, as_str}

pub record ObservedTransfer : Type 0 where
  pub network : Network
  pub tx_hash : Text
  pub output_index : ℤ
  pub to_address : Text
  pub asset : Asset
  pub amount : ℤ
  pub block_number : ℕ
  pub block_hash : Text

pub data DepositAction : Type 0 where
  record_only : ℕ → DepositAction
  credit : ℕ → DepositAction
  ignore_dust : ℤ → DepositAction

unfoldable pub minimum_deposit : Asset → ℤ
minimum_deposit Asset.usdt = pos unit
minimum_deposit Asset.usdc = pos unit
minimum_deposit Asset.btc = pos (10 ^ 14)
minimum_deposit Asset.eth = pos (5 * 10 ^ 15)
minimum_deposit Asset.bnb = pos (10 ^ 16)
minimum_deposit Asset.sol = pos (5 * 10 ^ 16)
minimum_deposit Asset.trx = pos (50 * unit)
minimum_deposit Asset.matic = pos (5 * unit)
minimum_deposit Asset.ngn = pos 0

-- `(head - block_number + 1).max(0)`
abbrev pub confirmations_at : ℕ → ℕ → ℕ
confirmations_at head block_number = head + 1 - block_number

unfoldable pub classify : ObservedTransfer → ℕ → DepositAction
classify t head =
    let minimum = minimum_deposit t.asset in
    let confirmations = confirmations_at head t.block_number in
    if ltb_ℤ t.amount minimum
    then DepositAction.ignore_dust minimum
    else if leb (min_confirmations t.network) confirmations
    then DepositAction.credit confirmations
    else DepositAction.record_only confirmations

-- `format!("{kind}:{}:{}:{}", network, tx_hash, output_index)`
unfoldable pub idempotency_key : Text → ObservedTransfer → Text
idempotency_key kind t =
    kind ++ (b':' ∷ (as_str t.network ++ (b':' ∷ (t.tx_hash ++ (b':' ∷ show_int t.output_index)))))

unfoldable pub credit_journal :
    Uuid → Uuid → Uuid → Asset → ℤ → ObservedTransfer → Result LedgerError Journal
credit_journal deposit_id custody_account user_account asset amount t =
    let b₀ =
      new JournalKind.deposit_credit (Reference.uuid deposit_id)
        (idempotency_key (codes "deposit") t) in
    let b₁ = entry b₀ custody_account AccountKind.custody_deposit_addrs asset amount in
    let b₂ = entry b₁ user_account AccountKind.user_crypto asset (neg amount) in
    build (
      with_metadata b₂ (
        Metadata.object (
          (codes "network", Scalar.str (as_str t.network))
          ∷ (codes "txHash", Scalar.str t.tx_hash)
          ∷ (codes "outputIndex", Scalar.num t.output_index)
          ∷ (codes "blockNumber", Scalar.num (pos t.block_number))
          ∷ [])))

unfoldable pub reversal_journal :
    Uuid → Uuid → Uuid → Asset → ℤ → ObservedTransfer → Result LedgerError Journal
reversal_journal deposit_id custody_account user_account asset amount t =
    let b₀ =
      new JournalKind.deposit_reversal (Reference.uuid deposit_id)
        (idempotency_key (codes "reversal") t) in
    let b₁ = entry b₀ custody_account AccountKind.custody_deposit_addrs asset (neg amount) in
    let b₂ = entry b₁ user_account AccountKind.user_crypto asset amount in
    build (
      with_metadata b₂ (
        Metadata.object (
          (codes "reason", Scalar.str (codes "reorg"))
          ∷ (codes "network", Scalar.str (as_str t.network))
          ∷ (codes "txHash", Scalar.str t.tx_hash)
          ∷ (codes "blockNumber", Scalar.num (pos t.block_number))
          ∷ [])))
