-- ===== src/Watcher/Scan.antt =====
-- crates/watcher/src/main.rs: what a pass of a watcher does with the transfers that it sees, with the
-- deposits that wait for confirmations and with those that a reorganisation may have removed.
pub mod Updates
pub mod Pending
pub mod Confirms
pub mod Reorgs
pub mod Kept
use naivolt.Base.{
  ℕ, ◌+◌, ◌-◌, ltb, Bool, true, false, Option, none, some, List, [], ◌∷◌, ◌==◌, Result, ok, err,
  if◌then◌else◌,
}
use naivolt.Base.Text.{Text, text_eq, to_lower}
use naivolt.Watcher.Network.{Network, min_confirmations, rescan_depth}
use naivolt.Watcher.Deposit.{ObservedTransfer, DepositAction, confirmations_at, classify}
use naivolt.Watcher.Store.{
  DepositStatus, DepositRow, StoreDb, StoreError, seen, ignored, is_settled, wallet_for,
  upsert_deposit, credit_deposit, reverse_deposit, relocate_deposit, set_confirmations,
  pending_deposits, reorg_window,
}
use naivolt.Watcher.Store.Tracking.{row_transfer}

-- The status and the confirmations that a transfer is recorded with.
abbrev pub recorded_as : DepositAction → DepositStatus × ℕ
recorded_as (DepositAction.ignore_dust minimum) = (ignored, 0)
recorded_as (DepositAction.record_only confirmations) = (seen, confirmations)
recorded_as (DepositAction.credit confirmations) = (seen, confirmations)

abbrev pub is_credit : DepositAction → Bool
is_credit (DepositAction.credit confirmations) = true
is_credit _ = false

-- Records a transfer, and credits it if it is deep enough. Errors are logged and end the call.
unfoldable pub handle_transfer : ObservedTransfer → ℕ → StoreDb → StoreDb
handle_transfer t head db = elim (wallet_for t.network t.to_address db) [
  | none ↦ db
  | some (wallet_id, user_id) ↦
      let action = classify t head in
      let (status, confirmations) = recorded_as action in
      let (recorded, db₁) = upsert_deposit t user_id wallet_id confirmations status db in
      elim recorded [
        | err e ↦ db₁
        | ok (deposit_id, existing_status) ↦
            if is_settled existing_status
            then db₁
            else if is_credit action
            then (credit_deposit deposit_id t db₁).1
            else db₁
      ]
]

-- The transfer that a pass rebuilds from a row, under the network of the pass.
abbrev pub rebuilt : Network → DepositRow → ObservedTransfer
rebuilt n r = record (row_transfer r) { network = n }

-- One round of the loop of `advance_pending`; an error of the credit is logged and the loop goes on.
unfoldable pub advance_row : Network → ℕ → DepositRow → StoreDb → StoreDb
advance_row n head p db =
    let confirmations = confirmations_at head p.block_number in
    if ltb confirmations (min_confirmations n)
    then set_confirmations p.id confirmations db
    else (credit_deposit p.id (rebuilt n p) db).1

unfoldable pub advance_rows : Network → ℕ → List DepositRow → StoreDb → StoreDb
advance_rows n head [] db = db
advance_rows n head (p ∷ rows) db = advance_rows n head rows (advance_row n head p db)

unfoldable pub advance_pending : Network → ℕ → StoreDb → StoreDb
advance_pending n head db = advance_rows n head (pending_deposits n db.deposits) db

-- What a node answers to `eth_getTransactionReceipt`: a block, no such transaction, or no answer.
pub data Location : Type 0 where
  included : ℕ → Text → Location
  missing unanswered : Location

-- A node, whose answers may change from one question to the next: the first argument counts the
-- deposits that the pass has looked at. A failed or empty answer about a block is `none`.
pub record Node : Type 0 where
  pub block_hash : ℕ → ℕ → Option Text
  pub transaction_location : ℕ → Text → Location

-- `HashMap<i64, Option<String>>`
abbrev pub Checked : Type 0
Checked = List (ℕ × Option Text)

unfoldable pub get_checked : ℕ → Checked → Option (Option Text)
get_checked block [] = none
get_checked block ((b, hash) ∷ checked) =
    if block == b then some hash else get_checked block checked

-- A block's hash, asked for once in a pass.
unfoldable pub current_hash : Node → ℕ → ℕ → Checked → Option Text × Checked
current_hash node time block checked = elim (get_checked block checked) [
  | some hash ↦ (hash, checked)
  | none ↦ (node.block_hash time block, (block, node.block_hash time block) ∷ checked)
]

-- Where the transaction of a deposit whose block is gone is now decides what happens to its credit.
unfoldable pub settle_moved :
    Node → ℕ → Network → DepositRow → StoreDb → Result StoreError (Unit {0}) × StoreDb
settle_moved node time n d db = elim (node.transaction_location time d.tx_hash) [
  | included block_number block_hash ↦ (ok tt, relocate_deposit d.id block_number block_hash db)
  | unanswered ↦ (ok tt, db)
  | missing ↦
      let (reversal, db₁) = reverse_deposit d.id (rebuilt n d) db in
      elim reversal [ ok done ↦ (ok tt, db₁) | err e ↦ (err e, db₁) ]
]

-- `current.eq_ignore_ascii_case(&recorded_hash)`
abbrev pub same_hash : Text → Text → Bool
same_hash a b = text_eq (to_lower a) (to_lower b)

-- One round of the loop of `check_reorgs`.
unfoldable pub check_row :
    Node
    → ℕ
    → Network
    → DepositRow
    → Checked × StoreDb
    → Result StoreError (Unit {0}) × (Checked × StoreDb)
check_row node time n d (checked, db) = elim d.block_hash [
  | none ↦ (ok tt, (checked, db))
  | some [] ↦ (ok tt, (checked, db))
  | some (c ∷ cs) ↦
      let (current, checked₁) = current_hash node time d.block_number checked in
      elim current [
        | none ↦ (ok tt, (checked₁, db))
        | some hash ↦
            if same_hash hash (c ∷ cs)
            then (ok tt, (checked₁, db))
            else let (r, db₁) = settle_moved node time n d db in (r, (checked₁, db₁))
      ]
]

-- The loop, which the first error of a reversal ends.
unfoldable pub check_rows :
    Node
    → ℕ
    → Network
    → List DepositRow
    → Checked × StoreDb
    → Result StoreError (Unit {0}) × StoreDb
check_rows node time n [] s = (ok tt, s.1)
check_rows node time n (d ∷ rows) s =
    let (r, s₁) = check_row node time n d s in
    let rest = check_rows node (time + 1) n rows s₁ in
    elim r [ err e ↦ (err e, s₁.1) | ok done ↦ rest ]

unfoldable pub check_reorgs : Node → Network → ℕ → StoreDb → Result StoreError (Unit {0}) × StoreDb
check_reorgs node n head db =
    check_rows node 0 n (reorg_window n (head - rescan_depth n) db.deposits) ([], db)
