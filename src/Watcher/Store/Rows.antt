-- ===== src/Watcher/Store/Rows.antt =====
-- The rows of the deposits table, and how its queries find them.
pub mod Queries
use naivolt.Base.{
  ℕ, leb, Bool, true, false, Option, none, some, List, [], ◌∷◌, ◌==◌, ◌&&◌, if◌then◌else◌,
}
use naivolt.Base.Int.{ℤ, pos_part, neg_part}
use naivolt.Base.Text.{Text, text_eq}
use naivolt.Core.Asset.{Asset}
use naivolt.Core.Chain.{Chain, chain_index}
use naivolt.Ledger.Account.{Uuid}
use naivolt.Watcher.Network.{Network, network_index}

pub data DepositStatus : Type 0 where
  seen confirming confirmed reversed ignored : DepositStatus

abbrev pub is_seen : DepositStatus → Bool
is_seen seen = true
is_seen _ = false

abbrev pub is_confirmed : DepositStatus → Bool
is_confirmed confirmed = true
is_confirmed _ = false

-- `status == "confirmed" || status == "reversed"`
abbrev pub is_settled : DepositStatus → Bool
is_settled confirmed = true
is_settled reversed = true
is_settled _ = false

-- `status IN ('seen', 'confirming')`
abbrev pub is_pending : DepositStatus → Bool
is_pending seen = true
is_pending confirming = true
is_pending _ = false

-- A row of `deposits`.
pub record DepositRow : Type 0 where
  pub id : Uuid
  pub user_id : Uuid
  pub wallet_id : Uuid
  pub chain : Chain
  pub network : Network
  pub asset : Asset
  pub tx_hash : Text
  pub output_index : ℤ
  pub amount : ℤ
  pub block_number : ℕ
  pub block_hash : Option Text
  pub confirmations : ℤ
  pub status : DepositStatus
  pub credited_journal_id : Option Uuid
  pub reversed_journal_id : Option Uuid

abbrev pub int_eq : ℤ → ℤ → Bool
int_eq a b = (pos_part a == pos_part b) && (neg_part a == neg_part b)

-- `WHERE id = $1`
unfoldable pub find_deposit : Uuid → List DepositRow → Option DepositRow
find_deposit id [] = none
find_deposit id (r ∷ rows) = if id == r.id then some r else find_deposit id rows

-- `UPDATE deposits SET … WHERE id = $1`
unfoldable pub update_deposit : Uuid → (DepositRow → DepositRow) → List DepositRow → List DepositRow
update_deposit id f [] = []
update_deposit id f (r ∷ rows) = (if id == r.id then f r else r) ∷ update_deposit id f rows

-- The row with a natural key, `(chain, tx_hash, output_index)`.
unfoldable pub find_natural : Chain → Text → ℤ → List DepositRow → Option DepositRow
find_natural c tx_hash output_index [] = none
find_natural c tx_hash output_index (r ∷ rows) =
    if (chain_index c == chain_index r.chain)
      && (text_eq tx_hash r.tx_hash && int_eq output_index r.output_index)
    then some r
    else find_natural c tx_hash output_index rows

-- Sorted insertion by block, after the rows of the same block.
insert_by_block : DepositRow → List DepositRow → List DepositRow
insert_by_block r [] = r ∷ []
insert_by_block r (q ∷ rows) =
    if leb q.block_number r.block_number then q ∷ insert_by_block r rows else r ∷ q ∷ rows

sort_by_block : List DepositRow → List DepositRow → List DepositRow
sort_by_block [] sorted = sorted
sort_by_block (r ∷ rows) sorted = sort_by_block rows (insert_by_block r sorted)

select : (DepositRow → Bool) → List DepositRow → List DepositRow
select p [] = []
select p (r ∷ rows) = if p r then r ∷ select p rows else select p rows

-- Deposits recorded but not yet credited, in the order of their blocks.
unfoldable pub pending_deposits : Network → List DepositRow → List DepositRow
unfolding insert_by_block sort_by_block select
pending_deposits n rows =
    sort_by_block
      (select (λ r. (network_index n == network_index r.network) && is_pending r.status) rows) []

-- Credited deposits in the blocks from `from_block` on.
unfoldable pub reorg_window : Network → ℕ → List DepositRow → List DepositRow
unfolding select
reorg_window n from_block rows =
    select
      (λ r.
        (network_index n == network_index r.network)
        && (is_confirmed r.status && leb from_block r.block_number))
      rows
