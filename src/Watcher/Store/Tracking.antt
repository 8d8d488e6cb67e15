-- ===== src/Watcher/Store/Tracking.antt =====
-- What ties the deposits table to the journals: a deposit that is not settled has no journal, and one
-- that is not reversed has no reversal.
use naivolt.Base.{
  ◌≡◌, ◌≢◌, sym, ◌∙◌, true, false, Bool, Option, none, some, List, [], ◌∷◌, ◌++◌, ◌==◌, ◌&&◌, All,
  inl, inr, Bool-cases, arith,
}
use naivolt.Base.Int.{ℤ, pos}
use naivolt.Base.Sums.{sum_where}
use naivolt.Base.Text.{Text, codes, text_eq, text_eq-to}
use naivolt.Core.Asset.{Asset, asset_index}
use naivolt.Ledger.Account.{Uuid}
use naivolt.Ledger.Post.{JournalRow, find_journal}
use naivolt.Ledger.Post.Replay.{find_journal-append}
use naivolt.Watcher.Deposit.{ObservedTransfer, idempotency_key}
use naivolt.Watcher.Deposit.Keys.{NoColon, idempotency_key-injective}
use naivolt.Watcher.Store.{DepositStatus, DepositRow, StoreDb, reversed, is_confirmed, is_settled}
use naivolt.Watcher.Store.Owed.{IsNumbered}
use naivolt.Watcher.Store.RowLaws.{Apart, DistinctRows}

-- `block_hash.unwrap_or_default()`
abbrev pub hash_or_empty : Option Text → Text
hash_or_empty none = []
hash_or_empty (some h) = h

-- The transfer that the watcher rebuilds from a row.
abbrev pub row_transfer : DepositRow → ObservedTransfer
row_transfer r = record {
  network = r.network;
  tx_hash = r.tx_hash;
  output_index = r.output_index;
  to_address = [];
  asset = r.asset;
  amount = r.amount;
  block_number = r.block_number;
  block_hash = hash_or_empty r.block_hash;
}

abbrev pub row_key : Text → DepositRow → Text
row_key kind r = idempotency_key kind (row_transfer r)

-- A transfer that a row was recorded from, up to its block and its address.
pub record IsFor (t : ObservedTransfer) (r : DepositRow) : Type 0 where
  pub network : t.network ≡ r.network
  pub tx_hash : t.tx_hash ≡ r.tx_hash
  pub output_index : t.output_index ≡ r.output_index
  pub asset : t.asset ≡ r.asset

pub key-IsFor :
    (kind : Text) (t : ObservedTransfer) (r : DepositRow)
    → IsFor t r
    → idempotency_key kind t ≡ row_key kind r
unfolding idempotency_key
key-IsFor kind t r h = rw (h.network, h.tx_hash, h.output_index)

abbrev pub is_reversed : DepositStatus → Bool
is_reversed reversed = true
is_reversed _ = false

-- A row and the journals agree.
pub record RowTracked (journals : List JournalRow) (r : DepositRow) : Type 0 where
  pub hash : NoColon r.tx_hash
  pub amount : r.amount ≢ pos 0
  pub uncredited :
      is_settled r.status ≡ false → find_journal (row_key (codes "deposit") r) journals ≡ none
  pub unreversed :
      is_reversed r.status ≡ false → find_journal (row_key (codes "reversal") r) journals ≡ none

pub record IsTracked (db : StoreDb) : Type 0 where
  pub numbered : IsNumbered db.ledger
  pub distinct : DistinctRows db.deposits
  pub tracked : All (RowTracked db.ledger.journals) db.deposits

-- What the confirmed deposits of a user in an asset add up to.
unfoldable pub confirmed_sum : Uuid → Asset → List DepositRow → ℤ
confirmed_sum u a =
    sum_where (λ r. r.amount)
      (λ r. (u == r.user_id && (asset_index a == asset_index r.asset)) && is_confirmed r.status)

-- A journal under another key does not hide that a key is free.
pub find_journal-other :
    (key : Text) (rows : List JournalRow) (j : JournalRow)
    → key ≢ j.idempotency_key
    → find_journal key rows ≡ none
    → find_journal key (rows ++ j ∷ []) ≡ none
find_journal-other key rows j ne e =
    find_journal-append key rows j e ∙ elim (Bool-cases (text_eq key j.idempotency_key)) [
      | inl same ↦ absurd (ne (text_eq-to _ _ same))
      | inr other ↦ rw other
    ]

pub deposit-NoColon : NoColon (codes "deposit")
deposit-NoColon = omega arith

pub reversal-NoColon : NoColon (codes "reversal")
reversal-NoColon = omega arith

-- Journals for one row leave a row apart from it tracked.
pub RowTracked-Apart :
    (rows : List JournalRow) (j : JournalRow) (kind : Text) (row q : DepositRow)
    → NoColon kind
    → NoColon row.tx_hash
    → j.idempotency_key ≡ row_key kind row
    → Apart row q
    → RowTracked rows q
    → RowTracked (rows ++ j ∷ []) q
RowTracked-Apart rows j kind row q hk hr e a h = record {
  hash = h.hash;
  amount = h.amount;
  uncredited =
      λ s. find_journal-other _ rows j (differ (codes "deposit") deposit-NoColon) (h.uncredited s);
  unreversed = λ s.
      find_journal-other _ rows j (differ (codes "reversal") reversal-NoColon) (h.unreversed s);
}
  where
    differ : (l : Text) → NoColon l → row_key l q ≢ j.idempotency_key
    differ l hl k =
        let (kinds, network, hash, output) =
          idempotency_key-injective kind l (row_transfer row) (row_transfer q) hk hl hr h.hash
            (sym (k ∙ e)) in
        a.1 (network, hash, output)
