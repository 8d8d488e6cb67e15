-- ===== src/Watcher/Store/Accounts.antt =====
-- `account_id` of crates/watcher/src/store.rs: ledger accounts are found or created.
use naivolt.Base.{
  ◌+◌, Bool, true, false, Option, none, some, List, [], ◌∷◌, ◌++◌, ◌==◌, ◌&&◌, if◌then◌else◌,
}
use naivolt.Core.Asset.{Asset, asset_index}
use naivolt.Ledger.Account.{Uuid, AccountKind, LedgerAccount, kind_index}
use naivolt.Ledger.Post.{LedgerDb}

-- `user_id IS NOT DISTINCT FROM $3`
abbrev pub same_user : Option Uuid → Option Uuid → Bool
same_user none none = true
same_user none (some v) = false
same_user (some u) none = false
same_user (some u) (some v) = u == v

-- `WHERE kind = $1 AND asset = $2 AND user_id IS NOT DISTINCT FROM $3`
unfoldable pub matches_account : AccountKind → Option Uuid → Asset → LedgerAccount → Bool
matches_account kind user_id asset a =
    (kind_index kind == kind_index a.kind)
    && ((asset_index asset == asset_index a.asset) && same_user user_id a.user_id)

unfoldable pub find_account : AccountKind → Option Uuid → Asset → List LedgerAccount → Option Uuid
find_account kind user_id asset [] = none
find_account kind user_id asset (a ∷ accounts) =
    if matches_account kind user_id asset a
    then some a.id
    else find_account kind user_id asset accounts

-- Finds or creates the account of a kind, a user and an asset. With no concurrent insert between the
-- two statements the second always inserts.
unfoldable pub account_id : AccountKind → Option Uuid → Asset → LedgerDb → Uuid × LedgerDb
account_id kind user_id asset l = elim (find_account kind user_id asset l.accounts) [
  | some id ↦ (id, l)
  | none ↦ (
    l.next_id,
    record l {
      accounts =
          l.accounts
          ++ record { id = l.next_id; kind = kind; user_id = user_id; asset = asset } ∷ [];
      next_id = l.next_id + 1;
    },
  )
]
