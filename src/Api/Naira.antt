-- ===== src/Api/Naira.antt =====
-- The naira accounts that the handlers of crates/api move money between: `lock_user_ngn_account` and
-- `platform_account` of payout_routes.rs.
pub mod Held
pub mod Transfer
pub mod Sound
pub mod Solvent
pub mod Debit
use naivolt.Base.{ℕ, Option, none, some}
use naivolt.Base.Int.{ℤ}
use naivolt.Core.Asset.{Asset}
use naivolt.Ledger.Account.{Uuid, AccountKind}
use naivolt.Ledger.Post.{LedgerDb}
use naivolt.Watcher.Store.{account_id}

-- The lock of the row orders transactions on it one after the other; between two of them no account
-- of the user is inserted, so that the second select is never reached.
abbrev pub lock_user_ngn_account : Uuid → LedgerDb → Uuid × LedgerDb
lock_user_ngn_account user_id l = account_id AccountKind.user_ngn (some user_id) Asset.ngn l

abbrev pub platform_account : AccountKind → LedgerDb → Uuid × LedgerDb
platform_account kind l = account_id kind none Asset.ngn l

-- A decimal as it was written: its value, in units of 10^-18, and its scale.
pub record Decimal : Type 0 where
  pub value : ℤ
  pub scale : ℕ
