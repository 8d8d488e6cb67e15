-- ===== src/Ledger/Account.antt =====
-- crates/ledger/src/account.rs: the kinds of ledger accounts and their sign convention.
pub mod Planes
use naivolt.Base.{ℕ, Bool, true, false, Option, if◌then◌else◌}
use naivolt.Base.Int.{ℤ, neg}
use naivolt.Base.Text.{Text, codes}
use naivolt.Core.Asset.{Asset}

-- A `Uuid` is only compared, so a number stands for it.
abbrev pub Uuid : Type 0
Uuid = ℕ

pub data AccountKind : Type 0 where
  user_crypto user_ngn ngn_payable_pending number_payable_pending : AccountKind
  custody_deposit_addrs custody_hot custody_master ngn_float supplier_float : AccountKind
  spread_revenue fee_revenue number_revenue : AccountKind
  gas_expense payout_fee_expense : AccountKind

unfoldable pub is_liability : AccountKind → Bool
is_liability AccountKind.user_crypto = true
is_liability AccountKind.user_ngn = true
is_liability AccountKind.ngn_payable_pending = true
is_liability AccountKind.number_payable_pending = true
is_liability _ = false

unfoldable pub is_user_scoped : AccountKind → Bool
is_user_scoped AccountKind.user_crypto = true
is_user_scoped AccountKind.user_ngn = true
is_user_scoped _ = false

unfoldable pub is_custody : AccountKind → Bool
is_custody AccountKind.custody_deposit_addrs = true
is_custody AccountKind.custody_hot = true
is_custody AccountKind.custody_master = true
is_custody _ = false

-- Liabilities are stored negative, and shown positive.
unfoldable pub user_facing_balance : AccountKind → ℤ → ℤ
user_facing_balance kind raw_sum = if is_liability kind then neg raw_sum else raw_sum

unfoldable pub as_str : AccountKind → Text
as_str AccountKind.user_crypto = codes "user_crypto"
as_str AccountKind.user_ngn = codes "user_ngn"
as_str AccountKind.ngn_payable_pending = codes "ngn_payable_pending"
as_str AccountKind.number_payable_pending = codes "number_payable_pending"
as_str AccountKind.custody_deposit_addrs = codes "custody_deposit_addrs"
as_str AccountKind.custody_hot = codes "custody_hot"
as_str AccountKind.custody_master = codes "custody_master"
as_str AccountKind.ngn_float = codes "ngn_float"
as_str AccountKind.supplier_float = codes "supplier_float"
as_str AccountKind.spread_revenue = codes "spread_revenue"
as_str AccountKind.fee_revenue = codes "fee_revenue"
as_str AccountKind.number_revenue = codes "number_revenue"
as_str AccountKind.gas_expense = codes "gas_expense"
as_str AccountKind.payout_fee_expense = codes "payout_fee_expense"

pub record LedgerAccount : Type 0 where
  pub id : Uuid
  pub kind : AccountKind
  pub user_id : Option Uuid
  pub asset : Asset

-- `==`, derived.
unfoldable pub kind_index : AccountKind → ℕ
kind_index AccountKind.user_crypto = 0
kind_index AccountKind.user_ngn = 1
kind_index AccountKind.ngn_payable_pending = 2
kind_index AccountKind.number_payable_pending = 3
kind_index AccountKind.custody_deposit_addrs = 4
kind_index AccountKind.custody_hot = 5
kind_index AccountKind.custody_master = 6
kind_index AccountKind.ngn_float = 7
kind_index AccountKind.supplier_float = 8
kind_index AccountKind.spread_revenue = 9
kind_index AccountKind.fee_revenue = 10
kind_index AccountKind.number_revenue = 11
kind_index AccountKind.gas_expense = 12
kind_index AccountKind.payout_fee_expense = 13
