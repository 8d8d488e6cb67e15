-- ===== src/Api/Payouts/Rows.antt =====
-- The tables `payouts` and `bank_accounts`, and the view `payout_usage_24h`.
use naivolt.Base.{
  ℕ, ◌+◌, ltb, ◌==◌, ◌&&◌, Bool, true, false, Option, none, some, List, [], ◌∷◌, if◌then◌else◌,
}
use naivolt.Base.Int.{ℤ}
use naivolt.Base.Sums.{sum_where}
use naivolt.Base.Text.{Text, text_eq}
use naivolt.Ledger.Account.{Uuid}
use naivolt.Ledger.Post.{LedgerDb}

pub data PayoutStatus : Type 0 where
  reserved processing settled failed reversed : PayoutStatus

-- A row of `payouts`, without the columns that only a transfer sets.
pub record PayoutRow : Type 0 where
  pub id : Uuid
  pub user_id : Uuid
  pub bank_account_id : Uuid
  pub amount_ngn : ℤ
  pub fee_ngn : ℤ
  pub status : PayoutStatus
  pub provider_reference : Text
  pub reserved_journal_id : Uuid
  pub created_at : ℕ

-- A row of `bank_accounts`.
pub record BankRow : Type 0 where
  pub id : Uuid
  pub user_id : Uuid
  pub bank_code : Text
  pub account_number : Text
  pub account_name : Text

pub record PayoutsDb : Type 0 where
  pub ledger : LedgerDb
  pub payouts : List PayoutRow
  pub bank_accounts : List BankRow

-- `status IN ('reserved', 'processing', 'settled')`
abbrev pub is_counted : PayoutStatus → Bool
is_counted reserved = true
is_counted processing = true
is_counted settled = true
is_counted _ = false

abbrev pub day : ℕ
day = 86_400_000

-- The view `payout_usage_24h`.
unfoldable pub used_today : Uuid → ℕ → List PayoutRow → ℤ
used_today user now =
    sum_where (λ p. p.amount_ngn)
      (λ p. (user == p.user_id) && (ltb now (p.created_at + day) && is_counted p.status))

unfoldable pub find_bank : Uuid → Uuid → List BankRow → Option BankRow
find_bank id user [] = none
find_bank id user (b ∷ rows) =
    if (id == b.id) && (user == b.user_id) then some b else find_bank id user rows

abbrev pub is_account : Uuid → Text → Text → BankRow → Bool
is_account user bank_code number b =
    (user == b.user_id) && (text_eq bank_code b.bank_code && text_eq number b.account_number)

-- `ON CONFLICT (user_id, bank_code, account_number) DO UPDATE SET account_name = …`
unfoldable pub upsert_bank : Uuid → Text → Text → Text → Uuid → List BankRow → Uuid × List BankRow
upsert_bank user bank_code number name fresh [] = (
  fresh,
  record {
    id = fresh;
    user_id = user;
    bank_code = bank_code;
    account_number = number;
    account_name = name;
  }
      ∷ [],
)
upsert_bank user bank_code number name fresh (b ∷ rows) =
    let rest = upsert_bank user bank_code number name fresh rows in
    if is_account user bank_code number b
    then (b.id, record b { account_name = name } ∷ rows)
    else (rest.0, b ∷ rest.1)

-- `SELECT … FROM payouts WHERE reserved_journal_id = $1`
unfoldable pub find_payout : Uuid → List PayoutRow → Option PayoutRow
find_payout journal [] = none
find_payout journal (p ∷ rows) =
    if journal == p.reserved_journal_id then some p else find_payout journal rows
