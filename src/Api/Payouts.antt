-- ===== src/Api/Payouts.antt =====
-- crates/api/src/payout_routes.rs: naira to a bank account. The funds are reserved in one transaction,
-- before any transfer. Instants are in milliseconds.
pub mod Rows
pub mod Reserve
pub mod Keep
pub mod Answered
pub mod Request
pub mod Replays
pub use Rows.*
unfoldable pub use Rows.{used_today, find_bank, upsert_bank, find_payout}
use naivolt.Base.{
  ℕ, ◌+◌, ltb, ◌==◌, ◌&&◌, ◌||◌, not, Bool, true, false, Option, none, some, List, [], ◌∷◌, ◌++◌,
  length, Result, ok, err, ◌>>=◌, ◌>>◌, if◌then◌else◌,
}
use naivolt.Base.Int.{ℤ, pos, neg, ltb_ℤ}
use naivolt.Base.Sums.{sum_where}
use naivolt.Base.Text.{Text, codes, text_eq, to_lower}
use naivolt.Core.Asset.{Asset}
use naivolt.Ledger.Account.{Uuid, AccountKind, user_facing_balance}
use naivolt.Ledger.Journal.{
  JournalKind, Reference, Scalar, Metadata, Journal, LedgerError, new, entry, with_metadata, build,
}
use naivolt.Ledger.Post.{LedgerDb, journal_id, post, balance}
use naivolt.Auth.Identifier.{trim, only_digits}
use naivolt.Auth.Tier.{KycTier, tier0, from_i16, PayoutCheck, check_payout}
use naivolt.Api.Error.{ApiError}
use naivolt.Api.Naira.{lock_user_ngn_account, platform_account, Decimal}

pub data Destination : Type 0 where
  beneficiary : Uuid → Destination
  one_off : (bank_code account_number account_name : Text) → Bool → Destination

pub record CreatePayoutBody : Type 0 where
  pub amount_ngn : Text
  pub destination : Destination
  pub pin : Text

-- The columns of `users` that a payout reads.
pub record Payer : Type 0 where
  pub id : Uuid
  pub pin_hash : Option Text
  pub kyc_tier : ℤ

-- What the handler uses that is not of this crate: the parser of decimals, the check of a PIN against
-- its hash, which may fail, and the bank's name of an account.
pub record Outside : Type 0 where
  pub from_str : Text → Option Decimal
  pub verify_pin : Text → Text → Option Bool
  pub resolve_account : Text → Text → Result ApiError Text

-- What the client is told, without the name of the bank, which is that of the account's code.
pub record PayoutResponse : Type 0 where
  pub id : Uuid
  pub amount_ngn : ℤ
  pub fee : ℤ
  pub account_number : Text
  pub account_name : Text
  pub status : PayoutStatus
  pub reference : Text
  pub created_at : ℕ

-- The amount, as the handler accepts it.
unfoldable pub check_amount : (Text → Option Decimal) → Text → Result ApiError ℤ
check_amount from_str amount_ngn = elim (from_str (trim amount_ngn)) [
  | none ↦ err ApiError.bad_request
  | some amount ↦
      if ltb_ℤ amount.value (pos 1)
      then err ApiError.bad_request
      else if ltb 4 amount.scale
      then err ApiError.bad_request
      else ok amount.value
]

unfoldable pub check_pin :
    (Text → Text → Option Bool) → Text → Option Text → Result ApiError (Unit {0})
check_pin verify_pin pin none = err ApiError.bad_request
check_pin verify_pin pin (some hash) = elim (verify_pin pin hash) [
  | none ↦ err ApiError.internal
  | some true ↦ ok tt
  | some false ↦ err (ApiError.pin_invalid (pos 0))
]

-- `KycTier::from_i16(tier_raw).unwrap_or(KycTier::Tier0)`
abbrev pub tier_of : ℤ → KycTier
tier_of raw = elim (from_i16 raw) [ none ↦ tier0 | some tier ↦ tier ]

unfoldable pub check_cap : KycTier → ℤ → ℤ → Result ApiError (Unit {0})
check_cap tier amount used = elim (check_payout tier amount used) [
  | PayoutCheck.allowed ↦ ok tt
  | PayoutCheck.kyc_required step ↦ err (ApiError.kyc_required step)
  | PayoutCheck.exceeds_daily_cap cap u remaining ↦ err (ApiError.limit_exceeded remaining)
]

-- `resolve_destination`: a one-off destination is looked up again, and stored if its name is the one
-- that the client showed.
unfoldable pub resolve_destination :
    (Text → Text → Result ApiError Text)
    → Uuid
    → Destination
    → PayoutsDb
    → Result ApiError Uuid × PayoutsDb
resolve_destination resolve user (beneficiary id) db = (ok id, db)
resolve_destination resolve user (one_off bank_code account_number account_name save) db =
    let number = only_digits account_number in
    if not (length number == 10)
    then (err ApiError.bad_request, db)
    else elim (resolve bank_code number) [
      | err e ↦ (err e, db)
      | ok resolved ↦
          if not (text_eq (to_lower (trim resolved)) (to_lower (trim account_name)))
          then (err ApiError.bad_request, db)
          else let (id, rows) =
              upsert_bank user bank_code number resolved db.ledger.next_id db.bank_accounts in
            (
              ok id,
              record db {
                ledger = record db.ledger { next_id = db.ledger.next_id + 1 };
                bank_accounts = rows;
              },
            )
    ]

-- The reservation's journal: the user is owed less, and the bank that much.
unfoldable pub reserve_journal :
    Uuid → Uuid → Text → Text → ℤ → BankRow → Result LedgerError Journal
reserve_journal user_account pending reference key amount bank = build (
    with_metadata
      (entry
        (entry (new JournalKind.payout_reserve (Reference.text reference) key) user_account
          AccountKind.user_ngn Asset.ngn amount)
        pending AccountKind.ngn_payable_pending Asset.ngn (neg amount))
      (Metadata.object (
        (codes "bank_account_id", Scalar.num (pos bank.id))
        ∷ (codes "bank_code", Scalar.str bank.bank_code)
        ∷ [])))

abbrev pub response : BankRow → PayoutRow → PayoutResponse
response bank p = record {
  id = p.id;
  amount_ngn = p.amount_ngn;
  fee = p.fee_ngn;
  account_number = bank.account_number;
  account_name = bank.account_name;
  status = p.status;
  reference = p.provider_reference;
  created_at = p.created_at;
}

-- The payout that belongs to a posted reservation: the one that is there, or a new one.
unfoldable pub record_payout :
    Uuid
    → Uuid
    → BankRow
    → ℤ
    → Text
    → ℕ
    → LedgerDb
    → PayoutsDb
    → Result ApiError PayoutResponse × PayoutsDb
record_payout journal user bank amount reference now l db = elim (find_payout journal db.payouts) [
  | some p ↦ (ok (response bank p), record db { ledger = l })
  | none ↦
      let p : PayoutRow = record {
        id = l.next_id;
        user_id = user;
        bank_account_id = bank.id;
        amount_ngn = amount;
        fee_ngn = pos 0;
        status = reserved;
        provider_reference = reference;
        reserved_journal_id = journal;
        created_at = now;
      } in
      (
        ok (response bank p),
        record db { ledger = record l { next_id = l.next_id + 1 }; payouts = db.payouts ++ p ∷ [] },
      )
]

-- The transaction of `create_payout`, under the lock of the user's account.
unfoldable pub reserve :
    Uuid → BankRow → ℤ → Text → Text → ℕ → PayoutsDb → Result ApiError PayoutResponse × PayoutsDb
reserve user bank amount key reference now db =
    let (user_account, l₁) = lock_user_ngn_account user db.ledger in
    if ltb_ℤ (user_facing_balance AccountKind.user_ngn (balance user_account l₁)) amount
    then (err ApiError.insufficient_balance, db)
    else let (pending, l₂) = platform_account AccountKind.ngn_payable_pending l₁ in
      elim (reserve_journal user_account pending reference key amount bank) [
        | err e ↦ (err ApiError.internal, db)
        | ok journal ↦
            let (outcome, l₃) = post journal l₂ in
            record_payout (journal_id outcome) user bank amount reference now l₃ db
      ]

-- The checks of `create_payout` before it touches a table: the key, the amount, the PIN and the cap.
unfoldable pub check_request :
    Outside
    → Payer
    → Option Text
    → CreatePayoutBody
    → ℕ
    → List PayoutRow
    → Result ApiError (Text × ℤ)
check_request out user none body now payouts = err ApiError.bad_request
check_request out user (some key) body now payouts = do
  amount ← check_amount out.from_str body.amount_ngn
  check_pin out.verify_pin body.pin user.pin_hash
  check_cap (tier_of user.kyc_tier) amount (used_today user.id now payouts)
  ok (key, amount)

-- `create_payout`, with the reference that it draws. The provider's reference is new, so that the
-- table's constraint on it never fails.
unfoldable pub create_payout :
    Outside
    → Payer
    → Option Text
    → CreatePayoutBody
    → Text
    → ℕ
    → PayoutsDb
    → Result ApiError PayoutResponse × PayoutsDb
create_payout out user header body reference now db =
    elim (check_request out user header body now db.payouts) [
      | err e ↦ (err e, db)
      | ok (key, amount) ↦
          let (destination, db₁) =
            resolve_destination out.resolve_account user.id body.destination db in
          elim destination [
            | err e ↦ (err e, db₁)
            | ok id ↦ elim (find_bank id user.id db₁.bank_accounts) [
              | none ↦ (err ApiError.not_found, db₁)
              | some bank ↦ reserve user.id bank amount key reference now db₁
            ]
          ]
    ]
