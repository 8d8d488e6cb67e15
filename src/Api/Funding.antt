-- ===== src/Api/Funding.antt =====
-- crates/api/src/funding_routes.rs: top-ups of a naira balance by card. Instants are in milliseconds.
pub mod Provider
pub mod Sweep
pub mod Credit
pub mod Once
pub mod Sweeps
use naivolt.Base.{
  not, ℕ, ◌+◌, ◌*◌, ltb, ◌==◌, ◌&&◌, ◌||◌, Bool, true, false, Option, none, some, List, [], ◌∷◌,
  ◌++◌, Result, ok, err, if◌then◌else◌,
}
use naivolt.Base.Int.{ℤ, pos, neg, ltb_ℤ, unit}
use naivolt.Base.Text.{Text, codes, text_eq}
use naivolt.Core.Asset.{Asset}
use naivolt.Ledger.Account.{Uuid, AccountKind}
use naivolt.Ledger.Journal.{JournalKind, Reference, Journal, LedgerError, new, entry, build}
use naivolt.Ledger.Post.{LedgerDb, journal_id, post}
use naivolt.Auth.Identifier.{trim}
use naivolt.Api.Error.{ApiError}
use naivolt.Api.Naira.{Decimal, lock_user_ngn_account, platform_account}
use naivolt.Api.Funding.Provider.{ChargeState, AnyFundingProvider, verify, is_live}

pub data IntentStatus : Type 0 where
  pending succeeded failed abandoned : IntentStatus

-- `status = 'pending'`
abbrev pub is_pending : IntentStatus → Bool
is_pending pending = true
is_pending _ = false

-- A row of `ngn_deposits`. `by_paystack` is whether its provider is 'paystack' and not 'stub'.
pub record IntentRow : Type 0 where
  pub id : Uuid
  pub user_id : Uuid
  pub amount_ngn : ℤ
  pub by_paystack : Bool
  pub provider_reference : Text
  pub status : IntentStatus
  pub credited_journal_id : Option Uuid
  pub failure_reason : Option Text
  pub created_at : ℕ

pub record FundingDb : Type 0 where
  pub ledger : LedgerDb
  pub deposits : List IntentRow

unfoldable pub find_intent : Uuid → List IntentRow → Option IntentRow
find_intent id [] = none
find_intent id (r ∷ rows) = if id == r.id then some r else find_intent id rows

-- `UPDATE ngn_deposits SET … WHERE id = $1 AND status = 'pending'`
unfoldable pub set_pending : Uuid → (IntentRow → IntentRow) → List IntentRow → List IntentRow
set_pending id f [] = []
set_pending id f (r ∷ rows) =
    (if (id == r.id) && is_pending r.status then f r else r) ∷ set_pending id f rows

-- The credit of a charge: the float holds the money, and owes it to the user.
unfoldable pub credit_journal : Uuid → Uuid → Text → ℤ → Result LedgerError Journal
credit_journal float user_account reference amount_ngn = build (
    entry
      (entry (new JournalKind.ngn_deposit (Reference.text reference) (reference ++ codes ":credit"))
        float AccountKind.ngn_float Asset.ngn amount_ngn)
      user_account AccountKind.user_ngn Asset.ngn (neg amount_ngn))

abbrev pub credited_as : ℤ → Uuid → IntentRow → IntentRow
credited_as amount_ngn journal r = record r {
  status = succeeded;
  amount_ngn = amount_ngn;
  credited_journal_id = some journal;
}

-- `credit_deposit`, one transaction: the table's `CHECK (amount_ngn > 0)` rolls it back with the rest.
unfoldable pub credit_deposit :
    Uuid → Uuid → Text → ℤ → FundingDb → Result ApiError (Unit {0}) × FundingDb
credit_deposit deposit_id user_id reference amount_ngn db =
    let (user_account, l₁) = lock_user_ngn_account user_id db.ledger in
    let (float, l₂) = platform_account AccountKind.ngn_float l₁ in
    elim (credit_journal float user_account reference amount_ngn) [
      | err e ↦ (err ApiError.internal, db)
      | ok journal ↦
          let (outcome, l₃) = post journal l₂ in
          let after = record db {
            ledger = l₃;
            deposits =
                set_pending deposit_id (credited_as amount_ngn (journal_id outcome)) db.deposits;
          } in
          elim (find_intent deposit_id db.deposits) [
            | none ↦ (ok tt, after)
            | some r ↦
                if is_pending r.status && ltb_ℤ amount_ngn (pos 1)
                then (err ApiError.internal, db)
                else (ok tt, after)
          ]
    ]

abbrev pub failed_as : Text → IntentRow → IntentRow
failed_as reason r = record r { status = failed; failure_reason = some reason }

-- `settle` on the provider's answer; the status is the one that the caller is told.
unfoldable pub settle :
    Result ApiError ChargeState
    → Uuid
    → Uuid
    → Text
    → FundingDb
    → Result ApiError IntentStatus × FundingDb
settle (err e) id user_id reference db = (ok pending, db)
settle (ok ChargeState.pending) id user_id reference db = (ok pending, db)
settle (ok (ChargeState.failed reason)) id user_id reference db =
    (ok failed, record db { deposits = set_pending id (failed_as reason) db.deposits })
settle (ok (ChargeState.succeeded amount_ngn)) id user_id reference db =
    let (outcome, after) = credit_deposit id user_id reference amount_ngn db in
    elim outcome [ err e ↦ (err e, after) | ok done ↦ (ok succeeded, after) ]

-- `get_intent`: an intent that is still open is settled first.
unfoldable pub get_intent :
    AnyFundingProvider → Uuid → Uuid → FundingDb → Result ApiError IntentStatus × FundingDb
get_intent provider user_id id db = elim (find_intent id db.deposits) [
  | none ↦ (err ApiError.not_found, db)
  | some r ↦
      if not (user_id == r.user_id)
      then (err ApiError.not_found, db)
      else if is_pending r.status
      then settle (verify provider r.provider_reference r.amount_ngn) id user_id
          r.provider_reference db
      else (ok r.status, db)
]

abbrev pub min_funding_ngn : ℕ
min_funding_ngn = 100

abbrev pub max_funding_ngn : ℕ
max_funding_ngn = 1_000_000

-- The checks of `create_intent` on the amount, with the parser of decimals as a parameter.
unfoldable pub check_amount : (Text → Option Decimal) → Text → Result ApiError ℤ
check_amount from_str amount_ngn = elim (from_str (trim amount_ngn)) [
  | none ↦ err ApiError.bad_request
  | some amount ↦
      if ltb_ℤ amount.value (pos (min_funding_ngn * unit))
      then err ApiError.bad_request
      else if ltb_ℤ (pos (max_funding_ngn * unit)) amount.value
      then err ApiError.bad_request
      else if ltb 2 amount.scale
      then err ApiError.bad_request
      else ok amount.value
]

unfoldable pub has_reference : Text → List IntentRow → Bool
has_reference reference [] = false
has_reference reference (r ∷ rows) =
    text_eq reference r.provider_reference || has_reference reference rows

-- `create_intent`: the row is there before the provider is asked to start the charge, whether or not
-- it then does. The new reference is given, and refused if it is taken.
unfoldable pub create_intent :
    (Text → Option Decimal)
    → (Text → ℤ → Text → Result ApiError (Option Text))
    → Bool
    → Uuid
    → Option Text
    → Text
    → Text
    → ℕ
    → FundingDb
    → Result ApiError (Uuid × Option Text) × FundingDb
create_intent from_str initialize live user_id email amount_ngn reference now db =
    elim (check_amount from_str amount_ngn) [
      | err e ↦ (err e, db)
      | ok amount ↦ elim email [
        | none ↦ (err ApiError.bad_request, db)
        | some address ↦
            if has_reference reference db.deposits
            then (err ApiError.internal, db)
            else let id = db.ledger.next_id in
              let row : IntentRow = record {
                id = id;
                user_id = user_id;
                amount_ngn = amount;
                by_paystack = live;
                provider_reference = reference;
                status = pending;
                credited_journal_id = none;
                failure_reason = none;
                created_at = now;
              } in
              let after : FundingDb = record db {
                ledger = record db.ledger { next_id = id + 1 };
                deposits = db.deposits ++ row ∷ [];
              } in
              elim (initialize address amount reference) [
                | err e ↦ (err e, after)
                | ok url ↦ (ok (id, url), after)
              ]
      ]
    ]
