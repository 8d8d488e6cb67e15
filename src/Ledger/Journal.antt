-- ===== src/Ledger/Journal.antt =====
-- crates/ledger/src/journal.rs: a journal is built from its entries, and refused unless it is
-- balanced in every asset.
pub mod Build
use naivolt.Base.{
  ℕ, ltb, Bool, true, false, Option, none, some, List, [], ◌∷◌, ◌++◌, length, if◌then◌else◌, ◌==◌,
  Result, ok, err, ◌>>=◌, ◌>>◌,
}
use naivolt.Base.Int.{ℤ, pos, ◌+ℤ◌, is_zero}
use naivolt.Base.Text.{Text, codes}
use naivolt.Core.Asset.{Asset, asset_index}
use naivolt.Ledger.Account.{Uuid, AccountKind, is_liability}

pub data JournalKind : Type 0 where
  deposit_credit deposit_reversal sweep gas_spend sell : JournalKind
  payout_reserve payout_settle payout_reversal ngn_deposit : JournalKind
  number_reserve number_settle number_refund adjustment : JournalKind

unfoldable pub is_custody_only : JournalKind → Bool
is_custody_only JournalKind.sweep = true
is_custody_only JournalKind.gas_spend = true
is_custody_only _ = false

unfoldable pub as_str : JournalKind → Text
as_str JournalKind.deposit_credit = codes "deposit_credit"
as_str JournalKind.deposit_reversal = codes "deposit_reversal"
as_str JournalKind.sweep = codes "sweep"
as_str JournalKind.gas_spend = codes "gas_spend"
as_str JournalKind.sell = codes "sell"
as_str JournalKind.payout_reserve = codes "payout_reserve"
as_str JournalKind.payout_settle = codes "payout_settle"
as_str JournalKind.payout_reversal = codes "payout_reversal"
as_str JournalKind.ngn_deposit = codes "ngn_deposit"
as_str JournalKind.number_reserve = codes "number_reserve"
as_str JournalKind.number_settle = codes "number_settle"
as_str JournalKind.number_refund = codes "number_refund"
as_str JournalKind.adjustment = codes "adjustment"

-- A reference is a text, or the printed form of a uuid, for which the uuid stands.
pub data Reference : Type 0 where
  text : Text → Reference
  uuid : Uuid → Reference

-- A JSON value: null, or an object of texts and numbers.
pub data Scalar : Type 0 where
  str : Text → Scalar
  num : ℤ → Scalar

pub data Metadata : Type 0 where
  null : Metadata
  object : List (Text × Scalar) → Metadata

pub record Entry : Type 0 where
  pub account_id : Uuid
  pub account_kind : AccountKind
  pub asset : Asset
  pub amount : ℤ

pub record Journal : Type 0 where
  pub kind : JournalKind
  pub reference : Reference
  pub idempotency_key : Text
  pub entries : List Entry
  pub metadata : Metadata

pub record JournalBuilder : Type 0 where
  pub kind : JournalKind
  pub reference : Reference
  pub idempotency_key : Text
  pub entries : List Entry
  pub metadata : Metadata

unfoldable pub new : JournalKind → Reference → Text → JournalBuilder
new kind reference key = record {
  kind = kind;
  reference = reference;
  idempotency_key = key;
  entries = [];
  metadata = Metadata.null;
}

unfoldable pub entry : JournalBuilder → Uuid → AccountKind → Asset → ℤ → JournalBuilder
entry b id kind asset amount = record b {
  entries =
      b.entries
      ++ record { account_id = id; account_kind = kind; asset = asset; amount = amount } ∷ [];
}

unfoldable pub with_metadata : JournalBuilder → Metadata → JournalBuilder
with_metadata b m = record b { metadata = m }

pub data LedgerError : Type 0 where
  too_few_entries : ℕ → LedgerError
  unbalanced : Asset → ℤ → LedgerError
  zero_amount : Uuid → LedgerError
  custody_journal_touched_liability : JournalKind → Uuid → LedgerError

-- The `HashMap<Asset, Decimal>` of `build`, in the order of the first insertions.
abbrev pub Sums : Type 0
Sums = List (Asset × ℤ)

-- `*sums.entry(asset).or_default() += amount`
unfoldable pub add_to : Asset → ℤ → Sums → Sums
add_to a x [] = (a, pos 0 +ℤ x) ∷ []
add_to a x ((b, y) ∷ sums) =
    if asset_index a == asset_index b then (b, y +ℤ x) ∷ sums else (b, y) ∷ add_to a x sums

-- The first loop of `build`.
unfoldable pub sum_entries : List Entry → Sums → Result LedgerError Sums
sum_entries [] sums = ok sums
sum_entries (e ∷ es) sums =
    let rest = sum_entries es (add_to e.asset e.amount sums) in
    if is_zero e.amount then err (LedgerError.zero_amount e.account_id) else rest

-- The second loop of `build`.
unfoldable pub check_sums : Sums → Result LedgerError (Unit {0})
check_sums [] = ok tt
check_sums ((a, s) ∷ sums) = if is_zero s then check_sums sums else err (LedgerError.unbalanced a s)

-- `entries.iter().find(|e| e.account_kind.is_liability())`
unfoldable pub find_liability : List Entry → Option Entry
find_liability [] = none
find_liability (e ∷ es) = if is_liability e.account_kind then some e else find_liability es

unfoldable pub check_custody : JournalKind → List Entry → Result LedgerError (Unit {0})
check_custody k es =
    if is_custody_only k
    then elim (find_liability es) [
      | none ↦ ok tt
      | some bad ↦ err (LedgerError.custody_journal_touched_liability k bad.account_id)
    ]
    else ok tt

unfoldable pub build : JournalBuilder → Result LedgerError Journal
build b =
    if ltb (length b.entries) 2 then err (LedgerError.too_few_entries (length b.entries)) else do
      sums ← sum_entries b.entries []
      check_sums sums
      check_custody b.kind b.entries
      ok record {
        kind = b.kind;
        reference = b.reference;
        idempotency_key = b.idempotency_key;
        entries = b.entries;
        metadata = b.metadata;
      }
