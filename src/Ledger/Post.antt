-- ===== src/Ledger/Post.antt =====
-- `Journal::post` of crates/ledger/src/journal.rs, on the tables of the ledger.
pub mod Replay
pub mod Balance
pub mod Custody
use naivolt.Base.{
  ℕ, ◌+◌, Bool, Option, none, some, List, [], ◌∷◌, ◌++◌, map, if◌then◌else◌, ◌==◌, ◌&&◌,
}
use naivolt.Base.Int.{ℤ}
use naivolt.Base.Sums.{sum_where}
use naivolt.Base.Text.{Text, text_eq}
use naivolt.Core.Asset.{Asset, asset_index}
use naivolt.Ledger.Account.{Uuid, LedgerAccount}
use naivolt.Ledger.Journal.{JournalKind, Reference, Metadata, Entry, Journal}

-- A row of `ledger_journals`.
pub record JournalRow : Type 0 where
  pub id : Uuid
  pub kind : JournalKind
  pub reference : Reference
  pub idempotency_key : Text
  pub metadata : Metadata

-- A row of `ledger_entries`.
pub record EntryRow : Type 0 where
  pub journal_id : Uuid
  pub account_id : Uuid
  pub asset : Asset
  pub amount : ℤ

-- The tables of the ledger. `next_id` is the supply of new uuids, which never repeat.
pub record LedgerDb : Type 0 where
  pub accounts : List LedgerAccount
  pub journals : List JournalRow
  pub entries : List EntryRow
  pub next_id : Uuid

pub data PostOutcome : Type 0 where
  posted already_posted : Uuid → PostOutcome

abbrev pub journal_id : PostOutcome → Uuid
journal_id (PostOutcome.posted id) = id
journal_id (PostOutcome.already_posted id) = id

-- `SELECT … WHERE idempotency_key = $1`, on the unique key.
unfoldable pub find_journal : Text → List JournalRow → Option JournalRow
find_journal key [] = none
find_journal key (r ∷ rows) =
    if text_eq key r.idempotency_key then some r else find_journal key rows

abbrev pub to_row : Uuid → Entry → EntryRow
to_row id e = record {
  journal_id = id;
  account_id = e.account_id;
  asset = e.asset;
  amount = e.amount;
}

abbrev pub journal_row : Uuid → Journal → JournalRow
journal_row id j = record {
  id = id;
  kind = j.kind;
  reference = j.reference;
  idempotency_key = j.idempotency_key;
  metadata = j.metadata;
}

-- `ON CONFLICT (idempotency_key) DO NOTHING`: a key that is taken writes nothing.
unfoldable pub post : Journal → LedgerDb → PostOutcome × LedgerDb
post j db = elim (find_journal j.idempotency_key db.journals) [
  | some row ↦ (PostOutcome.already_posted row.id, db)
  | none ↦ (
    PostOutcome.posted db.next_id,
    record db {
      journals = db.journals ++ journal_row db.next_id j ∷ [];
      entries = db.entries ++ map (to_row db.next_id) j.entries;
      next_id = db.next_id + 1;
    },
  )
]

-- The view `ledger_balances`: what the entries of an account add up to.
unfoldable pub balance : Uuid → LedgerDb → ℤ
balance account db = sum_where (λ e. e.amount) (λ e. account == e.account_id) db.entries
