-- ===== src/Ledger/Tests.antt =====
-- Runs of the ledger, and instances of its theorems.
use naivolt.Base.{◌≡◌, ◌↔◌, refl, ok, err, none, some, List, [], ◌∷◌, arith}
use naivolt.Base.Int.{pos, negsuc, ◌+ℤ◌}
use naivolt.Base.Text.{codes}
use naivolt.Core.Asset.{Asset, asset_index}
use naivolt.Ledger.Account.{AccountKind, LedgerAccount, is_liability}
use naivolt.Ledger.Journal.{
  JournalKind, Reference, Metadata, Entry, Journal, JournalBuilder, LedgerError, is_custody_only,
  build, sum_entries, check_sums, add_to,
}
use naivolt.Ledger.Journal.Build.{IsSound, finished, build_iff}
use naivolt.Ledger.Journal.Build.Totals.{total}
use naivolt.Base.Sums.{sum_where}
use naivolt.Ledger.Post.{LedgerDb, PostOutcome, journal_id, post, balance}
use naivolt.Ledger.Post.Replay.{post-post}
use naivolt.Ledger.Post.Balance.{IsBalanced, journal_total, asset_total, post-IsBalanced}
use naivolt.Ledger.Post.Custody.{Agrees, kind_of, custody-balance}

-- A credit of five units: custody up, the user's liability up.
abbrev credit_entries : List Entry
credit_entries =
    record {
      account_id = 1;
      account_kind = AccountKind.custody_deposit_addrs;
      asset = Asset.usdt;
      amount = pos 5;
    }
    ∷ record {
      account_id = 2;
      account_kind = AccountKind.user_crypto;
      asset = Asset.usdt;
      amount = negsuc 4;
    }
    ∷ []

abbrev credit_builder : JournalBuilder
credit_builder = record {
  kind = JournalKind.deposit_credit;
  reference = Reference.uuid 9;
  idempotency_key = codes "deposit:9";
  entries = credit_entries;
  metadata = Metadata.null;
}

-- A sweep of three units from the deposit addresses to the hot wallet.
abbrev sweep_entries : List Entry
sweep_entries =
    record {
      account_id = 1;
      account_kind = AccountKind.custody_deposit_addrs;
      asset = Asset.usdt;
      amount = negsuc 2;
    }
    ∷ record {
      account_id = 3;
      account_kind = AccountKind.custody_hot;
      asset = Asset.usdt;
      amount = pos 3;
    }
    ∷ []

abbrev sweep : Journal
sweep = record {
  kind = JournalKind.sweep;
  reference = Reference.uuid 10;
  idempotency_key = codes "sweep:10";
  entries = sweep_entries;
  metadata = Metadata.null;
}

abbrev accounts : List LedgerAccount
accounts =
    record { id = 1; kind = AccountKind.custody_deposit_addrs; user_id = none; asset = Asset.usdt }
    ∷ record { id = 2; kind = AccountKind.user_crypto; user_id = some 7; asset = Asset.usdt }
    ∷ record { id = 3; kind = AccountKind.custody_hot; user_id = none; asset = Asset.usdt }
    ∷ []

abbrev opened : LedgerDb
opened = record { accounts = accounts; journals = []; entries = []; next_id = 20 }

total_off : (a : Asset) → total a credit_entries ≡ pos 0
unfolding total sum_where asset_index ◌+ℤ◌
total_off a = ground arith

credit-IsSound : IsSound JournalKind.deposit_credit credit_entries
unfolding is_custody_only
credit-IsSound = record {
  enough = omega arith;
  nonzero = (refl, (refl, tt));
  balanced = total_off;
  custody = λ e. ground arith;
}

sweep-IsSound : IsSound JournalKind.sweep sweep_entries
unfolding is_liability total sum_where asset_index ◌+ℤ◌
sweep-IsSound = record {
  enough = omega arith;
  nonzero = (refl, (refl, tt));
  balanced = λ a. ground arith;
  custody = λ e. (refl, (refl, tt));
}

build_iff_example : (build credit_builder ≡ ok (finished credit_builder)) ↔ (
    IsSound JournalKind.deposit_credit credit_entries
    × (finished credit_builder ≡ finished credit_builder))
build_iff_example = build_iff credit_builder (finished credit_builder)

-- The second entry is one short.
abbrev short_builder : JournalBuilder
short_builder = record credit_builder {
  entries =
      record {
        account_id = 1;
        account_kind = AccountKind.custody_deposit_addrs;
        asset = Asset.usdt;
        amount = pos 5;
      }
      ∷ record {
        account_id = 2;
        account_kind = AccountKind.user_crypto;
        asset = Asset.usdt;
        amount = negsuc 3;
      }
      ∷ [];
}

short_refused : build short_builder ≡ err (LedgerError.unbalanced Asset.usdt (pos 1))
unfolding build sum_entries add_to check_sums asset_index ◌+ℤ◌
short_refused = refl

post-post_example : post (finished credit_builder) (post (finished credit_builder) opened).1 ≡ (
  PostOutcome.already_posted (journal_id (post (finished credit_builder) opened).0),
  (post (finished credit_builder) opened).1,
)
post-post_example = post-post (finished credit_builder) (finished credit_builder) opened refl

opened-IsBalanced : IsBalanced opened
unfolding journal_total asset_total sum_where
opened-IsBalanced = record { numbered = tt; by_journal = λ id a. refl; by_asset = λ a. refl }

post-IsBalanced_example : IsBalanced (post (finished credit_builder) opened).1
post-IsBalanced_example =
    post-IsBalanced (finished credit_builder) opened credit-IsSound opened-IsBalanced

sweep-Agrees : Agrees opened sweep_entries
unfolding kind_of
sweep-Agrees = (refl, (refl, tt))

user_known : kind_of 2 accounts ≡ some AccountKind.user_crypto
unfolding kind_of
user_known = refl

custody-balance_example : balance 2 (post sweep opened).1 ≡ balance 2 opened
custody-balance_example =
    custody-balance sweep opened 2 AccountKind.user_crypto sweep-IsSound
      (unfold is_custody_only in refl) sweep-Agrees user_known (unfold is_liability in refl)
