-- ===== src/Api/Tests/Funding.antt =====
-- Runs of top-ups, and instances of their theorems.
use naivolt.Base.{◌*◌, ◌≡◌, refl, true, false, none, some, [], ◌∷◌, All, ok, arith}
use naivolt.Base.Int.{pos, ℤ, unit, neg, ◌+ℤ◌}
use naivolt.Base.Sums.{sum_where}
use naivolt.Base.Text.{codes, text_eq}
use naivolt.Ledger.Account.{Uuid}
use naivolt.Ledger.Post.{LedgerDb, find_journal}
use naivolt.Ledger.Post.Balance.{journal_total, asset_total}
use naivolt.Watcher.Store.{find_account}
use naivolt.Api.Naira.Held.{held}
use naivolt.Api.Funding.{IntentRow, FundingDb, pending}
use naivolt.Api.Funding.Provider.{ChargeState, AnyFundingProvider, paystack, verify, paystack_state}
use naivolt.Api.Funding.Once.{Answer, Implements, has_charge, paid_by, accept, run, run-Implements}
use naivolt.Api.Funding.Sweep.{is_stale, sweep, due, is_due, by_age, insert_by_age}
use naivolt.Api.Funding.Sweeps.{asked, IsCredited, sweep-finishes}

abbrev pub empty_ledger : LedgerDb
empty_ledger = record { accounts = []; journals = []; entries = []; next_id = 20 }

abbrev pub top_up : IntentRow
top_up = record {
  id = 1;
  user_id = 7;
  amount_ngn = pos (5000 * unit);
  by_paystack = true;
  provider_reference = codes "NVFD-A";
  status = pending;
  credited_journal_id = none;
  failure_reason = none;
  created_at = 1000;
}

abbrev pub open_db : FundingDb
open_db = record { ledger = empty_ledger; deposits = top_up ∷ [] }

abbrev pub success : Answer
success = record {
  deposit_id = 1;
  user_id = 7;
  reference = codes "NVFD-A";
  state = ok (ChargeState.succeeded (pos (5000 * unit)));
}

-- A decline that comes late, about an intent that was credited.
abbrev late_decline : Answer
late_decline = record success { state = ok (ChargeState.failed (codes "declined")) }

abbrev pub nothing : Uuid → ℤ
nothing v = pos 0

pub empty-Implements : Implements nothing [] empty_ledger
unfolding journal_total asset_total sum_where find_journal has_charge held find_account paid_by neg
    ◌+ℤ◌
empty-Implements = record {
  numbered = record { drawn = tt; distinct = tt; entries_drawn = tt };
  balanced = record { numbered = tt; by_journal = λ id a. refl; by_asset = λ a. refl };
  taken = λ reference. refl;
  holds = λ v. refl;
}

run-Implements_example :
    Implements nothing
      (accept (success ∷ success ∷ late_decline ∷ []) [])
      (run (success ∷ success ∷ late_decline ∷ []) open_db).ledger
run-Implements_example =
    run-Implements nothing [] (success ∷ success ∷ late_decline ∷ []) open_db (omega arith)
      empty-Implements

-- Paystack says that it took 5,000 naira for every reference.
abbrev provider : AnyFundingProvider
provider = paystack (λ reference.
    ok (some (record { status = codes "success"; amount = pos 500_000; gateway_response = none })))

sweep-finishes_example :
    let after = sweep provider 60_000 60_500 open_db in
    Implements nothing (accept ((asked provider top_up) ∷ []) []) after.ledger
    × (IsCredited provider after top_up × Unit {0})
    × All (λ r. is_stale 60_500 r ≡ false) after.deposits
unfolding due is_due by_age insert_by_age verify paystack_state text_eq
sweep-finishes_example =
    sweep-finishes nothing [] provider 60_000 60_500 open_db (omega arith) empty-Implements
