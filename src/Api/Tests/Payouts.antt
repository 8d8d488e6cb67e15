-- ===== src/Api/Tests/Payouts.antt =====
-- Runs of payouts, and instances of their theorems: a user topped up 5,000 naira, and withdraws.
use naivolt.Base.{
  Bool-cases, inl, inr, ◌==◌, ◌*◌, ◌≡◌, refl, true, none, some, [], ◌∷◌, Result, ok, err, arith,
}
use naivolt.Base.Int.{pos, ℤ, unit, neg, ◌+ℤ◌, ◌-ℤ◌, ◌≤ℤ◌}
use naivolt.Base.Sums.{sum_where}
use naivolt.Base.Text.{Text, codes, text_eq}
use naivolt.Core.Asset.{Asset, asset_index}
use naivolt.Ledger.Account.{Uuid, AccountKind, kind_index, user_facing_balance, is_liability}
use naivolt.Ledger.Journal.{
  JournalKind, Reference, Metadata, new, entry, with_metadata, build, sum_entries, add_to,
  check_sums, check_custody, is_custody_only,
}
use naivolt.Ledger.Post.{LedgerDb, JournalRow, find_journal, balance, post}
use naivolt.Watcher.Store.{account_id, find_account, matches_account}
use naivolt.Auth.Identifier.{trim, trim_start, trim_end}
use naivolt.Auth.Tier.{tier1, from_i16, daily_payout_cap, check_payout}
use naivolt.Api.Error.{ApiError}
use naivolt.Api.Naira.{Decimal}
use naivolt.Api.Funding.{settle, credit_deposit, credit_journal, find_intent, set_pending}
use naivolt.Api.Funding.Once.{
  Implements, run, run-Implements, paid_by, accept, accept_one, has_charge,
}
use naivolt.Api.Naira.Solvent.{IsSolvent}
use naivolt.Api.Naira.Transfer.{Transferred}
use naivolt.Api.Payouts.{
  check_request, check_amount, check_pin, check_cap, resolve_destination, find_bank, reserve,
  reserve_journal, record_payout, PayoutRow, BankRow, PayoutsDb, PayoutResponse, Payer, Outside,
  CreatePayoutBody, beneficiary, create_payout, used_today, reserved, find_payout,
}
use naivolt.Api.Payouts.Reserve.{Adds}
use naivolt.Api.Payouts.Keep.{IsSafe}
use naivolt.Api.Payouts.Request.{create_payout-IsSafe, create_payout-reserves}
use naivolt.Api.Payouts.Replays.{
  SameHeld, IsRefused, Repeats, create_payout-again, create_payout-unfunded,
}
use naivolt.Api.Tests.Funding.{open_db, success, nothing, empty-Implements}

-- The ledger after the top-up.
abbrev credit_row : JournalRow
credit_row = record {
  id = 22;
  kind = JournalKind.ngn_deposit;
  reference = Reference.text (codes "NVFD-A");
  idempotency_key = codes "NVFD-A:credit";
  metadata = Metadata.null;
}

abbrev pub funded : LedgerDb
funded = record {
  accounts =
      record { id = 20; kind = AccountKind.user_ngn; user_id = some 7; asset = Asset.ngn }
      ∷ record { id = 21; kind = AccountKind.ngn_float; user_id = none; asset = Asset.ngn }
      ∷ [];
  journals = credit_row ∷ [];
  entries =
      record { journal_id = 22; account_id = 21; asset = Asset.ngn; amount = pos (5000 * unit) }
      ∷ record {
        journal_id = 22;
        account_id = 20;
        asset = Asset.ngn;
        amount = neg (pos (5000 * unit));
      }
      ∷ [];
  next_id = 23;
}

funded-run : (run (success ∷ []) open_db).ledger ≡ funded
unfolding run settle credit_deposit credit_journal find_intent set_pending new entry build
    sum_entries add_to check_sums check_custody is_custody_only account_id find_account
    matches_account find_journal post asset_index kind_index ◌+ℤ◌ neg text_eq
funded-run = refl

abbrev bank : BankRow
bank = record {
  id = 5;
  user_id = 7;
  bank_code = codes "058";
  account_number = codes "0123456789";
  account_name = codes "ADA OBI";
}

abbrev pub start : PayoutsDb
start = record { ledger = funded; payouts = []; bank_accounts = bank ∷ [] }

abbrev pub ada : Payer
ada = record { id = 7; pin_hash = some (codes "hash"); kyc_tier = pos 1 }

abbrev pub outside : Outside
outside = record {
  from_str = λ s. some (record { value = pos (1000 * unit); scale = 0 });
  verify_pin = λ pin hash. some true;
  resolve_account = λ code number. err ApiError.service_unavailable;
}

abbrev pub body : CreatePayoutBody
body = record { amount_ngn = codes "1000"; destination = beneficiary 5; pin = codes "428193" }

pub implemented : Implements nothing (accept (success ∷ []) []) funded
implemented =
    rw (← funded-run)
      (run-Implements nothing [] (success ∷ []) open_db (omega arith) empty-Implements)

solvent : IsSolvent funded
unfolding accept accept_one has_charge paid_by sum_where neg ◌+ℤ◌
solvent v = rw (implemented.holds v) (elim (Bool-cases (v == 7)) [
  | inl mine ↦ rw mine (omega arith)
  | inr other ↦ rw other (omega arith)
])

pub start-IsSafe : IsSafe start
start-IsSafe = record {
  drawn = record { numbered = implemented.numbered; ids_drawn = omega arith; journals_drawn = tt };
  balanced = implemented.balanced;
  solvent = solvent;
}

-- What a withdrawal of 1,000 naira is answered with.
abbrev told_as : Uuid → PayoutResponse
told_as id = record {
  id = id;
  amount_ngn = pos (1000 * unit);
  fee = pos 0;
  account_number = codes "0123456789";
  account_name = codes "ADA OBI";
  status = reserved;
  reference = codes "NVLT-1";
  created_at = 1000;
}

abbrev ask : Text → Result ApiError PayoutResponse × PayoutsDb
ask key = create_payout outside ada (some key) body (codes "NVLT-1") 1000 start

first_told : (ask (codes "k1")).0 ≡ ok (told_as 25)
unfolding create_payout check_request check_amount check_pin check_cap resolve_destination find_bank
    reserve reserve_journal record_payout find_payout used_today sum_where user_facing_balance
    is_liability new entry with_metadata build sum_entries add_to check_sums check_custody
    is_custody_only account_id find_account matches_account find_journal post balance asset_index
    kind_index ◌+ℤ◌ ◌-ℤ◌ neg text_eq trim trim_start trim_end from_i16 daily_payout_cap check_payout
first_told = refl

-- A withdrawal under the key of the top-up's credit is answered too.
unfunded_told : (ask (codes "NVFD-A:credit")).0 ≡ ok (told_as 24)
unfolding create_payout check_request check_amount check_pin check_cap resolve_destination find_bank
    reserve reserve_journal record_payout find_payout used_today sum_where user_facing_balance
    is_liability new entry with_metadata build sum_entries add_to check_sums check_custody
    is_custody_only account_id find_account matches_account find_journal post balance asset_index
    kind_index ◌+ℤ◌ ◌-ℤ◌ neg text_eq trim trim_start trim_end from_i16 daily_payout_cap check_payout
unfunded_told = refl

create_payout-IsSafe_example : IsSafe (ask (codes "k1")).1
create_payout-IsSafe_example =
    create_payout-IsSafe outside ada (some (codes "k1")) body (codes "NVLT-1") 1000 start
      start-IsSafe

create_payout-reserves_example :
    (asked : Decimal) × (outside.from_str (trim body.amount_ngn) ≡ some asked)
    × (b : BankRow) × (cap_ : ℤ) × (b.user_id ≡ 7)
    × Adds 7 asked.value b 1000 [] (ask (codes "k1"))
    × Transferred funded
        (ask (codes "k1")).1.ledger
        AccountKind.user_ngn
        (some 7)
        asked.value
        AccountKind.ngn_payable_pending
        none
        (neg asked.value)
        (codes "k1")
    × (daily_payout_cap tier1 ≡ some cap_)
    × (used_today 7 1000 (ask (codes "k1")).1.payouts ≤ℤ cap_)
unfolding find_journal text_eq from_i16
create_payout-reserves_example =
    create_payout-reserves outside ada (codes "k1") body (codes "NVLT-1") 1000 start
      {told = told_as 25} start-IsSafe refl first_told

create_payout-unfunded_example :
    (x : ℤ) × (b : BankRow) × Adds 7 x b 1000 [] (ask (codes "NVFD-A:credit"))
    × SameHeld start (ask (codes "NVFD-A:credit")).1
unfolding find_journal text_eq find_payout
create_payout-unfunded_example =
    create_payout-unfunded outside ada (codes "NVFD-A:credit") body (codes "NVLT-1") 1000 start
      (told_as 24) start-IsSafe credit_row refl unfunded_told refl

-- The tables with a payout that the top-up's journal is taken for.
abbrev earlier_payout : PayoutRow
earlier_payout = record {
  id = 9;
  user_id = 8;
  bank_account_id = 5;
  amount_ngn = pos (200 * unit);
  fee_ngn = pos 0;
  status = reserved;
  provider_reference = codes "NVLT-0";
  reserved_journal_id = 22;
  created_at = 10;
}

abbrev started : PayoutsDb
started = record start { payouts = earlier_payout ∷ [] }

started-IsSafe : IsSafe started
started-IsSafe = record {
  drawn = record {
    numbered = implemented.numbered;
    ids_drawn = omega arith;
    journals_drawn = omega arith;
  };
  balanced = implemented.balanced;
  solvent = solvent;
}

abbrev ask_again : Result ApiError PayoutResponse × PayoutsDb
ask_again =
    create_payout outside ada (some (codes "NVFD-A:credit")) body (codes "NVLT-1") 1000 started

create_payout-again_example :
    Repeats
      (IsRefused outside ada (codes "NVFD-A:credit") body 1000 started)
      ada
      earlier_payout
      started
      ask_again
unfolding find_journal text_eq find_payout
create_payout-again_example =
    create_payout-again outside ada (codes "NVFD-A:credit") body (codes "NVLT-1") 1000 started
      credit_row earlier_payout started-IsSafe refl refl
