-- ===== src/Api/Funding/Sweeps.antt =====
-- A sweep credits every charge that it finds to have succeeded, and leaves no stale top-up open.
use naivolt.Base.{
  ◌∙◌, is_some, All-map, ℕ, ◌≡◌, refl, true, false, List, [], ◌∷◌, map, take, Result, ok, err, All,
  arith,
}
use naivolt.Base.Int.{ℤ}
use naivolt.Base.Text.{Text, text_eq_refl}
use naivolt.Ledger.Account.{Uuid}
use naivolt.Ledger.Post.{find_journal}
use naivolt.Api.Error.{ApiError}
use naivolt.Api.Funding.{IntentRow, FundingDb, settle}
use naivolt.Api.Funding.Provider.{ChargeState, AnyFundingProvider, verify}
use naivolt.Api.Funding.Credit.{credit_key}
use naivolt.Api.Funding.Once.{
  run-Implements, Implements, Charge, Answer, IsPositive, has_charge, accept_one, accept, run,
}
use naivolt.Api.Funding.Sweep.{sweep, batch, due, by_age, settle_all, is_stale, abandon_stale}

-- The answer about an intent.
abbrev pub asked : AnyFundingProvider → IntentRow → Answer
asked provider r = record {
  deposit_id = r.id;
  user_id = r.user_id;
  reference = r.provider_reference;
  state = verify provider r.provider_reference r.amount_ngn;
}

-- The intents that a sweep asks about.
abbrev pub selected : ℕ → FundingDb → List IntentRow
selected now db = take batch (by_age (due now db.deposits))

settle_all-run :
    (provider : AnyFundingProvider) (rows : List IntentRow) (db : FundingDb)
    → settle_all provider rows db ≡ run (map (asked provider) rows) db
unfolding settle_all run
settle_all-run provider [] db = refl
settle_all-run provider (r ∷ rows) db =
    settle_all-run provider rows
      (settle (verify provider r.provider_reference r.amount_ngn) r.id r.user_id
        r.provider_reference db).1

-- A charge stays.
accept_one-keeps :
    (reference other : Text) (user : Uuid) (state : Result ApiError ChargeState)
    (charges : List Charge)
    → has_charge reference charges ≡ true
    → has_charge reference (accept_one other user state charges) ≡ true
unfolding accept_one has_charge
accept_one-keeps reference other user (err e) charges h = h
accept_one-keeps reference other user (ok ChargeState.pending) charges h = h
accept_one-keeps reference other user (ok (ChargeState.failed reason)) charges h = h
accept_one-keeps reference other user (ok (ChargeState.succeeded x)) charges h = ground arith

accept-keeps :
    (reference : Text) (answers : List Answer) (charges : List Charge)
    → has_charge reference charges ≡ true
    → has_charge reference (accept answers charges) ≡ true
unfolding accept
accept-keeps reference [] charges h = h
accept-keeps reference (a ∷ answers) charges h =
    accept-keeps reference answers (accept_one a.reference a.user_id a.state charges)
      (accept_one-keeps reference a.reference a.user_id a.state charges h)

accept_one-has :
    (reference : Text) (user : Uuid) (x : ℤ) (charges : List Charge)
    → has_charge reference (accept_one reference user (ok (ChargeState.succeeded x)) charges) ≡ true
unfolding accept_one has_charge
accept_one-has reference user x charges = ground (arith, text_eq_refl reference)

-- Every success that was heard of is a charge.
Heard : AnyFundingProvider → List Charge → IntentRow → Type 0
Heard provider charges r =
    (x : ℤ)
    → verify provider r.provider_reference r.amount_ngn ≡ ok (ChargeState.succeeded x)
    → has_charge r.provider_reference charges ≡ true

accept-Heard :
    (provider : AnyFundingProvider) (rows : List IntentRow) (charges : List Charge)
    → All (Heard provider (accept (map (asked provider) rows) charges)) rows
unfolding accept Heard
accept-Heard provider [] charges = tt
accept-Heard provider (r ∷ rows) charges = (
  λ x e.
      accept-keeps r.provider_reference (map (asked provider) rows) _
        (rw e (accept_one-has r.provider_reference r.user_id x charges)),
  accept-Heard provider rows (
      accept_one r.provider_reference r.user_id (verify provider r.provider_reference r.amount_ngn)
        charges),
)

abandon_stale-All :
    (now : ℕ) (rows : List IntentRow) → All (λ r. is_stale now r ≡ false) (abandon_stale now rows)
unfolding abandon_stale is_stale
abandon_stale-All now [] = tt
abandon_stale-All now (r ∷ rows) = (ground arith, abandon_stale-All now rows)

-- What the provider says of an intent is positive.
abbrev pub AnswersPositive : AnyFundingProvider → IntentRow → Type 0
AnswersPositive provider r = IsPositive (verify provider r.provider_reference r.amount_ngn)

All-asked :
    (provider : AnyFundingProvider) (rows : List IntentRow)
    → All (AnswersPositive provider) rows
    → All (λ a. IsPositive a.state) (map (asked provider) rows)
All-asked provider [] p = tt
All-asked provider (r ∷ rows) p = (p.0, All-asked provider rows p.1)

-- A charge of the intent was credited, if the provider says that it succeeded.
abbrev pub IsCredited : AnyFundingProvider → FundingDb → IntentRow → Type 0
IsCredited provider after r =
    (x : ℤ)
    → verify provider r.provider_reference r.amount_ngn ≡ ok (ChargeState.succeeded x)
    → is_some (find_journal (credit_key r.provider_reference) after.ledger.journals) ≡ true

-- A sweep implements the charges that its answers report, credits every selected intent whose charge
-- succeeded, and afterwards no intent of Paystack is open that was made more than a day before.
pub sweep-finishes :
    (start : Uuid → ℤ) (charges : List Charge) (provider : AnyFundingProvider) (now later : ℕ)
    (db : FundingDb)
    → All (AnswersPositive provider) (selected now db)
    → Implements start charges db.ledger
    → let after = sweep provider now later db in
      Implements start (accept (map (asked provider) (selected now db)) charges) after.ledger
      × All (IsCredited provider after) (selected now db)
      × All (λ r. is_stale later r ≡ false) after.deposits
unfolding sweep Heard
sweep-finishes start charges provider now later db p h =
    let rows = selected now db in
    let implemented : Implements start (accept (map (asked provider) rows) charges)
        (settle_all provider rows db).ledger =
      rw (settle_all-run provider rows db) (
        run-Implements start charges (map (asked provider) rows) db (All-asked provider rows p)
          h) in
    (
      implemented,
      All-map _ _ (λ r heard x e. implemented.taken r.provider_reference ∙ heard x e) rows
          (accept-Heard provider rows charges),
      abandon_stale-All later (settle_all provider rows db).deposits,
    )
