-- ===== src/Api/Funding/Sweep.antt =====
-- crates/api/src/funding_reconciler.rs: one sweep over the top-ups that are still open. Instants are in
-- milliseconds.
use naivolt.Base.{ℕ, ◌+◌, ltb, leb, ◌&&◌, Bool, List, [], ◌∷◌, take, if◌then◌else◌}
use naivolt.Api.Funding.{IntentRow, FundingDb, is_pending, abandoned, settle}
use naivolt.Api.Funding.Provider.{AnyFundingProvider, verify}

abbrev pub settle_after : ℕ
settle_after = 20_000

abbrev pub abandon_after : ℕ
abandon_after = 86_400_000

abbrev pub batch : ℕ
batch = 50

-- The `WHERE` of the sweep's select.
unfoldable pub is_due : ℕ → IntentRow → Bool
is_due now r =
    (is_pending r.status && r.by_paystack)
    && (ltb (r.created_at + settle_after) now && ltb now (r.created_at + abandon_after))

unfoldable pub due : ℕ → List IntentRow → List IntentRow
due now [] = []
due now (r ∷ rows) = if is_due now r then r ∷ due now rows else due now rows

-- `ORDER BY created_at`
unfoldable pub insert_by_age : IntentRow → List IntentRow → List IntentRow
insert_by_age r [] = r ∷ []
insert_by_age r (q ∷ rows) =
    if leb r.created_at q.created_at then r ∷ q ∷ rows else q ∷ insert_by_age r rows

unfoldable pub by_age : List IntentRow → List IntentRow
by_age [] = []
by_age (r ∷ rows) = insert_by_age r (by_age rows)

-- The loop over the selected rows; an error concerns its own row alone.
unfoldable pub settle_all : AnyFundingProvider → List IntentRow → FundingDb → FundingDb
settle_all provider [] db = db
settle_all provider (r ∷ rows) db =
    settle_all provider rows
      (settle (verify provider r.provider_reference r.amount_ngn) r.id r.user_id
        r.provider_reference db).1

-- The `WHERE` of the sweep's update.
unfoldable pub is_stale : ℕ → IntentRow → Bool
is_stale now r = (is_pending r.status && r.by_paystack) && ltb (r.created_at + abandon_after) now

unfoldable pub abandon_stale : ℕ → List IntentRow → List IntentRow
abandon_stale now [] = []
abandon_stale now (r ∷ rows) =
    (if is_stale now r then record r { status = abandoned } else r) ∷ abandon_stale now rows

-- `sweep`, with the instants of its select and of its update.
unfoldable pub sweep : AnyFundingProvider → ℕ → ℕ → FundingDb → FundingDb
sweep provider now later db =
    let settled = settle_all provider (take batch (by_age (due now db.deposits))) db in
    record settled { deposits = abandon_stale later settled.deposits }
