-- ===== src/Api/Payouts/Answered.antt =====
-- What a request for a payout has gone through when it is answered.
use naivolt.Base.{
  ◌&&◌, ℕ, ◌≡◌, refl, sym, ap, ◌∙◌, false, Option, some, List, [], ◌∷◌, Result, ok, err, not, ◌==◌,
  length, inl, inr, Bool-cases, Option-cases, Result-cases, >>=-eq-ok, arith,
}
use naivolt.Base.Int.{ℤ, pos, neg, ◌+ℤ◌, ◌-ℤ◌, ◌≤ℤ◌, ltb_ℤ, max_zero}
use naivolt.Base.Text.{Text, text_eq, to_lower}
use naivolt.Ledger.Account.{Uuid, AccountKind}
use naivolt.Watcher.Store.Owed.{IsNumbered}
use naivolt.Auth.Identifier.{trim, only_digits}
use naivolt.Auth.Tier.Caps.{check_payout-cap}
use naivolt.Auth.Tier.{KycTier, daily_payout_cap, check_payout}
use naivolt.Api.Error.{ApiError}
use naivolt.Api.Naira.{Decimal}
use naivolt.Api.Naira.Held.{held}
use naivolt.Api.Naira.Transfer.{Opened, draw-Opened, Opened-refl}
use naivolt.Api.Payouts.{
  PayoutRow, BankRow, PayoutsDb, PayoutResponse, Payer, Outside, CreatePayoutBody, Destination,
  beneficiary, one_off, check_amount, check_pin, check_cap, tier_of, used_today, check_request,
  find_bank, resolve_destination, reserve, create_payout,
}
use naivolt.Api.Payouts.Reserve.{reserve-poor}
use naivolt.Api.Payouts.Keep.{IsSafe, payouts-drawn, Opened-IsSafe}

check_amount-positive :
    (from_str : Text → Option Decimal) (s : Text) {x : ℤ}
    → check_amount from_str s ≡ ok x
    → pos 1 ≤ℤ x
unfolding check_amount
check_amount-positive from_str s e = ground arith

-- What is accepted is what was asked for.
check_amount-asked :
    (from_str : Text → Option Decimal) (s : Text) {x : ℤ}
    → check_amount from_str s ≡ ok x
    → (asked : Decimal) × (from_str (trim s) ≡ some asked) × (asked.value ≡ x)
unfolding check_amount
check_amount-asked from_str s {x} e = elim (Option-cases (from_str (trim s))) [
  | inl none_ ↦ let k = rw (none_, check_amount) at e in absurd (ground arith)
  | inr (asked, q) ↦ let k = rw (q, check_amount) at e in (asked, q, ground (k, arith))
]

pub check_cap-fits :
    (tier : KycTier) (x used : ℤ)
    → check_cap tier x used ≡ ok tt
    → (cap : ℤ) × (daily_payout_cap tier ≡ some cap) × (used +ℤ x ≤ℤ cap)
unfolding check_cap
check_cap-fits tier x used e = elim (Option-cases (daily_payout_cap tier)) [
  | inl closed ↦ unfold check_payout in absurd (ground arith)
  | inr (limit, q) ↦ elim (check_payout-cap tier x used limit q) [
    | inl (fine, below) ↦ (limit, q, below)
    | inr (refused, above) ↦
        let k : check_cap tier x used ≡ err (ApiError.limit_exceeded (max_zero (limit -ℤ used))) =
          rw (refused, check_cap) refl in
        let c : err (ApiError.limit_exceeded (max_zero (limit -ℤ used))) ≡ ok tt = sym k ∙ e in
        absurd (ground arith)
  ]
]

-- What a request that passes the checks is.
pub check_request-inv :
    (out : Outside) (user : Payer) (key : Text) (body : CreatePayoutBody) (now : ℕ)
    (rows : List PayoutRow) {key' : Text} {x : ℤ}
    → check_request out user (some key) body now rows ≡ ok (key', x)
    → (key' ≡ key)
      × (pos 1 ≤ℤ x)
      × (check_cap (tier_of user.kyc_tier) x (used_today user.id now rows) ≡ ok tt)
      × ((asked : Decimal) × (out.from_str (trim body.amount_ngn) ≡ some asked) × (asked.value ≡ x))
unfolding check_request
check_request-inv out user key body now rows {key'} {x} e =
    let (amount, parsed, e₁) = >>=-eq-ok (check_amount out.from_str body.amount_ngn) _ e in
    let (u, pin, e₂) = >>=-eq-ok (check_pin out.verify_pin body.pin user.pin_hash) _ e₁ in
    let (v, cap, e₃) =
      >>=-eq-ok (check_cap (tier_of user.kyc_tier) amount (used_today user.id now rows)) _ e₂ in
    let same : amount ≡ x = ground arith in
    (
      ground arith,
      rw (← same) (check_amount-positive out.from_str body.amount_ngn {x = amount} parsed),
      rw (← same) cap,
      rw (← same) (check_amount-asked out.from_str body.amount_ngn {x = amount} parsed),
    )

pub resolve-Opened :
    (resolve : Text → Text → Result ApiError Text) (user : Uuid) (d : Destination) (db : PayoutsDb)
    → let after = (resolve_destination resolve user d db).1 in
      (after.payouts ≡ db.payouts) × Opened db.ledger after.ledger
unfolding resolve_destination
resolve-Opened resolve user (beneficiary id) db = (refl, Opened-refl db.ledger)
resolve-Opened resolve user (one_off code number name save) db =
    elim (Bool-cases (not (length (only_digits number) == 10))) [
      | inl short ↦ rw short (refl, Opened-refl db.ledger)
      | inr full ↦ elim (Result-cases (resolve code (only_digits number))) [
        | inr (e, q) ↦ rw (full, q, resolve_destination) (refl, Opened-refl db.ledger)
        | inl (resolved, q) ↦
            elim (Bool-cases (not (text_eq (to_lower (trim resolved)) (to_lower (trim name))))) [
              | inl changed ↦
                  rw (full, q, resolve_destination, changed) (refl, Opened-refl db.ledger)
              | inr same ↦ rw (full, q, resolve_destination, same) (refl, draw-Opened db.ledger)
            ]
      ]
    ]

pub resolve-IsSafe :
    (resolve : Text → Text → Result ApiError Text) (user : Uuid) (d : Destination) (db : PayoutsDb)
    → IsSafe db
    → IsSafe (resolve_destination resolve user d db).1
resolve-IsSafe resolve user d db h =
    let (same, o) = resolve-Opened resolve user d db in
    Opened-IsSafe db (resolve_destination resolve user d db).1 h o (
      rw same (
        payouts-drawn db.ledger.next_id (resolve_destination resolve user d db).1.ledger.next_id
          db.payouts o.grows h.drawn.journals_drawn))

pub find_bank-owner :
    (id user : Uuid) (rows : List BankRow) (bank : BankRow)
    → find_bank id user rows ≡ some bank
    → bank.user_id ≡ user
unfolding find_bank
find_bank-owner id user [] bank e = ground arith
find_bank-owner id user (b ∷ rows) bank e =
    elim (Bool-cases ((id == b.id) && (user == b.user_id))) [
      | inl hit ↦ let same : b ≡ bank = ground arith in rw (← same) (ground arith)
      | inr miss ↦ find_bank-owner id user rows bank (ground arith)
    ]

err-ne-ok :
    {f : ApiError} {t : PayoutResponse} (r : Result ApiError PayoutResponse)
    → r ≡ err f
    → ¬ (r ≡ ok t)
err-ne-ok r k e = ground arith

-- What a request that is answered has gone through.
pub answered :
    (out : Outside) (user : Payer) (header : Option Text) (body : CreatePayoutBody)
    (reference : Text) (now : ℕ) (db : PayoutsDb) {told : PayoutResponse}
    → (create_payout out user header body reference now db).0 ≡ ok told
    → let db₁ = (resolve_destination out.resolve_account user.id body.destination db).1 in
      (key : Text) × (x : ℤ) × (bank : BankRow) × (check_request out user header body now db.payouts
        ≡ ok (key, x))
      × (bank.user_id ≡ user.id)
      × (create_payout out user header body reference now db
          ≡ reserve user.id bank x key reference now db₁)
unfolding create_payout
answered out user header body reference now db {told} e =
    let db₁ = (resolve_destination out.resolve_account user.id body.destination db).1 in
    elim (Result-cases (check_request out user header body now db.payouts)) [
      | inr (f, q) ↦
          let k : (create_payout out user header body reference now db).0 ≡ err f =
            rw (q, create_payout) refl in
          absurd (err-ne-ok (create_payout out user header body reference now db).0 k e)
      | inl ((key, x), q) ↦
          elim (Result-cases
            (resolve_destination out.resolve_account user.id body.destination db).0) [
              | inr (f, r) ↦
                  let k : (create_payout out user header body reference now db).0 ≡ err f =
                    rw (q, create_payout, r, create_payout) refl in
                  absurd (err-ne-ok (create_payout out user header body reference now db).0 k e)
              | inl (id, r) ↦ elim (Option-cases (find_bank id user.id db₁.bank_accounts)) [
                | inl absent ↦
                    let k : (create_payout out user header body reference now db).0
                        ≡ err ApiError.not_found =
                      rw (q, create_payout, r, create_payout, absent, create_payout) refl in
                    absurd (err-ne-ok (create_payout out user header body reference now db).0 k e)
                | inr (bank, found) ↦ (
                  key,
                  x,
                  bank,
                  q,
                  find_bank-owner id user.id db₁.bank_accounts bank found,
                  rw (q, create_payout, r, create_payout, found, create_payout) refl,
                )
              ]
            ]
    ]

-- A reservation that is made was covered.
pub covered :
    (user : Uuid) (bank : BankRow) (x : ℤ) (key reference : Text) (now : ℕ) (db : PayoutsDb)
    {told : PayoutResponse}
    → IsNumbered db.ledger
    → (reserve user bank x key reference now db).0 ≡ ok told
    → ltb_ℤ (neg (held AccountKind.user_ngn (some user) db.ledger)) x ≡ false
covered user bank x key reference now db n e =
    elim (Bool-cases (ltb_ℤ (neg (held AccountKind.user_ngn (some user) db.ledger)) x)) [
      | inr fine ↦ fine
      | inl poor ↦ absurd (
          err-ne-ok (reserve user bank x key reference now db).0
            (ap (λ z. z.0) (reserve-poor user bank x key reference now db n poor)) e)
    ]

-- A request that is answered: it was checked, its destination was found in the tables `at`, and its
-- amount was covered when it was reserved.
pub record Reached (out : Outside) (user : Payer) (key : Text) (body : CreatePayoutBody)
    (reference : Text) (now : ℕ) (db : PayoutsDb)
    (result : Result ApiError PayoutResponse × PayoutsDb) : Type 0 where
  pub asked : Decimal
  pub parsed : out.from_str (trim body.amount_ngn) ≡ some asked
  pub bank : BankRow
  pub at_ : PayoutsDb
  pub owner : bank.user_id ≡ user.id
  pub positive : pos 1 ≤ℤ asked.value
  pub capped :
      check_cap (tier_of user.kyc_tier) asked.value (used_today user.id now db.payouts) ≡ ok tt
  pub rows : at_.payouts ≡ db.payouts
  pub opened : Opened db.ledger at_.ledger
  pub safe : IsSafe at_
  pub enough : ltb_ℤ (neg (held AccountKind.user_ngn (some user.id) at_.ledger)) asked.value ≡ false
  pub same : result ≡ reserve user.id bank asked.value key reference now at_

pub create_payout-Reached :
    (out : Outside) (user : Payer) (key : Text) (body : CreatePayoutBody) (reference : Text)
    (now : ℕ) (db : PayoutsDb) {told : PayoutResponse}
    → IsSafe db
    → let result = create_payout out user (some key) body reference now db in
      result.0 ≡ ok told → Reached out user key body reference now db result
create_payout-Reached out user key body reference now db {told} h e =
    let (key', x, bank, q, owner, same) =
      answered out user (some key) body reference now db {told = told} e in
    let db₁ = (resolve_destination out.resolve_account user.id body.destination db).1 in
    let (rows, o) = resolve-Opened out.resolve_account user.id body.destination db in
    let (keyed, positive, capped, (asked, parsed, worth)) =
      check_request-inv out user key body now db.payouts {key' = key'} {x = x} q in
    let safe = resolve-IsSafe out.resolve_account user.id body.destination db h in
    let same' : create_payout out user (some key) body reference now db
        ≡ reserve user.id bank x key reference now db₁ =
      same ∙ ap (λ z. reserve user.id bank x z reference now db₁) keyed in
    record {
      asked = asked;
      parsed = parsed;
      bank = bank;
      at_ = db₁;
      owner = owner;
      positive = rw worth positive;
      capped = rw worth capped;
      rows = rows;
      opened = o;
      safe = safe;
      enough = rw worth (
          covered user.id bank x key reference now db₁ {told = told} safe.drawn.numbered
            (sym (ap (λ z. z.0) same') ∙ e));
      same = rw worth same';
    }
