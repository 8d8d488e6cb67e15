-- ===== src/Api/Payouts/Replays.antt =====
-- Requests under a key that is taken.
use naivolt.Base.{
  ℕ, ◌≡◌, ◌⊎◌, refl, sym, ap, ◌∙◌, none, some, Option, Result, ok, err, inl, inr, Bool-cases,
  Option-cases, Result-cases,
}
use naivolt.Base.Int.{ℤ, pos, neg, ◌≤ℤ◌, ltb_ℤ}
use naivolt.Base.Text.{Text}
use naivolt.Ledger.Account.{Uuid, AccountKind}
use naivolt.Ledger.Post.{JournalRow, find_journal}
use naivolt.Api.Error.{ApiError}
use naivolt.Api.Naira.Held.{held}
use naivolt.Api.Naira.Transfer.{Opened}
use naivolt.Api.Payouts.{
  true, PayoutRow, BankRow, PayoutsDb, PayoutResponse, Payer, Outside, CreatePayoutBody, response,
  find_payout, reserve, create_payout, check_request, resolve_destination, find_bank,
}
use naivolt.Api.Payouts.Reserve.{Adds, reserve-poor, reserve-again, reserve-unfunded}
use naivolt.Api.Payouts.Keep.{IsSafe}
use naivolt.Api.Payouts.Answered.{
  resolve-Opened, resolve-IsSafe, find_bank-owner, check_request-inv, create_payout-Reached,
}

-- Nobody holds more or less.
abbrev pub SameHeld : PayoutsDb → PayoutsDb → Type 0
SameHeld db after = (k : AccountKind) (u : Option Uuid) → held k u after.ledger ≡ held k u db.ledger

-- Why a request is refused: by its checks, since its destination is none, since its account is not the
-- user's, or since the user is owed less than the amount.
abbrev pub IsRefused : Outside → Payer → Text → CreatePayoutBody → ℕ → PayoutsDb → ApiError → Type 0
IsRefused out user key body now db e =
    (check_request out user (some key) body now db.payouts ≡ err e)
    ⊎ (((resolve_destination out.resolve_account user.id body.destination db).0 ≡ err e)
        ⊎ (((id : Uuid) × ((resolve_destination out.resolve_account user.id body.destination db).0
                ≡ ok id)
              × (find_bank id user.id
                    (resolve_destination out.resolve_account user.id body.destination
                      db).1.bank_accounts
                  ≡ none)
              × (e ≡ ApiError.not_found))
            ⊎ ((x : ℤ) × (check_request out user (some key) body now db.payouts ≡ ok (key, x))
                × (ltb_ℤ (neg (held AccountKind.user_ngn (some user.id) db.ledger)) x ≡ true)
                × (e ≡ ApiError.insufficient_balance))))

-- A request that is answered with the payout, for an account of whoever asks, or refused for a reason;
-- either way no payout is added, and nobody holds more or less.
abbrev pub Repeats :
    (ApiError → Type 0)
    → Payer
    → PayoutRow
    → PayoutsDb
    → Result ApiError PayoutResponse × PayoutsDb
    → Type 0
Repeats reason user p db result =
    (((e : ApiError) × (result.0 ≡ err e) × reason e)
      ⊎ ((bank : BankRow) × (bank.user_id ≡ user.id) × (result.0 ≡ ok (response bank p))))
    × (result.1.payouts ≡ db.payouts)
    × SameHeld db result.1

-- The same of a reservation.
reserve-taken :
    (user : Payer) (bank : BankRow) (x : ℤ) (key reference : Text) (now : ℕ) (db at_ : PayoutsDb)
    (row : JournalRow) (p : PayoutRow) (reason : ApiError → Type 0)
    → (ltb_ℤ (neg (held AccountKind.user_ngn (some user.id) at_.ledger)) x ≡ true
        → reason ApiError.insufficient_balance)
    → IsSafe db
    → IsSafe at_
    → pos 1 ≤ℤ x
    → bank.user_id ≡ user.id
    → at_.payouts ≡ db.payouts
    → Opened db.ledger at_.ledger
    → find_journal key at_.ledger.journals ≡ some row
    → find_payout row.id at_.payouts ≡ some p
    → Repeats reason user p db (reserve user.id bank x key reference now at_)
reserve-taken user bank x key reference now db at_ row p reason short h safe positive owner rows o
      taken there =
    elim (Bool-cases (ltb_ℤ (neg (held AccountKind.user_ngn (some user.id) at_.ledger)) x)) [
      | inl poor ↦ rw (reserve-poor user.id bank x key reference now at_ safe.drawn.numbered poor) (
        inl (ApiError.insufficient_balance, refl, short poor),
        rows,
        λ k u. o.same_held h.drawn.numbered k u,
      )
      | inr enough ↦
          let (answer, kept, opened) =
            reserve-again user.id bank x key reference now at_ safe.drawn positive enough row p
              taken there in
          (
            inr (bank, owner, answer),
            kept ∙ rows,
            λ k u. opened.same_held safe.drawn.numbered k u ∙ o.same_held h.drawn.numbered k u,
          )
    ]

repeated_for :
    (out : Outside) (user : Payer) (key : Text) (body : CreatePayoutBody) (reference : Text)
    (now : ℕ) (db : PayoutsDb) (row : JournalRow) (p : PayoutRow) (reason : ApiError → Type 0)
    → ((e : ApiError) → IsRefused out user key body now db e → reason e)
    → IsSafe db
    → find_journal key db.ledger.journals ≡ some row
    → find_payout row.id db.payouts ≡ some p
    → Repeats reason user p db (create_payout out user (some key) body reference now db)
unfolding create_payout
repeated_for out user key body reference now db row p reason why h taken there =
    let db₁ = (resolve_destination out.resolve_account user.id body.destination db).1 in
    let (rows, o) = resolve-Opened out.resolve_account user.id body.destination db in
    let same : SameHeld db db₁ = λ k u. o.same_held h.drawn.numbered k u in
    elim (Result-cases (check_request out user (some key) body now db.payouts)) [
      | inr (e, q) ↦ rw (q, create_payout) (inl (e, refl, why e (inl q)), refl, λ k u. refl)
      | inl ((key', x), q) ↦
          elim (Result-cases
            (resolve_destination out.resolve_account user.id body.destination db).0) [
              | inr (e, r) ↦
                  rw (q, create_payout, r, create_payout)
                    (inl (e, refl, why e (inr (inl r))), rows, same)
              | inl (id, r) ↦ elim (Option-cases (find_bank id user.id db₁.bank_accounts)) [
                | inl absent ↦
                    rw (q, create_payout, r, create_payout, absent, create_payout)
                      (
                        inl (
                          ApiError.not_found,
                          refl,
                          why ApiError.not_found (inr (inr (inl (id, r, absent, refl)))),
                        ),
                        rows,
                        same,
                      )
                | inr (bank, found) ↦
                    let (keyed, positive, capped, asked) =
                      check_request-inv out user key body now db.payouts {key' = key'} {x = x} q in
                    rw (q, create_payout, r, create_payout, found, create_payout)
                      (reserve-taken user bank x key' reference now db db₁ row p reason
                        (λ poor. why ApiError.insufficient_balance (
                          inr (
                            inr (
                              inr (
                                x,
                                q ∙ ap (λ z. ok (z, x)) keyed,
                                ap (λ z. ltb_ℤ (neg z) x)
                                      (sym (same AccountKind.user_ngn (some user.id)))
                                    ∙ poor,
                                refl,
                              )))))
                        h (resolve-IsSafe out.resolve_account user.id body.destination db h)
                        positive (find_bank-owner id user.id db₁.bank_accounts bank found) rows o
                        (rw (keyed, o.journals) taken) (rw rows there))
              ]
            ]
    ]

-- When the key's journal has a payout, whoever asks and for whatever amount is answered with that payout,
-- unless the request is refused by its checks, for its destination or its account, or since the user is
-- owed less than the amount; either way no payout is added, and nobody holds more or less.
pub create_payout-again :
    (out : Outside) (user : Payer) (key : Text) (body : CreatePayoutBody) (reference : Text)
    (now : ℕ) (db : PayoutsDb) (row : JournalRow) (p : PayoutRow)
    → IsSafe db
    → find_journal key db.ledger.journals ≡ some row
    → find_payout row.id db.payouts ≡ some p
    → Repeats
        (IsRefused out user key body now db)
        user
        p
        db
        (create_payout out user (some key) body reference now db)
create_payout-again out user key body reference now db row p h taken there =
    repeated_for out user key body reference now db row p (IsRefused out user key body now db)
      (λ e refusal. refusal) h taken there

module _ (out : Outside) (user : Payer) (key : Text) (body : CreatePayoutBody) (reference : Text)
    (now : ℕ) (db : PayoutsDb) (told : PayoutResponse) (h : IsSafe db) (row : JournalRow)
    (taken : find_journal key db.ledger.journals ≡ some row)
    (e : (create_payout out user (some key) body reference now db).0 ≡ ok told) where
  abbrev result : Result ApiError PayoutResponse × PayoutsDb
  result = create_payout out user (some key) body reference now db

  -- When the key is that of a journal without a payout, such as the credit of a top-up, a payout is
  -- recorded as reserved, although nobody holds more or less: nothing was reserved for it.
  pub create_payout-unfunded :
      find_payout row.id db.payouts ≡ none
      → (x : ℤ) × (bank : BankRow) × Adds user.id x bank now db.payouts result
        × SameHeld db result.1
  create_payout-unfunded absent =
      let r = create_payout-Reached out user key body reference now db {told = told} h e in
      let (adds, opened) =
        reserve-unfunded user.id r.bank r.asked.value key reference now r.at_ r.safe.drawn
          r.positive r.enough row (rw r.opened.journals taken) (rw r.rows absent) in
      let adds' : Adds user.id r.asked.value r.bank now db.payouts
          (reserve user.id r.bank r.asked.value key reference now r.at_) =
        rw r.rows at adds in
      rw r.same (
        r.asked.value,
        r.bank,
        adds',
        λ k u. opened.same_held r.safe.drawn.numbered k u ∙ r.opened.same_held h.drawn.numbered k u,
      )
