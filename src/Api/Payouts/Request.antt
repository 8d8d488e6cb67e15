-- ===== src/Api/Payouts/Request.antt =====
-- The whole of a request for a payout: its checks, its destination and its reservation.
use naivolt.Base.{
  ltb, ◌&&◌, ℕ, ◌+◌, ◌≡◌, refl, ◌∙◌, true, Option, none, some, List, [], ◌∷◌, ◌++◌, ok, ◌==◌, inl,
  inr, Option-cases, Result-cases, arith,
}
use naivolt.Base.Int.{add-zero_ℤ, ℤ, pos, neg, ◌+ℤ◌, ◌≤ℤ◌}
use naivolt.Base.Sums.{sum_where, sum_where-append}
use naivolt.Base.Text.{Text}
use naivolt.Ledger.Account.{Uuid, AccountKind}
use naivolt.Ledger.Post.{find_journal}
use naivolt.Auth.Tier.{daily_payout_cap}
use naivolt.Auth.Identifier.{trim}
use naivolt.Api.Naira.{Decimal}
use naivolt.Api.Naira.Transfer.{Transferred, Opened-Transferred}
use naivolt.Api.Payouts.{
  reserved, day, is_counted, reserved, PayoutRow, BankRow, PayoutsDb, PayoutResponse, Payer,
  Outside, CreatePayoutBody, tier_of, used_today, check_request, find_bank, resolve_destination,
  reserve, create_payout,
}
use naivolt.Api.Payouts.Reserve.{Adds, reserve-new}
use naivolt.Api.Payouts.Keep.{IsSafe, reserve-IsSafe}
use naivolt.Api.Payouts.Answered.{
  check_cap-fits, check_request-inv, resolve-IsSafe, create_payout-Reached,
}

-- Whatever is asked for, by whom, under which key and to which destination, a request for a payout
-- keeps the tables safe: the ledger balanced, and no user owed less than nothing.
pub create_payout-IsSafe :
    (out : Outside) (user : Payer) (header : Option Text) (body : CreatePayoutBody)
    (reference : Text) (now : ℕ) (db : PayoutsDb)
    → IsSafe db
    → IsSafe (create_payout out user header body reference now db).1
unfolding create_payout
create_payout-IsSafe out user header body reference now db h =
    let db₁ = (resolve_destination out.resolve_account user.id body.destination db).1 in
    let safe : IsSafe db₁ = resolve-IsSafe out.resolve_account user.id body.destination db h in
    elim (Result-cases (check_request out user header body now db.payouts)) [
      | inr (e, q) ↦ rw (q, create_payout) h
      | inl ((key, x), q) ↦
          elim (Result-cases
            (resolve_destination out.resolve_account user.id body.destination db).0) [
              | inr (e, r) ↦ rw (q, create_payout, r, create_payout) safe
              | inl (id, r) ↦ elim (Option-cases (find_bank id user.id db₁.bank_accounts)) [
                | inl absent ↦ rw (q, create_payout, r, create_payout, absent, create_payout) safe
                | inr (bank, found) ↦
                    rw (q, create_payout, r, create_payout, found, create_payout)
                      (reserve-IsSafe user.id bank x key reference now db₁ (positive header key x q)
                        safe)
              ]
            ]
    ]
  where
    positive :
        (header : Option Text) (key : Text) (x : ℤ)
        → check_request out user header body now db.payouts ≡ ok (key, x)
        → pos 1 ≤ℤ x
    positive none key x q = unfold check_request in absurd (ground arith)
    positive (some k) key x q =
        (check_request-inv out user k body now db.payouts {key' = key} {x = x} q).1

used_today-Adds :
    (user : Uuid) (now : ℕ) (rows : List PayoutRow) (p : PayoutRow)
    → p.user_id ≡ user
    → p.created_at ≡ now
    → p.status ≡ reserved
    → used_today user now (rows ++ p ∷ []) ≡ used_today user now rows +ℤ p.amount_ngn
unfolding used_today sum_where
used_today-Adds user now rows p mine then_ state =
    sum_where-append (λ q. q.amount_ngn) _ rows (p ∷ []) ∙ rw (test, add-zero_ℤ) refl
  where
    test : ((user == p.user_id) && (ltb now (p.created_at + day) && is_counted p.status)) ≡ true
    test = rw (mine, then_, state) (ground arith)

-- A request under a new key that is answered without an error has moved the very amount that its body
-- spells, in one journal, from what the user is owed to what the bank is, has recorded a payout of that
-- amount to an account of the user, and leaves the use of the last day within the cap of the user's tier.
pub create_payout-reserves :
    (out : Outside) (user : Payer) (key : Text) (body : CreatePayoutBody) (reference : Text)
    (now : ℕ) (db : PayoutsDb) {told : PayoutResponse}
    → IsSafe db
    → find_journal key db.ledger.journals ≡ none
    → let result = create_payout out user (some key) body reference now db in
      result.0 ≡ ok told
      → (asked : Decimal) × (out.from_str (trim body.amount_ngn) ≡ some asked)
        × (bank : BankRow) × (cap : ℤ) × (bank.user_id ≡ user.id)
        × Adds user.id asked.value bank now db.payouts result
        × Transferred db.ledger result.1.ledger AccountKind.user_ngn
            (some user.id)
            asked.value
            AccountKind.ngn_payable_pending
            none
            (neg asked.value)
            key
        × (daily_payout_cap (tier_of user.kyc_tier) ≡ some cap)
        × (used_today user.id now result.1.payouts ≤ℤ cap)
create_payout-reserves out user key body reference now db {told} h free e =
    let r = create_payout-Reached out user key body reference now db {told = told} h e in
    let (limit, tier, fits) =
      check_cap-fits (tier_of user.kyc_tier) r.asked.value (used_today user.id now db.payouts)
        r.capped in
    let after = reserve user.id r.bank r.asked.value key reference now r.at_ in
    let (adds, t) =
      reserve-new user.id r.bank r.asked.value key reference now r.at_ r.safe.drawn r.positive
        r.enough (rw r.opened.journals free) in
    let adds' : Adds user.id r.asked.value r.bank now db.payouts after = rw r.rows at adds in
    rw r.same (
      r.asked,
      r.parsed,
      r.bank,
      limit,
      r.owner,
      adds',
      Opened-Transferred db.ledger r.at_.ledger after.1.ledger AccountKind.user_ngn
          AccountKind.ngn_payable_pending (some user.id) none r.asked.value (neg r.asked.value) key
          h.drawn.numbered r.opened t,
      tier,
      rw
          (
            adds'.payouts,
            used_today-Adds user.id now db.payouts adds'.payout adds'.owner adds'.moment
                adds'.state,
            adds'.amount,
          )
          fits,
    )
