-- ===== src/Api/Orders/Refunds.antt =====
-- A refund gives the user back what the reservation held.
use naivolt.Base.{
  ◌≡◌, refl, sym, ap, ◌∙◌, Option, none, some, ◌++◌, ◌==◌, length, ok, err, if◌then◌else◌, inl, inr,
  Bool-cases, Option-cases, arith,
}
use naivolt.Base.Int.{ℤ, pos, neg, ◌+ℤ◌, int_laws}
use naivolt.Base.Sums.{sum_where}
use naivolt.Base.Text.{Text, codes}
use naivolt.Core.Asset.{Asset}
use naivolt.Ledger.Account.{Uuid, AccountKind}
use naivolt.Ledger.Journal.{Journal, new, entry, with_metadata}
use naivolt.Ledger.Journal.Build.{build_iff}
use naivolt.Ledger.Post.{LedgerDb, find_journal, balance}
use naivolt.Ledger.Post.Replay.{post_append_only}
use naivolt.Ledger.Post.Custody.{account_sum, balance-post}
use naivolt.Watcher.Store.{account_id, find_account}
use naivolt.Watcher.Store.Owed.{account_id-found, account_id-keeps, account_id-journals}
use naivolt.Auth.Identifier.{trim}
use naivolt.Api.Orders.{
  OrderRow, OrdersDb, RefundStatus, applied, internal, refund_journal, post_refund, refund_open,
}
use naivolt.Api.Orders.Money.{refunding, post_refund-inv}

balance-account_id :
    (account : Uuid) (k : AccountKind) (u : Option Uuid) (a : Asset) (l : LedgerDb)
    → balance account (account_id k u a l).1 ≡ balance account l
unfolding account_id balance
balance-account_id account k u a l = elim (Option-cases (find_account k u a l.accounts)) [
  | inl fresh ↦ rw (fresh, account_id) refl
  | inr (id, old) ↦ rw (old, account_id) refl
]

-- What a refund moves: `price` off the reservation, and back to the user, whose sum is negative.
abbrev pub refunded_by : Uuid → Uuid → ℤ → Uuid → ℤ
refunded_by pending user price account =
    (if account == pending then price else pos 0) +ℤ (if account == user then neg price else pos 0)

refund_journal-fields :
    (pending user : Uuid) (o : OrderRow) (reason : Text) {j : Journal}
    → refund_journal pending user o reason ≡ ok j
    → (j.idempotency_key ≡ o.reference ++ codes ":refund")
      × ((account : Uuid)
          → account_sum account j.entries ≡ refunded_by pending user o.price_ngn account)
unfolding refund_journal new entry with_metadata account_sum sum_where
refund_journal-fields pending user o reason {j} e =
    let (sound, same) = (build_iff _ j).0 e in
    (ap (λ z. z.idempotency_key) same, λ account. rw same (grind int_laws))

-- The accounts of a refund are those of the ledger afterwards, and the balances move by the refund.
post_refund-returns :
    (o : OrderRow) (reason : Text) (l : LedgerDb) {id : Uuid} {l' : LedgerDb}
    → post_refund o reason l ≡ some (id, l')
    → find_journal (o.reference ++ codes ":refund") l.journals ≡ none
    → (pending : Uuid) × (user : Uuid) × (find_account AccountKind.number_payable_pending none
          Asset.ngn l'.accounts
        ≡ some pending)
      × (find_account AccountKind.user_ngn (some o.user_id) Asset.ngn l'.accounts ≡ some user)
      × ((account : Uuid)
          → balance account l' ≡ balance account l +ℤ refunded_by pending user o.price_ngn account)
post_refund-returns o reason l {id} {l'} e free =
    let (j, q, same) = post_refund-inv o reason l {id = id} {l' = l'} e in
    let (key, sums) =
      refund_journal-fields (refunding o l).1.0 (refunding o l).0 o reason {j = j} q in
    let l₁ = (account_id AccountKind.user_ngn (some o.user_id) Asset.ngn l).1 in
    let l₂ = (refunding o l).1.1 in
    let journals : l₂.journals ≡ l.journals =
      account_id-journals AccountKind.number_payable_pending none Asset.ngn l₁
      ∙ account_id-journals AccountKind.user_ngn (some o.user_id) Asset.ngn l in
    let accounts : l'.accounts ≡ l₂.accounts = rw same (post_append_only j l₂).4 in
    let new_key : find_journal j.idempotency_key l₂.journals ≡ none = rw (key, journals) free in
    (
      (refunding o l).1.0,
      (refunding o l).0,
      rw accounts (account_id-found AccountKind.number_payable_pending none Asset.ngn l₁),
      rw accounts (
          account_id-keeps AccountKind.number_payable_pending AccountKind.user_ngn none
            (some o.user_id) Asset.ngn Asset.ngn l₁ {id = (refunding o l).0}
            (account_id-found AccountKind.user_ngn (some o.user_id) Asset.ngn l)),
      λ account.
          ap (balance account) same
          ∙ balance-post account j l₂ new_key
          ∙ rw (
            balance-account_id account AccountKind.number_payable_pending none Asset.ngn l₁,
            balance-account_id account AccountKind.user_ngn (some o.user_id) Asset.ngn l,
            sums account,
          ),
    )

-- A refund that is applied for the first time returns the price: the user's account is owed the price
-- more, the account of reservations the price less, and every other account is left alone.
pub refund_open-returns :
    (o : OrderRow) (status : RefundStatus) (reason : Text) (db : OrdersDb)
    → (refund_open o status reason db).0 ≡ ok applied
    → find_journal (o.reference ++ codes ":refund") db.ledger.journals ≡ none
    → let after = (refund_open o status reason db).1.ledger in
      (pending : Uuid) × (user : Uuid) × (find_account AccountKind.number_payable_pending none
          Asset.ngn after.accounts
        ≡ some pending)
      × (find_account AccountKind.user_ngn (some o.user_id) Asset.ngn after.accounts ≡ some user)
      × ((account : Uuid)
          → balance account after
            ≡ balance account db.ledger +ℤ refunded_by pending user o.price_ngn account)
unfolding refund_open
refund_open-returns o status reason db e free = elim (Bool-cases (length (trim reason) == 0)) [
  | inl blank ↦
      let k : (refund_open o status reason db).0 ≡ err internal = rw blank refl in
      let c : err internal ≡ ok applied = sym k ∙ e in absurd (ground arith)
  | inr given_ ↦ elim (Option-cases (post_refund o reason db.ledger)) [
    | inl broken ↦
        let k : (refund_open o status reason db).0 ≡ err internal = rw (given_, broken) refl in
        let c : err internal ≡ ok applied = sym k ∙ e in absurd (ground arith)
    | inr ((j, l), q) ↦
        rw (given_, q) (post_refund-returns o reason db.ledger {id = j} {l' = l} q free)
  ]
]
