-- ===== src/Api/Orders/Money.antt =====
-- The money of an order moves at most once, and every transition keeps the ledger balanced.
use naivolt.Base.{◌≡◌, none, some, ok, inl, inr, Result-cases, arith}
use naivolt.Base.Text.{Text}
use naivolt.Ledger.Account.{Uuid, AccountKind}
use naivolt.Ledger.Journal.{Journal}
use naivolt.Ledger.Journal.Build.{IsSound, build_iff}
use naivolt.Ledger.Post.{LedgerDb, post}
use naivolt.Ledger.Post.Balance.{IsBalanced, post-IsBalanced}
use naivolt.Api.Naira.Transfer.{account_id-IsBalanced}
use naivolt.Api.Naira.{lock_user_ngn_account, platform_account}
use naivolt.Api.Orders.{OrderRow, settle_journal, refund_journal, post_settlement, post_refund}

settle_journal-IsSound :
    (pending revenue : Uuid) (o : OrderRow) {j : Journal}
    → settle_journal pending revenue o ≡ ok j
    → IsSound j.kind j.entries
unfolding settle_journal
settle_journal-IsSound pending revenue o {j} e =
    let (sound, same) = (build_iff _ j).0 e in rw same sound

refund_journal-IsSound :
    (pending user_account : Uuid) (o : OrderRow) (reason : Text) {j : Journal}
    → refund_journal pending user_account o reason ≡ ok j
    → IsSound j.kind j.entries
unfolding refund_journal
refund_journal-IsSound pending user_account o reason {j} e =
    let (sound, same) = (build_iff _ j).0 e in rw same sound

-- The ledger of a settlement before its journal, and the accounts that it moves.
abbrev pub settling : LedgerDb → Uuid × (Uuid × LedgerDb)
settling l =
    let (pending, l₁) = platform_account AccountKind.number_payable_pending l in
    (pending, platform_account AccountKind.number_revenue l₁)

settling-IsBalanced : (l : LedgerDb) → IsBalanced l → IsBalanced (settling l).1.1
settling-IsBalanced l h =
    account_id-IsBalanced AccountKind.number_revenue none _
      (account_id-IsBalanced AccountKind.number_payable_pending none l h)

-- The ledger of a refund before its journal, and the accounts that it moves.
abbrev pub refunding : OrderRow → LedgerDb → Uuid × (Uuid × LedgerDb)
refunding o l =
    let (user_account, l₁) = lock_user_ngn_account o.user_id l in
    (user_account, platform_account AccountKind.number_payable_pending l₁)

refunding-IsBalanced : (o : OrderRow) (l : LedgerDb) → IsBalanced l → IsBalanced (refunding o l).1.1
refunding-IsBalanced o l h =
    account_id-IsBalanced AccountKind.number_payable_pending none _
      (account_id-IsBalanced AccountKind.user_ngn (some o.user_id) l h)

pub post_settlement-inv :
    (o : OrderRow) (l : LedgerDb) {id : Uuid} {l' : LedgerDb}
    → post_settlement o l ≡ some (id, l')
    → (j : Journal) × (settle_journal (settling l).0 (settling l).1.0 o ≡ ok j)
      × (l' ≡ (post j (settling l).1.1).1)
unfolding post_settlement
post_settlement-inv o l {id} {l'} e =
    elim (Result-cases (settle_journal (settling l).0 (settling l).1.0 o)) [
      | inr (x, q) ↦ absurd (ground arith)
      | inl (j, q) ↦ (j, q, ground arith)
    ]

pub post_refund-inv :
    (o : OrderRow) (reason : Text) (l : LedgerDb) {id : Uuid} {l' : LedgerDb}
    → post_refund o reason l ≡ some (id, l')
    → (j : Journal) × (refund_journal (refunding o l).1.0 (refunding o l).0 o reason ≡ ok j)
      × (l' ≡ (post j (refunding o l).1.1).1)
unfolding post_refund
post_refund-inv o reason l {id} {l'} e =
    elim (Result-cases (refund_journal (refunding o l).1.0 (refunding o l).0 o reason)) [
      | inr (x, q) ↦ absurd (ground arith)
      | inl (j, q) ↦ (j, q, ground arith)
    ]

pub post_settlement-IsBalanced :
    (o : OrderRow) (l : LedgerDb) {id : Uuid} {l' : LedgerDb}
    → post_settlement o l ≡ some (id, l')
    → IsBalanced l
    → IsBalanced l'
post_settlement-IsBalanced o l {id} {l'} e h =
    let (j, q, same) = post_settlement-inv o l {id = id} {l' = l'} e in
    rw same (
      post-IsBalanced j (settling l).1.1
        (settle_journal-IsSound (settling l).0 (settling l).1.0 o {j = j} q)
        (settling-IsBalanced l h))

pub post_refund-IsBalanced :
    (o : OrderRow) (reason : Text) (l : LedgerDb) {id : Uuid} {l' : LedgerDb}
    → post_refund o reason l ≡ some (id, l')
    → IsBalanced l
    → IsBalanced l'
post_refund-IsBalanced o reason l {id} {l'} e h =
    let (j, q, same) = post_refund-inv o reason l {id = id} {l' = l'} e in
    rw same (
      post-IsBalanced j (refunding o l).1.1
        (refund_journal-IsSound (refunding o l).1.0 (refunding o l).0 o reason {j = j} q)
        (refunding-IsBalanced o l h))
