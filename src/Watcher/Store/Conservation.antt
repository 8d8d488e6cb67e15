-- ===== src/Watcher/Store/Conservation.antt =====
-- What a user is owed moves with the user's confirmed deposits, and with nothing else.
use mathlib.Core.Path.{ap₂}
use naivolt.Base.{
  Bool, ◌≡◌, refl, sym, ap, ◌∙◌, true, false, some, List, if◌then◌else◌, ◌==◌, ◌&&◌, inl, inr,
  arith, Bool-cases, Option-cases,
}
use naivolt.Base.Int.{add-zero_ℤ, ℤ, pos, neg, ◌+ℤ◌, int_laws, pos_part, neg_part}
use naivolt.Core.Asset.{Asset, asset_index}
use naivolt.Ledger.Account.{Uuid}
use naivolt.Watcher.Deposit.{ObservedTransfer}
use naivolt.Watcher.Store.{
  LedgerDb, DepositRow, StoreDb, is_settled, is_confirmed, find_deposit, update_deposit,
  credit_deposit, reverse_deposit,
}
use naivolt.Watcher.Store.Owed.{owed}
use naivolt.Watcher.Store.Movements.{at_account}
use naivolt.Watcher.Store.RowLaws.{DistinctRows, sum-update_deposit}
use naivolt.Watcher.Store.Tracking.{IsFor, IsTracked, confirmed_sum}
use naivolt.Watcher.Store.Credit.{
  credit_deposit-absent, credit_deposit-settled, mark_credited, credit_deposit-credits,
  credit_deposit_lem,
}
use naivolt.Watcher.Store.Reversal.{
  reverse_deposit-absent, reverse_deposit-unconfirmed, mark_reversed, reverse_deposit-reverses,
  reverse_deposit_lem,
}

-- The sum of what the ledger holds for a user in an asset, a liability and so negative, and of the
-- user's confirmed deposits.
abbrev pub unexplained : Uuid → Asset → StoreDb → ℤ
unexplained v b db = owed v b db.ledger +ℤ confirmed_sum v b db.deposits

-- From `before` to `after` the tables stay in agreement, and what every user is owed in every asset
-- changes exactly as the sum of the user's confirmed deposits.
abbrev pub Conserves : StoreDb → StoreDb → Type 0
Conserves before after =
    IsTracked after × ((v : Uuid) (b : Asset) → unexplained v b after ≡ unexplained v b before)

pub Conserves-trans : (x y z : StoreDb) → Conserves x y → Conserves y z → Conserves x z
Conserves-trans x y z h k = (k.0, λ v b. k.1 v b ∙ h.1 v b)

gate-off : (x c : Bool) (y : ℤ) → c ≡ false → (if x && c then y else pos 0) ≡ pos 0
gate-off x c y e = ground arith

gate-on : (x c : Bool) (y : ℤ) → c ≡ true → (if x && c then y else pos 0) ≡ (if x then y else pos 0)
gate-on x c y e = ground arith

gate_same :
    (v u' u : Uuid) (b a' a : Asset) (c : Bool) (y : ℤ)
    → u' ≡ u
    → a' ≡ a
    → (if (v == u' && (asset_index b == asset_index a')) && c then y else pos 0)
      ≡ (if (v == u && (asset_index b == asset_index a)) && c then y else pos 0)
gate_same v u' u b a' a c y p q = rw (p, q)

drop_same : (x y z : ℤ) → x +ℤ z ≡ y +ℤ z → x ≡ y
drop_same x y z e = omega (int_laws, ap pos_part e, ap neg_part e)

module _ (v : Uuid) (b : Asset) (id : Uuid) (f : DepositRow → DepositRow) (rows : List DepositRow)
    (row : DepositRow) (d : DistinctRows rows) (found : find_deposit id rows ≡ some row)
    (amount : (f row).amount ≡ row.amount) (user : (f row).user_id ≡ row.user_id)
    (asset : (f row).asset ≡ row.asset) where
  -- An update that keeps the user, the asset and the amount moves a sum by the change of the status.
  status_sum :
      confirmed_sum v b (update_deposit id f rows)
        +ℤ (if (v == row.user_id && (asset_index b == asset_index row.asset))
              && is_confirmed row.status
            then row.amount
            else pos 0)
      ≡ confirmed_sum v b rows
        +ℤ (if (v == row.user_id && (asset_index b == asset_index row.asset))
              && is_confirmed (f row).status
            then row.amount
            else pos 0)
  unfolding confirmed_sum
  status_sum =
      sum-update_deposit id f _ rows {row = row} d found amount
      ∙ ap (λ z. confirmed_sum v b rows +ℤ z)
          (gate_same v (f row).user_id row.user_id b (f row).asset row.asset _ _ user asset)

  -- Confirming a row adds its amount to its user's sum in its asset.
  confirm_sum :
      is_confirmed row.status ≡ false
      → is_confirmed (f row).status ≡ true
      → confirmed_sum v b (update_deposit id f rows)
        ≡ confirmed_sum v b rows +ℤ at_account row.user_id row.asset row.amount v b
  confirm_sum before after =
      sym (add-zero_ℤ _)
      ∙ ap (λ z. confirmed_sum v b (update_deposit id f rows) +ℤ z) (sym (gate-off _ _ _ before))
      ∙ status_sum
      ∙ ap (λ z. confirmed_sum v b rows +ℤ z) (gate-on _ _ _ after)

  -- Reversing a row takes its amount away again.
  unconfirm_sum :
      is_confirmed row.status ≡ true
      → is_confirmed (f row).status ≡ false
      → confirmed_sum v b (update_deposit id f rows)
          +ℤ at_account row.user_id row.asset row.amount v b
        ≡ confirmed_sum v b rows
  unconfirm_sum before after =
      ap (λ z. confirmed_sum v b (update_deposit id f rows) +ℤ z) (sym (gate-on _ _ _ before))
      ∙ status_sum
      ∙ ap (λ z. confirmed_sum v b rows +ℤ z) (gate-off _ _ _ after)
      ∙ add-zero_ℤ _

  -- An update that leaves the status as confirmed as it was leaves every user explained.
  pub status_sum_same :
      (l : LedgerDb)
      → is_confirmed (f row).status ≡ is_confirmed row.status
      → owed v b l +ℤ confirmed_sum v b (update_deposit id f rows)
        ≡ owed v b l +ℤ confirmed_sum v b rows
  status_sum_same l same = ap (λ z. owed v b l +ℤ z) (drop_same _ _ _ (status_sum ∙ rw same))

at_account-neg :
    (u v : Uuid) (a b : Asset) (y : ℤ) → at_account u a (neg y) v b +ℤ at_account u a y v b ≡ pos 0
at_account-neg u v a b y = grind int_laws

cancel : (o n c y : ℤ) → n +ℤ y ≡ pos 0 → o +ℤ n +ℤ (c +ℤ y) ≡ o +ℤ c
cancel o n c y e = omega (int_laws, ap pos_part e, ap neg_part e)

-- A call of `credit_deposit`, on every branch, keeps the tables in agreement and leaves what every
-- user is owed explained by the user's confirmed deposits, where the transfer is the one that the row
-- was recorded from.
pub credit_deposit-Conserves :
    (db : StoreDb) (id : Uuid) (t : ObservedTransfer)
    → IsTracked db
    → ((row : DepositRow) → find_deposit id db.deposits ≡ some row → IsFor t row)
    → Conserves db (credit_deposit id t db).1
credit_deposit-Conserves db id t h source = elim (Option-cases (find_deposit id db.deposits)) [
  | inl absent ↦ rw (credit_deposit-absent db id t absent) (h, λ v b. refl)
  | inr (row, found) ↦ elim (Bool-cases (is_settled row.status)) [
    | inl settled ↦ rw (credit_deposit-settled db id t row found settled) (h, λ v b. refl)
    | inr open_row ↦
        let paid = credit_deposit-credits db id t row h found open_row (source row found) in
        let rows =
          ap (λ p. p.1.deposits)
            (credit_deposit_lem db id t row h found open_row (source row found)) in
        (
          paid.1,
          λ v b.
              ap₂ ◌+ℤ◌ (paid.3 v b) (
                ap (confirmed_sum v b) rows
                ∙ confirm_sum v b id (mark_credited _) db.deposits row h.distinct found refl refl
                    refl (ground arith) refl)
              ∙ cancel _ _ _ _ (at_account-neg row.user_id v row.asset b row.amount),
        )
  ]
]

uncancel : (o c c' y : ℤ) → c' +ℤ y ≡ c → o +ℤ y +ℤ c' ≡ o +ℤ c
uncancel o c c' y e = rw (← e) (omega int_laws)

-- A call of `reverse_deposit`, on every branch, does the same.
pub reverse_deposit-Conserves :
    (db : StoreDb) (id : Uuid) (t : ObservedTransfer)
    → IsTracked db
    → ((row : DepositRow) → find_deposit id db.deposits ≡ some row → IsFor t row)
    → Conserves db (reverse_deposit id t db).1
reverse_deposit-Conserves db id t h source = elim (Option-cases (find_deposit id db.deposits)) [
  | inl absent ↦ rw (reverse_deposit-absent db id t absent) (h, λ v b. refl)
  | inr (row, found) ↦ elim (Bool-cases (is_confirmed row.status)) [
    | inr other ↦ rw (reverse_deposit-unconfirmed db id t row found other) (h, λ v b. refl)
    | inl was_confirmed ↦
        let taken = reverse_deposit-reverses db id t row h found was_confirmed (source row found) in
        let rows =
          ap (λ p. p.1.deposits)
            (reverse_deposit_lem db id t row h found was_confirmed (source row found)) in
        (
          taken.1,
          λ v b.
              ap₂ ◌+ℤ◌ (taken.3 v b) (ap (confirmed_sum v b) rows)
              ∙ uncancel _ _ _ _ (
                  unconfirm_sum v b id (mark_reversed _) db.deposits row h.distinct found refl refl
                    refl was_confirmed refl),
        )
  ]
]
