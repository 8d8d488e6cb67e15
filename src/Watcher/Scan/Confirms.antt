-- ===== src/Watcher/Scan/Confirms.antt =====
-- The pass over the waiting deposits confirms every deposit that is deep enough.
use naivolt.Base.{
  ℕ, ltb, ◌≤◌, ◌≡◌, not, refl, ap, Bool, true, false, some, List, [], ◌∷◌, All, All-map, inl, inr,
  Bool-cases, Option-cases, arith,
}
use naivolt.Ledger.Account.{Uuid}
use naivolt.Watcher.Network.{Network, min_confirmations}
use naivolt.Watcher.Deposit.{ObservedTransfer, confirmations_at}
use naivolt.Watcher.Store.{
  DepositStatus, is_confirmed, DepositRow, StoreDb, confirmed, is_pending, is_settled, find_deposit,
  credit_deposit, set_confirmations, pending_deposits,
}
use naivolt.Watcher.Store.Rows.Queries.{pending_deposits-All, pending_deposits-All-inv}
use naivolt.Watcher.Store.RowLaws.{find_deposit-All, find_deposit-id}
use naivolt.Watcher.Store.Tracking.{IsFor, IsTracked, is_reversed}
use naivolt.Watcher.Store.Credit.{
  credit_deposit-settled, credit_deposit_lem, credit_deposit-absent, credit_deposit-credits,
  mark_credited,
}
use naivolt.Watcher.Scan.{rebuilt, advance_row, advance_rows, advance_pending}
use naivolt.Watcher.Scan.Updates.{HasRow, HasRow-update}
use naivolt.Watcher.Scan.Pending.{
  Snapshot, Snapshot-Follows, advance_row_sound, pending-Snapshot, find_deposit_self, recount,
  recount-Harmless,
}

-- The row of an id exists, and its status is as `s` says.
abbrev HasStatus : (DepositStatus → Bool) → Uuid → List DepositRow → Type 0
HasStatus s = HasRow (λ r. s r.status ≡ true)

-- A status that both updates of the pass keep.
record Stays (s : DepositStatus → Bool) : Type 0 where
  recounted : (c : ℕ) (r : DepositRow) → s r.status ≡ true → s (recount c r).status ≡ true
  credited : s confirmed ≡ true

abbrev not_reversed : DepositStatus → Bool
not_reversed st = not (is_reversed st)

not_reversed-Stays : Stays not_reversed
not_reversed-Stays = record { recounted = λ c r e. ground arith; credited = refl }

confirmed-Stays : Stays is_confirmed
confirmed-Stays = record { recounted = λ c r e. ground arith; credited = refl }

module _ (s : DepositStatus → Bool) (stays : Stays s) (id : Uuid) where
  HasStatus-credit :
      (db : StoreDb) (q : Uuid) (t : ObservedTransfer)
      → IsTracked db
      → ((row : DepositRow) → find_deposit q db.deposits ≡ some row → IsFor t row)
      → HasStatus s id db.deposits
      → HasStatus s id (credit_deposit q t db).1.deposits
  HasStatus-credit db q t h source st = elim (Option-cases (find_deposit q db.deposits)) [
    | inl absent ↦ rw (credit_deposit-absent db q t absent) st
    | inr (row, found) ↦ elim (Bool-cases (is_settled row.status)) [
      | inl settled ↦ rw (credit_deposit-settled db q t row found settled) st
      | inr open_row ↦ rw (credit_deposit_lem db q t row h found open_row (source row found)) (
          HasRow-update (λ r. s r.status ≡ true) id q (mark_credited _) db.deposits
            (λ r. (refl, (refl, refl, refl))) (λ r i e. stays.credited) st)
    ]
  ]

  HasStatus-advance :
      (n : Network) (head : ℕ) (p : DepositRow) (db : StoreDb)
      → IsTracked db
      → Snapshot n db.deposits p
      → HasStatus s id db.deposits
      → HasStatus s id (advance_row n head p db).deposits
  unfolding advance_row set_confirmations
  HasStatus-advance n head p db h snap st =
      elim (Bool-cases (ltb (confirmations_at head p.block_number) (min_confirmations n))) [
        | inl shallow ↦ rw shallow (
            HasRow-update (λ r. s r.status ≡ true) id p.id (recount _) db.deposits
              (recount-Harmless _).keeps (λ r i. stays.recounted _ r) st)
        | inr deep ↦ rw deep (HasStatus-credit db p.id (rebuilt n p) h snap st)
      ]

module _ (n : Network) (head : ℕ) where
  -- Deep enough at the head of the pass.
  abbrev Deep : DepositRow → Type 0
  Deep p = min_confirmations n ≤ confirmations_at head p.block_number

  advance_row-confirms :
      (p : DepositRow) (db : StoreDb)
      → IsTracked db
      → Snapshot n db.deposits p
      → Deep p
      → HasStatus not_reversed p.id db.deposits
      → HasStatus is_confirmed p.id (advance_row n head p db).deposits
  unfolding advance_row
  advance_row-confirms p db h snap deep (row, found, st) =
      let reached : ltb (confirmations_at head p.block_number) (min_confirmations n) ≡ false =
        ground arith in
      rw reached (elim (Bool-cases (is_settled row.status)) [
        | inl settled ↦
            rw (credit_deposit-settled db p.id (rebuilt n p) row found settled)
              (row, found, ground arith)
        | inr open_row ↦
            let (e, tracked, (row', found', st'), owes) =
              credit_deposit-credits db p.id (rebuilt n p) row h found open_row (snap row found) in
            (row', found', ap is_confirmed st')
      ])

  advance_rows-keeps :
      (ps : List DepositRow) (id : Uuid) (db : StoreDb)
      → IsTracked db
      → All (Snapshot n db.deposits) ps
      → HasStatus is_confirmed id db.deposits
      → HasStatus is_confirmed id (advance_rows n head ps db).deposits
  unfolding advance_rows
  advance_rows-keeps [] id db h snaps st = st
  advance_rows-keeps (p ∷ ps) id db h snaps st =
      let (first, follow) = advance_row_sound n head p db h snaps.0 in
      advance_rows-keeps ps id (advance_row n head p db) first.0
        (All-map (Snapshot n db.deposits) (Snapshot n (advance_row n head p db).deposits)
          (λ q. Snapshot-Follows n db.deposits (advance_row n head p db).deposits q follow) ps
          snaps.1)
        (HasStatus-advance is_confirmed confirmed-Stays id n head p db h snaps.0 st)

  advance_rows-confirms :
      (ps : List DepositRow) (db : StoreDb)
      → IsTracked db
      → All (Snapshot n db.deposits) ps
      → All (λ p. HasStatus not_reversed p.id db.deposits) ps
      → All (λ p. Deep p → HasStatus is_confirmed p.id (advance_rows n head ps db).deposits) ps
  unfolding advance_rows
  advance_rows-confirms [] db h snaps live = tt
  advance_rows-confirms (p ∷ ps) db h snaps live =
      let (first, follow) = advance_row_sound n head p db h snaps.0 in
      let next =
        All-map (Snapshot n db.deposits) (Snapshot n (advance_row n head p db).deposits)
          (λ q. Snapshot-Follows n db.deposits (advance_row n head p db).deposits q follow) ps
          snaps.1 in
      (
        λ deep.
            advance_rows-keeps ps p.id (advance_row n head p db) first.0 next
              (advance_row-confirms p db h snaps.0 deep live.0),
        advance_rows-confirms ps (advance_row n head p db) first.0 next (
            All-map (λ q. HasStatus not_reversed q.id db.deposits)
              (λ q. HasStatus not_reversed q.id (advance_row n head p db).deposits)
              (λ q. HasStatus-advance not_reversed not_reversed-Stays q.id n head p db h snaps.0) ps
              live.1),
      )

-- Every deposit of the network that waits, and whose block the head is deep enough over, is
-- confirmed after the pass: none is left behind by the order of the rows or by the others.
pub advance_pending-confirms :
    (n : Network) (head : ℕ) (db : StoreDb) (id : Uuid) (row : DepositRow)
    → IsTracked db
    → find_deposit id db.deposits ≡ some row
    → row.network ≡ n
    → is_pending row.status ≡ true
    → min_confirmations n ≤ confirmations_at head row.block_number
    → (row' : DepositRow) × (find_deposit id (advance_pending n head db).deposits ≡ some row')
      × (is_confirmed row'.status ≡ true)
unfolding advance_pending
advance_pending-confirms n head db id row h found network waiting deep =
    let pending = pending_deposits n db.deposits in
    let live : All (λ p. HasStatus not_reversed p.id db.deposits) pending =
      All-map _ _ (λ p e. (p, e.0, ground arith)) pending
        (pending_deposits-All _ n db.deposits (find_deposit_self db.deposits h.distinct)) in
    let done =
      advance_rows-confirms n head pending db h (pending-Snapshot n db.deposits h.distinct) live in
    let of_rows = pending_deposits-All-inv _ n db.deposits done in
    let it = find_deposit-All _ id db.deposits {row = row} of_rows found in
    rw (find_deposit-id id db.deposits {row = row} found) (it (ground arith) deep)
