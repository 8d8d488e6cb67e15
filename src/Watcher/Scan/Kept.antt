-- ===== src/Watcher/Scan/Kept.antt =====
-- The pass over the credited deposits reverses none whose transaction the node still knows.
use naivolt.Base.{
  ℕ, ◌+◌, ◌-◌, ◌≡◌, ◌≢◌, refl, sym, ap, ◌∙◌, true, some, List, [], ◌∷◌, All, All-map, inl, inr,
  Bool-cases, Option-cases, Result-cases,
}
use naivolt.Base.Text.{Text}
use naivolt.Ledger.Account.{Uuid}
use naivolt.Watcher.Network.{Network, rescan_depth}
use naivolt.Watcher.Store.{
  DepositRow, StoreDb, is_confirmed, find_deposit, reverse_deposit, relocate_deposit, reorg_window,
}
use naivolt.Watcher.Store.Tracking.{IsTracked}
use naivolt.Watcher.Store.Reversal.{
  reverse_deposit-absent, reverse_deposit-unconfirmed, reverse_deposit_lem, mark_reversed,
}
use naivolt.Watcher.Scan.{
  Node, Checked, missing, rebuilt, settle_moved, check_row, check_rows, check_reorgs,
}
use naivolt.Watcher.Scan.Updates.{HasRow, HasRow-update}
use naivolt.Watcher.Scan.Pending.{Snapshot, Snapshot-Follows}
use naivolt.Watcher.Scan.Reorgs.{
  Location-cases, moved, moved-Harmless, check_row-cases, check_row-Step, reorg-Snapshot,
}

-- A confirmed row of a transaction.
abbrev Credited : Text → DepositRow → Type 0
Credited hash r = (is_confirmed r.status ≡ true) × (r.tx_hash ≡ hash)

module _ (node : Node) (n : Network) (id : Uuid) (hash : Text)
    (known : (time : ℕ) → node.transaction_location time hash ≢ missing) where
  -- A reversal of another deposit leaves the row alone.
  reverse_deposit-keeps :
      (d : DepositRow) (db : StoreDb)
      → IsTracked db
      → Snapshot n db.deposits d
      → id ≢ d.id
      → HasRow (Credited hash) id db.deposits
      → HasRow (Credited hash) id (reverse_deposit d.id (rebuilt n d) db).1.deposits
  reverse_deposit-keeps d db h snap ne has = elim (Option-cases (find_deposit d.id db.deposits)) [
    | inl absent ↦ rw (reverse_deposit-absent db d.id (rebuilt n d) absent) has
    | inr (row, found) ↦ elim (Bool-cases (is_confirmed row.status)) [
      | inr other ↦ rw (reverse_deposit-unconfirmed db d.id (rebuilt n d) row found other) has
      | inl was_confirmed ↦
          rw (reverse_deposit_lem db d.id (rebuilt n d) row h found was_confirmed (snap row found))
            (HasRow-update (Credited hash) id d.id (mark_reversed _) db.deposits
              (λ r. (refl, (refl, refl, refl))) (λ r i c. absurd (ne i)) has)
    ]
  ]

  settle_moved-keeps :
      (time : ℕ) (d : DepositRow) (db : StoreDb)
      → IsTracked db
      → Snapshot n db.deposits d
      → HasRow (Credited hash) id db.deposits
      → HasRow (Credited hash) id (settle_moved node time n d db).1.deposits
  unfolding settle_moved relocate_deposit
  settle_moved-keeps time d db h snap (row, found, (is, same)) =
      elim (Location-cases (node.transaction_location time d.tx_hash)) [
        | inl (b, block, e) ↦
            rw (e, settle_moved)
              (HasRow-update (Credited hash) id d.id (moved b block) db.deposits
                (moved-Harmless b block).keeps (λ r i c. c) (row, found, (is, same)))
        | inr (inl e) ↦ rw (e, settle_moved) (row, found, (is, same))
        | inr (inr e) ↦
            let ne : id ≢ d.id = λ i. known time (
              ap (node.transaction_location time)
                (sym same ∙ sym (snap row (rw (← i) found)).tx_hash)
              ∙ e) in
            let kept = reverse_deposit-keeps d db h snap ne (row, found, (is, same)) in
            elim (Result-cases (reverse_deposit d.id (rebuilt n d) db).0) [
              | inl (done, fine) ↦ rw (e, settle_moved) (rw fine kept)
              | inr (x, failed) ↦ rw (e, settle_moved) (rw failed kept)
            ]
      ]

  check_rows-keeps :
      (time : ℕ) (ds : List DepositRow) (checked : Checked) (db : StoreDb)
      → IsTracked db
      → All (Snapshot n db.deposits) ds
      → HasRow (Credited hash) id db.deposits
      → HasRow (Credited hash) id (check_rows node time n ds (checked, db)).1.deposits
  unfolding check_rows
  check_rows-keeps time [] checked db h snaps has = has
  check_rows-keeps time (d ∷ ds) checked db h snaps has =
      let (fine, first, follow) = check_row-Step db h n d snaps.0 node time checked in
      let after = (check_row node time n d (checked, db)).1 in
      let now : HasRow (Credited hash) id after.1.deposits =
        elim (check_row-cases node time n d checked db) [
          | inl e ↦ rw e.1 has
          | inr e ↦ rw e.1 (settle_moved-keeps time d db h snaps.0 has)
        ] in
      rw (fine, check_rows)
        (check_rows-keeps (time + 1) ds after.0 after.1 first.0
          (All-map (Snapshot n db.deposits) (Snapshot n after.1.deposits)
            (λ q. Snapshot-Follows n db.deposits after.1.deposits q follow) ds snaps.1)
          now)

-- A credited deposit is still credited after the pass, whatever happened to its block, unless the
-- node says that it does not have the deposit's transaction: a moved transaction and a node that does
-- not answer take money off nobody.
pub check_reorgs-keeps :
    (node : Node) (n : Network) (head : ℕ) (db : StoreDb) (id : Uuid) (row : DepositRow)
    → IsTracked db
    → find_deposit id db.deposits ≡ some row
    → is_confirmed row.status ≡ true
    → ((time : ℕ) → node.transaction_location time row.tx_hash ≢ missing)
    → (row' : DepositRow) × (find_deposit id (check_reorgs node n head db).1.deposits ≡ some row')
      × (is_confirmed row'.status ≡ true)
unfolding check_reorgs
check_reorgs-keeps node n head db id row h found is_credited known =
    let (row', found', still) =
      check_rows-keeps node n id row.tx_hash known 0
        (reorg_window n (head - rescan_depth n) db.deposits) [] db h
        (reorg-Snapshot n (head - rescan_depth n) db.deposits h.distinct)
        (row, found, (is_credited, refl)) in
    (row', found', still.0)
