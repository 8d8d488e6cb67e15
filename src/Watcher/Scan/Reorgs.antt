-- ===== src/Watcher/Scan/Reorgs.antt =====
-- The pass that looks for credited deposits whose block is gone.
use naivolt.Base.{
  ℕ, ◌+◌, ◌-◌, ◌≡◌, refl, Bool, true, false, some, List, [], ◌∷◌, All, All-map, Result, ok, ◌⊎◌,
  inl, inr, Bool-cases, Option-cases, arith,
}
use naivolt.Base.Text.{Text}
use naivolt.Watcher.Network.{Network, rescan_depth}
use naivolt.Watcher.Network.Names.{network_index-injective}
use naivolt.Watcher.Store.{
  DepositRow, StoreDb, StoreError, is_confirmed, find_deposit, reverse_deposit, relocate_deposit,
  reorg_window,
}
use naivolt.Watcher.Store.Rows.Queries.{reorg_window-All}
use naivolt.Watcher.Store.RowLaws.{DistinctRows}
use naivolt.Watcher.Store.Tracking.{IsTracked}
use naivolt.Watcher.Store.Reversal.{
  reverse_deposit-absent, reverse_deposit-unconfirmed, reverse_deposit_lem, mark_reversed,
}
use naivolt.Watcher.Store.Conservation.{Conserves, Conserves-trans, reverse_deposit-Conserves}
use naivolt.Watcher.Scan.{
  Location, Node, Checked, included, missing, unanswered, current_hash, same_hash, rebuilt,
  settle_moved, check_row, check_rows, check_reorgs,
}
use naivolt.Watcher.Scan.Updates.{
  Harmless, update_deposit-Conserves, Follows, Follows-refl, Follows-update,
}
use naivolt.Watcher.Scan.Pending.{Snapshot, Snapshot-Follows, found-Snapshot, find_deposit_self}

-- The update of `relocate_deposit`.
abbrev pub moved : ℕ → Text → DepositRow → DepositRow
moved block_number block_hash r = record r {
  block_number = block_number;
  block_hash = some block_hash;
}

pub moved-Harmless : (b : ℕ) (hash : Text) → Harmless (moved b hash)
moved-Harmless b hash = record {
  keeps = λ r. (refl, (refl, refl, refl));
  user = λ r. refl;
  asset = λ r. refl;
  amount = λ r. refl;
  settled = λ r. refl;
  reversed = λ r. refl;
  confirmed = λ r. refl;
}

pub Location-cases :
    (l : Location)
    → ((b : ℕ) × (hash : Text) × (l ≡ included b hash)) ⊎ ((l ≡ unanswered) ⊎ (l ≡ missing))
Location-cases (included b hash) = inl (b, hash, refl)
Location-cases unanswered = inr (inl refl)
Location-cases missing = inr (inr refl)

-- A round either leaves the tables alone or asks where the transaction is.
pub check_row-cases :
    (node : Node) (time : ℕ) (n : Network) (d : DepositRow) (checked : Checked) (db : StoreDb)
    → let (r, s) = check_row node time n d (checked, db) in
      ((r ≡ ok tt) × (s.1 ≡ db))
      ⊎ ((r ≡ (settle_moved node time n d db).0) × (s.1 ≡ (settle_moved node time n d db).1))
unfolding check_row
check_row-cases node time n d checked db = elim (Option-cases d.block_hash) [
  | inl e ↦ rw e (inl (refl, refl))
  | inr ([], e) ↦ rw e (inl (refl, refl))
  | inr (c ∷ cs, e) ↦ rw e (elim (Option-cases (current_hash node time d.block_number checked).0) [
    | inl unknown ↦ rw (unknown, check_row) (inl (refl, refl))
    | inr (hash, known) ↦
        rw (known, check_row)
          (elim (Bool-cases (same_hash hash (c ∷ cs))) [
            | inl same ↦ rw same (inl (refl, refl))
            | inr differs ↦ rw differs (inr (refl, refl))
          ])
  ])
]

-- What a step of the pass gives: no error, and tables in agreement.
abbrev Step : Result StoreError (Unit {0}) → StoreDb → StoreDb → Type 0
Step r before after = (r ≡ ok tt) × Conserves before after × Follows before.deposits after.deposits

Step-stays : (db : StoreDb) → IsTracked db → Step (ok tt) db db
Step-stays db h = (refl, (h, λ v b. refl), Follows-refl db.deposits)

module _ (db : StoreDb) (h : IsTracked db) (n : Network) (d : DepositRow)
    (snap : Snapshot n db.deposits d) where
  -- A reversal by the pass does not fail.
  reverse_deposit-ok :
      (done : Bool) × ((reverse_deposit d.id (rebuilt n d) db).0 ≡ ok done)
      × Follows db.deposits (reverse_deposit d.id (rebuilt n d) db).1.deposits
  reverse_deposit-ok = elim (Option-cases (find_deposit d.id db.deposits)) [
    | inl absent ↦
        rw (reverse_deposit-absent db d.id (rebuilt n d) absent)
          (false, refl, Follows-refl db.deposits)
    | inr (row, found) ↦ elim (Bool-cases (is_confirmed row.status)) [
      | inr other ↦
          rw (reverse_deposit-unconfirmed db d.id (rebuilt n d) row found other)
            (false, refl, Follows-refl db.deposits)
      | inl was_confirmed ↦
          rw (reverse_deposit_lem db d.id (rebuilt n d) row h found was_confirmed (snap row found))
            (
              true,
              refl,
              Follows-update d.id (mark_reversed _) db.deposits (λ r. (refl, (refl, refl, refl)))
                  (λ r. refl),
            )
    ]
  ]

  settle_moved-Step :
      (node : Node) (time : ℕ)
      → Step (settle_moved node time n d db).0 db (settle_moved node time n d db).1
  unfolding settle_moved relocate_deposit
  settle_moved-Step node time = elim (Location-cases (node.transaction_location time d.tx_hash)) [
    | inl (b, hash, e) ↦
        rw (e, settle_moved)
          (
            refl,
            update_deposit-Conserves db h d.id (moved b hash) (moved-Harmless b hash),
            Follows-update d.id (moved b hash) db.deposits (moved-Harmless b hash).keeps
                (λ r. refl),
          )
    | inr (inl e) ↦ rw (e, settle_moved) (Step-stays db h)
    | inr (inr e) ↦
        let (done, fine, follow) = reverse_deposit-ok in
        rw (e, settle_moved)
          (rw fine (refl, reverse_deposit-Conserves db d.id (rebuilt n d) h snap, follow))
  ]

  pub check_row-Step :
      (node : Node) (time : ℕ) (checked : Checked)
      → Step
          (check_row node time n d (checked, db)).0
          db
          (check_row node time n d (checked, db)).1.1
  check_row-Step node time checked = elim (check_row-cases node time n d checked db) [
    | inl e ↦ rw (e.0, e.1) (Step-stays db h)
    | inr e ↦ rw (e.0, e.1) (settle_moved-Step node time)
  ]

check_rows-Conserves :
    (node : Node) (time : ℕ) (n : Network) (ds : List DepositRow) (checked : Checked) (db : StoreDb)
    → IsTracked db
    → All (Snapshot n db.deposits) ds
    → ((check_rows node time n ds (checked, db)).0 ≡ ok tt)
      × Conserves db (check_rows node time n ds (checked, db)).1
unfolding check_rows
check_rows-Conserves node time n [] checked db h snaps = (refl, (h, λ v b. refl))
check_rows-Conserves node time n (d ∷ ds) checked db h snaps =
    let (fine, first, follow) = check_row-Step db h n d snaps.0 node time checked in
    let after = (check_row node time n d (checked, db)).1 in
    let (fine', rest) = check_rows-Conserves node (time + 1) n ds after.0 after.1 first.0 (
      All-map (Snapshot n db.deposits) (Snapshot n after.1.deposits)
        (λ q. Snapshot-Follows n db.deposits after.1.deposits q follow) ds snaps.1) in
    rw (fine, check_rows)
      (fine', Conserves-trans db after.1 (check_rows node (time + 1) n ds after).1 first rest)

pub reorg-Snapshot :
    (n : Network) (from_block : ℕ) (rows : List DepositRow)
    → DistinctRows rows
    → All (Snapshot n rows) (reorg_window n from_block rows)
reorg-Snapshot n from_block rows d =
    All-map _ (Snapshot n rows)
      (λ p h. found-Snapshot n rows p h.0 (network_index-injective n p.network (ground arith)))
      (reorg_window n from_block rows)
      (reorg_window-All _ n from_block rows (find_deposit_self rows d))

-- Whatever the node answers, the pass over the credited deposits ends without an error, keeps the
-- tables in agreement, and what it changes in what any user is owed is exactly what it reverses.
pub check_reorgs-Conserves :
    (node : Node) (n : Network) (head : ℕ) (db : StoreDb)
    → IsTracked db
    → ((check_reorgs node n head db).0 ≡ ok tt) × Conserves db (check_reorgs node n head db).1
unfolding check_reorgs
check_reorgs-Conserves node n head db h =
    check_rows-Conserves node 0 n (reorg_window n (head - rescan_depth n) db.deposits) [] db h
      (reorg-Snapshot n (head - rescan_depth n) db.deposits h.distinct)
