-- ===== src/Watcher/Scan/Pending.antt =====
-- The pass over the deposits that wait for confirmations.
use mathlib.Core.Path.{subst}
use naivolt.Base.{
  ℕ, ltb, ◌≡◌, refl, sym, ◌∙◌, false, some, List, [], ◌∷◌, All, All-map, ◌==◌, if◌then◌else◌, inl,
  inr, Bool-cases, Option-cases, arith,
}
use naivolt.Ledger.Account.{Uuid}
use naivolt.Watcher.Network.{Network, min_confirmations}
use naivolt.Watcher.Network.Names.{network_index-injective}
use naivolt.Watcher.Deposit.{ObservedTransfer, confirmations_at}
use naivolt.Watcher.Store.{
  DepositRow, StoreDb, is_seen, confirming, as_i32, is_settled, find_deposit, credit_deposit,
  set_confirmations, pending_deposits,
}
use naivolt.Watcher.Store.Rows.Queries.{pending_deposits-All}
use naivolt.Watcher.Store.RowLaws.{Apart, DistinctRows}
use naivolt.Watcher.Store.Tracking.{IsFor, IsTracked}
use naivolt.Watcher.Store.Credit.{credit_deposit-absent, credit_deposit-settled, credit_deposit_lem}
use naivolt.Watcher.Store.Conservation.{Conserves, Conserves-trans, credit_deposit-Conserves}
use naivolt.Watcher.Scan.{rebuilt, advance_row, advance_rows, advance_pending}
use naivolt.Watcher.Scan.Updates.{
  Harmless, update_deposit-Conserves, Follows, Follows-refl, Follows-update, IsFor-Follows,
}

-- The update of `set_confirmations`.
abbrev pub recount : ℕ → DepositRow → DepositRow
recount c r =
    if is_seen r.status then record r { confirmations = as_i32 c; status = confirming } else r

pub recount-Harmless : (c : ℕ) → Harmless (recount c)
recount-Harmless c = record {
  keeps = λ r. elim (Bool-cases (is_seen r.status)) [
    | inl s ↦ rw s (refl, (refl, refl, refl))
    | inr s ↦ rw s (refl, (refl, refl, refl))
  ];
  user = λ r. ground arith;
  asset = λ r. ground arith;
  amount = λ r. ground arith;
  settled = λ r. ground arith;
  reversed = λ r. ground arith;
  confirmed = λ r. ground arith;
}

-- A row listed by a query is still the row that its transfer is rebuilt from.
abbrev pub Snapshot : Network → List DepositRow → DepositRow → Type 0
Snapshot n rows p = (row : DepositRow) → find_deposit p.id rows ≡ some row → IsFor (rebuilt n p) row

pub Snapshot-Follows :
    (n : Network) (before after : List DepositRow) (p : DepositRow)
    → Follows before after
    → Snapshot n before p
    → Snapshot n after p
Snapshot-Follows n before after p follow s row' e =
    let (row, found, same) = follow p.id row' e in
    IsFor-Follows (rebuilt n p) row' row (s row found) same

-- With distinct ids every row is the one that its id finds.
pub find_deposit_self :
    (rows : List DepositRow) → DistinctRows rows → All (λ p. find_deposit p.id rows ≡ some p) rows
unfolding find_deposit
find_deposit_self [] d = tt
find_deposit_self (r ∷ rows) d = (ground arith, later rows (find_deposit_self rows d.1) d.0)
  where
    later :
        (qs : List DepositRow)
        → All (λ p. find_deposit p.id rows ≡ some p) qs
        → All (Apart r) qs
        → All (λ p. find_deposit p.id (r ∷ rows) ≡ some p) qs
    later [] h a = tt
    later (q ∷ qs) h a =
        let other : (q.id == r.id) ≡ false = elim (Bool-cases (q.id == r.id)) [
          | inl same ↦ absurd (a.0.0 (ground arith))
          | inr other ↦ other
        ] in
        (rw other h.0, later qs h.1 a.1)

pub credit_deposit-Follows :
    (db : StoreDb) (id : Uuid) (t : ObservedTransfer)
    → IsTracked db
    → ((row : DepositRow) → find_deposit id db.deposits ≡ some row → IsFor t row)
    → Follows db.deposits (credit_deposit id t db).1.deposits
credit_deposit-Follows db id t h source = elim (Option-cases (find_deposit id db.deposits)) [
  | inl absent ↦ rw (credit_deposit-absent db id t absent) (Follows-refl db.deposits)
  | inr (row, found) ↦ elim (Bool-cases (is_settled row.status)) [
    | inl settled ↦ rw (credit_deposit-settled db id t row found settled) (Follows-refl db.deposits)
    | inr open_row ↦
        rw (credit_deposit_lem db id t row h found open_row (source row found))
          (Follows-update id _ db.deposits (λ r. (refl, (refl, refl, refl))) (λ r. refl))
  ]
]

module _ (n : Network) (head : ℕ) where
  -- A round keeps the tables in agreement, and every row stays one of the rows of before.
  pub advance_row_sound :
      (p : DepositRow) (db : StoreDb)
      → IsTracked db
      → Snapshot n db.deposits p
      → Conserves db (advance_row n head p db)
        × Follows db.deposits (advance_row n head p db).deposits
  unfolding advance_row set_confirmations
  advance_row_sound p db h s =
      elim (Bool-cases (ltb (confirmations_at head p.block_number) (min_confirmations n))) [
        | inl shallow ↦ rw shallow (
          update_deposit-Conserves db h p.id (recount _) (recount-Harmless _),
          Follows-update p.id (recount _) db.deposits (recount-Harmless _).keeps
              (recount-Harmless _).asset,
        )
        | inr deep ↦ rw deep (
          credit_deposit-Conserves db p.id (rebuilt n p) h s,
          credit_deposit-Follows db p.id (rebuilt n p) h s,
        )
      ]

  advance_rows-Conserves :
      (ps : List DepositRow) (db : StoreDb)
      → IsTracked db
      → All (Snapshot n db.deposits) ps
      → Conserves db (advance_rows n head ps db)
  unfolding advance_rows
  advance_rows-Conserves [] db h s = (h, λ v b. refl)
  advance_rows-Conserves (p ∷ ps) db h s =
      let (first, follow) = advance_row_sound p db h s.0 in
      Conserves-trans db (advance_row n head p db)
        (advance_rows n head ps (advance_row n head p db)) first
        (advance_rows-Conserves ps (advance_row n head p db) first.0 (
          All-map (Snapshot n db.deposits) (Snapshot n (advance_row n head p db).deposits)
            (λ q. Snapshot-Follows n db.deposits (advance_row n head p db).deposits q follow) ps
            s.1))

-- The row that its own id finds, of the pass's network, is one that its transfer stands for.
pub found-Snapshot :
    (n : Network) (rows : List DepositRow) (p : DepositRow)
    → find_deposit p.id rows ≡ some p
    → n ≡ p.network
    → Snapshot n rows p
found-Snapshot n rows p self e row found =
    let both : some p ≡ some row = sym self ∙ found in
    let same : p ≡ row = ground arith in
    subst (λ z. IsFor (rebuilt n p) z) same
      (record { network = e; tx_hash = refl; output_index = refl; asset = refl })

pub pending-Snapshot :
    (n : Network) (rows : List DepositRow)
    → DistinctRows rows
    → All (Snapshot n rows) (pending_deposits n rows)
pending-Snapshot n rows d =
    All-map _ (Snapshot n rows)
      (λ p h. found-Snapshot n rows p h.0 (network_index-injective n p.network (ground arith)))
      (pending_deposits n rows) (pending_deposits-All _ n rows (find_deposit_self rows d))

-- A pass over the waiting deposits keeps the tables in agreement, and what it changes in what any
-- user is owed is exactly what it confirms, whatever the head is.
pub advance_pending-Conserves :
    (n : Network) (head : ℕ) (db : StoreDb)
    → IsTracked db
    → Conserves db (advance_pending n head db)
unfolding advance_pending
advance_pending-Conserves n head db h =
    advance_rows-Conserves n head (pending_deposits n db.deposits) db h
      (pending-Snapshot n db.deposits h.distinct)
