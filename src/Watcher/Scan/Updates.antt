-- ===== src/Watcher/Scan/Updates.antt =====
-- Updates of a row that leave its money alone, and what every step leaves of a row.
use mathlib.Core.Path.{subst}
use naivolt.Base.{
  ◌≡◌, refl, sym, ap, ◌∙◌, true, false, none, some, List, [], ◌∷◌, ◌==◌, inl, inr, Bool-cases,
  Option-cases, arith,
}
use naivolt.Base.Text.{codes}
use naivolt.Ledger.Account.{Uuid}
use naivolt.Watcher.Deposit.{ObservedTransfer}
use naivolt.Watcher.Store.{
  DepositRow, StoreDb, is_confirmed, is_settled, find_deposit, update_deposit,
}
use naivolt.Watcher.Store.RowLaws.{Keeps, update_deposit-All, update_deposit-DistinctRows}
use naivolt.Watcher.Store.Tracking.{
  IsFor, RowTracked, IsTracked, is_reversed, row_transfer, key-IsFor,
}
use naivolt.Watcher.Store.Conservation.{Conserves, status_sum_same}

-- An update that leaves everything that the money depends on.
pub record Harmless (f : DepositRow → DepositRow) : Type 0 where
  pub keeps : Keeps f
  pub user : (r : DepositRow) → (f r).user_id ≡ r.user_id
  pub asset : (r : DepositRow) → (f r).asset ≡ r.asset
  pub amount : (r : DepositRow) → (f r).amount ≡ r.amount
  pub settled : (r : DepositRow) → is_settled (f r).status ≡ is_settled r.status
  pub reversed : (r : DepositRow) → is_reversed (f r).status ≡ is_reversed r.status
  pub confirmed : (r : DepositRow) → is_confirmed (f r).status ≡ is_confirmed r.status

pub update_deposit-missing :
    (id : Uuid) (f : DepositRow → DepositRow) (rows : List DepositRow)
    → find_deposit id rows ≡ none
    → update_deposit id f rows ≡ rows
unfolding find_deposit update_deposit
update_deposit-missing id f [] e = refl
update_deposit-missing id f (r ∷ rows) e = elim (Bool-cases (id == r.id)) [
  | inl same ↦ ground arith
  | inr other ↦ rw other (ap (λ z. r ∷ z) (update_deposit-missing id f rows (ground arith)))
]

module _ (db : StoreDb) (h : IsTracked db) (id : Uuid) (f : DepositRow → DepositRow)
    (k : Harmless f) where
  mark_tracked :
      (r : DepositRow) → RowTracked db.ledger.journals r → RowTracked db.ledger.journals (f r)
  mark_tracked r t =
      let same : IsFor (row_transfer (f r)) r = record {
        network = (k.keeps r).1.0;
        tx_hash = (k.keeps r).1.1;
        output_index = (k.keeps r).1.2;
        asset = k.asset r;
      } in
      record {
        hash = rw (k.keeps r).1.1 t.hash;
        amount = λ e. t.amount (sym (k.amount r) ∙ e);
        uncredited = λ s.
            rw (key-IsFor (codes "deposit") (row_transfer (f r)) r same)
              (t.uncredited (sym (k.settled r) ∙ s));
        unreversed = λ s.
            rw (key-IsFor (codes "reversal") (row_transfer (f r)) r same)
              (t.unreversed (sym (k.reversed r) ∙ s));
      }

  -- A harmless update of a row moves no money and keeps the tables in agreement.
  pub update_deposit-Conserves :
      Conserves db (record db { deposits = update_deposit id f db.deposits })
  update_deposit-Conserves = elim (Option-cases (find_deposit id db.deposits)) [
    | inl absent ↦ rw (update_deposit-missing id f db.deposits absent) (h, λ v b. refl)
    | inr (row, found) ↦ (
      record {
        numbered = h.numbered;
        distinct = update_deposit-DistinctRows id f db.deposits k.keeps h.distinct;
        tracked =
            update_deposit-All id f (RowTracked db.ledger.journals) (RowTracked db.ledger.journals)
              db.deposits {row = row} h.distinct found (mark_tracked row) (λ q a t. t) h.tracked;
      },
      λ v b.
          status_sum_same v b id f db.deposits row h.distinct found (k.amount row) (k.user row)
            (k.asset row) db.ledger (k.confirmed row),
    )
  ]

-- Every row afterwards is a row of before, of the same transaction output and asset.
abbrev pub Follows : List DepositRow → List DepositRow → Type 0
Follows before after =
    (id : Uuid) (row' : DepositRow)
    → find_deposit id after ≡ some row'
    → (row : DepositRow) × (find_deposit id before ≡ some row) × IsFor (row_transfer row') row

IsFor-refl : (r : DepositRow) → IsFor (row_transfer r) r
IsFor-refl r = record { network = refl; tx_hash = refl; output_index = refl; asset = refl }

pub Follows-refl : (rows : List DepositRow) → Follows rows rows
Follows-refl rows id row' e = (row', e, IsFor-refl row')

Follows-cons :
    (r r' : DepositRow) (rows rows' : List DepositRow)
    → r'.id ≡ r.id
    → IsFor (row_transfer r') r
    → Follows rows rows'
    → Follows (r ∷ rows) (r' ∷ rows')
unfolding find_deposit
Follows-cons r r' rows rows' i same h q row' e = elim (Bool-cases (q == r.id)) [
  | inl hit ↦
      let here : (q == r'.id) ≡ true = rw i hit in
      let it : r' ≡ row' = ground arith in
      rw hit (r, refl, subst (λ z. IsFor (row_transfer z) r) it same)
  | inr miss ↦ let there : (q == r'.id) ≡ false = rw i miss in rw miss (h q row' (ground arith))
]

pub Follows-update :
    (id : Uuid) (f : DepositRow → DepositRow) (rows : List DepositRow)
    → Keeps f
    → ((r : DepositRow) → (f r).asset ≡ r.asset)
    → Follows rows (update_deposit id f rows)
unfolding update_deposit
Follows-update id f [] k a = Follows-refl []
Follows-update id f (r ∷ rows) k a = elim (Bool-cases (id == r.id)) [
  | inl same ↦ rw same (
      Follows-cons r (f r) rows (update_deposit id f rows) (k r).0
        (record { network = (k r).1.0; tx_hash = (k r).1.1; output_index = (k r).1.2; asset = a r })
        (Follows-update id f rows k a))
  | inr other ↦ rw other (
      Follows-cons r r rows (update_deposit id f rows) refl (IsFor-refl r)
        (Follows-update id f rows k a))
]

pub IsFor-Follows :
    (t : ObservedTransfer) (row' row : DepositRow)
    → IsFor t row
    → IsFor (row_transfer row') row
    → IsFor t row'
IsFor-Follows t row' row h k = record {
  network = h.network ∙ sym k.network;
  tx_hash = h.tx_hash ∙ sym k.tx_hash;
  output_index = h.output_index ∙ sym k.output_index;
  asset = h.asset ∙ sym k.asset;
}

-- The row of an id exists, and has the property `P`.
abbrev pub HasRow : (DepositRow → Type 0) → Uuid → List DepositRow → Type 0
HasRow P id rows = (row : DepositRow) × (find_deposit id rows ≡ some row) × P row

-- An update keeps a property of the row of an id, if it keeps it when it is that row's.
pub HasRow-update :
    (P : DepositRow → Type 0) (id q : Uuid) (f : DepositRow → DepositRow) (rows : List DepositRow)
    → Keeps f
    → ((r : DepositRow) → id ≡ q → P r → P (f r))
    → HasRow P id rows
    → HasRow P id (update_deposit q f rows)
unfolding find_deposit update_deposit
HasRow-update P id q f [] k m (row, found, h) = absurd (ground arith)
HasRow-update P id q f (r ∷ rows) k m (row, found, h) = elim (Bool-cases (id == r.id)) [
  | inl hit ↦
      let i : row ≡ r = ground arith in
      elim (Bool-cases (q == r.id)) [
        | inl same ↦
            let here : (id == (f r).id) ≡ true = rw (k r).0 hit in
            rw same (f r, rw here, m r (ground arith) (subst P i h))
        | inr other ↦ rw other (r, rw hit, subst P i h)
      ]
  | inr miss ↦
      let (row', found', h') = HasRow-update P id q f rows k m (row, ground arith, h) in
      elim (Bool-cases (q == r.id)) [
        | inl same ↦
            let there : (id == (f r).id) ≡ false = rw (k r).0 miss in
            rw same (row', rw there found', h')
        | inr other ↦ rw other (row', rw miss found', h')
      ]
]
