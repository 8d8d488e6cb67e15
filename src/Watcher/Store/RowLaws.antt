-- ===== src/Watcher/Store/RowLaws.antt =====
-- Finding and updating a row of the deposits table, where ids and natural keys are unique.
use mathlib.Core.Path.{ap, subst}
use naivolt.Base.{
  ◌∙◌, true, ◌≡◌, ◌≢◌, refl, sym, Bool, some, List, [], ◌∷◌, ◌==◌, if◌then◌else◌, All, All-map,
  All-zip, inl, inr, Bool-cases, arith,
}
use naivolt.Base.Int.{+ℤ_assoc, ℤ, pos, ◌+ℤ◌, int_laws}
use naivolt.Base.Sums.{sum_where}
use naivolt.Ledger.Account.{Uuid}
use naivolt.Watcher.Store.Rows.{DepositRow, find_deposit, update_deposit}

-- The same network, transaction and output.
abbrev pub SameNatural : DepositRow → DepositRow → Type 0
SameNatural r q =
    (r.network ≡ q.network) × (r.tx_hash ≡ q.tx_hash) × (r.output_index ≡ q.output_index)

-- Two rows that share neither the id nor the natural key.
abbrev pub Apart : DepositRow → DepositRow → Type 0
Apart r q = (r.id ≢ q.id) × (¬ SameNatural r q)

abbrev pub DistinctRows : List DepositRow → Type 0
DistinctRows [] = Unit
DistinctRows (r ∷ rows) = All (Apart r) rows × DistinctRows rows

Apart-sym : (r q : DepositRow) → Apart r q → Apart q r
Apart-sym r q h = (λ e. h.0 (sym e), λ s. h.1 (sym s.0, sym s.1, sym s.2))

pub find_deposit-id :
    (id : Uuid) (rows : List DepositRow) {row : DepositRow}
    → find_deposit id rows ≡ some row
    → id ≡ row.id
unfolding find_deposit
find_deposit-id id [] e = ground arith
find_deposit-id id (r ∷ rows) {row} e = elim (Bool-cases (id == r.id)) [
  | inl same ↦ ground arith
  | inr other ↦ find_deposit-id id rows {row = row} (ground arith)
]

-- What holds of all rows holds of a found one.
pub find_deposit-All {κ} :
    (P : DepositRow → Type κ) (id : Uuid) (rows : List DepositRow) {row : DepositRow}
    → All P rows
    → find_deposit id rows ≡ some row
    → P row
unfolding find_deposit
find_deposit-All P id [] h e = cc
find_deposit-All P id (r ∷ rows) {row} h e = elim (Bool-cases (id == r.id)) [
  | inl same ↦ let i : r ≡ row = ground arith in subst P i h.0
  | inr other ↦ find_deposit-All P id rows {row = row} h.1 (ground arith)
]

update_deposit-absent :
    (id : Uuid) (f : DepositRow → DepositRow) (rows : List DepositRow)
    → All (λ q. id ≢ q.id) rows
    → update_deposit id f rows ≡ rows
unfolding update_deposit
update_deposit-absent id f [] h = refl
update_deposit-absent id f (r ∷ rows) h = ground (arith, update_deposit-absent id f rows h.1)

swap_ends : (x y z : ℤ) → x +ℤ y +ℤ z ≡ z +ℤ y +ℤ x
swap_ends x y z = omega int_laws

module _ (id : Uuid) (f : DepositRow → DepositRow) where
  -- An update gives every row what the updated one and those apart from it have.
  pub update_deposit-All {κ μ} :
      (P : DepositRow → Type κ) (Q : DepositRow → Type μ) (rows : List DepositRow)
      {row : DepositRow}
      → DistinctRows rows
      → find_deposit id rows ≡ some row
      → (P row → Q (f row))
      → ((q : DepositRow) → Apart row q → P q → Q q)
      → All P rows
      → All Q (update_deposit id f rows)
  unfolding find_deposit update_deposit
  update_deposit-All P Q [] d e here there h = tt
  update_deposit-All P Q (r ∷ rows) {row} d e here there h = elim (Bool-cases (id == r.id)) [
    | inl same ↦
        let i : row ≡ r = ground arith in
        let absent : All (λ q. id ≢ q.id) rows =
          All-map (Apart r) _ (λ q a k. a.0 (ground arith)) rows d.0 in
        rw (same, update_deposit-absent id f rows absent)
          (
            subst (λ z. Q (f z)) i (here (subst P (sym i) h.0)),
            All-zip (Apart r) P Q (λ q a pq. there q (subst (λ z. Apart z q) (sym i) a) pq) rows d.0
                h.1,
          )
    | inr other ↦
        let found : find_deposit id rows ≡ some row = ground arith in
        rw other (
          there r (Apart-sym r row (find_deposit-All (Apart r) id rows {row = row} d.0 found)) h.0,
          update_deposit-All P Q rows {row = row} d.1 found here there h.1,
        )
  ]

  pub sum-update_deposit :
      (p : DepositRow → Bool) (rows : List DepositRow) {row : DepositRow}
      → DistinctRows rows
      → find_deposit id rows ≡ some row
      → (f row).amount ≡ row.amount
      → sum_where (λ r. r.amount) p (update_deposit id f rows)
          +ℤ (if p row then row.amount else pos 0)
        ≡ sum_where (λ r. r.amount) p rows +ℤ (if p (f row) then row.amount else pos 0)
  unfolding find_deposit update_deposit sum_where
  sum-update_deposit p [] d e same = ground arith
  sum-update_deposit p (r ∷ rows) {row} d e kept = elim (Bool-cases (id == r.id)) [
    | inl same ↦
        let i : row ≡ r = ground arith in
        let absent : All (λ q. id ≢ q.id) rows =
          All-map (Apart r) _ (λ q a k. a.0 (ground arith)) rows d.0 in
        let kept' : (f r).amount ≡ r.amount = subst (λ z. (f z).amount ≡ z.amount) i kept in
        rw (same, update_deposit-absent id f rows absent, i, kept') (swap_ends _ _ _)
    | inr other ↦
        let found : find_deposit id rows ≡ some row = ground arith in
        rw (other, +ℤ_assoc, +ℤ_assoc, sum-update_deposit p rows {row = row} d.1 found kept)
  ]

-- An update that leaves the id and the natural key alone.
abbrev pub Keeps : (DepositRow → DepositRow) → Type 0
Keeps f = (r : DepositRow) → ((f r).id ≡ r.id) × SameNatural (f r) r

Apart-same : (x q q' : DepositRow) → q'.id ≡ q.id → SameNatural q' q → Apart x q → Apart x q'
Apart-same x q q' i s a = (λ e. a.0 (e ∙ i), λ n. a.1 (n.0 ∙ s.0, n.1 ∙ s.1, n.2 ∙ s.2))

Apart-update :
    (id : Uuid) (f : DepositRow → DepositRow) (x : DepositRow) (rows : List DepositRow)
    → Keeps f
    → All (Apart x) rows
    → All (Apart x) (update_deposit id f rows)
unfolding update_deposit
Apart-update id f x [] k h = tt
Apart-update id f x (r ∷ rows) k h = elim (Bool-cases (id == r.id)) [
  | inl same ↦ rw same (Apart-same x r (f r) (k r).0 (k r).1 h.0, Apart-update id f x rows k h.1)
  | inr other ↦ rw other (h.0, Apart-update id f x rows k h.1)
]

pub update_deposit-DistinctRows :
    (id : Uuid) (f : DepositRow → DepositRow) (rows : List DepositRow)
    → Keeps f
    → DistinctRows rows
    → DistinctRows (update_deposit id f rows)
unfolding update_deposit
update_deposit-DistinctRows id f [] k d = tt
update_deposit-DistinctRows id f (r ∷ rows) k d = elim (Bool-cases (id == r.id)) [
  | inl same ↦ rw same (
    Apart-update id f (f r) rows k (
        All-map (Apart r) (Apart (f r))
          (λ q a. Apart-sym q (f r) (Apart-same q r (f r) (k r).0 (k r).1 (Apart-sym r q a))) rows
          d.0),
    update_deposit-DistinctRows id f rows k d.1,
  )
  | inr other ↦
      rw other (Apart-update id f r rows k d.0, update_deposit-DistinctRows id f rows k d.1)
]

-- The updated row is found again.
pub find_deposit-update :
    (id : Uuid) (f : DepositRow → DepositRow) (rows : List DepositRow) {row : DepositRow}
    → Keeps f
    → find_deposit id rows ≡ some row
    → find_deposit id (update_deposit id f rows) ≡ some (f row)
unfolding find_deposit update_deposit
find_deposit-update id f [] k e = ground arith
find_deposit-update id f (r ∷ rows) {row} k e = elim (Bool-cases (id == r.id)) [
  | inl same ↦
      let i : r ≡ row = ground arith in
      let again : (id == (f r).id) ≡ true = rw (k r).0 same in
      rw (same, again) (ap (λ z. some (f z)) i)
  | inr other ↦ rw (other, other) (find_deposit-update id f rows {row = row} k (ground arith))
]
