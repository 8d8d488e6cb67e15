-- ===== src/Watcher/Store/Rows/Queries.antt =====
-- What the two queries select, whatever the order.
use mathlib.Core.Path.{subst}
use naivolt.Base.{
  ℕ, leb, ◌≡◌, Bool, true, List, [], ◌∷◌, ◌==◌, ◌&&◌, All, inl, inr, Bool-cases, arith,
}
use naivolt.Watcher.Network.{Network, network_index}
use naivolt.Watcher.Store.Rows.{
  DepositRow, is_pending, is_confirmed, insert_by_block, sort_by_block, select, pending_deposits,
  reorg_window,
}

module _ {κ} (P : DepositRow → Type κ) where
  select-All :
      (p : DepositRow → Bool) (rows : List DepositRow)
      → All P rows
      → All (λ r. P r × (p r ≡ true)) (select p rows)
  unfolding select
  select-All p [] h = tt
  select-All p (r ∷ rows) h = elim (Bool-cases (p r)) [
    | inl hit ↦ rw hit ((h.0, hit), select-All p rows h.1)
    | inr miss ↦ rw miss (select-All p rows h.1)
  ]

  select-All-inv :
      (p : DepositRow → Bool) (rows : List DepositRow)
      → All P (select p rows)
      → All (λ r. p r ≡ true → P r) rows
  unfolding select
  select-All-inv p [] h = tt
  select-All-inv p (r ∷ rows) h = elim (Bool-cases (p r)) [
    | inl hit ↦
        let e : select p (r ∷ rows) ≡ r ∷ select p rows = rw hit in
        let k : All P (r ∷ select p rows) = subst (All P) e h in
        (λ e. k.0, select-All-inv p rows k.1)
    | inr miss ↦
        let e : select p (r ∷ rows) ≡ select p rows = rw miss in
        let k : All P (select p rows) = subst (All P) e h in
        (λ e. absurd (ground arith), select-All-inv p rows k)
  ]

  insert-All :
      (r : DepositRow) (rows : List DepositRow) → P r → All P rows → All P (insert_by_block r rows)
  unfolding insert_by_block
  insert-All r [] h hs = (h, tt)
  insert-All r (q ∷ rows) h hs = elim (Bool-cases (leb q.block_number r.block_number)) [
    | inl hit ↦ rw hit (hs.0, insert-All r rows h hs.1)
    | inr miss ↦ rw miss (h, hs)
  ]

  insert-All-inv :
      (r : DepositRow) (rows : List DepositRow) → All P (insert_by_block r rows) → P r × All P rows
  unfolding insert_by_block
  insert-All-inv r [] h = h
  insert-All-inv r (q ∷ rows) h = elim (Bool-cases (leb q.block_number r.block_number)) [
    | inl hit ↦
        let e : insert_by_block r (q ∷ rows) ≡ q ∷ insert_by_block r rows = rw hit in
        let k : All P (q ∷ insert_by_block r rows) = subst (All P) e h in
        let (hr, hs) = insert-All-inv r rows k.1 in (hr, (k.0, hs))
    | inr miss ↦ let e : insert_by_block r (q ∷ rows) ≡ r ∷ q ∷ rows = rw miss in subst (All P) e h
  ]

  sort-All :
      (rows sorted : List DepositRow)
      → All P rows
      → All P sorted
      → All P (sort_by_block rows sorted)
  unfolding sort_by_block
  sort-All [] sorted h k = k
  sort-All (r ∷ rows) sorted h k =
      sort-All rows (insert_by_block r sorted) h.1 (insert-All r sorted h.0 k)

  sort-All-inv :
      (rows sorted : List DepositRow)
      → All P (sort_by_block rows sorted)
      → All P rows × All P sorted
  unfolding sort_by_block
  sort-All-inv [] sorted h = (tt, h)
  sort-All-inv (r ∷ rows) sorted h =
      let (hs, ks) = sort-All-inv rows (insert_by_block r sorted) h in
      let (hr, k) = insert-All-inv r sorted ks in ((hr, hs), k)

-- `network = $1 AND status IN ('seen', 'confirming')`
abbrev pub waits : Network → DepositRow → Bool
waits n r = (network_index n == network_index r.network) && is_pending r.status

-- `network = $1 AND status = 'confirmed' AND block_number >= $2`
abbrev pub may_reorganise : Network → ℕ → DepositRow → Bool
may_reorganise n from_block r =
    (network_index n == network_index r.network)
    && (is_confirmed r.status && leb from_block r.block_number)

module _ {κ} (P : DepositRow → Type κ) (n : Network) where
  pub pending_deposits-All :
      (rows : List DepositRow)
      → All P rows
      → All (λ r. P r × (waits n r ≡ true)) (pending_deposits n rows)
  unfolding pending_deposits
  pending_deposits-All rows h =
      sort-All (λ r. P r × (waits n r ≡ true)) (select (waits n) rows) []
        (select-All P (waits n) rows h) tt

  pub pending_deposits-All-inv :
      (rows : List DepositRow)
      → All P (pending_deposits n rows)
      → All (λ r. waits n r ≡ true → P r) rows
  unfolding pending_deposits
  pending_deposits-All-inv rows h =
      select-All-inv P (waits n) rows (sort-All-inv P (select (waits n) rows) [] h).0

  pub reorg_window-All :
      (from_block : ℕ) (rows : List DepositRow)
      → All P rows
      → All (λ r. P r × (may_reorganise n from_block r ≡ true)) (reorg_window n from_block rows)
  unfolding reorg_window
  reorg_window-All from_block rows h = select-All P (may_reorganise n from_block) rows h
