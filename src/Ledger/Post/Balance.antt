-- ===== src/Ledger/Post/Balance.antt =====
-- The balance of the ledger as a whole, and of each of its journals.
use naivolt.Base.{
  All-append, [], ◌∷◌, inr, inl, ◌∷◌, ◌+◌, All-map, arith, Option-cases, All-of, Bool-cases, ℕ, ◌≢◌,
  ◌<◌, ◌≡◌, ◌∙◌, List, ◌++◌, map, All, ◌==◌, ◌&&◌,
}
use naivolt.Base.Int.{zero-add_ℤ, add-zero_ℤ, ℤ, pos}
use naivolt.Base.Sums.{sum_where-none, sum_where-ext, sum_where, sum_where-append, sum_where-map}
use naivolt.Core.Asset.{Asset, asset_index}
use naivolt.Ledger.Account.{Uuid}
use naivolt.Ledger.Journal.{Entry, Journal}
use naivolt.Ledger.Journal.Build.{IsSound}
use naivolt.Ledger.Journal.Build.Totals.{total}
use naivolt.Ledger.Post.Replay.{post_new, post_old}
use naivolt.Ledger.Post.{find_journal, post, EntryRow, LedgerDb, to_row}

-- What one asset adds up to over the whole ledger.
unfoldable pub asset_total : Asset → LedgerDb → ℤ
asset_total a db = sum_where (λ e. e.amount) (λ e. asset_index a == asset_index e.asset) db.entries

-- What one asset adds up to in one journal, as the database's own trigger computes it.
unfoldable pub journal_total : Uuid → Asset → LedgerDb → ℤ
journal_total id a db =
    sum_where (λ e. e.amount) (λ e. id == e.journal_id && (asset_index a == asset_index e.asset))
      db.entries

-- Entries belong to journals that were posted, each journal adds up to zero in each asset, and so
-- does the whole ledger.
pub record IsBalanced (db : LedgerDb) : Type 0 where
  pub numbered : All (λ e. e.journal_id < db.next_id) db.entries
  pub by_journal : (id : Uuid) (a : Asset) → journal_total id a db ≡ pos 0
  pub by_asset : (a : Asset) → asset_total a db ≡ pos 0

-- The entries of a sound journal add nothing to an asset.
rows_total :
    (id : Uuid) (a : Asset) (es : List Entry)
    → sum_where (λ e. e.amount) (λ e. asset_index a == asset_index e.asset) (map (to_row id) es)
      ≡ total a es
unfolding total
rows_total id a es = sum_where-map (λ e. e.amount) (to_row id) _ es

module _ (j : Journal) (db : LedgerDb) (sound : IsSound j.kind j.entries) where
  asset_total-post :
      (a : Asset)
      → IsBalanced db
      → sum_where
          (λ e. e.amount)
          (λ e. asset_index a == asset_index e.asset)
          (db.entries ++ map (to_row db.next_id) j.entries)
        ≡ pos 0
  unfolding asset_total
  asset_total-post a h =
      sum_where-append (λ e. e.amount) _ db.entries (map (to_row db.next_id) j.entries)
      ∙ rw (h.by_asset a, rows_total db.next_id a j.entries, sound.balanced a, add-zero_ℤ)

-- The new rows all carry the new journal's id.
rows_other :
    (id n : Uuid) (a : Asset) (es : List Entry)
    → id ≢ n
    → sum_where
        (λ e. e.amount)
        (λ e. id == e.journal_id && (asset_index a == asset_index e.asset))
        (map (to_row n) es)
      ≡ pos 0
rows_other id n a es ne =
    sum_where-map (λ e. e.amount) (to_row n) _ es
    ∙ sum_where-none (λ e. e.amount) _ es (All-of _ (λ e. ground arith) es)

rows_self :
    (n : Uuid) (a : Asset) (es : List Entry)
    → sum_where
        (λ e. e.amount)
        (λ e. n == e.journal_id && (asset_index a == asset_index e.asset))
        (map (to_row n) es)
      ≡ total a es
unfolding total
rows_self n a es =
    sum_where-map (λ e. e.amount) (to_row n) _ es
    ∙ sum_where-ext (λ e. e.amount) _ _ es (All-of _ (λ e. ground arith) es)

-- No entry carries an id that has not been drawn.
entries_below :
    (n : ℕ) (a : Asset) (es : List EntryRow)
    → All (λ e. e.journal_id < n) es
    → sum_where
        (λ e. e.amount)
        (λ e. n == e.journal_id && (asset_index a == asset_index e.asset))
        es
      ≡ pos 0
entries_below n a es h =
    sum_where-none (λ e. e.amount) _ es (All-map _ _ (λ e lt. ground arith) es h)

numbered-rows : (n : ℕ) (es : List Entry) → All (λ e. e.journal_id < n + 1) (map (to_row n) es)
numbered-rows n [] = tt
numbered-rows n (e ∷ es) = (omega arith, numbered-rows n es)

by_journal-post :
    (id : Uuid) (a : Asset) (j : Journal) (db : LedgerDb)
    → IsSound j.kind j.entries
    → IsBalanced db
    → sum_where
        (λ e. e.amount)
        (λ e. id == e.journal_id && (asset_index a == asset_index e.asset))
        (db.entries ++ map (to_row db.next_id) j.entries)
      ≡ pos 0
unfolding journal_total
by_journal-post id a j db sound h =
    sum_where-append (λ e. e.amount) _ db.entries (map (to_row db.next_id) j.entries)
    ∙ elim (Bool-cases (id == db.next_id)) [
      | inl same ↦
          let e : id ≡ db.next_id = ground arith in
          rw (
            e,
            entries_below db.next_id a db.entries h.numbered,
            rows_self db.next_id a j.entries,
            sound.balanced a,
            zero-add_ℤ,
          )
      | inr other ↦
          rw (
            h.by_journal id a,
            rows_other id db.next_id a j.entries (λ e. ground arith),
            zero-add_ℤ,
          )
    ]

-- Posting a sound journal, new or replayed, keeps every journal and the whole ledger balanced.
pub post-IsBalanced :
    (j : Journal) (db : LedgerDb)
    → IsSound j.kind j.entries
    → IsBalanced db
    → IsBalanced (post j db).1
post-IsBalanced j db sound h = elim (Option-cases (find_journal j.idempotency_key db.journals)) [
  | inr (r, old) ↦ rw (post_old j db old) h
  | inl new ↦ rw (post_new j db new) (record {
    numbered =
        All-append _ db.entries _ (All-map _ _ (λ e lt. omega arith) db.entries h.numbered)
          (numbered-rows db.next_id j.entries);
    by_journal = λ id a. unfold journal_total in by_journal-post id a j db sound h;
    by_asset = λ a. unfold asset_total in asset_total-post j db sound a h;
  })
]
