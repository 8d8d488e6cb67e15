-- ===== src/Ledger/Post/Replay.antt =====
-- Posting is idempotent and append-only.
use naivolt.Base.{
  append-nil, ◌∙◌, ◌+◌, ◌≡◌, refl, none, some, List, [], ◌∷◌, ◌++◌, map, inl, inr, if◌then◌else◌,
  Bool-cases, Option-cases, arith,
}
use naivolt.Base.Text.{Text, text_eq, text_eq_refl}
use naivolt.Ledger.Journal.{Journal}
use naivolt.Ledger.Post.{
  EntryRow, JournalRow, LedgerDb, PostOutcome, journal_id, find_journal, to_row, journal_row, post,
}

pub find_journal-append :
    (key : Text) (rows : List JournalRow) (r : JournalRow)
    → find_journal key rows ≡ none
    → find_journal key (rows ++ r ∷ []) ≡ (if text_eq key r.idempotency_key then some r else none)
unfolding find_journal
find_journal-append key [] r h = refl
find_journal-append key (q ∷ rows) r h = elim (Bool-cases (text_eq key q.idempotency_key)) [
  | inl e ↦ ground arith
  | inr e ↦ rw e (find_journal-append key rows r (ground arith))
]

pub post_new :
    (j : Journal) (db : LedgerDb)
    → find_journal j.idempotency_key db.journals ≡ none
    → post j db ≡ (
      PostOutcome.posted db.next_id,
      record db {
        journals = db.journals ++ journal_row db.next_id j ∷ [];
        entries = db.entries ++ map (to_row db.next_id) j.entries;
        next_id = db.next_id + 1;
      },
    )
unfolding post
post_new j db h = rw (h, post)

pub post_old :
    (j : Journal) (db : LedgerDb) {r : JournalRow}
    → find_journal j.idempotency_key db.journals ≡ some r
    → post j db ≡ (PostOutcome.already_posted r.id, db)
unfolding post
post_old j db h = rw (h, post)

-- After a journal has been posted, posting any journal with the same idempotency key writes nothing
-- and returns the id of the first: a retry is a no-op.
pub post-post :
    (j k : Journal) (db : LedgerDb)
    → j.idempotency_key ≡ k.idempotency_key
    → post k (post j db).1 ≡ (PostOutcome.already_posted (journal_id (post j db).0), (post j db).1)
post-post j k db same = elim (Option-cases (find_journal j.idempotency_key db.journals)) [
  | inl new ↦ rw (post_new j db new) (post_old k _ {r = journal_row db.next_id j} (taken new))
  | inr (r, old) ↦ rw (post_old j db old) (post_old k db {r = r} (rw (← same) old))
]
  where
    taken :
        find_journal j.idempotency_key db.journals ≡ none
        → find_journal k.idempotency_key (db.journals ++ journal_row db.next_id j ∷ [])
          ≡ some (journal_row db.next_id j)
    taken new = rw (← same) (
        find_journal-append j.idempotency_key db.journals (journal_row db.next_id j) new
        ∙ rw (text_eq_refl j.idempotency_key))

-- Posting never removes or changes a row: the journals and the entries of before are a prefix of
-- those of after, and the accounts stay as they were.
pub post_append_only :
    (j : Journal) (db : LedgerDb)
    → (js : List JournalRow) × (es : List EntryRow) × ((post j db).1.journals ≡ db.journals ++ js)
      × ((post j db).1.entries ≡ db.entries ++ es)
      × ((post j db).1.accounts ≡ db.accounts)
post_append_only j db = elim (Option-cases (find_journal j.idempotency_key db.journals)) [
  | inl new ↦ (
    journal_row db.next_id j ∷ [],
    map (to_row db.next_id) j.entries,
    rw (post_new j db new),
    rw (post_new j db new),
    rw (post_new j db new),
  )
  | inr (r, old) ↦ (
    [],
    [],
    rw (post_old j db old, append-nil),
    rw (post_old j db old, append-nil),
    rw (post_old j db old),
  )
]
