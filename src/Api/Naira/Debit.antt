-- ===== src/Api/Naira/Debit.antt =====
-- A debit of a user to an account of the platform, which both are opened for.
use naivolt.Base.{◌≡◌, ◌+◌, refl, none, some}
use naivolt.Base.Int.{ℤ}
use naivolt.Ledger.Account.{Uuid, AccountKind}
use naivolt.Ledger.Journal.{Journal}
use naivolt.Ledger.Journal.Build.{IsSound}
use naivolt.Ledger.Post.{LedgerDb, journal_id, find_journal, post}
use naivolt.Ledger.Post.Replay.{post_new}
use naivolt.Watcher.Store.Owed.{IsNumbered}
use naivolt.Api.Naira.{lock_user_ngn_account, platform_account}
use naivolt.Api.Naira.Transfer.{Opened, Transferred, pair, two_opened, post-Transferred}

-- The two accounts, and the ledger in which both are there.
abbrev pub opened_for : Uuid → AccountKind → LedgerDb → Uuid × (Uuid × LedgerDb)
opened_for user kind l =
    let (user_account, l₁) = lock_user_ngn_account user l in
    (user_account, platform_account kind l₁)

module _ (user : Uuid) (kind : AccountKind) (l : LedgerDb) where
  pub opened_for-Opened : Opened l (opened_for user kind l).1.1
  opened_for-Opened = (two_opened AccountKind.user_ngn kind (some user) none l).0

  -- Under a new key the journal is posted with the next id.
  pub debit-new :
      (x y : ℤ) (j : Journal)
      → IsNumbered l
      → j.entries
        ≡ pair (opened_for user kind l).0 AccountKind.user_ngn x (opened_for user kind l).1.0 kind y
      → IsSound j.kind j.entries
      → find_journal j.idempotency_key l.journals ≡ none
      → let opened = (opened_for user kind l).1.1 in
        (journal_id (post j opened).0 ≡ opened.next_id)
        × ((post j opened).1.next_id ≡ opened.next_id + 1)
        × Transferred l
            (post j opened).1
            AccountKind.user_ngn
            (some user)
            x
            kind
            none
            y
            j.idempotency_key
  debit-new x y j n shape sound new =
      let opened = (opened_for user kind l).1.1 in
      let (o, user_found, platform_found) =
        two_opened AccountKind.user_ngn kind (some user) none l in
      let fresh : find_journal j.idempotency_key opened.journals ≡ none = rw o.journals new in
      (
        rw (post_new j opened fresh) refl,
        rw (post_new j opened fresh) refl,
        post-Transferred l opened AccountKind.user_ngn kind (some user) none
            (opened_for user kind l).0 (opened_for user kind l).1.0 x y j n o user_found
            platform_found shape sound new,
      )
