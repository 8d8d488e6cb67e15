-- ===== src/Api/Funding/Credit.antt =====
-- What the credit of a charge does to the ledger, the first time and later.
use naivolt.Base.{
  Bool-cases, ok, refl, false, ◌≡◌, refl, ◌++◌, none, some, ok, inl, inr, Option-cases, arith,
}
use naivolt.Base.Int.{ltb_ℤ, neg_parts, +ℤ-neg, ℤ, pos, neg, ◌≤ℤ◌}
use naivolt.Base.Text.{Text, codes}
use naivolt.Ledger.Account.{Uuid, AccountKind}
use naivolt.Ledger.Journal.{Metadata, is_custody_only, JournalKind, Journal, Reference, new, entry}
use naivolt.Ledger.Journal.Build.{IsSound, build_iff}
use naivolt.Ledger.Post.Replay.{post_old}
use naivolt.Ledger.Post.{journal_id, JournalRow, LedgerDb, find_journal, post}
use naivolt.Watcher.Store.Owed.{IsNumbered}
use naivolt.Api.Naira.{lock_user_ngn_account, platform_account}
use naivolt.Api.Naira.Transfer.{Opened, Transferred, pair, two_opened, post-Transferred}
use naivolt.Api.Naira.Sound.{pair-IsSound}
use naivolt.Api.Funding.{
  FundingDb, credit_deposit, set_pending, credited_as, find_intent, is_pending, credit_journal,
}

-- The key of a credit.
abbrev pub credit_key : Text → Text
credit_key reference = reference ++ codes ":credit"

-- A positive amount is never refused, and the journal has the two entries.
pub credit_journal-ok :
    (float user : Uuid) (reference : Text) (x : ℤ)
    → pos 1 ≤ℤ x
    → (j : Journal) × (credit_journal float user reference x ≡ ok j)
      × (j.idempotency_key ≡ credit_key reference)
      × (j.entries ≡ pair float AccountKind.ngn_float x user AccountKind.user_ngn (neg x))
      × IsSound j.kind j.entries
unfolding credit_journal new entry
credit_journal-ok float user reference x h =
    let sound : IsSound JournalKind.ngn_deposit
        (pair float AccountKind.ngn_float x user AccountKind.user_ngn (neg x)) =
      pair-IsSound JournalKind.ngn_deposit float user AccountKind.ngn_float AccountKind.user_ngn x
        (neg x) (unfold is_custody_only in refl) (ground arith) (ground (arith, neg_parts x))
        (+ℤ-neg x) in
    (
      record {
        kind = JournalKind.ngn_deposit;
        reference = Reference.text reference;
        idempotency_key = credit_key reference;
        entries = pair float AccountKind.ngn_float x user AccountKind.user_ngn (neg x);
        metadata = Metadata.null;
      },
      (build_iff _ _).1 (sound, refl),
      refl,
      refl,
      sound,
    )

-- The accounts of a credit, opened.
abbrev pub crediting : Uuid → LedgerDb → Uuid × (Uuid × LedgerDb)
crediting user l =
    let (user_account, l₁) = lock_user_ngn_account user l in
    (user_account, platform_account AccountKind.ngn_float l₁)

-- What happens to the ledger: the first credit of a reference moves the amount, a later one nothing.
pub data Credited (user : Uuid) (reference : Text) (x : ℤ) (l after : LedgerDb) : Type 0 where
  first :
      find_journal (credit_key reference) l.journals ≡ none
      → Transferred l after AccountKind.ngn_float none x AccountKind.user_ngn
          (some user)
          (neg x)
          (credit_key reference)
      → Credited user reference x l after
  again :
      (row : JournalRow)
      → find_journal (credit_key reference) l.journals ≡ some row
      → Opened l after
      → Credited user reference x l after

pub post-Credited :
    (user : Uuid) (reference : Text) (x : ℤ) (l : LedgerDb) (j : Journal)
    → IsNumbered l
    → j.idempotency_key ≡ credit_key reference
    → j.entries
      ≡ pair
          (crediting user l).1.0
          AccountKind.ngn_float
          x
          (crediting user l).0
          AccountKind.user_ngn
          (neg x)
    → IsSound j.kind j.entries
    → Credited user reference x l (post j (crediting user l).1.1).1
post-Credited user reference x l j h key shape sound =
    let (o, user_found, float_found) =
      two_opened AccountKind.user_ngn AccountKind.ngn_float (some user) none l in
    elim (Option-cases (find_journal (credit_key reference) l.journals)) [
      | inl new ↦ first new (
          rw (← key) (
            post-Transferred l (crediting user l).1.1 AccountKind.ngn_float AccountKind.user_ngn
              none (some user) (crediting user l).1.0 (crediting user l).0 x (neg x) j h o
              float_found user_found shape sound (rw key new)))
      | inr (row, old) ↦
          let there : find_journal j.idempotency_key (crediting user l).1.1.journals ≡ some row =
            rw (key, o.journals) old in
          again row old (rw (post_old j (crediting user l).1.1 {r = row} there) o)
    ]

-- A credit of a positive amount is never refused. It marks the intent if that is still open.
pub credit_deposit-Credited :
    (id user : Uuid) (reference : Text) (x : ℤ) (db : FundingDb)
    → pos 1 ≤ℤ x
    → IsNumbered db.ledger
    → let after = (credit_deposit id user reference x db).1 in
      ((credit_deposit id user reference x db).0 ≡ ok tt)
      × Credited user reference x db.ledger after.ledger
      × ((journal : Uuid) × (after.deposits ≡ set_pending id (credited_as x journal) db.deposits))
unfolding credit_deposit
credit_deposit-Credited id user reference x db h n =
    let l = db.ledger in
    let (j, built, key, shape, sound) =
      credit_journal-ok (crediting user l).1.0 (crediting user l).0 reference x h in
    let credited = post-Credited user reference x l j n key shape sound in
    let large : ltb_ℤ x (pos 1) ≡ false = ground arith in
    elim (Option-cases (find_intent id db.deposits)) [
      | inl absent ↦
          rw (built, credit_deposit, absent, credit_deposit)
            (refl, credited, (journal_id (post j (crediting user l).1.1).0, refl))
      | inr (r, found) ↦ elim (Bool-cases (is_pending r.status)) [
        | inl open_ ↦
            rw (built, credit_deposit, found, credit_deposit, open_, large)
              (refl, credited, (journal_id (post j (crediting user l).1.1).0, refl))
        | inr closed ↦
            rw (built, credit_deposit, found, credit_deposit, closed)
              (refl, credited, (journal_id (post j (crediting user l).1.1).0, refl))
      ]
    ]
