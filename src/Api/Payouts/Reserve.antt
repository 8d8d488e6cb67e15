-- ===== src/Api/Payouts/Reserve.antt =====
-- What the reservation of a payout does, on each of its branches.
use naivolt.Base.{
  ℕ, ◌+◌, ◌<◌, ◌≤◌, ◌≡◌, refl, true, false, none, some, List, [], ◌∷◌, ◌++◌, All, Result, ok, err,
  inl, inr, Bool-cases, arith,
}
use naivolt.Base.Int.{ℤ, pos, neg, ◌≤ℤ◌, ltb_ℤ, neg_parts, +ℤ-neg}
use naivolt.Base.Text.{Text, text_eq}
use naivolt.Ledger.Account.{Uuid, AccountKind}
use naivolt.Ledger.Journal.{Journal, new, entry, with_metadata, is_custody_only}
use naivolt.Ledger.Journal.Build.{IsSound}
use naivolt.Ledger.Post.{LedgerDb, JournalRow, journal_id, find_journal, post}
use naivolt.Ledger.Post.Replay.{post_new, post_old}
use naivolt.Watcher.Store.Owed.{IsNumbered}
use naivolt.Api.Error.{ApiError}
use naivolt.Api.Naira.{lock_user_ngn_account, platform_account}
use naivolt.Api.Naira.Held.{held}
use naivolt.Api.Naira.Transfer.{
  Opened-trans, Opened, Transferred, pair, two_opened, draw-Opened, post-Transferred,
  Transferred-Opened,
}
use naivolt.Api.Naira.Sound.{build-pair}
use naivolt.Api.Naira.Solvent.{available}
use naivolt.Api.Payouts.{
  reserved, PayoutRow, BankRow, PayoutsDb, PayoutResponse, response, reserve_journal, find_payout,
  record_payout, reserve,
}

-- The tables are numbered: ids of journals, also those that payouts name, have been drawn.
pub record IsDrawn (db : PayoutsDb) : Type 0 where
  pub numbered : IsNumbered db.ledger
  pub ids_drawn : All (λ r. r.id < db.ledger.next_id) db.ledger.journals
  pub journals_drawn : All (λ p. p.reserved_journal_id < db.ledger.next_id) db.payouts

reserve_journal-ok :
    (user_account pending : Uuid) (reference key : Text) (x : ℤ) (bank : BankRow)
    → pos 1 ≤ℤ x
    → (j : Journal) × (reserve_journal user_account pending reference key x bank ≡ ok j)
      × (j.idempotency_key ≡ key)
      × (j.entries
          ≡ pair user_account AccountKind.user_ngn x pending AccountKind.ngn_payable_pending
              (neg x))
      × IsSound j.kind j.entries
unfolding reserve_journal new entry with_metadata is_custody_only
reserve_journal-ok user_account pending reference key x bank h =
    let (built, sound) =
      build-pair _ user_account pending AccountKind.user_ngn AccountKind.ngn_payable_pending x
        (neg x) refl refl (ground arith) (ground (arith, neg_parts x)) (+ℤ-neg x) in
    (_, built, refl, refl, sound)

-- The accounts of a reservation, opened.
abbrev pub reserving : Uuid → LedgerDb → Uuid × (Uuid × LedgerDb)
reserving user l =
    let (user_account, l₁) = lock_user_ngn_account user l in
    (user_account, platform_account AccountKind.ngn_payable_pending l₁)

find_payout-drawn :
    (n : ℕ) (rows : List PayoutRow)
    → All (λ p. p.reserved_journal_id < n) rows
    → (m : ℕ) → n ≤ m
    → find_payout m rows ≡ none
unfolding find_payout
find_payout-drawn n [] h m le = refl
find_payout-drawn n (p ∷ rows) h m le = ground (arith, find_payout-drawn n rows h.1 m le)

find_journal-drawn :
    (n : ℕ) (key : Text) (rows : List JournalRow) (row : JournalRow)
    → All (λ r. r.id < n) rows
    → find_journal key rows ≡ some row
    → row.id < n
unfolding find_journal
find_journal-drawn n key [] row h e = ground arith
find_journal-drawn n key (r ∷ rows) row h e = elim (Bool-cases (text_eq key r.idempotency_key)) [
  | inl hit ↦ let same : r ≡ row = ground arith in rw (← same) h.0
  | inr miss ↦ find_journal-drawn n key rows row h.1 (ground arith)
]

-- A payout that the balance does not cover is refused without a change.
pub reserve-poor :
    (user : Uuid) (bank : BankRow) (x : ℤ) (key reference : Text) (now : ℕ) (db : PayoutsDb)
    → IsNumbered db.ledger
    → ltb_ℤ (neg (held AccountKind.user_ngn (some user) db.ledger)) x ≡ true
    → reserve user bank x key reference now db ≡ (err ApiError.insufficient_balance, db)
unfolding reserve
reserve-poor user bank x key reference now db n poor =
    rw (available user db.ledger n, reserve, poor) refl

-- A payout of a user, for an amount, that is reserved and comes last in the table.
pub record Adds (user : Uuid) (x : ℤ) (bank : BankRow) (now : ℕ) (before : List PayoutRow)
    (result : Result ApiError PayoutResponse × PayoutsDb) : Type 0 where
  pub payout : PayoutRow
  pub told : result.0 ≡ ok (response bank payout)
  pub owner : payout.user_id ≡ user
  pub amount : payout.amount_ngn ≡ x
  pub state : payout.status ≡ reserved
  pub destination : payout.bank_account_id ≡ bank.id
  pub moment : payout.created_at ≡ now
  pub payouts : result.1.payouts ≡ before ++ payout ∷ []
  pub drawn : payout.reserved_journal_id < result.1.ledger.next_id

module _ (user : Uuid) (bank : BankRow) (x : ℤ) (key reference : Text) (now : ℕ) (db : PayoutsDb)
    (h : IsDrawn db) (positive : pos 1 ≤ℤ x)
    (covered : ltb_ℤ (neg (held AccountKind.user_ngn (some user) db.ledger)) x ≡ false) where
  -- The ledger after a reservation under a key that was not taken.
  posting : Journal → LedgerDb
  posting j = (post j (reserving user db.ledger).1.1).1

  record_new :
      (journal : Uuid) (l : LedgerDb)
      → find_payout journal db.payouts ≡ none
      → journal < l.next_id + 1
      → let result = record_payout journal user bank x reference now l db in
        Adds user x bank now db.payouts result
        × (result.1.ledger ≡ record l { next_id = l.next_id + 1 })
  unfolding record_payout
  record_new journal l absent lt =
      rw (absent, record_payout)
        (
          record {
            payout = record {
              id = l.next_id;
              user_id = user;
              bank_account_id = bank.id;
              amount_ngn = x;
              fee_ngn = pos 0;
              status = reserved;
              provider_reference = reference;
              reserved_journal_id = journal;
              created_at = now;
            };
            told = refl;
            owner = refl;
            amount = refl;
            state = refl;
            destination = refl;
            moment = refl;
            payouts = refl;
            drawn = lt;
          },
          refl,
        )

  reserve-posts :
      (j : Journal)
      → reserve_journal
          (reserving user db.ledger).0
          (reserving user db.ledger).1.0
          reference
          key
          x
          bank
        ≡ ok j
      → reserve user bank x key reference now db
        ≡ record_payout
            (journal_id (post j (reserving user db.ledger).1.1).0)
            user
            bank
            x
            reference
            now
            (post j (reserving user db.ledger).1.1).1
            db
  unfolding reserve
  reserve-posts j built =
      rw (available user db.ledger h.numbered, reserve, covered, built, reserve) refl

  -- Under a new key the amount goes from what the user is owed to what the bank is, and a payout of
  -- that amount is recorded.
  pub reserve-new :
      find_journal key db.ledger.journals ≡ none
      → let result = reserve user bank x key reference now db in
        Adds user x bank now db.payouts result
        × Transferred db.ledger result.1.ledger AccountKind.user_ngn
            (some user)
            x
            AccountKind.ngn_payable_pending
            none
            (neg x)
            key
  reserve-new free =
      let l = db.ledger in
      let opened = (reserving user l).1.1 in
      let (j, built, keyed, shape, sound) =
        reserve_journal-ok (reserving user l).0 (reserving user l).1.0 reference key x bank
          positive in
      let (o, user_found, pending_found) =
        two_opened AccountKind.user_ngn AccountKind.ngn_payable_pending (some user) none l in
      let new' : find_journal j.idempotency_key l.journals ≡ none = rw keyed free in
      let fresh : find_journal j.idempotency_key opened.journals ≡ none = rw o.journals new' in
      let id : journal_id (post j opened).0 ≡ opened.next_id = rw (post_new j opened fresh) refl in
      let moved_ =
        post-Transferred l opened AccountKind.user_ngn AccountKind.ngn_payable_pending (some user)
          none (reserving user l).0 (reserving user l).1.0 x (neg x) j h.numbered o user_found
          pending_found shape sound new' in
      let absent : find_payout (journal_id (post j opened).0) db.payouts ≡ none =
        rw id (find_payout-drawn l.next_id db.payouts h.journals_drawn opened.next_id o.grows) in
      let next : (post j opened).1.next_id ≡ opened.next_id + 1 =
        rw (post_new j opened fresh) refl in
      let (adds, ledger) =
        record_new (journal_id (post j opened).0) (post j opened).1 absent
          (rw (id, next) (omega arith)) in
      rw (reserve-posts j built) (
        adds,
        rw ledger (
            Transferred-Opened l (post j opened).1 _ AccountKind.user_ngn
              AccountKind.ngn_payable_pending (some user) none x (neg x) key (rw keyed at moved_)
              (draw-Opened (post j opened).1)),
      )

  -- Under a key whose journal has a payout, that payout is returned and nothing moves, whoever asks.
  pub reserve-again :
      (row : JournalRow) (p : PayoutRow)
      → find_journal key db.ledger.journals ≡ some row
      → find_payout row.id db.payouts ≡ some p
      → let result = reserve user bank x key reference now db in
        (result.0 ≡ ok (response bank p))
        × (result.1.payouts ≡ db.payouts)
        × Opened db.ledger result.1.ledger
  reserve-again row p taken there =
      let l = db.ledger in
      let opened = (reserving user l).1.1 in
      let (j, built, keyed, shape, sound) =
        reserve_journal-ok (reserving user l).0 (reserving user l).1.0 reference key x bank
          positive in
      let (o, user_found, pending_found) =
        two_opened AccountKind.user_ngn AccountKind.ngn_payable_pending (some user) none l in
      let old : find_journal j.idempotency_key opened.journals ≡ some row =
        rw (keyed, o.journals) taken in
      rw (reserve-posts j built, post_old j opened {r = row} old)
        (unfold record_payout in rw (there, record_payout) (refl, refl, o))

  -- Under a key whose journal has no payout, a payout is recorded and nothing moves.
  pub reserve-unfunded :
      (row : JournalRow)
      → find_journal key db.ledger.journals ≡ some row
      → find_payout row.id db.payouts ≡ none
      → let result = reserve user bank x key reference now db in
        Adds user x bank now db.payouts result × Opened db.ledger result.1.ledger
  reserve-unfunded row taken absent =
      let l = db.ledger in
      let opened = (reserving user l).1.1 in
      let (j, built, keyed, shape, sound) =
        reserve_journal-ok (reserving user l).0 (reserving user l).1.0 reference key x bank
          positive in
      let (o, user_found, pending_found) =
        two_opened AccountKind.user_ngn AccountKind.ngn_payable_pending (some user) none l in
      let old : find_journal j.idempotency_key opened.journals ≡ some row =
        rw (keyed, o.journals) taken in
      let (adds, ledger) = record_new row.id opened absent (
        omega
          (arith, find_journal-drawn l.next_id key l.journals row h.ids_drawn taken, o.grows)) in
      rw (reserve-posts j built, post_old j opened {r = row} old)
        (adds, rw ledger (Opened-trans l opened _ o (draw-Opened opened)))
