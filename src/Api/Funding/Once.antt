-- ===== src/Api/Funding/Once.antt =====
-- However often and in whatever order the answers about charges come, the ledger implements a set of
-- charges, each credited once under its reference.
use mathlib.Core.List.{append_cancel_right}
use naivolt.Base.{
  ◌≡◌, refl, sym, ap, ◌∙◌, Bool, true, false, none, some, is_some, List, [], ◌∷◌, ◌++◌, ◌||◌, ◌==◌,
  if◌then◌else◌, Result, ok, err, All, inl, inr, Bool-cases, arith,
}
use naivolt.Base.Int.{ℤ, pos, neg, ◌+ℤ◌, ◌≤ℤ◌, int_laws}
use naivolt.Base.Sums.{sum_where}
use naivolt.Base.Text.{Text, codes, text_eq, text_eq_iff, text_eq_refl}
use naivolt.Ledger.Account.{kind_index, Uuid, AccountKind}
use naivolt.Ledger.Post.{LedgerDb, JournalRow, find_journal}
use naivolt.Ledger.Post.Balance.{IsBalanced}
use naivolt.Watcher.Store.Owed.{IsNumbered}
use naivolt.Api.Error.{ApiError}
use naivolt.Api.Naira.Held.{held}
use naivolt.Api.Naira.Transfer.{Opened, moved}
use naivolt.Api.Funding.{FundingDb, settle}
use naivolt.Api.Funding.Provider.{ChargeState}
use naivolt.Api.Funding.Credit.{credit_key, Credited, first, again, credit_deposit-Credited}

-- A charge that was taken, and for whom.
pub record Charge : Type 0 where
  pub reference : Text
  pub user_id : Uuid
  pub amount : ℤ

unfoldable pub has_charge : Text → List Charge → Bool
has_charge reference [] = false
has_charge reference (c ∷ charges) = text_eq reference c.reference || has_charge reference charges

-- What a user paid in.
unfoldable pub paid_by : Uuid → List Charge → ℤ
paid_by user = sum_where (λ c. c.amount) (λ c. user == c.user_id)

-- An answer of the provider that reaches `settle`, from a page, the reconciler or a replay. It may
-- come late: whatever was read of the intent before may have changed.
pub record Answer : Type 0 where
  pub deposit_id : Uuid
  pub user_id : Uuid
  pub reference : Text
  pub state : Result ApiError ChargeState

-- The program: each answer is settled on the tables.
unfoldable pub run : List Answer → FundingDb → FundingDb
run [] db = db
run (a ∷ answers) db = run answers (settle a.state a.deposit_id a.user_id a.reference db).1

-- The specification: the first success under a reference is a charge, and all else is nothing.
unfoldable pub accept_one : Text → Uuid → Result ApiError ChargeState → List Charge → List Charge
accept_one reference user_id (err e) charges = charges
accept_one reference user_id (ok ChargeState.pending) charges = charges
accept_one reference user_id (ok (ChargeState.failed reason)) charges = charges
accept_one reference user_id (ok (ChargeState.succeeded x)) charges =
    if has_charge reference charges
    then charges
    else record { reference = reference; user_id = user_id; amount = x } ∷ charges

unfoldable pub accept : List Answer → List Charge → List Charge
accept [] charges = charges
accept (a ∷ answers) charges = accept answers (accept_one a.reference a.user_id a.state charges)

-- The provider takes positive amounts.
abbrev pub IsPositive : Result ApiError ChargeState → Type 0
IsPositive (ok (ChargeState.succeeded x)) = pos 1 ≤ℤ x
IsPositive _ = Unit

-- The ledger implements the charges: a user holds what they started with and what they paid in, and a
-- reference is taken exactly when it has been charged.
pub record Implements (start : Uuid → ℤ) (charges : List Charge) (l : LedgerDb) : Type 0 where
  pub numbered : IsNumbered l
  pub balanced : IsBalanced l
  pub taken :
      (reference : Text)
      → is_some (find_journal (credit_key reference) l.journals) ≡ has_charge reference charges
  pub holds : (v : Uuid) → held AccountKind.user_ngn (some v) l ≡ start v +ℤ neg (paid_by v charges)

credit_key-eq : (s t : Text) → text_eq (credit_key s) (credit_key t) ≡ text_eq s t
credit_key-eq s t = elim (Bool-cases (text_eq s t)) [
  | inl same ↦ rw ((text_eq_iff s t).0 same, text_eq_refl (credit_key t), text_eq_refl t) refl
  | inr apart ↦ elim (Bool-cases (text_eq (credit_key s) (credit_key t))) [
    | inr other ↦ rw (other, apart) refl
    | inl one ↦
        let e = append_cancel_right s t (codes ":credit") ((text_eq_iff _ _).0 one) in
        let c : text_eq s t ≡ true = (text_eq_iff s t).1 e in cc
  ]
]

find_journal-snoc :
    (key : Text) (rows : List JournalRow) (r : JournalRow)
    → is_some (find_journal key (rows ++ r ∷ []))
      ≡ (is_some (find_journal key rows) || text_eq key r.idempotency_key)
unfolding find_journal
find_journal-snoc key [] r = elim (Bool-cases (text_eq key r.idempotency_key)) [
  | inl e ↦ rw e refl
  | inr e ↦ rw e refl
]
find_journal-snoc key (q ∷ rows) r = elim (Bool-cases (text_eq key q.idempotency_key)) [
  | inl e ↦ rw e refl
  | inr e ↦ rw e (find_journal-snoc key rows r)
]

or-swap : (a b : Bool) → (a || b) ≡ (b || a)
or-swap a b = ground arith

-- What a new charge adds to what a user holds.
add-charge :
    (v user : Uuid) (x start paid : ℤ)
    → start
        +ℤ neg paid
        +ℤ moved AccountKind.ngn_float none x AccountKind.user_ngn
            (some user)
            (neg x)
            AccountKind.user_ngn
            (some v)
      ≡ start +ℤ neg ((if v == user then x else pos 0) +ℤ paid)
unfolding kind_index
add-charge v user x start paid = elim (Bool-cases (v == user)) [
  | inl mine ↦ rw mine (omega int_laws)
  | inr other ↦ rw other (omega int_laws)
]

module _ (start : Uuid → ℤ) (charges : List Charge) (l after : LedgerDb)
    (h : Implements start charges l) where
  Opened-Implements : Opened l after → Implements start charges after
  Opened-Implements o = record {
    numbered = o.numbered h.numbered;
    balanced = o.balanced h.balanced;
    taken = λ reference. rw o.journals (h.taken reference);
    holds = λ v. o.same_held h.numbered AccountKind.user_ngn (some v) ∙ h.holds v;
  }

  Credited-Implements :
      (user : Uuid) (reference : Text) (x : ℤ)
      → Credited user reference x l after
      → Implements start (accept_one reference user (ok (ChargeState.succeeded x)) charges) after
  unfolding accept_one has_charge paid_by sum_where
  Credited-Implements user reference x (again row found o) =
      let t : has_charge reference charges ≡ true = sym (h.taken reference) ∙ ap is_some found in
      rw t (Opened-Implements o)
  Credited-Implements user reference x (first new t) =
      let free : has_charge reference charges ≡ false = sym (h.taken reference) ∙ ap is_some new in
      rw free (record {
        numbered = t.numbered;
        balanced = t.balanced h.balanced;
        taken = λ other. rw t.journals (
            find_journal-snoc (credit_key other) l.journals t.row
            ∙ rw (t.keyed, credit_key-eq other reference, h.taken other)
                (or-swap (has_charge other charges) (text_eq other reference)));
        holds = λ v.
            t.now_held AccountKind.user_ngn (some v)
            ∙ rw (h.holds v) (add-charge v user x (start v) (paid_by v charges));
      })

settle-Implements :
    (start : Uuid → ℤ) (charges : List Charge) (state : Result ApiError ChargeState)
    (id user : Uuid) (reference : Text) (db : FundingDb)
    → IsPositive state
    → Implements start charges db.ledger
    → Implements start
        (accept_one reference user state charges)
        (settle state id user reference db).1.ledger
unfolding settle accept_one
settle-Implements start charges (err e) id user reference db p h = h
settle-Implements start charges (ok ChargeState.pending) id user reference db p h = h
settle-Implements start charges (ok (ChargeState.failed reason)) id user reference db p h = h
settle-Implements start charges (ok (ChargeState.succeeded x)) id user reference db p h =
    let (done, credited, marked) = credit_deposit-Credited id user reference x db p h.numbered in
    rw (done, settle) (Credited-Implements start charges db.ledger _ h user reference x credited)

-- However the answers come, late, repeated, in any order and about any intents, the ledger afterwards
-- implements the charges that the specification accepts: each user was credited the first success
-- under each reference, once, nobody was credited anything else, and the ledger stays balanced.
pub run-Implements :
    (start : Uuid → ℤ) (charges : List Charge) (answers : List Answer) (db : FundingDb)
    → All (λ a. IsPositive a.state) answers
    → Implements start charges db.ledger
    → Implements start (accept answers charges) (run answers db).ledger
unfolding run accept
run-Implements start charges [] db p h = h
run-Implements start charges (a ∷ answers) db p h =
    run-Implements start (accept_one a.reference a.user_id a.state charges) answers
      (settle a.state a.deposit_id a.user_id a.reference db).1 p.1
      (settle-Implements start charges a.state a.deposit_id a.user_id a.reference db p.0 h)
