-- ===== src/Api/Naira/Held.antt =====
-- What the naira account of a kind and a user holds, before it exists too.
use naivolt.Base.{
  ◌≡◌, refl, sym, ap, ◌∙◌, Bool, true, Option, none, some, List, [], ◌∷◌, ◌==◌, ◌&&◌, inl, inr,
  Bool-cases, arith,
}
use naivolt.Base.Int.{ℤ, pos}
use naivolt.Core.Asset.{Asset}
use naivolt.Ledger.Account.{Uuid, AccountKind, LedgerAccount, kind_index}
use naivolt.Ledger.Post.{LedgerDb, balance}
use naivolt.Watcher.Store.{same_user, matches_account, find_account}
use naivolt.Watcher.Store.Owed.{IsNumbered, find_account-injective}

-- The raw sum of an account; one that does not exist yet holds nothing.
unfoldable pub held : AccountKind → Option Uuid → LedgerDb → ℤ
held k u l = elim (find_account k u Asset.ngn l.accounts) [ none ↦ pos 0 | some id ↦ balance id l ]

-- Two accounts are of one kind and user.
abbrev pub same_holder : AccountKind → Option Uuid → AccountKind → Option Uuid → Bool
same_holder k u k' u' = (kind_index k == kind_index k') && same_user u u'

pub held-some :
    (k : AccountKind) (u : Option Uuid) (l : LedgerDb) {id : Uuid}
    → find_account k u Asset.ngn l.accounts ≡ some id
    → held k u l ≡ balance id l
unfolding held
held-some k u l e = rw (e, held)

pub held-none :
    (k : AccountKind) (u : Option Uuid) (l : LedgerDb)
    → find_account k u Asset.ngn l.accounts ≡ none
    → held k u l ≡ pos 0
unfolding held
held-none k u l e = rw (e, held)

same_user-eq : (u v : Option Uuid) → same_user u v ≡ true → u ≡ v
same_user-eq none none h = refl
same_user-eq none (some v) h = cc
same_user-eq (some u) none h = cc
same_user-eq (some u) (some v) h = ground arith

-- One holder has one account.
pub find_account-same :
    (k k' : AccountKind) (u u' : Option Uuid) (accounts : List LedgerAccount)
    → same_holder k u k' u' ≡ true
    → find_account k u Asset.ngn accounts ≡ find_account k' u' Asset.ngn accounts
unfolding find_account matches_account
find_account-same k k' u u' [] h = refl
find_account-same k k' u u' (a ∷ accounts) h =
    let e : kind_index k ≡ kind_index k' = ground arith in
    let t : same_user u u' ≡ true = ground arith in
    rw (e, same_user-eq u u' t, find_account-same k k' u u' accounts h)

-- Accounts that exist are one exactly when their holders are.
pub same_holder-id :
    (k k' : AccountKind) (u u' : Option Uuid) (l : LedgerDb) {id id' : Uuid}
    → IsNumbered l
    → find_account k u Asset.ngn l.accounts ≡ some id
    → find_account k' u' Asset.ngn l.accounts ≡ some id'
    → (id == id') ≡ same_holder k u k' u'
same_holder-id k k' u u' l {id} {id'} h f f' = elim (Bool-cases (same_holder k u k' u')) [
  | inl same ↦
      let t : some id ≡ some id' = sym f ∙ (find_account-same k k' u u' l.accounts same ∙ f') in
      ground arith
  | inr apart ↦ elim (Bool-cases (id == id')) [
    | inr other ↦ rw (other, apart) refl
    | inl one ↦
        let e : id' ≡ id = ground arith in
        let g : find_account k' u' Asset.ngn l.accounts ≡ some id = f' ∙ ap some e in
        absurd (
          ground (
            arith,
            find_account-injective k k' u u' Asset.ngn Asset.ngn l.accounts {id = id} h.distinct f
                g,
          ))
  ]
]
