-- ===== src/Api/Naira/Solvent.antt =====
-- No user is owed less than nothing.
use naivolt.Base.{◌≡◌, sym, ap, ◌∙◌, none, some, false, Bool-cases, inl, inr, ◌==◌, arith}
use naivolt.Base.Int.{ℤ, pos, neg, ◌≤ℤ◌, ltb_ℤ, int_laws}
use naivolt.Core.Asset.{Asset}
use naivolt.Ledger.Account.{Uuid, AccountKind, user_facing_balance, is_liability, kind_index}
use naivolt.Ledger.Post.{LedgerDb, balance}
use naivolt.Watcher.Store.Owed.{IsNumbered, account_id-found}
use naivolt.Api.Naira.{lock_user_ngn_account}
use naivolt.Api.Naira.Held.{held, held-some}
use naivolt.Api.Naira.Transfer.{Opened, Transferred, account_id-Opened}

-- The raw sum of a liability is not positive when it is covered.
abbrev pub IsSolvent : LedgerDb → Type 0
IsSolvent l = (v : Uuid) → held AccountKind.user_ngn (some v) l ≤ℤ pos 0

pub Opened-IsSolvent :
    (l after : LedgerDb) → IsNumbered l → Opened l after → IsSolvent l → IsSolvent after
Opened-IsSolvent l after n o h v = rw (o.same_held n AccountKind.user_ngn (some v)) (h v)

-- What the handlers read as the balance of a user.
pub available :
    (user : Uuid) (l : LedgerDb)
    → IsNumbered l
    → let locked = lock_user_ngn_account user l in
      user_facing_balance AccountKind.user_ngn (balance locked.0 locked.1)
      ≡ neg (held AccountKind.user_ngn (some user) l)
unfolding user_facing_balance is_liability
available user l n =
    let o = account_id-Opened AccountKind.user_ngn (some user) l in
    ap neg (
      sym (
        held-some AccountKind.user_ngn (some user) (lock_user_ngn_account user l).1
          {id = (lock_user_ngn_account user l).0}
          (account_id-found AccountKind.user_ngn (some user) Asset.ngn l))
      ∙ o.same_held n AccountKind.user_ngn (some user))

pub le_of_ltb_ℤ : (a b : ℤ) → ltb_ℤ a b ≡ false → b ≤ℤ a
le_of_ltb_ℤ a b h = ground arith

-- A debit of a user that the balance covers leaves every user solvent, if the other side is no user.
pub debit-IsSolvent :
    (l after : LedgerDb) (user : Uuid) (x : ℤ) (k : AccountKind) (key : _)
    → kind_index AccountKind.user_ngn == kind_index k ≡ false
    → Transferred l after AccountKind.user_ngn (some user) x k none (neg x) key
    → ltb_ℤ (neg (held AccountKind.user_ngn (some user) l)) x ≡ false
    → IsSolvent l
    → IsSolvent after
unfolding kind_index
debit-IsSolvent l after user x k key other t covered h v =
    rw (t.now_held AccountKind.user_ngn (some v)) (elim (Bool-cases (v == user)) [
      | inl mine ↦
          let e : user ≡ v = ground arith in
          let c : x ≤ℤ neg (held AccountKind.user_ngn (some v) l) =
            le_of_ltb_ℤ _ x (rw (← e) covered) in
          rw (mine, other) (omega int_laws)
      | inr apart ↦ rw (apart, other) (omega (int_laws, h v))
    ])
