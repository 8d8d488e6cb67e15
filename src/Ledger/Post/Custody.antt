-- ===== src/Ledger/Post/Custody.antt =====
-- Custody movements never change what a user is owed.
use naivolt.Base.{
  sym, ◌≡◌, ◌∙◌, ap, true, false, Option, none, some, List, [], ◌∷◌, map, All, inl, inr,
  if◌then◌else◌, ◌==◌, Bool-cases, Option-cases, arith,
}
use naivolt.Base.Int.{ℤ, pos, ◌+ℤ◌, add-zero_ℤ}
use naivolt.Base.Sums.{sum_where, sum_where-append, sum_where-map, sum_where-none}
use naivolt.Ledger.Account.{Uuid, AccountKind, LedgerAccount, is_liability}
use naivolt.Ledger.Journal.{Entry, Journal, is_custody_only}
use naivolt.Ledger.Journal.Build.{IsSound, NoLiability}
use naivolt.Ledger.Post.{LedgerDb, find_journal, to_row, post, balance}
use naivolt.Ledger.Post.Replay.{post_new, post_old}

-- What the entries of a journal add to an account.
unfoldable pub account_sum : Uuid → List Entry → ℤ
account_sum account = sum_where (λ e. e.amount) (λ e. account == e.account_id)

-- A journal that is new moves each balance by what its entries add to the account.
pub balance-post :
    (account : Uuid) (j : Journal) (db : LedgerDb)
    → find_journal j.idempotency_key db.journals ≡ none
    → balance account (post j db).1 ≡ balance account db +ℤ account_sum account j.entries
unfolding balance account_sum
balance-post account j db new = rw (post_new j db new) (
    sum_where-append (λ e. e.amount) _ db.entries (map (to_row db.next_id) j.entries)
    ∙ rw (
        sum_where-map (λ e. e.amount) (to_row db.next_id) (λ e. account == e.account_id) j.entries))

-- The kind that the accounts table gives an account.
unfoldable pub kind_of : Uuid → List LedgerAccount → Option AccountKind
kind_of id [] = none
kind_of id (a ∷ as') = if id == a.id then some a.kind else kind_of id as'

-- The kinds that the entries carry are those of the table.
abbrev pub Agrees : LedgerDb → List Entry → Type 0
Agrees db = All (λ e. kind_of e.account_id db.accounts ≡ some e.account_kind)

untouched :
    (account : Uuid) (k : AccountKind) (db : LedgerDb) (es : List Entry)
    → kind_of account db.accounts ≡ some k
    → is_liability k ≡ true
    → Agrees db es
    → NoLiability es
    → All (λ e. (account == e.account_id) ≡ false) es
untouched account k db [] known l h n = tt
untouched account k db (e ∷ es) known l h n = (
  elim (Bool-cases (account == e.account_id)) [
    | inr other ↦ other
    | inl same ↦
        let i : account ≡ e.account_id = ground arith in
        let q : some k ≡ some e.account_kind = sym known ∙ rw i h.0 in
        let r : k ≡ e.account_kind = ground arith in cc (n.0, ap is_liability r)
  ],
  untouched account k db es known l h.1 n.1,
)

-- Posting a sweep or a gas journal leaves the balance of every liability account exactly as it was:
-- emptying a user's deposit address cannot change what the user is owed.
pub custody-balance :
    (j : Journal) (db : LedgerDb) (account : Uuid) (k : AccountKind)
    → IsSound j.kind j.entries
    → is_custody_only j.kind ≡ true
    → Agrees db j.entries
    → kind_of account db.accounts ≡ some k
    → is_liability k ≡ true
    → balance account (post j db).1 ≡ balance account db
custody-balance j db account k sound custody agrees known l =
    elim (Option-cases (find_journal j.idempotency_key db.journals)) [
      | inr (r, old) ↦ rw (post_old j db old)
      | inl new ↦
          balance-post account j db new
          ∙ rw (
            account_sum-none account j.entries
                (untouched account k db j.entries known l agrees (sound.custody custody)),
            add-zero_ℤ,
          )
    ]
  where
    account_sum-none :
        (a : Uuid) (es : List Entry)
        → All (λ e. (a == e.account_id) ≡ false) es
        → account_sum a es ≡ pos 0
    account_sum-none a es h = unfold account_sum in sum_where-none (λ e. e.amount) _ es h
