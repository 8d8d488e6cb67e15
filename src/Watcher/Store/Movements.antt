-- ===== src/Watcher/Store/Movements.antt =====
-- What a deposit journal, posted once, does to what the ledger owes.
use naivolt.Base.{
  [], ◌∷◌, All-append, map, All-map, ◌+◌, ◌<◌, List, All, ℕ, ◌≡◌, ◌≢◌, sym, ap, ◌∙◌, true, false,
  none, some, ◌==◌, ◌&&◌, if◌then◌else◌, inl, inr, Bool-cases, Option-cases, arith,
}
use naivolt.Base.Int.{zero-add_ℤ, ℤ, pos, ◌+ℤ◌, int_laws}
use naivolt.Base.Sums.{sum_where}
use naivolt.Core.Asset.{Asset, asset_index}
use naivolt.Core.Asset.Names.{asset_index-injective}
use naivolt.Ledger.Account.{Uuid, AccountKind, kind_index}
use naivolt.Ledger.Journal.{Entry, Journal}
use naivolt.Ledger.Post.{to_row, LedgerDb, find_journal, post}
use naivolt.Ledger.Post.Replay.{post_new, post_append_only}
use naivolt.Ledger.Post.Custody.{account_sum, balance-post}
use naivolt.Watcher.Deposit.Journals.{deposit_entries}
use naivolt.Watcher.Store.Accounts.{find_account}
use naivolt.Watcher.Store.Owed.{owed-some, owed-none, IsNumbered, owed, find_account-injective}

-- `y` at the account of a user and an asset, and nothing at any other.
abbrev pub at_account : Uuid → Asset → ℤ → Uuid → Asset → ℤ
at_account u a y v b = if (v == u) && (asset_index b == asset_index a) then y else pos 0

post-accounts : (j : Journal) (l : LedgerDb) → (post j l).1.accounts ≡ l.accounts
post-accounts j l = (post_append_only j l).4

module _ (u : Uuid) (a : Asset) (custody user : Uuid) (x y : ℤ) (l : LedgerDb) (h : IsNumbered l)
    (user_found : find_account AccountKind.user_crypto (some u) a l.accounts ≡ some user)
    (custody_found : find_account AccountKind.custody_deposit_addrs none a l.accounts
      ≡ some custody) where
  module _ (v : Uuid) (b : Asset) (id : Uuid)
      (found : find_account AccountKind.user_crypto (some v) b l.accounts ≡ some id) where
    -- A user's account is not the custody account.
    not_custody : id ≢ custody
    unfolding kind_index
    not_custody e =
        let same : find_account AccountKind.custody_deposit_addrs none a l.accounts ≡ some id =
          custody_found ∙ ap some (sym e) in
        omega (
          arith,
          (find_account-injective AccountKind.user_crypto AccountKind.custody_deposit_addrs (some v)
              none b a l.accounts {id = id} h.distinct found same).0,
        )

    owner : id ≡ user → (v == u && (asset_index b == asset_index a)) ≡ true
    owner e =
        let same : find_account AccountKind.user_crypto (some u) a l.accounts ≡ some id =
          user_found ∙ ap some (sym e) in
        ground (
          arith,
          find_account-injective AccountKind.user_crypto AccountKind.user_crypto (some v) (some u) b
              a l.accounts {id = id} h.distinct found same,
        )

    owned : (v == u && (asset_index b == asset_index a)) ≡ true → id ≡ user
    owned e =
        let who : v ≡ u = ground arith in
        let what : b ≡ a = asset_index-injective b a (ground arith) in
        let same : find_account AccountKind.user_crypto (some u) a l.accounts ≡ some id =
          rw (← who, ← what) found in
        ground arith

    -- The entries of the journal at a user's account.
    entries-at : account_sum id (deposit_entries custody user a x y) ≡ at_account u a y v b
    unfolding account_sum sum_where
    entries-at = elim (Bool-cases (v == u && (asset_index b == asset_index a))) [
      | inl mine ↦ grind (int_laws, not_custody, owned mine)
      | inr other ↦ grind (int_laws, not_custody, owner)
    ]

  -- A user with no account for the asset is not the user of the journal.
  elsewhere :
      (v : Uuid) (b : Asset)
      → find_account AccountKind.user_crypto (some v) b l.accounts ≡ none
      → (v == u && (asset_index b == asset_index a)) ≡ false
  elsewhere v b absent = elim (Bool-cases (v == u && (asset_index b == asset_index a))) [
    | inr other ↦ other
    | inl mine ↦
        let who : v ≡ u = ground arith in
        let what : b ≡ a = asset_index-injective b a (ground arith) in
        let same : find_account AccountKind.user_crypto (some u) a l.accounts ≡ none =
          rw (← who, ← what) absent in
        cc
  ]

  -- A deposit journal that is new moves what its user is owed in its asset by the second entry, and
  -- what anyone else is owed, or in another asset, not at all.
  pub owed-post :
      (j : Journal)
      → j.entries ≡ deposit_entries custody user a x y
      → find_journal j.idempotency_key l.journals ≡ none
      → (v : Uuid) (b : Asset) → owed v b (post j l).1 ≡ owed v b l +ℤ at_account u a y v b
  owed-post j shape new v b =
      elim (Option-cases (find_account AccountKind.user_crypto (some v) b l.accounts)) [
        | inl absent ↦ rw (
          owed-none v b l absent,
          owed-none v b (post j l).1 (rw (post-accounts j l) absent),
          elsewhere v b absent,
          zero-add_ℤ,
        )
        | inr (id, found) ↦
            let moved : account_sum id j.entries ≡ at_account u a y v b =
              rw shape (entries-at v b id found) in
            rw
              (
                owed-some v b l found,
                owed-some v b (post j l).1 {id = id} (rw (post-accounts j l) found),
                ← moved,
              )
              (balance-post id j l new)
      ]

numbered-rows :
    (n m : ℕ) (es : List Entry)
    → All (λ e. e.account_id < n) es
    → All (λ e. e.account_id < n + 1) (map (to_row m) es)
numbered-rows n m [] h = tt
numbered-rows n m (e ∷ es) h = (omega arith, numbered-rows n m es h.1)

-- Posting entries of accounts that exist keeps the numbering.
pub post-IsNumbered :
    (j : Journal) (l : LedgerDb)
    → find_journal j.idempotency_key l.journals ≡ none
    → All (λ e. e.account_id < l.next_id) j.entries
    → IsNumbered l
    → IsNumbered (post j l).1
post-IsNumbered j l new known h = rw (post_new j l new) (record {
  drawn = All-map _ _ (λ a lt. omega arith) l.accounts h.drawn;
  distinct = h.distinct;
  entries_drawn =
      All-append _ l.entries _ (All-map _ _ (λ e lt. omega arith) l.entries h.entries_drawn)
        (numbered-rows l.next_id l.next_id j.entries known);
})
