-- ===== src/Watcher/Store/Owed.antt =====
-- What the ledger owes a user, under the finding and creating of accounts and under posting.
use naivolt.Base.{
  ℕ, ◌<◌, ◌≡◌, ◌≢◌, refl, true, Option, none, some, List, [], ◌∷◌, ◌++◌, ◌==◌, if◌then◌else◌, All,
  All-append, All-map, inl, inr, Bool-cases, Option-cases, arith,
}
use naivolt.Base.Int.{ℤ, pos}
use naivolt.Base.Sums.{sum_where, sum_where-none}
use naivolt.Core.Asset.{Asset, asset_index}
use naivolt.Ledger.Account.{Uuid, AccountKind, LedgerAccount, kind_index}
use naivolt.Ledger.Post.{EntryRow, LedgerDb, balance}
use naivolt.Watcher.Store.Accounts.{same_user, matches_account, find_account, account_id}

-- No two accounts share an id.
abbrev pub DistinctIds : List LedgerAccount → Type 0
DistinctIds [] = Unit
DistinctIds (a ∷ accounts) = All (λ b. a.id ≢ b.id) accounts × DistinctIds accounts

-- Ids have been drawn from the supply, and entries are of accounts that exist.
pub record IsNumbered (l : LedgerDb) : Type 0 where
  pub drawn : All (λ a. a.id < l.next_id) l.accounts
  pub distinct : DistinctIds l.accounts
  pub entries_drawn : All (λ e. e.account_id < l.next_id) l.entries

-- The raw sum of a user's crypto account; an account that does not exist yet owes nothing.
unfoldable pub owed : Uuid → Asset → LedgerDb → ℤ
owed u a l = elim (find_account AccountKind.user_crypto (some u) a l.accounts) [
  | none ↦ pos 0
  | some id ↦ balance id l
]

account_at : Uuid → List LedgerAccount → Option LedgerAccount
account_at id [] = none
account_at id (a ∷ accounts) = if id == a.id then some a else account_at id accounts

account_at-absent :
    (id : Uuid) (accounts : List LedgerAccount)
    → All (λ b. id ≢ b.id) accounts
    → account_at id accounts ≡ none
unfolding account_at
account_at-absent id [] h = refl
account_at-absent id (a ∷ accounts) h = ground (arith, account_at-absent id accounts h.1)

-- A found id is that of an account that matches.
find_account-at :
    (k : AccountKind) (u : Option Uuid) (a : Asset) (accounts : List LedgerAccount) {id : Uuid}
    → DistinctIds accounts
    → find_account k u a accounts ≡ some id
    → (acc : LedgerAccount) × (account_at id accounts ≡ some acc)
      × (matches_account k u a acc ≡ true)
unfolding find_account account_at
find_account-at k u a [] d e = ground arith
find_account-at k u a (b ∷ accounts) {id} d e = elim (Bool-cases (matches_account k u a b)) [
  | inl m ↦ (b, ground arith, m)
  | inr m ↦
      let (acc, at, fits) = find_account-at k u a accounts {id = id} d.1 (ground arith) in
      (acc, ground (arith, account_at-absent b.id accounts d.0), fits)
]

both_match :
    (k l : AccountKind) (u v : Option Uuid) (a b : Asset) (acc : LedgerAccount)
    → matches_account k u a acc ≡ true
    → matches_account l v b acc ≡ true
    → (kind_index k ≡ kind_index l) × (asset_index a ≡ asset_index b) × (same_user u v ≡ true)
unfolding matches_account
both_match k l u v a b acc h h' = ground arith

-- Two accounts that are found under one id are of one kind, and of one user and asset.
pub find_account-injective :
    (k l : AccountKind) (u v : Option Uuid) (a b : Asset) (accounts : List LedgerAccount)
    {id : Uuid}
    → DistinctIds accounts
    → find_account k u a accounts ≡ some id
    → find_account l v b accounts ≡ some id
    → (kind_index k ≡ kind_index l) × (asset_index a ≡ asset_index b) × (same_user u v ≡ true)
find_account-injective k l u v a b accounts {id} d e f =
    let (acc, at, fits) = find_account-at k u a accounts {id = id} d e in
    let (acc', at', fits') = find_account-at l v b accounts {id = id} d f in
    let same : acc ≡ acc' = ground arith in
    let both : matches_account k u a acc' ≡ true = rw (← same) fits in
    both_match k l u v a b acc' both fits'

-- An account found has an id that has been drawn.
pub find_account-drawn :
    (k : AccountKind) (u : Option Uuid) (a : Asset) (n : ℕ) (accounts : List LedgerAccount)
    {id : Uuid}
    → All (λ b. b.id < n) accounts
    → find_account k u a accounts ≡ some id
    → id < n
unfolding find_account
find_account-drawn k u a n [] h e = ground arith
find_account-drawn k u a n (b ∷ accounts) {id} h e = elim (Bool-cases (matches_account k u a b)) [
  | inl m ↦ ground arith
  | inr m ↦ find_account-drawn k u a n accounts {id = id} h.1 (ground arith)
]

DistinctIds-snoc :
    (accounts : List LedgerAccount) (b : LedgerAccount)
    → All (λ a. a.id < b.id) accounts
    → DistinctIds accounts
    → DistinctIds (accounts ++ b ∷ [])
DistinctIds-snoc [] b h d = (tt, tt)
DistinctIds-snoc (a ∷ accounts) b h d =
    (All-append _ accounts _ d.0 (omega arith, tt), DistinctIds-snoc accounts b h.1 d.1)

-- After a new account at the end, an account that was found still is, and the new one is found by
-- what it was made for.
pub find_account-snoc :
    (k : AccountKind) (u : Option Uuid) (a : Asset) (accounts : List LedgerAccount)
    (b : LedgerAccount)
    → find_account k u a (accounts ++ b ∷ []) ≡ elim (find_account k u a accounts) [
      | none ↦ (if matches_account k u a b then some b.id else none)
      | some id ↦ some id
    ]
unfolding find_account
find_account-snoc k u a [] b = refl
find_account-snoc k u a (c ∷ accounts) b = elim (Bool-cases (matches_account k u a c)) [
  | inl m ↦ rw m
  | inr m ↦ rw m (find_account-snoc k u a accounts b)
]

matches_self :
    (k : AccountKind) (u : Option Uuid) (a : Asset) (id : Uuid)
    → matches_account k u a (record { id = id; kind = k; user_id = u; asset = a }) ≡ true
unfolding matches_account
matches_self k u a id = ground arith

-- The account is there afterwards.
pub account_id-found :
    (k : AccountKind) (u : Option Uuid) (a : Asset) (l : LedgerDb)
    → find_account k u a (account_id k u a l).1.accounts ≡ some (account_id k u a l).0
unfolding account_id
account_id-found k u a l = ground (
  arith,
  find_account-snoc k u a l.accounts (record { id = l.next_id; kind = k; user_id = u; asset = a }),
  matches_self k u a l.next_id,
)

-- An account that was there stays.
pub account_id-keeps :
    (k k' : AccountKind) (u u' : Option Uuid) (a a' : Asset) (l : LedgerDb) {id : Uuid}
    → find_account k' u' a' l.accounts ≡ some id
    → find_account k' u' a' (account_id k u a l).1.accounts ≡ some id
unfolding account_id
account_id-keeps k k' u u' a a' l e = ground (
  arith,
  find_account-snoc k' u' a' l.accounts
      (record { id = l.next_id; kind = k; user_id = u; asset = a }),
)

pub account_id-IsNumbered :
    (k : AccountKind) (u : Option Uuid) (a : Asset) (l : LedgerDb)
    → IsNumbered l
    → IsNumbered (account_id k u a l).1
unfolding account_id
account_id-IsNumbered k u a l h = elim (Option-cases (find_account k u a l.accounts)) [
  | inr (id, e) ↦ rw (e, account_id) h
  | inl e ↦
      rw (e, account_id)
        (record {
          drawn =
              All-append _ l.accounts _ (All-map _ _ (λ b lt. omega arith) l.accounts h.drawn)
                (omega arith, tt);
          distinct = DistinctIds-snoc l.accounts _ h.drawn h.distinct;
          entries_drawn = All-map _ _ (λ b lt. omega arith) l.entries h.entries_drawn;
        })
]

pub balance-undrawn :
    (n : ℕ) (es : List EntryRow)
    → All (λ e. e.account_id < n) es
    → sum_where (λ e. e.amount) (λ e. n == e.account_id) es ≡ pos 0
balance-undrawn n es h =
    sum_where-none (λ e. e.amount) _ es (All-map _ _ (λ e lt. ground arith) es h)

-- Creating an account changes nothing that is owed.
pub owed-account_id :
    (v : Uuid) (b : Asset) (k : AccountKind) (u : Option Uuid) (a : Asset) (l : LedgerDb)
    → IsNumbered l
    → owed v b (account_id k u a l).1 ≡ owed v b l
unfolding owed account_id balance
owed-account_id v b k u a l h = ground (
  arith,
  find_account-snoc AccountKind.user_crypto (some v) b l.accounts
      (record { id = l.next_id; kind = k; user_id = u; asset = a }),
  balance-undrawn l.next_id l.entries h.entries_drawn,
)

pub owed-none :
    (v : Uuid) (b : Asset) (l : LedgerDb)
    → find_account AccountKind.user_crypto (some v) b l.accounts ≡ none
    → owed v b l ≡ pos 0
unfolding owed
owed-none v b l e = rw (e, owed)

pub owed-some :
    (v : Uuid) (b : Asset) (l : LedgerDb) {id : Uuid}
    → find_account AccountKind.user_crypto (some v) b l.accounts ≡ some id
    → owed v b l ≡ balance id l
unfolding owed
owed-some v b l e = rw (e, owed)

pub account_id-journals :
    (k : AccountKind) (u : Option Uuid) (a : Asset) (l : LedgerDb)
    → (account_id k u a l).1.journals ≡ l.journals
unfolding account_id
account_id-journals k u a l = ground arith
