-- ===== src/Api/Naira/Transfer.antt =====
-- A journal of two entries moves what two holders hold, and nothing else.
use naivolt.Base.{
  refl, ◌<◌, ◌+◌, ◌≤◌, ap, ◌≡◌, sym, ◌∙◌, false, Option, none, some, List, [], ◌∷◌, ◌++◌,
  if◌then◌else◌, All-map, inl, inr, Bool-cases, Option-cases, arith,
}
use naivolt.Base.Int.{ℤ, pos, ◌+ℤ◌, int_laws}
use naivolt.Base.Sums.{sum_where}
use naivolt.Base.Text.{Text}
use naivolt.Core.Asset.{Asset}
use naivolt.Ledger.Account.{Uuid, AccountKind}
use naivolt.Ledger.Journal.{Entry, Journal}
use naivolt.Ledger.Journal.Build.{IsSound}
use naivolt.Ledger.Post.{journal_row, LedgerDb, JournalRow, balance, find_journal, post}
use naivolt.Ledger.Post.Replay.{post_append_only}
use naivolt.Ledger.Post.Balance.{IsBalanced, journal_total, asset_total}
use naivolt.Ledger.Post.Custody.{account_sum, balance-post}
use naivolt.Watcher.Store.{find_account, account_id}
use naivolt.Watcher.Store.Owed.{
  find_account-drawn, find_account-snoc, balance-undrawn, IsNumbered, account_id-found,
  account_id-keeps, account_id-IsNumbered, account_id-journals,
}
use naivolt.Watcher.Store.Movements.{post-IsNumbered}
use naivolt.Ledger.Post.Replay.{post_new}
use naivolt.Ledger.Post.Balance.{post-IsBalanced}
use naivolt.Api.Naira.Held.{
  held, same_holder, held-some, held-none, find_account-same, same_holder-id,
}

-- Opening accounts changes nothing that is held or posted.
pub record Opened (l after : LedgerDb) : Type 0 where
  pub numbered : IsNumbered l → IsNumbered after
  pub same_held : IsNumbered l → (k : AccountKind) (u : Option Uuid) → held k u after ≡ held k u l
  pub balanced : IsBalanced l → IsBalanced after
  pub journals : after.journals ≡ l.journals
  pub grows : l.next_id ≤ after.next_id
  pub keeps :
      (k : AccountKind) (u : Option Uuid) (id : Uuid)
      → find_account k u Asset.ngn l.accounts ≡ some id
      → find_account k u Asset.ngn after.accounts ≡ some id

account_id-same_held :
    (k : AccountKind) (u : Option Uuid) (l : LedgerDb)
    → IsNumbered l
    → (k' : AccountKind) (u' : Option Uuid)
    → held k' u' (account_id k u Asset.ngn l).1 ≡ held k' u' l
unfolding held account_id balance
account_id-same_held k u l h k' u' = ground (
  arith,
  find_account-snoc k' u' Asset.ngn l.accounts
      (record { id = l.next_id; kind = k; user_id = u; asset = Asset.ngn }),
  balance-undrawn l.next_id l.entries h.entries_drawn,
)

pub account_id-IsBalanced :
    (k : AccountKind) (u : Option Uuid) (l : LedgerDb)
    → IsBalanced l
    → IsBalanced (account_id k u Asset.ngn l).1
unfolding account_id journal_total asset_total
account_id-IsBalanced k u l h = elim (Option-cases (find_account k u Asset.ngn l.accounts)) [
  | inr (id, old) ↦ rw (old, account_id) h
  | inl fresh ↦
      rw (fresh, account_id)
        (record {
          numbered = All-map _ _ (λ e lt. omega arith) l.entries h.numbered;
          by_journal = h.by_journal;
          by_asset = h.by_asset;
        })
]

account_id-grows :
    (k : AccountKind) (u : Option Uuid) (l : LedgerDb)
    → l.next_id ≤ (account_id k u Asset.ngn l).1.next_id
unfolding account_id
account_id-grows k u l = ground arith

pub account_id-Opened :
    (k : AccountKind) (u : Option Uuid) (l : LedgerDb) → Opened l (account_id k u Asset.ngn l).1
account_id-Opened k u l = record {
  numbered = account_id-IsNumbered k u Asset.ngn l;
  same_held = account_id-same_held k u l;
  balanced = account_id-IsBalanced k u l;
  journals = account_id-journals k u Asset.ngn l;
  grows = account_id-grows k u l;
  keeps = λ k' u' id e. account_id-keeps k k' u u' Asset.ngn Asset.ngn l {id = id} e;
}

-- Drawing an id changes nothing else.
pub draw-Opened : (l : LedgerDb) → Opened l (record l { next_id = l.next_id + 1 })
unfolding held balance journal_total asset_total
draw-Opened l = record {
  numbered = λ h. record {
    drawn = All-map _ _ (λ a lt. omega arith) l.accounts h.drawn;
    distinct = h.distinct;
    entries_drawn = All-map _ _ (λ e lt. omega arith) l.entries h.entries_drawn;
  };
  same_held = λ h k u. refl;
  balanced = λ h. record {
    numbered = All-map _ _ (λ e lt. omega arith) l.entries h.numbered;
    by_journal = h.by_journal;
    by_asset = h.by_asset;
  };
  journals = refl;
  grows = omega arith;
  keeps = λ k u id e. e;
}

pub Opened-trans : (l mid after : LedgerDb) → Opened l mid → Opened mid after → Opened l after
Opened-trans l mid after one two = record {
  numbered = λ h. two.numbered (one.numbered h);
  same_held = λ h k u. two.same_held (one.numbered h) k u ∙ one.same_held h k u;
  balanced = λ h. two.balanced (one.balanced h);
  journals = two.journals ∙ one.journals;
  grows = omega (arith, one.grows, two.grows);
  keeps = λ k u id e. two.keeps k u id (one.keeps k u id e);
}

pub Opened-refl : (l : LedgerDb) → Opened l l
Opened-refl l = record {
  numbered = λ h. h;
  same_held = λ h k u. λ i. held k u l;
  balanced = λ h. h;
  journals = λ i. l.journals;
  grows = omega arith;
  keeps = λ k u id e. e;
}

-- Two accounts opened one after the other, both there in the end.
pub two_opened :
    (k k' : AccountKind) (u u' : Option Uuid) (l : LedgerDb)
    → let first = account_id k u Asset.ngn l in
      let second = account_id k' u' Asset.ngn first.1 in
      Opened l second.1
      × (find_account k u Asset.ngn second.1.accounts ≡ some first.0)
      × (find_account k' u' Asset.ngn second.1.accounts ≡ some second.0)
two_opened k k' u u' l =
    let l₁ = (account_id k u Asset.ngn l).1 in
    let one = account_id-Opened k u l in
    let two = account_id-Opened k' u' l₁ in
    (
      Opened-trans l l₁ (account_id k' u' Asset.ngn l₁).1 one two,
      two.keeps k u (account_id k u Asset.ngn l).0 (account_id-found k u Asset.ngn l),
      account_id-found k' u' Asset.ngn l₁,
    )

-- Two entries in naira.
abbrev pub pair : Uuid → AccountKind → ℤ → Uuid → AccountKind → ℤ → List Entry
pair a ka x b kb y =
    record { account_id = a; account_kind = ka; asset = Asset.ngn; amount = x }
    ∷ record { account_id = b; account_kind = kb; asset = Asset.ngn; amount = y }
    ∷ []

-- What two holders' amounts add to what a holder holds.
abbrev pub moved :
    AccountKind → Option Uuid → ℤ → AccountKind → Option Uuid → ℤ → AccountKind → Option Uuid → ℤ
moved ka ua x kb ub y k u =
    (if same_holder k u ka ua then x else pos 0) +ℤ (if same_holder k u kb ub then y else pos 0)

-- The ledger after a transfer that was new.
pub record Transferred (l after : LedgerDb) (ka : AccountKind) (ua : Option Uuid) (x : ℤ)
    (kb : AccountKind) (ub : Option Uuid) (y : ℤ) (key : Text) : Type 0 where
  pub numbered : IsNumbered after
  pub now_held :
      (k : AccountKind) (u : Option Uuid) → held k u after ≡ held k u l +ℤ moved ka ua x kb ub y k u
  pub balanced : IsBalanced l → IsBalanced after
  pub row : JournalRow
  pub keyed : row.idempotency_key ≡ key
  pub journals : after.journals ≡ l.journals ++ row ∷ []
  pub grows : l.next_id < after.next_id
  pub drawn : row.id < after.next_id

module _ (l : LedgerDb) (ka kb : AccountKind) (ua ub : Option Uuid) (a b : Uuid) (x y : ℤ)
    (h : IsNumbered l) (found_a : find_account ka ua Asset.ngn l.accounts ≡ some a)
    (found_b : find_account kb ub Asset.ngn l.accounts ≡ some b) (j : Journal)
    (shape : j.entries ≡ pair a ka x b kb y)
    (new : find_journal j.idempotency_key l.journals ≡ none) where
  held-post :
      (k : AccountKind) (u : Option Uuid)
      → held k u (post j l).1 ≡ held k u l +ℤ moved ka ua x kb ub y k u
  held-post k u =
      let same : (post j l).1.accounts ≡ l.accounts = (post_append_only j l).4 in
      elim (Option-cases (find_account k u Asset.ngn l.accounts)) [
        | inr (id, found) ↦
            let sum : account_sum id j.entries ≡ moved ka ua x kb ub y k u =
              rw shape (pair-sum id k u found) in
            rw
              (
                held-some k u l {id = id} found,
                held-some k u (post j l).1 {id = id} (rw same found),
                ← sum,
              )
              (balance-post id j l new)
        | inl absent ↦
            rw
              (
                held-none k u l absent,
                held-none k u (post j l).1 (rw same absent),
                not_holder k u ka ua a absent found_a,
                not_holder k u kb ub b absent found_b,
              )
              (omega int_laws)
      ]
    where
      not_holder :
          (k : AccountKind) (u : Option Uuid) (k' : AccountKind) (u' : Option Uuid) (id : Uuid)
          → find_account k u Asset.ngn l.accounts ≡ none
          → find_account k' u' Asset.ngn l.accounts ≡ some id
          → same_holder k u k' u' ≡ false
      not_holder k u k' u' id f f' = elim (Bool-cases (same_holder k u k' u')) [
        | inr other ↦ other
        | inl same ↦
            let t : none ≡ some id = sym f ∙ (find_account-same k k' u u' l.accounts same ∙ f') in
            cc
      ]

      pair-sum :
          (id : Uuid) (k : AccountKind) (u : Option Uuid)
          → find_account k u Asset.ngn l.accounts ≡ some id
          → account_sum id (pair a ka x b kb y) ≡ moved ka ua x kb ub y k u
      pair-sum id k u f =
          unfold account_sum sum_where in
          rw
            (
              same_holder-id k ka u ua l {id = id} {id' = a} h f found_a,
              same_holder-id k kb u ub l {id = id} {id' = b} h f found_b,
            )
            (omega int_laws)

-- A transfer between accounts that were opened for it.
pub post-Transferred :
    (l opened : LedgerDb) (ka kb : AccountKind) (ua ub : Option Uuid) (a b : Uuid) (x y : ℤ)
    (j : Journal)
    → IsNumbered l
    → Opened l opened
    → find_account ka ua Asset.ngn opened.accounts ≡ some a
    → find_account kb ub Asset.ngn opened.accounts ≡ some b
    → j.entries ≡ pair a ka x b kb y
    → IsSound j.kind j.entries
    → find_journal j.idempotency_key l.journals ≡ none
    → Transferred l (post j opened).1 ka ua x kb ub y j.idempotency_key
post-Transferred l opened ka kb ua ub a b x y j h o found_a found_b shape sound new =
    let n = o.numbered h in
    let new' : find_journal j.idempotency_key opened.journals ≡ none = rw o.journals new in
    record {
      numbered =
          post-IsNumbered j opened new'
            (rw shape (
              find_account-drawn ka ua Asset.ngn opened.next_id opened.accounts {id = a} n.drawn
                  found_a,
              (
                find_account-drawn kb ub Asset.ngn opened.next_id opened.accounts {id = b} n.drawn
                    found_b,
                tt,
              ),
            ))
            n;
      now_held = λ k u.
          rw (← o.same_held h k u)
            (held-post opened ka kb ua ub a b x y n found_a found_b j shape new' k u);
      balanced = λ t. post-IsBalanced j opened sound (o.balanced t);
      row = journal_row opened.next_id j;
      keyed = λ i. j.idempotency_key;
      journals =
          rw (post_new j opened new') (ap (λ z. z ++ journal_row opened.next_id j ∷ []) o.journals);
      grows = rw (post_new j opened new') (omega (arith, o.grows));
      drawn = rw (post_new j opened new') (omega arith);
    }

-- What is opened after a transfer leaves it one.
pub Transferred-Opened :
    (l mid after : LedgerDb) (ka kb : AccountKind) (ua ub : Option Uuid) (x y : ℤ) (key : Text)
    → Transferred l mid ka ua x kb ub y key
    → Opened mid after
    → Transferred l after ka ua x kb ub y key
Transferred-Opened l mid after ka kb ua ub x y key t o = record {
  numbered = o.numbered t.numbered;
  now_held = λ k u. o.same_held t.numbered k u ∙ t.now_held k u;
  balanced = λ h. o.balanced (t.balanced h);
  row = t.row;
  keyed = t.keyed;
  journals = o.journals ∙ t.journals;
  grows = omega (arith, t.grows, o.grows);
  drawn = omega (arith, t.drawn, o.grows);
}

-- So does what was opened before it.
pub Opened-Transferred :
    (l mid after : LedgerDb) (ka kb : AccountKind) (ua ub : Option Uuid) (x y : ℤ) (key : Text)
    → IsNumbered l
    → Opened l mid
    → Transferred mid after ka ua x kb ub y key
    → Transferred l after ka ua x kb ub y key
Opened-Transferred l mid after ka kb ua ub x y key n o t = record {
  numbered = t.numbered;
  now_held = λ k u. rw (← o.same_held n k u) (t.now_held k u);
  balanced = λ h. t.balanced (o.balanced h);
  row = t.row;
  keyed = t.keyed;
  journals = rw (← o.journals) t.journals;
  grows = omega (arith, t.grows, o.grows);
  drawn = t.drawn;
}
