-- ===== src/Ledger/Journal/Build.antt =====
-- When `build` accepts a journal, and what its refusals say.
pub mod Totals
use naivolt.Base.{
  ℕ, ltb, ◌≤◌, ◌≡◌, ◌↔◌, ◌≢◌, sym, ap, ◌∙◌, inl, inr, refl, true, false, none, some, List, [], ◌∷◌,
  length, All, Result, ok, err, ◌>>=◌, ◌>>◌, >>=-eq-ok, Result-cases, Bool-cases, arith,
}
use naivolt.Base.Int.{ℤ, pos, is_zero}
use naivolt.Core.Asset.{Asset}
use naivolt.Ledger.Account.{is_liability}
use naivolt.Ledger.Journal.{
  JournalKind, Entry, Journal, JournalBuilder, LedgerError, is_custody_only, sum_entries,
  check_sums, Sums, add_to, find_liability, check_custody, build,
}
use Totals.{
  total, Nonzero, add_all, sum_entries-ok, sum_entries-inv, sums_pass, sums_zero, sums_err,
}

abbrev pub NoLiability : List Entry → Type 0
NoLiability = All (λ e. is_liability e.account_kind ≡ false)

-- What a journal has to be: at least two entries, none of them zero, balanced in every asset, and
-- no liability touched by a custody movement.
pub record IsSound (kind : JournalKind) (entries : List Entry) : Type 0 where
  pub enough : 2 ≤ length entries
  pub nonzero : Nonzero entries
  pub balanced : (a : Asset) → total a entries ≡ pos 0
  pub custody : is_custody_only kind ≡ true → NoLiability entries

-- The journal with the fields of the builder.
abbrev pub finished : JournalBuilder → Journal
finished b = record {
  kind = b.kind;
  reference = b.reference;
  idempotency_key = b.idempotency_key;
  entries = b.entries;
  metadata = b.metadata;
}

find_liability-none : (es : List Entry) → find_liability es ≡ none → NoLiability es
unfolding find_liability
find_liability-none [] h = tt
find_liability-none (e ∷ es) h = elim (Bool-cases (is_liability e.account_kind)) [
  | inl l ↦ ground arith
  | inr l ↦ (l, find_liability-none es (ground arith))
]

find_liability-pass : (es : List Entry) → NoLiability es → find_liability es ≡ none
unfolding find_liability
find_liability-pass [] h = refl
find_liability-pass (e ∷ es) h = rw h.0 (find_liability-pass es h.1)

check_custody-pass :
    (k : JournalKind) (es : List Entry)
    → (is_custody_only k ≡ true → NoLiability es)
    → check_custody k es ≡ ok tt
unfolding check_custody
check_custody-pass k es h = elim (Bool-cases (is_custody_only k)) [
  | inl c ↦ rw (c, find_liability-pass es (h c))
  | inr c ↦ rw c
]

check_custody-inv :
    (k : JournalKind) (es : List Entry)
    → check_custody k es ≡ ok tt
    → is_custody_only k ≡ true
    → NoLiability es
unfolding check_custody
check_custody-inv k es h c = find_liability-none es (ground arith)

IsSound-build : (b : JournalBuilder) → IsSound b.kind b.entries → build b ≡ ok (finished b)
unfolding build
IsSound-build b s = ground (
  arith,
  s.enough,
  sum_entries-ok b.entries [] s.nonzero,
  sums_pass b.entries s.balanced,
  check_custody-pass b.kind b.entries s.custody,
)

checks_inv :
    (b : JournalBuilder) (j : Journal)
    → (do
      sums ← sum_entries b.entries []
      check_sums sums
      check_custody b.kind b.entries
      ok (finished b))
      ≡ ok j
    → Nonzero b.entries
      × ((a : Asset) → total a b.entries ≡ pos 0)
      × (is_custody_only b.kind ≡ true → NoLiability b.entries)
      × (j ≡ finished b)
checks_inv b j h =
    let (sums, summed, h₁) = >>=-eq-ok (sum_entries b.entries []) _ h in
    let (nonzero, same) = sum_entries-inv b.entries [] summed in
    let (u, checked, h₂) = >>=-eq-ok (check_sums sums) _ h₁ in
    let (v, custody, h₃) = >>=-eq-ok (check_custody b.kind b.entries) _ h₂ in
    (
      nonzero,
      λ a. sums_zero b.entries a (ap check_sums (sym same) ∙ checked),
      check_custody-inv b.kind b.entries custody,
      ground arith,
    )

build-inv :
    (b : JournalBuilder) (j : Journal)
    → build b ≡ ok j
    → IsSound b.kind b.entries × (j ≡ finished b)
unfolding build
build-inv b j h = elim (Bool-cases (ltb (length b.entries) 2)) [
  | inl few ↦ ground arith
  | inr many ↦
      let (nonzero, balanced, custody, same) = checks_inv b j (rw many at h) in
      (
        record { enough = ground arith; nonzero = nonzero; balanced = balanced; custody = custody },
        same,
      )
]

-- A builder is accepted exactly when its entries are at least two, none of them zero, add up to
-- zero in every asset, and touch no liability if the kind is a custody movement; the journal then
-- has the builder's fields, and nothing else is ever returned.
pub build_iff :
    (b : JournalBuilder) (j : Journal)
    → (build b ≡ ok j) ↔ (IsSound b.kind b.entries × (j ≡ finished b))
build_iff b j = (build-inv b j, λ s. IsSound-build b s.0 ∙ ap ok (sym s.1))

-- The first loop refuses only zero amounts.
sum_entries-balanced :
    (es : List Entry) (s : Sums) {a : Asset} {r : ℤ}
    → ¬ (sum_entries es s ≡ err (LedgerError.unbalanced a r))
unfolding sum_entries
sum_entries-balanced [] s h = cc
sum_entries-balanced (e ∷ es) s {a} {r} h = elim (Bool-cases (is_zero e.amount)) [
  | inl z ↦ ground arith
  | inr z ↦ sum_entries-balanced es (add_to e.asset e.amount s) {a = a} {r = r} (ground arith)
]

unbalanced_sums :
    (b : JournalBuilder) (s : Sums) {a : Asset} {r : ℤ}
    → sum_entries b.entries [] ≡ ok s
    → build b ≡ err (LedgerError.unbalanced a r)
    → check_sums s ≡ err (LedgerError.unbalanced a r)
unfolding build check_custody
unbalanced_sums b s q h = ground arith

-- A refusal as unbalanced names an asset whose entries really add up to the residual that it
-- reports, and the residual is not zero.
pub build-unbalanced :
    (b : JournalBuilder) {a : Asset} {r : ℤ}
    → build b ≡ err (LedgerError.unbalanced a r)
    → (total a b.entries ≡ r) × (r ≢ pos 0)
unfolding build
build-unbalanced b {a} {r} h = elim (Result-cases (sum_entries b.entries [])) [
  | inr (e, q) ↦ absurd (sum_entries-balanced b.entries [] {a = a} {r = r} (ground arith))
  | inl (s, q) ↦
      let (nonzero, same) = sum_entries-inv b.entries [] q in
      let (found, r≢0) = sums_err b.entries (ap check_sums (sym same) ∙ unbalanced_sums b s q h) in
      (found, λ e. ground arith)
]
