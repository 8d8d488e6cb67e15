-- ===== src/Watcher/Deposit/Journals.antt =====
-- The credit of a deposit and its reversal are sound journals that cancel each other.
use naivolt.Base.{◌≡◌, ◌≢◌, refl, false, ok, List, [], ◌∷◌, arith}
use naivolt.Base.Int.{+ℤ-neg, ℤ, pos, ◌+ℤ◌, neg, is_zero, int_laws}
use naivolt.Base.Sums.{sum_where}
use naivolt.Base.Text.{codes}
use naivolt.Watcher.Network.{as_str}
use naivolt.Core.Asset.{Asset}
use naivolt.Ledger.Account.{Uuid, AccountKind}
use naivolt.Ledger.Journal.{
  Scalar, Metadata, Reference, JournalKind, Entry, Journal, is_custody_only, new, entry,
  with_metadata,
}
use naivolt.Ledger.Journal.Build.{IsSound, build_iff}
use naivolt.Ledger.Journal.Build.Totals.{total}
use naivolt.Ledger.Post.Custody.{account_sum}
use naivolt.Watcher.Deposit.{ObservedTransfer, idempotency_key, credit_journal, reversal_journal}

-- Two entries, of `x` on the custody account and of `y` on the user's.
abbrev pub deposit_entries : Uuid → Uuid → Asset → ℤ → ℤ → List Entry
deposit_entries custody user a x y =
    record {
      account_id = custody;
      account_kind = AccountKind.custody_deposit_addrs;
      asset = a;
      amount = x;
    }
    ∷ record { account_id = user; account_kind = AccountKind.user_crypto; asset = a; amount = y }
    ∷ []

opposite_nonzero : (x y : ℤ) → x ≢ pos 0 → x +ℤ y ≡ pos 0 → is_zero y ≡ false
unfolding ◌+ℤ◌
opposite_nonzero x y nz e = ground arith

neg_zero : (x : ℤ) → neg x ≡ pos 0 → x ≡ pos 0
unfolding neg
neg_zero x e = ground arith

neg-+ℤ : (x : ℤ) → neg x +ℤ x ≡ pos 0
neg-+ℤ x = omega int_laws

deposit_entries-IsSound :
    (k : JournalKind) (custody user : Uuid) (a : Asset) (x y : ℤ)
    → is_custody_only k ≡ false
    → x ≢ pos 0
    → x +ℤ y ≡ pos 0
    → IsSound k (deposit_entries custody user a x y)
unfolding total sum_where
deposit_entries-IsSound k custody user a x y plain nonzero cancel = record {
  enough = omega arith;
  nonzero = (ground arith, (opposite_nonzero x y nonzero cancel, tt));
  balanced = λ b. grind (int_laws, cancel);
  custody = λ c. ground arith;
}

module _ (deposit_id custody user : Uuid) (a : Asset) (amount : ℤ) (t : ObservedTransfer) where
  -- The journal of a credit: the custody account gains what the user is then owed.
  abbrev pub credited : Journal
  credited = record {
    kind = JournalKind.deposit_credit;
    reference = Reference.uuid deposit_id;
    idempotency_key = idempotency_key (codes "deposit") t;
    entries = deposit_entries custody user a amount (neg amount);
    metadata = Metadata.object (
        (codes "network", Scalar.str (as_str t.network))
        ∷ (codes "txHash", Scalar.str t.tx_hash)
        ∷ (codes "outputIndex", Scalar.num t.output_index)
        ∷ (codes "blockNumber", Scalar.num (pos t.block_number))
        ∷ []);
  }

  -- The journal of a reversal: the same entries with the signs flipped.
  abbrev pub reversed : Journal
  reversed = record {
    kind = JournalKind.deposit_reversal;
    reference = Reference.uuid deposit_id;
    idempotency_key = idempotency_key (codes "reversal") t;
    entries = deposit_entries custody user a (neg amount) amount;
    metadata = Metadata.object (
        (codes "reason", Scalar.str (codes "reorg"))
        ∷ (codes "network", Scalar.str (as_str t.network))
        ∷ (codes "txHash", Scalar.str t.tx_hash)
        ∷ (codes "blockNumber", Scalar.num (pos t.block_number))
        ∷ []);
  }

  pub credited-IsSound : amount ≢ pos 0 → IsSound credited.kind credited.entries
  unfolding is_custody_only
  credited-IsSound nz =
      deposit_entries-IsSound JournalKind.deposit_credit custody user a amount (neg amount) refl nz
        (+ℤ-neg amount)

  pub reversed-IsSound : amount ≢ pos 0 → IsSound reversed.kind reversed.entries
  unfolding is_custody_only
  reversed-IsSound nz =
      deposit_entries-IsSound JournalKind.deposit_reversal custody user a (neg amount) amount refl
        (λ e. nz (neg_zero amount e)) (neg-+ℤ amount)

  pub credit_journal_lem :
      amount ≢ pos 0 → credit_journal deposit_id custody user a amount t ≡ ok credited
  unfolding credit_journal new entry with_metadata
  credit_journal_lem nz = (build_iff _ credited).1 (credited-IsSound nz, refl)

  pub reversal_journal_lem :
      amount ≢ pos 0 → reversal_journal deposit_id custody user a amount t ≡ ok reversed
  unfolding reversal_journal new entry with_metadata
  reversal_journal_lem nz = (build_iff _ reversed).1 (reversed-IsSound nz, refl)

  -- A deposit of any amount but zero gives a credit journal and a reversal journal, both sound; the
  -- credit raises what the user is owed by the amount, and the two together leave every account of
  -- the ledger where it was.
  pub credit_reversal_cancel :
      amount ≢ pos 0
      → (c : Journal) × (r : Journal) × (credit_journal deposit_id custody user a amount t ≡ ok c)
        × (reversal_journal deposit_id custody user a amount t ≡ ok r)
        × IsSound c.kind c.entries
        × IsSound r.kind r.entries
        × (custody ≢ user → account_sum user c.entries ≡ neg amount)
        × ((account : Uuid)
            → account_sum account c.entries +ℤ account_sum account r.entries ≡ pos 0)
  unfolding account_sum sum_where
  credit_reversal_cancel nz = (
    credited,
    reversed,
    credit_journal_lem nz,
    reversal_journal_lem nz,
    credited-IsSound nz,
    reversed-IsSound nz,
    λ ne. grind int_laws,
    λ account. grind int_laws,
  )
