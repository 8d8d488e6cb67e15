-- ===== src/Api/Naira/Sound.antt =====
-- Two entries of opposite amounts are a sound journal.
use naivolt.Base.{ok, refl, ap, ◌∙◌, false, ◌==◌, Bool-cases, inl, inr, arith, arith, false, ◌≡◌}
use naivolt.Base.Int.{add-zero_ℤ, ℤ, pos, is_zero, ◌+ℤ◌, int_laws}
use naivolt.Base.Sums.{sum_where}
use naivolt.Core.Asset.{Asset, asset_index}
use naivolt.Ledger.Account.{Uuid, AccountKind}
use naivolt.Ledger.Journal.{JournalBuilder, build, JournalKind, is_custody_only}
use naivolt.Ledger.Journal.Build.{build_iff, finished, IsSound}
use naivolt.Ledger.Journal.Build.Totals.{total}
use naivolt.Api.Naira.Transfer.{pair}

pub pair-IsSound :
    (kind : JournalKind) (a b : Uuid) (ka kb : AccountKind) (x y : ℤ)
    → is_custody_only kind ≡ false
    → is_zero x ≡ false
    → is_zero y ≡ false
    → x +ℤ y ≡ pos 0
    → IsSound kind (pair a ka x b kb y)
unfolding total sum_where
pair-IsSound kind a b ka kb x y custody h k z = record {
  enough = omega arith;
  nonzero = (h, (k, tt));
  balanced = λ c. elim (Bool-cases (asset_index c == asset_index Asset.ngn)) [
    | inl e ↦ rw e (ap (λ t. x +ℤ t) (add-zero_ℤ y) ∙ z)
    | inr e ↦ rw e (omega int_laws)
  ];
  custody = λ e. absurd (ground arith);
}

-- So a builder with two such entries is accepted.
pub build-pair :
    (b : JournalBuilder) (a c : Uuid) (ka kc : AccountKind) (x y : ℤ)
    → b.entries ≡ pair a ka x c kc y
    → is_custody_only b.kind ≡ false
    → is_zero x ≡ false
    → is_zero y ≡ false
    → x +ℤ y ≡ pos 0
    → (build b ≡ ok (finished b)) × IsSound b.kind b.entries
build-pair b a c ka kc x y shape custody h k z =
    let sound : IsSound b.kind b.entries =
      rw shape (pair-IsSound b.kind a c ka kc x y custody h k z) in
    ((build_iff b (finished b)).1 (sound, refl), sound)
