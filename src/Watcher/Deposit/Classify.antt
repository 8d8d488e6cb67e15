-- ===== src/Watcher/Deposit/Classify.antt =====
-- When a transfer is credited.
use naivolt.Base.{ℕ, ◌+◌, ◌≤◌, ◌≡◌, ◌↔◌, inl, inr, Bool-cases, arith}
use naivolt.Base.Int.{◌≤ℤ◌, ltb_ℤ}
use naivolt.Watcher.Network.{Network, min_confirmations}
use naivolt.Watcher.Deposit.{
  ObservedTransfer, DepositAction, minimum_deposit, confirmations_at, classify,
}

-- A transfer is credited exactly when it is worth at least the minimum of its asset and the head is
-- at least the network's threshold deep, the block of the transfer counted; and it is ignored as
-- dust exactly when it is below the minimum, whatever the head.
pub classify_iff :
    (t : ObservedTransfer) (head c : ℕ)
    → ((classify t head ≡ DepositAction.credit c) ↔ (
        (minimum_deposit t.asset ≤ℤ t.amount)
        × (min_confirmations t.network ≤ c)
        × (c ≡ confirmations_at head t.block_number)))
      × ((classify t head ≡ DepositAction.ignore_dust (minimum_deposit t.asset))
          ↔ (¬ (minimum_deposit t.asset ≤ℤ t.amount)))
unfolding classify
classify_iff t head c = elim (Bool-cases (ltb_ℤ t.amount (minimum_deposit t.asset))) [
  | inl dust ↦ ((λ e. ground arith, λ h. ground arith), (λ e. ground arith, λ h. ground arith))
  | inr enough ↦ ((λ e. ground arith, λ h. ground arith), (λ e. ground arith, λ h. ground arith))
]

min_confirmations-pos : (n : Network) → 1 ≤ min_confirmations n
unfolding min_confirmations
min_confirmations-pos n = ground arith

-- Once a transfer is deep enough it stays so: when the chain has grown by `k` blocks it is still
-- credited, with `k` confirmations more.
pub classify_grows :
    (t : ObservedTransfer) (head k c : ℕ)
    → classify t head ≡ DepositAction.credit c
    → classify t (head + k) ≡ DepositAction.credit (c + k)
unfolding classify
classify_grows t head k c e = ground (arith, min_confirmations-pos t.network)
