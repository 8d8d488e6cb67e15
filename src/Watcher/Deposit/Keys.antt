-- ===== src/Watcher/Deposit/Keys.antt =====
-- Idempotency keys tell transfers, and what is done to them, apart.
use mathlib.Core.List.{head-eq_of_cons-eq, tail-eq_of_cons-eq}
use naivolt.Base.{◌≡◌, ◌≢◌, refl, [], ◌∷◌, ◌++◌, All, arith}
use naivolt.Base.Text.{Text, codes, show_int-injective}
use naivolt.Watcher.Network.Names.{as_str-injective, as_str-no_colon}
use naivolt.Watcher.Deposit.{ObservedTransfer, idempotency_key}

-- A text without the separator of a key.
abbrev pub NoColon : Text → Type 0
NoColon = All (λ c. c ≢ b':')

-- The first separator splits a text in one way only.
split_unique :
    (s t : Text) {u v : Text}
    → NoColon s
    → NoColon t
    → s ++ (b':' ∷ u) ≡ t ++ (b':' ∷ v)
    → (s ≡ t) × (u ≡ v)
split_unique [] [] hs ht e = (refl, cc)
split_unique [] (y ∷ t) hs ht e = ground arith
split_unique (x ∷ s) [] hs ht e = ground arith
split_unique (x ∷ s) (y ∷ t) {u = u} {v = v} hs ht e =
    let (p, q) = split_unique s t {u = u} {v = v} hs.1 ht.1 (tail-eq_of_cons-eq e) in
    (cc (head-eq_of_cons-eq e), q)

-- Two keys are equal only if they are for the same purpose, the same network, the same transaction
-- and the same output, where purposes and transaction hashes contain no colon.
pub idempotency_key-injective :
    (k l : Text) (s t : ObservedTransfer)
    → NoColon k
    → NoColon l
    → NoColon s.tx_hash
    → NoColon t.tx_hash
    → idempotency_key k s ≡ idempotency_key l t
    → (k ≡ l)
      × (s.network ≡ t.network)
      × (s.tx_hash ≡ t.tx_hash)
      × (s.output_index ≡ t.output_index)
unfolding idempotency_key
idempotency_key-injective k l s t hk hl hs ht e =
    let (kinds, e₁) = split_unique k l hk hl e in
    let (networks, e₂) =
      split_unique _ _ (as_str-no_colon s.network) (as_str-no_colon t.network) e₁ in
    let (hashes, e₃) = split_unique _ _ hs ht e₂ in
    (
      kinds,
      as_str-injective s.network t.network networks,
      hashes,
      show_int-injective s.output_index t.output_index e₃,
    )

-- A reversal's key is never a credit's, so the reversal of a credit is not swallowed as a replay.
pub reversal_key_ne :
    (s t : ObservedTransfer)
    → idempotency_key (codes "reversal") s ≢ idempotency_key (codes "deposit") t
unfolding idempotency_key
reversal_key_ne s t e = ground arith
