-- ===== src/Core/Chain/Paths.antt =====
-- Derivation paths: no two addresses share one.
use mathlib.Core.List.{append_cancel_left, append_cancel_right}
use naivolt.Base.{ℕ, ◌≡◌, refl, arith}
use naivolt.Base.Text.{codes, show_nat-injective}
use naivolt.Core.Chain.{Chain, derivation_path}

-- A derivation path determines its chain and its index: two different wallets never derive the
-- same key path.
pub derivation_path-injective :
    (c d : Chain) (i j : ℕ) → derivation_path c i ≡ derivation_path d j → (c ≡ d) × (i ≡ j)
unfolding derivation_path
derivation_path-injective Chain.bitcoin Chain.bitcoin i j e =
    (refl, show_nat-injective i j (append_cancel_left (codes "m/84'/0'/0'/0/") _ _ e))
derivation_path-injective Chain.evm Chain.evm i j e =
    (refl, show_nat-injective i j (append_cancel_left (codes "m/44'/60'/0'/0/") _ _ e))
derivation_path-injective Chain.tron Chain.tron i j e =
    (refl, show_nat-injective i j (append_cancel_left (codes "m/44'/195'/0'/0/") _ _ e))
derivation_path-injective Chain.solana Chain.solana i j e = (
  refl,
  show_nat-injective i j
      (append_cancel_right _ _ (codes "'/0'") (append_cancel_left (codes "m/44'/501'/") _ _ e)),
)
derivation_path-injective _ _ i j e = ground arith
