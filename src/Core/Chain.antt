-- ===== src/Core/Chain.antt =====
-- crates/core/src/chain.rs: the chain families, their curves and derivation paths.
pub mod Paths
use naivolt.Base.{ℕ, Bool, Option, none, some, List, [], ◌∷◌, ◌++◌, Result, ok, err}
use naivolt.Base.Text.{Text, codes, to_lower, match_text, show_nat}

pub data Curve : Type 0 where
  secp256k1 ed25519 : Curve

pub data Chain : Type 0 where
  bitcoin evm tron solana : Chain

unfoldable pub curve : Chain → Curve
curve Chain.solana = Curve.ed25519
curve _ = Curve.secp256k1

unfoldable pub coin_type : Chain → ℕ
coin_type Chain.bitcoin = 0
coin_type Chain.evm = 60
coin_type Chain.tron = 195
coin_type Chain.solana = 501

-- BIP-32 path of an address index.
unfoldable pub derivation_path : Chain → ℕ → Text
derivation_path Chain.bitcoin index = codes "m/84'/0'/0'/0/" ++ show_nat index
derivation_path Chain.evm index = codes "m/44'/60'/0'/0/" ++ show_nat index
derivation_path Chain.tron index = codes "m/44'/195'/0'/0/" ++ show_nat index
derivation_path Chain.solana index = codes "m/44'/501'/" ++ (show_nat index ++ codes "'/0'")

unfoldable pub min_confirmations : Chain → ℕ
min_confirmations Chain.bitcoin = 2
min_confirmations Chain.evm = 12
min_confirmations Chain.tron = 20
min_confirmations Chain.solana = 1

unfoldable pub as_str : Chain → Text
as_str Chain.bitcoin = codes "bitcoin"
as_str Chain.evm = codes "evm"
as_str Chain.tron = codes "tron"
as_str Chain.solana = codes "solana"

pub data UnknownChain : Type 0 where
  unknown_chain : Text → UnknownChain

-- The arms of the `match` in `from_str`.
abbrev pub chain_arms : List (Text × Chain)
chain_arms =
    (codes "bitcoin", Chain.bitcoin)
    ∷ (codes "btc", Chain.bitcoin)
    ∷ (codes "evm", Chain.evm)
    ∷ (codes "ethereum", Chain.evm)
    ∷ (codes "eth", Chain.evm)
    ∷ (codes "bsc", Chain.evm)
    ∷ (codes "polygon", Chain.evm)
    ∷ (codes "base", Chain.evm)
    ∷ (codes "tron", Chain.tron)
    ∷ (codes "trx", Chain.tron)
    ∷ (codes "solana", Chain.solana)
    ∷ (codes "sol", Chain.solana)
    ∷ []

-- `impl FromStr for Chain`; the error carries the text as it was given.
unfoldable pub from_str : Text → Result UnknownChain Chain
from_str s = elim (match_text (to_lower s) chain_arms) [
  | none ↦ err (UnknownChain.unknown_chain s)
  | some c ↦ ok c
]

-- `==`, derived.
unfoldable pub chain_index : Chain → ℕ
chain_index Chain.bitcoin = 0
chain_index Chain.evm = 1
chain_index Chain.tron = 2
chain_index Chain.solana = 3
