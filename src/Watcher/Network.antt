-- ===== src/Watcher/Network.antt =====
-- crates/watcher/src/network.rs: the networks, as distinct from the chain families.
pub mod Names
use naivolt.Base.{ℕ, ◌*◌, Bool, true, false, none, some, List, [], ◌∷◌, Result, ok, err}
use naivolt.Base.Text.{Text, codes, to_lower, match_text}
use naivolt.Core.Chain.{Chain}

pub data Network : Type 0 where
  tron ethereum bsc polygon base bitcoin solana : Network

-- The chain family whose wallet row holds a network's address.
unfoldable pub chain : Network → Chain
chain Network.tron = Chain.tron
chain Network.ethereum = Chain.evm
chain Network.bsc = Chain.evm
chain Network.polygon = Chain.evm
chain Network.base = Chain.evm
chain Network.bitcoin = Chain.bitcoin
chain Network.solana = Chain.solana

unfoldable pub min_confirmations : Network → ℕ
min_confirmations Network.bitcoin = 2
min_confirmations Network.ethereum = 12
min_confirmations Network.bsc = 20
min_confirmations Network.polygon = 20
min_confirmations Network.base = 10
min_confirmations Network.tron = 20
min_confirmations Network.solana = 1

unfoldable pub rescan_depth : Network → ℕ
rescan_depth n = min_confirmations n * 3

unfoldable pub scan_overlap : Network → ℕ
scan_overlap Network.ethereum = 3
scan_overlap Network.bsc = 10
scan_overlap Network.polygon = 10
scan_overlap Network.base = 10
scan_overlap Network.tron = 0
scan_overlap Network.bitcoin = 0
scan_overlap Network.solana = 0

unfoldable pub poll_interval_ms : Network → ℕ
poll_interval_ms Network.bitcoin = 30000
poll_interval_ms Network.ethereum = 6000
poll_interval_ms Network.bsc = 2000
poll_interval_ms Network.polygon = 2000
poll_interval_ms Network.base = 2000
poll_interval_ms Network.tron = 3000
poll_interval_ms Network.solana = 1000

unfoldable pub is_evm : Network → Bool
is_evm Network.ethereum = true
is_evm Network.bsc = true
is_evm Network.polygon = true
is_evm Network.base = true
is_evm _ = false

unfoldable pub as_str : Network → Text
as_str Network.tron = codes "tron"
as_str Network.ethereum = codes "ethereum"
as_str Network.bsc = codes "bsc"
as_str Network.polygon = codes "polygon"
as_str Network.base = codes "base"
as_str Network.bitcoin = codes "bitcoin"
as_str Network.solana = codes "solana"

pub data UnknownNetwork : Type 0 where
  unknown_network : Text → UnknownNetwork

-- The arms of the `match` in `from_str`.
abbrev pub network_arms : List (Text × Network)
network_arms =
    (codes "tron", Network.tron)
    ∷ (codes "ethereum", Network.ethereum)
    ∷ (codes "eth", Network.ethereum)
    ∷ (codes "bsc", Network.bsc)
    ∷ (codes "bnb", Network.bsc)
    ∷ (codes "polygon", Network.polygon)
    ∷ (codes "matic", Network.polygon)
    ∷ (codes "base", Network.base)
    ∷ (codes "bitcoin", Network.bitcoin)
    ∷ (codes "btc", Network.bitcoin)
    ∷ (codes "solana", Network.solana)
    ∷ (codes "sol", Network.solana)
    ∷ []

-- `impl FromStr for Network`; the error carries the text as it was given.
unfoldable pub from_str : Text → Result UnknownNetwork Network
from_str s = elim (match_text (to_lower s) network_arms) [
  | none ↦ err (UnknownNetwork.unknown_network s)
  | some n ↦ ok n
]

-- `==`, derived.
unfoldable pub network_index : Network → ℕ
network_index Network.tron = 0
network_index Network.ethereum = 1
network_index Network.bsc = 2
network_index Network.polygon = 3
network_index Network.base = 4
network_index Network.bitcoin = 5
network_index Network.solana = 6
