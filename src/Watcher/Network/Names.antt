-- ===== src/Watcher/Network/Names.antt =====
-- Network names are distinct, contain no colon, and are read back by `from_str`.
use naivolt.Base.{◌≡◌, ◌≢◌, ◌<◌, ◌↔◌, All, ok, true, arith}
use naivolt.Base.Text.{text_eq, match_text}
use naivolt.Core.Chain.{Chain}
use naivolt.Watcher.Network.{
  Network, chain, min_confirmations, rescan_depth, scan_overlap, is_evm, as_str, from_str,
  network_index,
}

pub as_str-injective : (m n : Network) → as_str m ≡ as_str n → m ≡ n
unfolding as_str
as_str-injective m n e = ground arith

pub network_index-injective : (m n : Network) → network_index m ≡ network_index n → m ≡ n
unfolding network_index
network_index-injective m n e = ground arith

-- No network name contains the separator of an idempotency key.
pub as_str-no_colon : (n : Network) → All (λ c. c ≢ b':') (as_str n)
unfolding as_str
as_str-no_colon Network.tron = omega arith
as_str-no_colon _ = omega arith

-- Every network's name is read back as the network, and a network shares the wallet of the chain
-- family EVM exactly when the code calls it an EVM network.
pub from_str-as_str :
    (n : Network) → (from_str (as_str n) ≡ ok n) × ((is_evm n ≡ true) ↔ (chain n ≡ Chain.evm))
unfolding from_str as_str match_text text_eq is_evm chain
from_str-as_str n = ground arith

-- The re-scan on startup reaches deeper than the confirmation threshold and than the overlap of two
-- passes.
pub rescan_depth_lem :
    (n : Network) → (min_confirmations n < rescan_depth n) × (scan_overlap n < rescan_depth n)
unfolding rescan_depth min_confirmations scan_overlap
rescan_depth_lem n = ground arith
