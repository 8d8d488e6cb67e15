-- ===== src/Core/Tests.antt =====
-- Runs of the core definitions, and instances of their theorems.
use naivolt.Base.{◌≡◌, refl, ok}
use naivolt.Base.Text.{codes, text_eq, match_text, show_from, show_nat}
use naivolt.Core.Asset
use naivolt.Core.Asset.{Asset}
use naivolt.Core.Chain
use naivolt.Core.Chain.{Chain}

-- `evm_index_varies_in_last_position`
evm_path : Chain.derivation_path Chain.evm 42 ≡ codes "m/44'/60'/0'/0/42"
unfolding Chain.derivation_path show_nat show_from
evm_path = refl

-- `solana_path_is_fully_hardened`
solana_path : Chain.derivation_path Chain.solana 7 ≡ codes "m/44'/501'/7'/0'"
unfolding Chain.derivation_path show_nat show_from
solana_path = refl

usdt_lower : Asset.from_str (codes "usDt") ≡ ok Asset.usdt
unfolding Asset.from_str match_text text_eq
usdt_lower = refl
