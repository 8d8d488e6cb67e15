-- ===== src/Core/Asset.antt =====
-- crates/core/src/asset.rs: the assets that balances are denominated in.
pub mod Names
use naivolt.Base.{
  ℕ, ◌≡◌, Bool, true, false, Option, none, some, List, [], ◌∷◌, ◌&&◌, Result, ok, err,
}
use naivolt.Base.Text.{Text, codes, to_upper, match_text}
use naivolt.Core.Chain.{Chain}

pub data AssetKind : Type 0 where
  native token fiat : AssetKind

pub data Asset : Type 0 where
  ngn btc eth bnb matic trx sol usdt usdc : Asset

unfoldable pub kind : Asset → AssetKind
kind Asset.ngn = AssetKind.fiat
kind Asset.usdt = AssetKind.token
kind Asset.usdc = AssetKind.token
kind _ = AssetKind.native

unfoldable pub decimals : Asset → ℕ
decimals Asset.ngn = 4
decimals Asset.btc = 8
decimals Asset.eth = 18
decimals Asset.bnb = 18
decimals Asset.matic = 18
decimals Asset.trx = 6
decimals Asset.sol = 9
decimals Asset.usdt = 6
decimals Asset.usdc = 6

-- The gas token of a sweep on a chain; the asset itself does not matter.
unfoldable pub gas_asset : Asset → Chain → Option Asset
gas_asset a Chain.bitcoin = none
gas_asset a Chain.evm = some Asset.eth
gas_asset a Chain.tron = some Asset.trx
gas_asset a Chain.solana = some Asset.sol

unfoldable pub as_str : Asset → Text
as_str Asset.ngn = codes "NGN"
as_str Asset.btc = codes "BTC"
as_str Asset.eth = codes "ETH"
as_str Asset.bnb = codes "BNB"
as_str Asset.matic = codes "MATIC"
as_str Asset.trx = codes "TRX"
as_str Asset.sol = codes "SOL"
as_str Asset.usdt = codes "USDT"
as_str Asset.usdc = codes "USDC"

pub data UnknownAsset : Type 0 where
  unknown_asset : Text → UnknownAsset

-- The arms of the `match` in `from_str`.
abbrev pub asset_arms : List (Text × Asset)
asset_arms =
    (codes "NGN", Asset.ngn)
    ∷ (codes "BTC", Asset.btc)
    ∷ (codes "ETH", Asset.eth)
    ∷ (codes "BNB", Asset.bnb)
    ∷ (codes "MATIC", Asset.matic)
    ∷ (codes "TRX", Asset.trx)
    ∷ (codes "SOL", Asset.sol)
    ∷ (codes "USDT", Asset.usdt)
    ∷ (codes "USDC", Asset.usdc)
    ∷ []

-- `impl FromStr for Asset`; the error carries the text as it was given.
unfoldable pub from_str : Text → Result UnknownAsset Asset
from_str s = elim (match_text (to_upper s) asset_arms) [
  | none ↦ err (UnknownAsset.unknown_asset s)
  | some a ↦ ok a
]

-- `==`, derived.
unfoldable pub asset_index : Asset → ℕ
asset_index Asset.ngn = 0
asset_index Asset.btc = 1
asset_index Asset.eth = 2
asset_index Asset.bnb = 3
asset_index Asset.matic = 4
asset_index Asset.trx = 5
asset_index Asset.sol = 6
asset_index Asset.usdt = 7
asset_index Asset.usdc = 8
