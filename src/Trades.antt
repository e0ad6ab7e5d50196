-- ===== src/Trades.antt =====
-- `Trade` and `TradeTracker` (include/TradeTracker.h, src/TradeTracker.cpp). The state is the vector
-- `trades_`.
pub mod Window
mod Tests
use quant_sim_x.Prelude.{
  ℕ, zero, suc, ◌-◌, Bool, true, false, List, [], ◌∷◌, ◌++◌, length, drop, leb, ltb, sub64,
  if◌then◌else◌,
}
use quant_sim_x.Double.{Double, nought}

pub record Trade {ℓ} (W : Type ℓ) : Type ℓ where
  pub timestamp_ms : ℕ
  pub price : W
  pub quantity : W

module _ {ℓ} {W : Type ℓ} where
  unfoldable pub add_trade : List (Trade W) → ℕ → W → W → List (Trade W)
  add_trade trades timestamp_ms price qty =
      trades ++ record { timestamp_ms = timestamp_ms; price = price; quantity = qty } ∷ []

  -- the loop of `get_trades_since`
  abbrev pub since : ℕ → List (Trade W) → List (Trade W)
  since cutoff [] = []
  since cutoff (t ∷ ts) =
      let rest = since cutoff ts in if leb cutoff t.timestamp_ms then t ∷ rest else rest

  -- `trades_.back()` of the vector `t ∷ ts`
  abbrev pub newest : Trade W → List (Trade W) → Trade W
  newest t [] = t
  newest t (u ∷ us) = newest u us

  unfoldable pub get_trades_since : List (Trade W) → ℕ → List (Trade W)
  get_trades_since [] time_ago_ms = []
  get_trades_since (t ∷ ts) time_ago_ms =
      since (sub64 (newest t ts).timestamp_ms time_ago_ms) (t ∷ ts)

  unfoldable pub prune : ℕ → List (Trade W) → List (Trade W)
  prune max_trades trades =
      if ltb max_trades (length trades) then drop (length trades - max_trades) trades else trades

module _ {ℓ} {W : Type ℓ} ⦃d : Double W⦄ where
  open d use {add, mul}

  abbrev pub notional_of : Trade W → W
  notional_of t = mul t.price t.quantity

  pub sum_volume : W → List (Trade W) → W
  sum_volume acc [] = acc
  sum_volume acc (t ∷ ts) = sum_volume (add acc t.quantity) ts

  unfoldable pub total_volume : List (Trade W) → W
  unfolding sum_volume
  total_volume trades = sum_volume nought trades

  pub sum_notional : W → List (Trade W) → W
  sum_notional acc [] = acc
  sum_notional acc (t ∷ ts) = sum_notional (add acc (notional_of t)) ts

  unfoldable pub total_notional : List (Trade W) → W
  unfolding sum_notional
  total_notional trades = sum_notional nought trades
