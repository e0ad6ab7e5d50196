-- ===== src/Algorithms/Registry.antt =====
-- The calls through `TradingAlgorithm*` and `AlgorithmRegistry` (include/TradingAlgorithms.h). An object
-- of one of the ten classes is a value of the sum `Algorithm`; the registry, once the ten static
-- registrars have run, is `create` of Factories.
pub mod Factories
pub mod Positions
use Prim.Native.String.{String}
use text.Mathlib.Text.{◌==◌ as str_eq}
use quant_sim_x.Prelude.{ℕ, Bool, true, false, List, [], ◌∷◌, Option, none, some, if◌then◌else◌}
use quant_sim_x.Double.{Double, nought}
use quant_sim_x.Signals.{Signal, TickData, no_event}
use quant_sim_x.Algorithms.{Base}
use quant_sim_x.Algorithms.RsiMeanReversion
use quant_sim_x.Algorithms.RsiMeanReversion.{RsiMeanReversion}
use quant_sim_x.Algorithms.MacdCrossover
use quant_sim_x.Algorithms.MacdCrossover.{MacdCrossover}
use quant_sim_x.Algorithms.DualSma
use quant_sim_x.Algorithms.DualSma.{DualSma}
use quant_sim_x.Algorithms.MomentumBurst
use quant_sim_x.Algorithms.MomentumBurst.{MomentumBurst}
use quant_sim_x.Algorithms.Supertrend
use quant_sim_x.Algorithms.Supertrend.{Supertrend}
use quant_sim_x.Algorithms.VwapBreakout
use quant_sim_x.Algorithms.VwapBreakout.{VwapBreakout}
use quant_sim_x.Algorithms.TradeSizeSpike
use quant_sim_x.Algorithms.TradeSizeSpike.{TradeSizeSpike}
use quant_sim_x.Algorithms.DeltaMomentum
use quant_sim_x.Algorithms.DeltaMomentum.{DeltaMomentum}
use quant_sim_x.Algorithms.SpreadCompression
use quant_sim_x.Algorithms.SpreadCompression.{SpreadCompression}
use quant_sim_x.Algorithms.VolatilityMomentum
use quant_sim_x.Algorithms.VolatilityMomentum.{VolatilityMomentum}

pub data Algorithm {ℓ} (W : Type ℓ) : Type ℓ where
  rsi_mean_reversion : RsiMeanReversion W → Algorithm W
  macd_crossover : MacdCrossover W → Algorithm W
  dual_sma : DualSma W → Algorithm W
  momentum_burst : MomentumBurst W → Algorithm W
  supertrend : Supertrend W → Algorithm W
  vwap_breakout : VwapBreakout W → Algorithm W
  trade_size_spike : TradeSizeSpike W → Algorithm W
  delta_momentum : DeltaMomentum W → Algorithm W
  spread_compression : SpreadCompression W → Algorithm W
  volatility_momentum : VolatilityMomentum W → Algorithm W

module _ {ℓ} {W : Type ℓ} where
  abbrev pub base_of : Algorithm W → Base W
  base_of (rsi_mean_reversion a) = a.base
  base_of (macd_crossover a) = a.base
  base_of (dual_sma a) = a.base
  base_of (momentum_burst a) = a.base
  base_of (supertrend a) = a.base
  base_of (vwap_breakout a) = a.base
  base_of (trade_size_spike a) = a.base
  base_of (delta_momentum a) = a.base
  base_of (spread_compression a) = a.base
  base_of (volatility_momentum a) = a.base

  abbrev pub in_position : Algorithm W → Bool
  in_position (rsi_mean_reversion a) = a.in_position
  in_position (macd_crossover a) = a.in_position
  in_position (dual_sma a) = a.in_position
  in_position (momentum_burst a) = a.in_position
  in_position (supertrend a) = a.in_position
  in_position (vwap_breakout a) = a.in_position
  in_position (trade_size_spike a) = a.in_position
  in_position (delta_momentum a) = a.in_position
  in_position (spread_compression a) = a.in_position
  in_position (volatility_momentum a) = a.in_position

  -- `name()`, which is also the key of the class in the registry
  abbrev pub name : Algorithm W → String
  name (rsi_mean_reversion a) = "RSI Mean Reversion"
  name (macd_crossover a) = "MACD Crossover"
  name (dual_sma a) = "Dual SMA Crossover"
  name (momentum_burst a) = "Momentum Burst"
  name (supertrend a) = "Supertrend"
  name (vwap_breakout a) = "VWAP Breakout"
  name (trade_size_spike a) = "Trade Size Spike"
  name (delta_momentum a) = "Delta Momentum"
  name (spread_compression a) = "Spread Compression"
  name (volatility_momentum a) = "Volatility Momentum"

  abbrev pub description : Algorithm W → String
  description (rsi_mean_reversion a) = "Buy when RSI < oversold, sell when RSI > overbought"
  description (macd_crossover a) = "Buy when MACD crosses above signal, sell when below"
  description (dual_sma a) = "Buy when fast SMA crosses above slow SMA"
  description (momentum_burst a) = "Buy when price jumps X% in Y ms, sell on reversal"
  description (supertrend a) = "Trend following using ATR with multiplier"
  description (vwap_breakout a) = "Buy when price breaks VWAP with volume"
  description (trade_size_spike a) = "Buy when large trades appear, sell when they disappear"
  description (delta_momentum a) = "Buy when cumulative delta turns positive"
  description (spread_compression a) = "Buy when spread narrows, sell when it widens"
  description (volatility_momentum a) = "Trade momentum bursts in low volatility regimes"

module _ {ℓ} {W : Type ℓ} ⦃d : Double W⦄ (to_string : W → String) where
  unfoldable pub update : Algorithm W → TickData W → Signal × Algorithm W
  update (rsi_mean_reversion a) tick =
      let (sig, b) = RsiMeanReversion.update a tick in (sig, rsi_mean_reversion b)
  update (macd_crossover a) tick =
      let (sig, b) = MacdCrossover.update a tick in (sig, macd_crossover b)
  update (dual_sma a) tick = let (sig, b) = DualSma.update a tick in (sig, dual_sma b)
  update (momentum_burst a) tick =
      let (sig, b) = MomentumBurst.update to_string a tick in (sig, momentum_burst b)
  update (supertrend a) tick = let (sig, b) = Supertrend.update a tick in (sig, supertrend b)
  update (vwap_breakout a) tick =
      let (sig, b) = VwapBreakout.update to_string a tick in (sig, vwap_breakout b)
  update (trade_size_spike a) tick =
      let (sig, b) = TradeSizeSpike.update a tick in (sig, trade_size_spike b)
  update (delta_momentum a) tick =
      let (sig, b) = DeltaMomentum.update a tick in (sig, delta_momentum b)
  update (spread_compression a) tick =
      let (sig, b) = SpreadCompression.update a tick in (sig, spread_compression b)
  update (volatility_momentum a) tick =
      let (sig, b) = VolatilityMomentum.update a tick in (sig, volatility_momentum b)

  -- the signals that `update` returns over some ticks, and the object behind them
  unfoldable pub run : Algorithm W → List (TickData W) → List Signal × Algorithm W
  run a [] = ([], a)
  run a (t ∷ ts) = let (sig, b) = update a t in let (sigs, c) = run b ts in (sig ∷ sigs, c)

module _ {ℓ} {W : Type ℓ} ⦃d : Double W⦄ where
  unfoldable pub reset : Algorithm W → Algorithm W
  reset (rsi_mean_reversion a) = rsi_mean_reversion (RsiMeanReversion.reset a)
  reset (macd_crossover a) = macd_crossover (MacdCrossover.reset a)
  reset (dual_sma a) = dual_sma (DualSma.reset a)
  reset (momentum_burst a) = momentum_burst (MomentumBurst.reset a)
  reset (supertrend a) = supertrend (Supertrend.reset a)
  reset (vwap_breakout a) = vwap_breakout (VwapBreakout.reset a)
  reset (trade_size_spike a) = trade_size_spike (TradeSizeSpike.reset a)
  reset (delta_momentum a) = delta_momentum (DeltaMomentum.reset a)
  reset (spread_compression a) = spread_compression (SpreadCompression.reset a)
  reset (volatility_momentum a) = volatility_momentum (VolatilityMomentum.reset a)
