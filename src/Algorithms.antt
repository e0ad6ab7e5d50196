-- ===== src/Algorithms.antt =====
-- `TradingAlgorithm` (include/TradingAlgorithms.h): what the ten algorithms share. The classes of
-- src/TradingAlgorithms.cpp are a file each; Registry has the calls through the base class.
pub mod RsiMeanReversion
pub mod MacdCrossover
pub mod DualSma
pub mod MomentumBurst
pub mod Supertrend
pub mod VwapBreakout
pub mod TradeSizeSpike
pub mod DeltaMomentum
pub mod SpreadCompression
pub mod VolatilityMomentum
pub mod Registry
mod Tests
use Prim.Native.String.{String}
use quant_sim_x.Prelude.{
  ℕ, zero, suc, ◌+◌, ◌-◌, ◌≡◌, Bool, true, false, not, List, [], ◌∷◌, ◌++◌, length, get_or, ltb,
  if◌then◌else◌,
}
use quant_sim_x.Double.{Double, nought}
use quant_sim_x.Signals.{Signal, none_signal, buy, sell, is_signal, SignalEvent, TickData, no_event}

-- the protected members of the base class
pub record Base {ℓ} (W : Type ℓ) : Type ℓ where
  pub last_tick : TickData W
  pub last_signal : SignalEvent W
  pub signals : List (SignalEvent W)

module _ {ℓ} {W : Type ℓ} where
  -- `last_tick_ = tick`
  abbrev pub see : Base W → TickData W → Base W
  see b tick = record b { last_tick = tick }

  -- The third argument of the calls has no parameter in the declaration, and no field in the event.
  abbrev pub emit_signal : Base W → Signal → String → Base W
  emit_signal b sig reason =
      let evt : SignalEvent W = record {
        timestamp_ms = b.last_tick.timestamp_ms;
        signal = sig;
        reason = reason;
        price = b.last_tick.price;
        vwap = b.last_tick.vwap;
        rsi = b.last_tick.rsi;
      } in
      if is_signal sig then record b { signals = b.signals ++ evt ∷ []; last_signal = evt } else b

  -- `while (xs.size() > n) xs.pop_front()`
  abbrev pub keep_last : ℕ → List W → List W
  keep_last n [] = []
  keep_last n (x ∷ xs) = if ltb n (length (x ∷ xs)) then keep_last n xs else x ∷ xs

module _ {ℓ} {W : Type ℓ} ⦃d : Double W⦄ where
  open d use {add}

  -- `signals_.clear(); last_signal_ = {}`
  abbrev pub forget : Base W → Base W
  forget b = record b { signals = []; last_signal = no_event }

  -- `back()`; `nought` stands for a read of an empty deque, which does not occur
  abbrev pub back : List W → W
  back xs = get_or xs (length xs - 1) nought

  abbrev pub sum_from : W → List W → W
  sum_from acc [] = acc
  sum_from acc (x ∷ xs) = sum_from (add acc x) xs

-- What a signal does to `in_position_`. A position is left by SELL alone; where `short` is false, it
-- is entered by BUY alone.
abbrev pub Turns : Bool → Bool → Signal → Bool → Type 0
Turns short before none_signal after = after ≡ before
Turns short before buy after = (before ≡ false) × (after ≡ true)
Turns false before sell after = (before ≡ true) × (after ≡ false)
Turns true before sell after = after ≡ not before

-- What a call of `update` that returns the signal does to the log.
abbrev pub Logs {ℓ} : {W : Type ℓ} → Base W → Signal → Base W → Type ℓ
Logs b none_signal c = (c.signals ≡ b.signals) × (c.last_signal ≡ b.last_signal)
Logs b buy c = (c.signals ≡ b.signals ++ c.last_signal ∷ []) × (c.last_signal.signal ≡ buy)
Logs b sell c = (c.signals ≡ b.signals ++ c.last_signal ∷ []) × (c.last_signal.signal ≡ sell)
