-- ===== src/Algorithms/Registry/Factories.antt =====
-- `AlgorithmRegistry::create` (include/TradingAlgorithms.h): the ten classes, as they are constructed.
use Prim.Native.String.{String}
use text.Mathlib.Text.{◌==◌ as str_eq}
use quant_sim_x.Prelude.{false, List, [], ◌∷◌, Option, none, some, if◌then◌else◌}
use quant_sim_x.Double.{Double, nought}
use quant_sim_x.Signals.{TickData, no_event}
use quant_sim_x.Algorithms.{Base}
use quant_sim_x.Algorithms.Registry.{
  Algorithm, rsi_mean_reversion, macd_crossover, dual_sma, momentum_burst, supertrend,
  vwap_breakout, trade_size_spike, delta_momentum, spread_compression, volatility_momentum, name,
}

module _ {ℓ} {W : Type ℓ} ⦃d : Double W⦄ where
  open d use {of_nat, decimal}

  -- the members of an object that has seen no tick
  abbrev pub new_base : TickData W → Base W
  new_base tick = record { last_tick = tick; last_signal = no_event; signals = [] }

  -- The ten classes with the default arguments of their constructors. `tick` is a `TickData` as it is
  -- constructed.
  abbrev pub factories : TickData W → List (Algorithm W)
  factories tick =
      rsi_mean_reversion (record {
        base = new_base tick;
        in_position = false;
        oversold = of_nat 30;
        overbought = of_nat 70;
      })
      ∷ macd_crossover (record {
        base = new_base tick;
        in_position = false;
        fast_period = 12;
        slow_period = 26;
        signal_period = 9;
        ema_fast = nought;
        ema_slow = nought;
        macd_line = nought;
        signal_line = nought;
      })
      ∷ dual_sma (record {
        base = new_base tick;
        in_position = false;
        fast_period = 10;
        slow_period = 30;
        prices = [];
        prev_fast_sma = nought;
        prev_slow_sma = nought;
      })
      ∷ momentum_burst (record {
        base = new_base tick;
        in_position = false;
        threshold_pct = decimal 5 1;
        window_ms = 5000;
        burst_prices = [];
        entry_price = nought;
      })
      ∷ supertrend (record {
        base = new_base tick;
        in_position = false;
        period = 10;
        multiplier = of_nat 3;
        price_history = [];
        tr_list = [];
        upper_band = nought;
        lower_band = nought;
      })
      ∷ vwap_breakout (record {
        base = new_base tick;
        in_position = false;
        threshold_pct = decimal 1 1;
        vwap_history = [];
      })
      ∷ trade_size_spike (record {
        base = new_base tick;
        in_position = false;
        spike_multiplier = of_nat 3;
        window = 20;
        trade_sizes = [];
      })
      ∷ delta_momentum (record {
        base = new_base tick;
        in_position = false;
        threshold = of_nat 1000;
        window = 10;
        deltas = [];
        cum_delta = nought;
      })
      ∷ spread_compression (record {
        base = new_base tick;
        in_position = false;
        narrow_bps = of_nat 5;
        wide_bps = of_nat 20;
      })
      ∷ volatility_momentum (record {
        base = new_base tick;
        in_position = false;
        lookback = 20;
        burst_threshold = of_nat 2;
        price_history = [];
        returns = [];
      })
      ∷ []

  -- `factories_.find(name)`, over a list of what is registered
  abbrev pub find_name : String → List (Algorithm W) → Option (Algorithm W)
  find_name key [] = none
  find_name key (a ∷ rest) = if str_eq (name a) key then some a else find_name key rest

  unfoldable pub create : TickData W → String → Option (Algorithm W)
  create tick key = find_name key (factories tick)
