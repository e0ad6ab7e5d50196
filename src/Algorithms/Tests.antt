-- ===== src/Algorithms/Tests.antt =====
-- Each theorem on the algorithms, on Spread Compression and on Trade Size Spike.
use Prim.Native.String.{String}
use quant_sim_x.Prelude.{ℕ, Bool, true, false, List, [], ◌∷◌}
use quant_sim_x.Double.{nought}
use quant_sim_x.Double.Fixed.{Fixed, fixed_double, fixed}
use quant_sim_x.Signals.{TickData}
use quant_sim_x.Algorithms.Registry.{Algorithm, spread_compression, run}
use quant_sim_x.Algorithms.Registry.Factories.{new_base}
use quant_sim_x.Algorithms.Registry.Positions.{Rounds, run-Rounds}

-- a tick at the price 100 with the given ask
abbrev tick : ℕ → TickData Fixed
tick ask = record {
  timestamp_ms = 1000;
  price = fixed 100 0;
  volume = fixed 1 0;
  bid_price = fixed 100 0;
  ask_price = fixed ask 2;
  bid_volume = nought;
  ask_volume = nought;
  is_buy_tick = true;
  vwap = fixed 100 0;
  rsi = fixed 50 0;
  sma_fast = nought;
  sma_slow = nought;
  macd_line = nought;
  signal_line = nought;
  atr = nought;
}

abbrev print : Fixed → String
print x = "0.000000"

abbrev spread : Bool → Algorithm Fixed
spread held = spread_compression (record {
  base = new_base (tick 10000);
  in_position = held;
  narrow_bps = fixed 5 0;
  wide_bps = fixed 20 0;
})

-- narrow, wide, narrow
abbrev ticks : List (TickData Fixed)
ticks = tick 10001 ∷ tick 10050 ∷ tick 10001 ∷ []

run-Rounds_example : Rounds false false (run print (spread false) ticks).0
run-Rounds_example = run-Rounds print (spread false) ticks
