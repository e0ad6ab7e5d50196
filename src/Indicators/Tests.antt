-- ===== src/Indicators/Tests.antt =====
-- Each theorem on the indicators, on a concrete calculator.
use quant_sim_x.Prelude.{ℕ, ◌≡◌, refl, List, [], ◌∷◌, arith, replicate, length-replicate}
use quant_sim_x.Double.{nought}
use quant_sim_x.Double.Fixed.{Fixed, fixed_double, fixed}
use quant_sim_x.Indicators.{Sample, VwapCalculator, update}
use quant_sim_x.Indicators.Vwap.{add_prices}
use quant_sim_x.Indicators.Frozen.{IsFilled, rsi_frozen}

abbrev sample : ℕ → Sample Fixed
sample p = record { timestamp_ms = 0; price = fixed p 0; volume = fixed 2 0 }

-- with `n` samples at the price 100 in the buffer
abbrev calculator : ℕ → List (Sample Fixed) → VwapCalculator Fixed
calculator n items = record {
  samples = record { items = items; write_pos = n; read_pos = 0; count = n };
  cumulative_volume_price = nought;
  cumulative_volume = nought;
  vwap = nought;
  sma = nought;
  rsi = fixed 50 0;
  gain_sum = nought;
  loss_sum = nought;
}

abbrev slots : List (Sample Fixed)
slots = replicate 4096 (sample 100)

fifteen-IsFilled : IsFilled (sample 0) (calculator 15 slots)
fifteen-IsFilled = record {
  array = length-replicate 4096 (sample 100);
  within = omega arith;
  write_at = refl;
}

rsi_frozen_example :
    (update (sample 0) (add_prices (calculator 15 slots) (sample 500 ∷ sample 1 ∷ []))).rsi
    ≡ (update (sample 0) (calculator 15 slots)).rsi
rsi_frozen_example =
    rsi_frozen (sample 0) (sample 500 ∷ sample 1 ∷ []) (calculator 15 slots) fifteen-IsFilled
      (omega arith)
