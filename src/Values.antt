-- ===== src/Values.antt =====
-- Concrete states that the tests of several parts share.
use quant_sim_x.Prelude.{ℕ, false, [], replicate}
use quant_sim_x.Double.{nought}
use quant_sim_x.Double.Fixed.{Fixed, fixed_double, fixed}
use quant_sim_x.OrderBook.{Side, OrderBook, no_level}
use quant_sim_x.Indicators.{Sample, VwapCalculator}
use quant_sim_x.Signals.{SignalGenerator, make_generator}
use quant_sim_x.Backtester.Metrics.{Backtester, no_metrics}

abbrev pub no_sample : Sample Fixed
no_sample = record { timestamp_ms = 0; price = nought; volume = nought }

abbrev pub empty_side : Side Fixed
empty_side = record { levels = replicate 256 no_level; count = 0 }

-- a book without levels, after a trade at `price`
abbrev pub book_at : ℕ → OrderBook Fixed
book_at price = record {
  bids = empty_side;
  asks = empty_side;
  last_update_id = 0;
  last_trade_price = fixed price 0;
  last_trade_qty = fixed 1 0;
  last_trade_time = 0;
}

abbrev pub new_vwap : VwapCalculator Fixed
new_vwap = record {
  samples = record { items = replicate 4096 no_sample; write_pos = 0; read_pos = 0; count = 0 };
  cumulative_volume_price = nought;
  cumulative_volume = nought;
  vwap = nought;
  sma = nought;
  rsi = fixed 50 0;
  gain_sum = nought;
  loss_sum = nought;
}

abbrev pub new_generator : SignalGenerator Fixed
new_generator = make_generator (fixed 30 0) (fixed 70 0)

abbrev pub new_backtester : Backtester Fixed
new_backtester = record {
  bars = [];
  trades = [];
  metrics = no_metrics;
  signal_gen = new_generator;
  is_running = false;
  progress = nought;
}
