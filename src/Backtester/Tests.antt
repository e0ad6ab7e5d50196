-- ===== src/Backtester/Tests.antt =====
-- Each theorem on the backtester, on a concrete run.
use quant_sim_x.Prelude.{false, ℕ, ◌*◌, ◌≤◌, List, [], ◌∷◌, length, arith, ◌≡◌, All, none}
use quant_sim_x.Double.Fixed.{Fixed, fixed_double, fixed, Fixed-IsOrdered}
use quant_sim_x.Signals.{SignalGenerator, make_generator}
use quant_sim_x.Backtester.{BacktestTrade, BacktestBar, run_trades}
use quant_sim_x.Backtester.Positions.{InOrder, Rising, run_trades-InOrder}
use quant_sim_x.Backtester.Csv.{Row, bars_of}
use quant_sim_x.Backtester.Csv.Bars.{IsBar, bars_of-IsBar}
use quant_sim_x.Backtester.Csv.Times.{bars_of-Rising}
use quant_sim_x.Backtester.Metrics.{Backtester, no_metrics, daily}
use quant_sim_x.Backtester.Metrics.Days.{Keys, value, day_sum, daily_lem}

abbrev bar : ℕ → ℕ → BacktestBar Fixed
bar t p = record {
  timestamp_ms = t;
  open_price = fixed p 0;
  high = fixed p 0;
  low = fixed p 0;
  close_price = fixed p 0;
  vwap = fixed 100 0;
  sma = fixed 100 0;
  rsi = fixed 50 0;
  volume = fixed 1 0;
}

abbrev generator : SignalGenerator Fixed
generator = make_generator (fixed 30 0) (fixed 70 0)

abbrev bars : List (BacktestBar Fixed)
bars = bar 10000 101 ∷ bar 15000 99 ∷ bar 20000 102 ∷ []

run_trades-InOrder_example :
    let trades = (run_trades generator (bar 5000 99) bars).trades in
    InOrder 0 trades 20000 × (2 * length trades ≤ 5)
run_trades-InOrder_example =
    run_trades-InOrder generator (bar 5000 99) bars (omega arith, (omega arith, (omega arith, tt)))

abbrev row : ℕ → ℕ → Row Fixed
row t p = record {
  ts = t;
  price = fixed p 0;
  qty = fixed 1 0;
  vwap = fixed 100 0;
  sma = fixed 100 0;
  rsi = fixed 50 0;
}

abbrev rows : List (Row Fixed)
rows = row 5100 100 ∷ row 9000 103 ∷ row 12000 98 ∷ []

bars_of-IsBar_example : All IsBar (bars_of rows)
bars_of-IsBar_example = bars_of-IsBar Fixed-IsOrdered rows

bars_of-Rising_example : Rising 0 (bars_of rows)
bars_of-Rising_example = bars_of-Rising rows (omega arith, (omega arith, (omega arith, tt)))

-- ended on the day `n`, with a profit of `p`
abbrev trade : ℕ → ℕ → BacktestTrade Fixed
trade n p = record {
  entry_time = 0;
  exit_time = n * 86_400_000;
  entry_price = fixed 100 0;
  exit_price = fixed 100 0;
  pnl = fixed p 0;
  pnl_percent = fixed p 0;
  entry_reason = "";
  exit_reason = "";
}

abbrev trades : List (BacktestTrade Fixed)
trades = trade 2 5 ∷ trade 1 3 ∷ trade 2 0 ∷ []

daily_lem_example : Keys 0 (daily [] trades) × (value 2 (daily [] trades) ≡ day_sum 2 none trades)
daily_lem_example = daily_lem trades [] 2 tt

abbrev loaded : Backtester Fixed
loaded = record {
  bars = bar 5000 99 ∷ bars;
  trades = trades;
  metrics = no_metrics;
  signal_gen = generator;
  is_running = false;
  progress = fixed 0 0;
}
