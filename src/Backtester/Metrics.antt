-- ===== src/Backtester/Metrics.antt =====
-- `run`, `compute_metrics` and `compute_returns` of src/Backtester.cpp.
pub mod Days
use quant_sim_x.Prelude.{
  ℕ, zero, suc, ◌+◌, ◌*◌, ◌/◌, ◌%◌, ◌^◌, ◌-◌, Bool, true, false, List, [], ◌∷◌, map, length, ltb,
  ◌==◌, if◌then◌else◌,
}
use quant_sim_x.Double.{Double, gt, nought, max_of}
use quant_sim_x.Signals.{SignalGenerator}
use quant_sim_x.Backtester.{BacktestBar, BacktestTrade, BacktestMetrics, Run, run_trades}

-- the local variables of the loop of `compute_metrics`, with the members of `m` that it changes
pub record Tally {ℓ} (W : Type ℓ) : Type ℓ where
  pub winning_trades : ℕ
  pub losing_trades : ℕ
  pub total_win : W
  pub total_loss : W
  pub running_pnl : W
  pub peak_pnl : W
  pub consecutive_wins : ℕ
  pub consecutive_losses : ℕ
  pub max_consecutive_wins : W
  pub max_consecutive_losses : W

-- the members of `Backtester`; `vwap_calc_` is never used
pub record Backtester {ℓ} (W : Type ℓ) : Type ℓ where
  pub bars : List (BacktestBar W)
  pub trades : List (BacktestTrade W)
  pub metrics : BacktestMetrics W
  pub signal_gen : SignalGenerator W
  pub is_running : Bool
  pub progress : W

module _ {ℓ} {W : Type ℓ} ⦃d : Double W⦄ where
  open d use {of_nat, neg, decimal, add, sub, mul, div, abs, sqrt, lt}

  abbrev pub no_tally : Tally W
  no_tally = record {
    winning_trades = 0;
    losing_trades = 0;
    total_win = nought;
    total_loss = nought;
    running_pnl = nought;
    peak_pnl = nought;
    consecutive_wins = 0;
    consecutive_losses = 0;
    max_consecutive_wins = of_nat 0;
    max_consecutive_losses = of_nat 0;
  }

  abbrev pub no_metrics : BacktestMetrics W
  no_metrics = record {
    total_trades = 0;
    winning_trades = 0;
    losing_trades = 0;
    win_rate = nought;
    total_pnl = nought;
    avg_win = nought;
    avg_loss = nought;
    profit_factor = nought;
    max_drawdown = nought;
    max_consecutive_wins = nought;
    max_consecutive_losses = nought;
    sharpe_ratio = nought;
  }

  -- the `if … else if` on the sign of a trade
  abbrev pub count_trade : Tally W → W → Tally W
  count_trade t pnl =
      if gt pnl nought
      then record t {
        winning_trades = t.winning_trades + 1;
        total_win = add t.total_win pnl;
        consecutive_wins = t.consecutive_wins + 1;
        consecutive_losses = 0;
      }
      else if lt pnl nought
      then record t {
        losing_trades = t.losing_trades + 1;
        total_loss = add t.total_loss pnl;
        consecutive_losses = t.consecutive_losses + 1;
        consecutive_wins = 0;
      }
      else t

  -- the body of the loop
  pub add_trade : Tally W → BacktestTrade W → Tally W
  add_trade t trade =
      let c = count_trade t trade.pnl in
      let running = add t.running_pnl trade.pnl in
      record c {
        running_pnl = running;
        peak_pnl = max_of t.peak_pnl running;
        max_consecutive_wins = max_of t.max_consecutive_wins (of_nat c.consecutive_wins);
        max_consecutive_losses = max_of t.max_consecutive_losses (of_nat c.consecutive_losses);
      }

  pub add_trades : Tally W → List (BacktestTrade W) → Tally W
  unfolding add_trade
  add_trades t [] = t
  add_trades t (x ∷ xs) = add_trades (add_trade t x) xs

  abbrev pub day_of : BacktestTrade W → ℕ
  day_of trade = trade.exit_time / (24 * 3600 * 1000)

  -- `daily_pnl[day] += pnl` on the map, a list of its entries in the order of their keys
  unfoldable pub add_day : ℕ → W → List (ℕ × W) → List (ℕ × W)
  add_day day pnl [] = (day, add nought pnl) ∷ []
  add_day day pnl ((k, v) ∷ m) =
      let rest = add_day day pnl m in
      if day == k
      then (k, add v pnl) ∷ m
      else if ltb day k
      then (day, add nought pnl) ∷ (k, v) ∷ m
      else (k, v) ∷ rest

  unfoldable pub daily : List (ℕ × W) → List (BacktestTrade W) → List (ℕ × W)
  daily m [] = m
  daily m (t ∷ ts) = daily (add_day (day_of t) t.pnl m) ts

  pub compute_returns : List (BacktestTrade W) → List W
  unfolding daily
  compute_returns trades = map (λ e. e.1) (daily [] trades)

  abbrev pub sum_from : W → List W → W
  sum_from acc [] = acc
  sum_from acc (x ∷ xs) = sum_from (add acc x) xs

  abbrev pub sum_squares : W → W → List W → W
  sum_squares mean acc [] = acc
  sum_squares mean acc (x ∷ xs) = sum_squares mean (add acc (mul (sub x mean) (sub x mean))) xs

  -- `old` is the value where the code does not assign one
  abbrev pub sharpe_of : List W → W → W
  sharpe_of [] old = old
  sharpe_of (r ∷ rs) old =
      let n = of_nat (length (r ∷ rs)) in
      let mean = div (sum_from nought (r ∷ rs)) n in
      let std_dev = sqrt (div (sum_squares mean nought (r ∷ rs)) n) in
      if gt std_dev (decimal 1 6) then mul (div mean std_dev) (sqrt (of_nat 252)) else old

  -- the number that the 32 bits of an `int` stand for
  abbrev pub of_int32 : ℕ → W
  of_int32 n = if ltb n (2 ^ 31) then of_nat n else neg (of_nat (2 ^ 32 - n))

  -- `total_trades` is narrowed to an `int`, and it is the narrowed number that is tested and divided by.
  unfoldable pub compute_metrics : List (BacktestTrade W) → BacktestMetrics W
  unfolding add_trades compute_returns
  compute_metrics trades =
      let total = length trades % 2 ^ 32 in
      let t = add_trades no_tally trades in
      if total == 0 then no_metrics else record {
        total_trades = total;
        winning_trades = t.winning_trades;
        losing_trades = t.losing_trades;
        win_rate = div (of_nat t.winning_trades) (of_int32 total);
        total_pnl = t.running_pnl;
        avg_win =
            if ltb 0 t.winning_trades then div t.total_win (of_nat t.winning_trades) else nought;
        avg_loss =
            if ltb 0 t.losing_trades then div t.total_loss (of_nat t.losing_trades) else nought;
        profit_factor =
            if gt (abs t.total_loss) (decimal 1 6)
            then div t.total_win (abs t.total_loss)
            else nought;
        max_drawdown = div (sub t.peak_pnl t.running_pnl) (max_of (of_nat 1) t.peak_pnl);
        max_consecutive_wins = t.max_consecutive_wins;
        max_consecutive_losses = t.max_consecutive_losses;
        sharpe_ratio = sharpe_of (compute_returns trades) nought;
      }

  -- Without bars, the metrics of the run before are returned and nothing changes.
  unfoldable pub run_over : Backtester W → List (BacktestBar W) → Backtester W
  unfolding compute_metrics run_trades
  run_over b [] = b
  run_over b (x ∷ xs) =
      let r = run_trades b.signal_gen x xs in
      record b {
        trades = r.trades;
        metrics = compute_metrics r.trades;
        signal_gen = r.gen;
        is_running = false;
        progress = of_nat 1;
      }

  unfoldable pub run : Backtester W → Backtester W
  run b = run_over b b.bars
