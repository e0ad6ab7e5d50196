-- ===== src/Sweep.antt =====
-- `ParameterSweep` (include/ParameterSweep.h, src/ParameterSweep.cpp). The thread pool is left aside: its
-- workers run the tasks in some order, one after another under the mutex of the results.
pub mod Best
mod Tests
use quant_sim_x.Prelude.{
  ℕ, Bool, true, false, ◌||◌, Option, none, some, List, [], ◌∷◌, ◌++◌, ◌==◌, if◌then◌else◌,
}
use quant_sim_x.Prelude.Text.{Text}
use quant_sim_x.Double.{Double, gt, nought}
use quant_sim_x.Signals.{make_generator}
use quant_sim_x.Backtester.{BacktestMetrics}
use quant_sim_x.Backtester.Csv.{load_csv}
use quant_sim_x.Backtester.Metrics
use quant_sim_x.Backtester.Metrics.{Backtester, no_metrics}

pub record ParameterSet {ℓ} (W : Type ℓ) : Type ℓ where
  pub rsi_oversold : W
  pub rsi_overbought : W
  pub vwap_sma_period : W

pub record OptimizationResult {ℓ} (W : Type ℓ) : Type ℓ where
  pub best_params : ParameterSet W
  pub best_metrics : BacktestMetrics W
  pub all_results : List (ParameterSet W × BacktestMetrics W)

module _ {ℓ} {W : Type ℓ} ⦃d : Double W⦄ where
  open d use {of_nat, le}

  abbrev pub default_params : ParameterSet W
  default_params = record {
    rsi_oversold = of_nat 30;
    rsi_overbought = of_nat 70;
    vwap_sma_period = of_nat 20;
  }

  -- `result_ = OptimizationResult()`
  abbrev pub no_result : OptimizationResult W
  no_result = record { best_params = default_params; best_metrics = no_metrics; all_results = [] }

  -- the tasks of one value of the outer loop
  unfoldable pub row_of : W → List W → List (ParameterSet W)
  row_of oversold [] = []
  row_of oversold (overbought ∷ rest) =
      let more = row_of oversold rest in
      if le overbought oversold
      then more
      else record default_params { rsi_oversold = oversold; rsi_overbought = overbought } ∷ more

  -- the tasks that `run` enqueues, in their order
  unfoldable pub grid : List W → List W → List (ParameterSet W)
  unfolding row_of
  grid [] overbought_values = []
  grid (oversold ∷ rest) overbought_values =
      row_of oversold overbought_values ++ grid rest overbought_values

  -- `Backtester bt(params.rsi_oversold, params.rsi_overbought)`
  abbrev pub backtester_for : ParameterSet W → Backtester W
  backtester_for p = record {
    bars = [];
    trades = [];
    metrics = no_metrics;
    signal_gen = make_generator p.rsi_oversold p.rsi_overbought;
    is_running = false;
    progress = nought;
  }

  -- the result of one run is kept, and is the best so far if it beats the best or if that has no trades
  unfoldable pub record_result :
      ParameterSet W → BacktestMetrics W → OptimizationResult W → OptimizationResult W
  record_result p m r =
      let r' = record r { all_results = r.all_results ++ (p, m) ∷ [] } in
      if (r.best_metrics.total_trades == 0) || gt m.sharpe_ratio r.best_metrics.sharpe_ratio
      then record r' { best_params = p; best_metrics = m }
      else r'

  module _ (stoull? : Text → Option ℕ) (stod? : Text → Option W) where
    -- the figures of a run, none if nothing is loaded
    unfoldable pub metrics_of : Option (List Text) → ParameterSet W → Option (BacktestMetrics W)
    metrics_of file p =
        let bt = backtester_for p in
        let (loaded, bars) = load_csv stoull? stod? file bt.bars in
        if loaded then some (Metrics.run (record bt { bars = bars })).metrics else none

    unfoldable pub run_single :
        Option (List Text) → ParameterSet W → OptimizationResult W → OptimizationResult W
    unfolding metrics_of record_result
    run_single file p r = elim (metrics_of file p) [ none ↦ r | some m ↦ record_result p m r ]

    -- the tasks in the order in which the pool runs them
    unfoldable pub run_tasks :
        Option (List Text) → List (ParameterSet W) → OptimizationResult W → OptimizationResult W
    unfolding run_single
    run_tasks file [] r = r
    run_tasks file (p ∷ ps) r = run_tasks file ps (run_single file p r)
