-- ===== src/Sweep/Tests.antt =====
-- The theorem on the sweep, on a file of four trades and a grid of two values by two.
use quant_sim_x.Prelude.{
  ℕ, ◌+◌, ◌*◌, ◌-◌, ◌≡◌, refl, subst, true, List, [], ◌∷◌, Option, none, some, ltb, All, leb, ◌&&◌,
  if◌then◌else◌,
}
use quant_sim_x.Prelude.Text.{Text, codes}
use quant_sim_x.Double.Fixed.{Fixed, fixed_double, fixed, Fixed-IsOrdered}
use quant_sim_x.Backtester.{BacktestMetrics}
use quant_sim_x.Backtester.Csv.{load_csv}
use quant_sim_x.Backtester.Csv.Fields.{fields_of}
use quant_sim_x.Backtester.Metrics
use quant_sim_x.Backtester.Metrics.{run_over, compute_metrics}
use quant_sim_x.Signals
use quant_sim_x.Signals.{make_generator}
use quant_sim_x.Sweep.{ParameterSet, no_result, default_params, grid, metrics_of, run_tasks}
use quant_sim_x.Sweep.Best.{IsBest, HasTrades, sweep-IsBest}

-- decimal digits
abbrev digits? : ℕ → Text → Option ℕ
digits? acc [] = some acc
digits? acc (c ∷ t) =
    let rest = digits? (10 * acc + (c - 48)) t in if leb 48 c && leb c 57 then rest else none

abbrev stoull? : Text → Option ℕ
stoull? = digits? 0

abbrev stod? : Text → Option Fixed
stod? t = elim (digits? 0 t) [ none ↦ none | some n ↦ some (fixed n 0) ]

abbrev lines : List Text
lines =
    codes "timestamp_ms"
    ∷ codes "5000,trade,0,0,0,99,1,100,100,50"
    ∷ codes "10000,trade,0,0,0,101,1,100,100,50"
    ∷ codes "15000,trade,0,0,0,99,1,100,100,50"
    ∷ codes "20000,trade,0,0,0,102,1,100,100,50"
    ∷ []

abbrev tasks : List (ParameterSet Fixed)
tasks = grid (fixed 20 0 ∷ fixed 30 0 ∷ []) (fixed 70 0 ∷ fixed 80 0 ∷ [])

abbrev params : ℕ → ℕ → ParameterSet Fixed
params oversold overbought = record default_params {
  rsi_oversold = fixed oversold 0;
  rsi_overbought = fixed overbought 0;
}

abbrev WithTrades : Option (BacktestMetrics Fixed) → Type 0
WithTrades none = Unit
WithTrades (some m) = ltb 0 m.total_trades ≡ true

traded :
    (p : ParameterSet Fixed)
    → WithTrades (metrics_of stoull? stod? (some lines) p)
    → HasTrades stoull? stod? (some lines) p
unfolding HasTrades
traded p h m e = subst WithTrades e h

tasks-HasTrades : All (HasTrades stoull? stod? (some lines)) tasks
unfolding grid metrics_of load_csv fields_of make_generator Signals.update Metrics.run run_over
    compute_metrics
tasks-HasTrades = (
  traded (params 20 70) refl,
  (traded (params 20 80) refl, (traded (params 30 70) refl, (traded (params 30 80) refl, tt))),
)

sweep-IsBest_example : IsBest (run_tasks stoull? stod? (some lines) tasks no_result)
sweep-IsBest_example = sweep-IsBest Fixed-IsOrdered stoull? stod? (some lines) tasks tasks-HasTrades
