-- ===== src/Dashboard/Figures.antt =====
-- The helpers of DASHBOARD_INTEGRATION_EXAMPLES.cpp for the figures of the dashboard.
use quant_sim_x.Prelude.{ℕ, Bool, List, [], ◌∷◌, ◌++◌, length, leb, ltb, ◌==◌, if◌then◌else◌}
use quant_sim_x.Double.{Double, gt, nought, max_of}
use quant_sim_x.Dashboard.{pop_front}

-- the locals of the loop of `calculate_daily_drawdown`
pub record Falls {ℓ} (W : Type ℓ) : Type ℓ where
  pub running_max : W
  pub max_drawdown : W

abbrev pub buffer_size : ℕ
buffer_size = 1000

pub record MetricsBuffer {ℓ} (W : Type ℓ) : Type ℓ where
  pub pnl_buffer : List W
  pub return_buffer : List W

-- the colours that the helpers choose among
pub data Colour : Type 0 where
  glow green bright_green cyan orange red neutral : Colour

module _ {ℓ} {W : Type ℓ} ⦃d : Double W⦄ where
  open d use {of_nat, decimal, add, sub, mul, div, sqrt, lt, eq}

  unfoldable pub see_pnl : Falls W → W → Falls W
  see_pnl s pnl =
      let peak = max_of s.running_max pnl in
      record { running_max = peak; max_drawdown = max_of s.max_drawdown (sub peak pnl) }

  unfoldable pub see_pnls : Falls W → List W → Falls W
  unfolding see_pnl
  see_pnls s [] = s
  see_pnls s (pnl ∷ rest) = see_pnls (see_pnl s pnl) rest

  unfoldable pub calculate_daily_drawdown : List W → W
  unfolding see_pnls
  calculate_daily_drawdown [] = nought
  calculate_daily_drawdown (first ∷ rest) =
      (see_pnls (record { running_max = first; max_drawdown = nought }) (first ∷ rest)).max_drawdown

  -- `std::accumulate`
  pub sum_up : W → List W → W
  sum_up acc [] = acc
  sum_up acc (x ∷ xs) = sum_up (add acc x) xs

  pub sum_deviations : W → W → List W → W
  sum_deviations mean acc [] = acc
  sum_deviations mean acc (x ∷ xs) =
      sum_deviations mean (add acc (mul (sub x mean) (sub x mean))) xs

  pub calculate_sharpe_ratio : List W → W → W
  unfolding sum_up sum_deviations
  calculate_sharpe_ratio returns risk_free_rate =
      if ltb (length returns) 2
      then nought
      else (let n = of_nat (length returns) in
          let mean_return = div (sum_up nought returns) n in
          let std_dev = sqrt (div (sum_deviations mean_return nought returns) n) in
          if eq std_dev nought
          then nought
          else mul (div (sub mean_return risk_free_rate) std_dev) (sqrt (of_nat 252)))

  pub calculate_win_rate : ℕ → ℕ → W
  calculate_win_rate winning_trades total_trades =
      if total_trades == 0
      then nought
      else mul (div (of_nat winning_trades) (of_nat total_trades)) (of_nat 100)

  pub get_pnl_color : W → Bool → Colour
  get_pnl_color pnl_value with_glow =
      if gt pnl_value nought
      then if with_glow then glow else green
      else if lt pnl_value nought
      then red
      else neutral

  pub get_drawdown_color : W → Colour
  get_drawdown_color drawdown_pct =
      if lt drawdown_pct (of_nat 1)
      then glow
      else if lt drawdown_pct (of_nat 5)
      then orange
      else red

  pub get_sharpe_color : W → Colour
  get_sharpe_color sharpe =
      if gt sharpe (of_nat 2)
      then bright_green
      else if gt sharpe (of_nat 1)
      then cyan
      else if gt sharpe (decimal 5 1)
      then orange
      else red

pub get_latency_color : ℕ → Colour
get_latency_color latency_ms =
    if ltb latency_ms 50 then glow else if ltb latency_ms 100 then orange else red

module _ {ℓ} {W : Type ℓ} where
  -- `pop_front` of a full buffer, then `push_back`
  unfoldable pub add_sample : List W → W → List W
  add_sample xs x = (if leb buffer_size (length xs) then pop_front xs else xs) ++ x ∷ []

  unfoldable pub add_pnl_sample : W → MetricsBuffer W → MetricsBuffer W
  unfolding add_sample
  add_pnl_sample pnl b = record b { pnl_buffer = add_sample b.pnl_buffer pnl }

  unfoldable pub add_return_sample : W → MetricsBuffer W → MetricsBuffer W
  unfolding add_sample
  add_return_sample ret b = record b { return_buffer = add_sample b.return_buffer ret }

module _ {ℓ} {W : Type ℓ} ⦃d : Double W⦄ where
  pub get_daily_drawdown : MetricsBuffer W → W
  get_daily_drawdown b = calculate_daily_drawdown b.pnl_buffer

  -- The risk-free rate has the default of 0.02.
  pub get_sharpe_ratio : MetricsBuffer W → W
  get_sharpe_ratio b = calculate_sharpe_ratio b.return_buffer (d.decimal 2 2)
