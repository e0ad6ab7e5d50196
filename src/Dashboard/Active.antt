-- ===== src/Dashboard/Active.antt =====
-- The helpers of DASHBOARD_INTEGRATION_EXAMPLES.cpp that write members of the dashboard. `DashboardUI`
-- does not have these members, and `ActivePosition` is declared nowhere; the records have the fields
-- that the code uses. `update_position_sparkline`, which is not there either, is left out.
use Prim.Native.String.{String}
use text.Mathlib.Text.{◌==◌ as str_eq}
use quant_sim_x.Prelude.{ℕ, ◌-◌, ◌/◌, ◌%◌, ◌^◌, List, if◌then◌else◌}
use quant_sim_x.Double.{Double}
use quant_sim_x.Dashboard.Figures.{calculate_daily_drawdown, calculate_sharpe_ratio}

pub record ActivePosition {ℓ} (W : Type ℓ) : Type ℓ where
  pub signal_type : String
  pub entry_price : W
  pub quantity : W
  pub current_price : W
  pub pnl : W
  pub pnl_percent : W

pub record Metrics {ℓ} (W : Type ℓ) : Type ℓ where
  pub daily_drawdown : W
  pub sharpe_ratio : W
  pub network_latency_ms : ℕ

module _ {ℓ} {W : Type ℓ} ⦃d : Double W⦄ where
  open d use {of_nat, decimal, sub, mul, div}

  pub update_dashboard_metrics : Metrics W → List W → List W → ℕ → Metrics W
  update_dashboard_metrics m pnl_history daily_returns network_latency_ms = record m {
    daily_drawdown = calculate_daily_drawdown pnl_history;
    sharpe_ratio = calculate_sharpe_ratio daily_returns (decimal 2 2);
    network_latency_ms = network_latency_ms;
  }

  -- `active` is the position of the dashboard, `pos` the argument, which may be a position of its own.
  unfoldable pub update_active_position_metrics :
      ActivePosition W → W → ActivePosition W → ActivePosition W
  update_active_position_metrics active price pos =
      let seen = record active { current_price = price } in
      let gain = sub price pos.entry_price in
      let fall = sub pos.entry_price price in
      if str_eq pos.signal_type "BUY"
      then record seen {
        pnl = mul gain pos.quantity;
        pnl_percent = mul (div gain pos.entry_price) (of_nat 100);
      }
      else if str_eq pos.signal_type "SELL"
      then record seen {
        pnl = mul fall pos.quantity;
        pnl_percent = mul (div fall pos.entry_price) (of_nat 100);
      }
      else seen

-- in nanoseconds, the later time second
pub measure_network_latency : ℕ → ℕ → ℕ
measure_network_latency send_time receive_time = (receive_time - send_time) / 10 ^ 6 % 2 ^ 32
