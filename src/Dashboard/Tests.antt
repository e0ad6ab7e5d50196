-- ===== src/Dashboard/Tests.antt =====
-- Each theorem on the dashboard, on a concrete one.
use quant_sim_x.Prelude.{ℕ, ◌≡◌, refl, true, false, List, [], ◌∷◌, none}
use quant_sim_x.Double.{nought}
use quant_sim_x.Double.Fixed.{Fixed, fixed_double, fixed, Fixed-IsOrdered}
use quant_sim_x.Dashboard.{ConnectionStatus, Dashboard, TradePosition}
use quant_sim_x.OrderBook.{Level, OrderBook}
use quant_sim_x.Dashboard.Figures.{calculate_daily_drawdown}
use quant_sim_x.Dashboard.Drawdown.{peak, Attained, drawdown_lem}

abbrev trade : ℕ → TradePosition Fixed
trade p = record {
  entry_time = 0;
  entry_price = fixed p 0;
  exit_price = fixed p 0;
  pnl = nought;
  pnl_percent = nought;
  is_long = true;
}

abbrev dashboard : Dashboard Fixed
dashboard = record {
  connect_requested = false;
  disconnect_requested = false;
  stop_requested = false;
  backtest_requested = false;
  close_requested = false;
  settings_open = false;
  price_history = fixed 100 0 ∷ [];
  vwap_history = [];
  rsi_history = [];
  closed_trades = trade 1 ∷ trade 2 ∷ trade 3 ∷ [];
  displayed_price = fixed 100 0;
  displayed_vwap = nought;
  smooth_alpha = fixed 15 2;
  connection_status = ConnectionStatus.disconnected;
  account = record {
    equity = fixed 0 0;
    unrealized_pnl = fixed 0 0;
    realized_pnl = fixed 0 0;
    daily_pnl = fixed 0 0;
    max_drawdown = fixed 0 0;
    run_up = fixed 0 0;
  };
  backtest_results = none;
}

abbrev mids : List Fixed
mids = fixed 110 0 ∷ fixed 90 0 ∷ []

abbrev curve : List Fixed
curve = fixed 5 0 ∷ fixed 9 0 ∷ fixed 3 0 ∷ fixed 4 0 ∷ []

largest_fall : calculate_daily_drawdown curve ≡ fixed 6 0
unfolding calculate_daily_drawdown
largest_fall = refl

drawdown_lem_example :
    (fixed_double.lt
        (calculate_daily_drawdown curve)
        (fixed_double.sub (peak (fixed 5 0) (fixed 5 0 ∷ fixed 9 0 ∷ fixed 3 0 ∷ [])) (fixed 3 0))
      ≡ false)
    × Attained (fixed 5 0) curve (calculate_daily_drawdown curve)
drawdown_lem_example =
    drawdown_lem Fixed-IsOrdered (fixed 5 0) (fixed 9 0 ∷ []) (fixed 3 0) (fixed 4 0 ∷ [])

abbrev level_of : ℕ → Level Fixed
level_of p = record { price = fixed p 0; quantity = fixed 1 0 }

-- two bids and one ask
abbrev small_book : OrderBook Fixed
small_book = record {
  bids = record { levels = level_of 99 ∷ level_of 98 ∷ level_of 7 ∷ []; count = 2 };
  asks = record { levels = level_of 101 ∷ []; count = 1 };
  last_update_id = 0;
  last_trade_price = nought;
  last_trade_qty = nought;
  last_trade_time = 0;
}
