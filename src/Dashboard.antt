-- ===== src/Dashboard.antt =====
-- `DashboardUI` (include/DashboardUI.h, src/DashboardUI.cpp), without the drawing: the state that
-- `render` and the toolbar change, and the figures that the panels show.
pub mod Figures
pub mod Drawdown
pub mod Histories
pub mod Panels
pub mod Active
mod Tests
use quant_sim_x.Prelude.{
  ℕ, zero, suc, ◌+◌, ◌-◌, Bool, true, false, not, Option, none, some, List, [], ◌∷◌, ◌++◌, length,
  get_or, drop, take, ltb, if◌then◌else◌,
}
use quant_sim_x.Double.{Double, gt, nought, max_of}
use quant_sim_x.OrderBook.{
  Level, Side, OrderBook, no_level, get_best_bid, get_best_ask, get_mid_price,
}
use quant_sim_x.Indicators.{VwapCalculator}
use quant_sim_x.Signals.{SignalEvent}
use quant_sim_x.Backtester.{BacktestMetrics}

pub record TradePosition {ℓ} (W : Type ℓ) : Type ℓ where
  pub entry_time : ℕ
  pub entry_price : W
  pub exit_price : W
  pub pnl : W
  pub pnl_percent : W
  pub is_long : Bool

pub record AccountMetrics {ℓ} (W : Type ℓ) : Type ℓ where
  pub equity : W
  pub unrealized_pnl : W
  pub realized_pnl : W
  pub daily_pnl : W
  pub max_drawdown : W
  pub run_up : W

pub data ConnectionStatus : Type 0 where
  disconnected connecting connected reconnecting : ConnectionStatus

abbrev pub price_history_max : ℕ
price_history_max = 500

abbrev pub trades_display_max : ℕ
trades_display_max = 50

pub record Dashboard {ℓ} (W : Type ℓ) : Type ℓ where
  pub connection_status : ConnectionStatus
  pub connect_requested : Bool
  pub disconnect_requested : Bool
  pub stop_requested : Bool
  pub backtest_requested : Bool
  pub close_requested : Bool
  pub settings_open : Bool
  pub price_history : List W
  pub vwap_history : List W
  pub rsi_history : List W
  pub closed_trades : List (TradePosition W)
  pub displayed_price : W
  pub displayed_vwap : W
  pub smooth_alpha : W
  pub account : AccountMetrics W
  pub backtest_results : Option (BacktestMetrics W)

-- the buttons that are clicked in a frame, and where the slider is left
pub record Clicks {ℓ} (W : Type ℓ) : Type ℓ where
  pub connect : Bool
  pub disconnect : Bool
  pub stop : Bool
  pub backtest : Bool
  pub settings : Bool
  pub smooth : W

module _ {ℓ} {A : Type ℓ} where
  abbrev pub pop_front : List A → List A
  pop_front [] = []
  pop_front (x ∷ xs) = xs

  -- `push_back`, and `pop_front` if there are more than `most` then
  unfoldable pub push_bounded : ℕ → List A → A → List A
  push_bounded most xs x =
      let longer = xs ++ x ∷ [] in if ltb most (length longer) then pop_front longer else longer

module _ {ℓ} {W : Type ℓ} where
  unfoldable pub render_toolbar : Clicks W → Dashboard W → Dashboard W
  render_toolbar c u = record u {
    connect_requested = if c.connect then true else u.connect_requested;
    disconnect_requested = if c.disconnect then true else u.disconnect_requested;
    stop_requested = if c.stop then true else u.stop_requested;
    backtest_requested = if c.backtest then true else u.backtest_requested;
    smooth_alpha = c.smooth;
    settings_open = if c.settings then not u.settings_open else u.settings_open;
  }

  unfoldable pub reset_flags : Dashboard W → Dashboard W
  reset_flags u = record u {
    connect_requested = false;
    disconnect_requested = false;
    stop_requested = false;
    backtest_requested = false;
  }

  unfoldable pub set_backtest_results : BacktestMetrics W → Dashboard W → Dashboard W
  set_backtest_results m u = record u { backtest_results = some m }

  abbrev pub set_account : AccountMetrics W → Dashboard W → Dashboard W
  set_account acc u = record u { account = acc }

  abbrev pub set_connection_status : ConnectionStatus → Dashboard W → Dashboard W
  set_connection_status status u = record u { connection_status = status }

  -- the rows of `render_trades_panel`: the loop from `i - 1` down to `i - n`. `no_trade` stands for a
  -- read out of the array.
  pub trade_rows_from : TradePosition W → List (TradePosition W) → ℕ → ℕ → List (TradePosition W)
  trade_rows_from no_trade trades i zero = []
  trade_rows_from no_trade trades i (suc n) =
      get_or trades (i - 1) no_trade ∷ trade_rows_from no_trade trades (i - 1) n

  pub trade_rows : TradePosition W → Dashboard W → List (TradePosition W)
  unfolding trade_rows_from
  trade_rows no_trade u =
      let size = length u.closed_trades in
      let start = size - trades_display_max in
      trade_rows_from no_trade u.closed_trades size (size - start)

  -- the rows of `render_signals_panel`
  pub signal_rows : List (SignalEvent W) → List (SignalEvent W)
  signal_rows signals = drop (if ltb 50 (length signals) then length signals - 50 else 0) signals

module _ {ℓ} {W : Type ℓ} ⦃d : Double W⦄ where
  open d use {of_nat, decimal, add, sub, mul, div, le}

  -- the smoothed figure that follows `value`
  unfoldable pub smooth : W → W → W → W
  smooth alpha shown value =
      if le shown nought then value else add shown (mul (sub value shown) alpha)

  unfoldable pub see_vwap : W → Dashboard W → Dashboard W
  unfolding push_bounded smooth
  see_vwap vwap u =
      if gt vwap nought
      then (let shown = smooth u.smooth_alpha u.displayed_vwap vwap in
          record u {
            displayed_vwap = shown;
            vwap_history = push_bounded price_history_max u.vwap_history shown;
          })
      else u

  unfoldable pub see_rsi : W → Dashboard W → Dashboard W
  unfolding push_bounded
  see_rsi rsi u = record u { rsi_history = push_bounded price_history_max u.rsi_history rsi }

  unfoldable pub see_price : W → Dashboard W → Dashboard W
  unfolding push_bounded smooth
  see_price mid u =
      let shown = smooth u.smooth_alpha u.displayed_price mid in
      record u {
        displayed_price = shown;
        price_history = push_bounded price_history_max u.price_history shown;
      }

  unfoldable pub see_market : OrderBook W → VwapCalculator W → Dashboard W → Dashboard W
  unfolding see_price see_vwap see_rsi
  see_market ob calc u =
      let mid = get_mid_price ob in
      if gt mid nought then see_rsi calc.rsi (see_vwap calc.vwap (see_price mid u)) else u

  -- `closing` is `glfwWindowShouldClose`. The result is what `render` returns.
  unfoldable pub render :
      Bool → Clicks W → OrderBook W → VwapCalculator W → Dashboard W → Bool × Dashboard W
  unfolding see_market render_toolbar
  render closing clicks ob calc u =
      if closing
      then (false, record u { close_requested = true })
      else (true, render_toolbar clicks (see_market ob calc u))

  abbrev is_filled : List W → Bool
  is_filled [] = false
  is_filled (_ ∷ _) = true

  -- the bid and the ask of `render_header`
  pub header_quotes : Dashboard W → W × W
  header_quotes u =
      if is_filled u.price_history
      then (sub u.displayed_price (decimal 1 2), add u.displayed_price (decimal 1 2))
      else (nought, nought)

  -- `max_qty` of `render_orderbook_panel`
  pub largest_of : W → List (Level W) → W
  largest_of m [] = m
  largest_of m (l ∷ ls) = largest_of (max_of m l.quantity) ls

  pub max_qty : OrderBook W → W
  unfolding largest_of
  max_qty ob =
      largest_of (largest_of (decimal 1 4) (take 15 (take ob.bids.count ob.bids.levels)))
        (take 15 (take ob.asks.count ob.asks.levels))

  pub spread_bps : OrderBook W → W
  spread_bps ob =
      let spread = sub (get_best_ask ob) (get_best_bid ob) in
      if gt (get_best_bid ob) nought
      then mul (div spread (get_best_bid ob)) (of_nat 10000)
      else nought
