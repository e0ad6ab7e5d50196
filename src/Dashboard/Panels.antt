-- ===== src/Dashboard/Panels.antt =====
-- The texts of the panels of src/DashboardUI.cpp, without their places on the screen: a cell is a colour,
-- a format of `printf` and what is printed with it.
pub mod Ladder
use Prim.Native.String.{String}
use quant_sim_x.Prelude.{
  ℕ, zero, suc, ◌+◌, Bool, true, false, not, ◌&&◌, Option, none, some, List, [], ◌∷◌, ◌++◌, map,
  length, get_or, ltb, if◌then◌else◌,
}
use Prim.Native.Nat.{min, max}
use quant_sim_x.Double.{Double, gt, nought}
use quant_sim_x.OrderBook.{Level, OrderBook, no_level, get_best_bid, get_best_ask, get_mid_price}
use quant_sim_x.Indicators.{VwapCalculator}
use quant_sim_x.Signals.{Signal, SignalEvent}
use quant_sim_x.Backtester.{BacktestMetrics}
use quant_sim_x.Dashboard.{
  Dashboard, TradePosition, trade_rows, signal_rows, header_quotes, spread_bps,
}

-- `plain` is a text in the colour of the style.
pub data Hue : Type 0 where
  green red cyan yellow dim plain : Hue

pub data Shown {ℓ} (W : Type ℓ) : Type ℓ where
  number : W → Shown W
  count : ℕ → Shown W
  words : String → Shown W

pub record Cell {ℓ} (W : Type ℓ) : Type ℓ where
  pub hue : Hue
  pub format : String
  pub shown : Shown W

-- One row of the table of the order book: the level of either side, where there is one.
pub record BookRow {ℓ} (W : Type ℓ) : Type ℓ where
  pub bid : Option (Level W)
  pub ask : Option (Level W)

module _ {ℓ} {W : Type ℓ} where
  abbrev pub text : Hue → String → Cell W
  text h s = record { hue = h; format = "%s"; shown = Shown.words s }

  abbrev pub figure : Hue → String → W → Cell W
  figure h f x = record { hue = h; format = f; shown = Shown.number x }

  abbrev pub counted : Hue → String → ℕ → Cell W
  counted h f n = record { hue = h; format = f; shown = Shown.count n }

  -- a row of a table with a label
  abbrev pub row : String → Cell W → List (Cell W)
  row label c = text Hue.dim label ∷ c ∷ []

module _ {ℓ} {W : Type ℓ} ⦃d : Double W⦄ where
  open d use {of_nat, sub, mul, lt, le}

  -- `x >= 0 ? COL_GREEN : COL_RED`
  abbrev pub sign_hue : W → Hue
  sign_hue x = if le nought x then Hue.green else Hue.red

  abbrev pub rsi_hue : W → Hue → Hue
  rsi_hue rsi between =
      if lt rsi (of_nat 30) then Hue.green else if gt rsi (of_nat 70) then Hue.red else between

  pub last_of : W → List W → W
  last_of x [] = x
  last_of x (y ∷ ys) = last_of y ys

  pub render_header : Dashboard W → List (Cell W)
  unfolding last_of
  render_header u =
      let (bid, ask) = header_quotes u in
      let rsi_cell : List (Cell W) = elim u.rsi_history [
        | [] ↦ []
        | x ∷ xs ↦ let rsi = last_of x xs in figure (rsi_hue rsi Hue.dim) "RSI   %.1f" rsi ∷ []
      ] in
      text Hue.cyan "QUANTSIMX"
      ∷ text Hue.dim "BTCUSDT Market Data"
      ∷ figure Hue.green "BID  $%.2f" bid
      ∷ figure Hue.red "ASK  $%.2f" ask
      ∷ figure Hue.dim "SPREAD %.2f" (sub ask bid)
      ∷ figure Hue.yellow "VWAP $%.2f" u.displayed_vwap
      ∷ figure Hue.dim "SMA   $%.2f" u.displayed_vwap
      ∷ (rsi_cell ++ counted Hue.dim "TRADES %zu" (length u.price_history) ∷ [])

  pub market_watch_rows : OrderBook W → VwapCalculator W → Dashboard W → List (List (Cell W))
  market_watch_rows ob calc u =
      row "LAST PRICE" (figure Hue.cyan "$%.2f" u.displayed_price)
      ∷ row "BEST BID" (figure Hue.green "$%.2f" (get_best_bid ob))
      ∷ row "BEST ASK" (figure Hue.red "$%.2f" (get_best_ask ob))
      ∷ row "MID PRICE" (figure Hue.cyan "$%.2f" (get_mid_price ob))
      ∷ row "SPREAD" (figure Hue.plain "$%.2f" (sub (get_best_ask ob) (get_best_bid ob)))
      ∷ row "VWAP" (figure Hue.yellow "$%.2f" calc.vwap)
      ∷ row "RSI (14)" (figure (rsi_hue calc.rsi Hue.cyan) "%.1f" calc.rsi)
      ∷ []

  pub account_rows : Dashboard W → List (List (Cell W))
  account_rows u =
      let a = u.account in
      row "EQUITY" (figure Hue.cyan "$%.2f" a.equity)
      ∷ row "REALIZED P&L" (figure (sign_hue a.realized_pnl) "$%.2f" a.realized_pnl)
      ∷ row "UNREALIZED P&L" (figure (sign_hue a.unrealized_pnl) "$%.2f" a.unrealized_pnl)
      ∷ row "DRAWDOWN" (figure Hue.red "%.2f%%" (mul a.max_drawdown (of_nat 100)))
      ∷ []

  abbrev pub level_at : List (Level W) → ℕ → ℕ → Option (Level W)
  level_at levels cnt i = if ltb i cnt then some (get_or levels i no_level) else none

  unfoldable pub book_rows_from : OrderBook W → ℕ → ℕ → List (BookRow W)
  book_rows_from ob i zero = []
  book_rows_from ob i (suc n) =
      record {
        bid = level_at ob.bids.levels ob.bids.count i;
        ask = level_at ob.asks.levels ob.asks.count i;
      }
      ∷ book_rows_from ob (suc i) n

  unfoldable pub book_rows : OrderBook W → List (BookRow W)
  unfolding book_rows_from
  book_rows ob = book_rows_from ob 0 (min (max ob.bids.count ob.asks.count) 15)

  -- the cells of the row; a bid that is missing leaves two columns empty
  pub book_cells : BookRow W → List (List (Cell W))
  book_cells r =
      (elim r.bid [
        | none ↦ [] ∷ [] ∷ []
        | some l ↦
            (figure Hue.green "%.4f" l.quantity ∷ []) ∷ (figure Hue.green "$%.2f" l.price ∷ []) ∷ []
      ])
      ++ elim r.ask [
        | none ↦ []
        | some l ↦ (figure Hue.red "$%.2f" l.price ∷ figure Hue.red "%.4f" l.quantity ∷ []) ∷ []
      ]

  pub trade_cells : TradePosition W → List (Cell W)
  trade_cells t =
      (if t.is_long then text Hue.green "LONG" else text Hue.red "SHORT")
      ∷ figure Hue.plain "$%.2f" t.entry_price
      ∷ figure Hue.plain "$%.2f" t.exit_price
      ∷ figure (sign_hue t.pnl) "$%.2f" t.pnl
      ∷ figure (sign_hue t.pnl_percent) "%.2f%%" t.pnl_percent
      ∷ []

  pub render_trades_panel : TradePosition W → Dashboard W → List (List (Cell W))
  unfolding trade_cells
  render_trades_panel no_trade u = elim u.closed_trades [
    | [] ↦ (text Hue.dim "No closed trades yet" ∷ []) ∷ []
    | _ ∷ _ ↦ map trade_cells (trade_rows no_trade u)
  ]

  pub signal_cells : SignalEvent W → List (Cell W)
  signal_cells s =
      counted Hue.plain "%llu" s.timestamp_ms
      ∷ (elim s.signal [ Signal.buy ↦ text Hue.green "BUY" | _ ↦ text Hue.red "SELL" ])
      ∷ figure Hue.plain "$%.2f" s.price
      ∷ text Hue.dim s.reason
      ∷ []

  pub render_signals_panel : List (SignalEvent W) → List (List (Cell W))
  unfolding signal_cells
  render_signals_panel signals = elim signals [
    | [] ↦ (text Hue.dim "No signals generated" ∷ []) ∷ []
    | s ∷ more ↦ map signal_cells (signal_rows (s ∷ more))
  ]

  pub render_performance_panel : Dashboard W → List (List (Cell W))
  render_performance_panel u = elim u.backtest_results [
    | none ↦ (text Hue.dim "Run backtest to see performance metrics" ∷ []) ∷ []
    | some m ↦
        row "Total Trades" (counted Hue.plain "%d" m.total_trades)
        ∷ row "Win Rate" (figure Hue.cyan "%.1f%%" (mul m.win_rate (of_nat 100)))
        ∷ row "Total P&L" (figure (sign_hue m.total_pnl) "$%.2f" m.total_pnl)
        ∷ row "Profit Factor" (figure Hue.plain "%.2f" m.profit_factor)
        ∷ row "Max Drawdown" (figure Hue.red "%.2f%%" (mul m.max_drawdown (of_nat 100)))
        ∷ row "Sharpe Ratio" (figure Hue.plain "%.2f" m.sharpe_ratio)
        ∷ []
  ]

  pub render_backtest_panel : Dashboard W → List (List (Cell W))
  render_backtest_panel u = elim u.backtest_results [
    | none ↦ (text Hue.dim "Click BACKTEST to run strategy backtest" ∷ []) ∷ []
    | some m ↦
        (text Hue.green "Backtest completed successfully" ∷ [])
        ∷ row "Total Trades" (counted Hue.plain "%d" m.total_trades)
        ∷ row "Winning" (counted Hue.green "%d" m.winning_trades)
        ∷ row "Losing" (counted Hue.red "%d" m.losing_trades)
        ∷ row "Win Rate" (figure Hue.plain "%.1f%%" (mul m.win_rate (of_nat 100)))
        ∷ row "Total P&L" (figure (sign_hue m.total_pnl) "$%.2f" m.total_pnl)
        ∷ row "Profit Factor" (figure Hue.plain "%.2f" m.profit_factor)
        ∷ row "Max Drawdown" (figure Hue.red "%.2f%%" (mul m.max_drawdown (of_nat 100)))
        ∷ row "Sharpe Ratio" (figure Hue.plain "%.2f" m.sharpe_ratio)
        ∷ []
  ]
