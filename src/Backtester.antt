-- ===== src/Backtester.antt =====
-- `Backtester` (include/Backtester.h, src/Backtester.cpp): its state and `run`. Reading the bars is in
-- Csv, the figures are in Metrics.
pub mod Csv
pub mod Metrics
pub mod Positions
mod Tests
use Prim.Native.String.{String}
use quant_sim_x.Prelude.{ℕ, Bool, true, false, List, [], ◌∷◌, ◌++◌, if◌then◌else◌}
use quant_sim_x.Double.{Double, nought}
use quant_sim_x.Signals
use quant_sim_x.Signals.{Signal, none_signal, buy, sell, SignalGenerator}

pub record BacktestBar {ℓ} (W : Type ℓ) : Type ℓ where
  pub timestamp_ms : ℕ
  pub open_price : W
  pub high : W
  pub low : W
  pub close_price : W
  pub vwap : W
  pub sma : W
  pub rsi : W
  pub volume : W

pub record BacktestTrade {ℓ} (W : Type ℓ) : Type ℓ where
  pub entry_time : ℕ
  pub exit_time : ℕ
  pub entry_price : W
  pub exit_price : W
  pub pnl : W
  pub pnl_percent : W
  pub entry_reason : String
  pub exit_reason : String

-- `total_trades` is the 32 bits of an `int`. The other two counts go up by 1 for a trade, so they are
-- what the `int`s are up to 2^31 - 1 trades, beyond which C++ leaves them undefined.
pub record BacktestMetrics {ℓ} (W : Type ℓ) : Type ℓ where
  pub total_trades : ℕ
  pub winning_trades : ℕ
  pub losing_trades : ℕ
  pub win_rate : W
  pub total_pnl : W
  pub avg_win : W
  pub avg_loss : W
  pub profit_factor : W
  pub max_drawdown : W
  pub max_consecutive_wins : W
  pub max_consecutive_losses : W
  pub sharpe_ratio : W

-- The local variables of `run`, with the trades and the signal generator that it changes.
pub record Run {ℓ} (W : Type ℓ) : Type ℓ where
  pub position : Signal
  pub entry_price : W
  pub entry_time : ℕ
  pub entry_reason : String
  pub trades : List (BacktestTrade W)
  pub gen : SignalGenerator W

module _ {ℓ} {W : Type ℓ} ⦃d : Double W⦄ where
  open d use {sub, mul, div, of_nat}

  -- The profit of a position of the side `side`: a short one gains when the price falls.
  abbrev pub pnl_of : Signal → W → W → W
  pnl_of sell entry exit = sub entry exit
  pnl_of buy entry exit = sub exit entry
  pnl_of none_signal entry exit = sub entry exit

  abbrev pub trade_of : Run W → BacktestBar W → String → BacktestTrade W
  trade_of r bar exit_reason =
      let pnl = pnl_of r.position r.entry_price bar.close_price in
      record {
        entry_time = r.entry_time;
        exit_time = bar.timestamp_ms;
        entry_price = r.entry_price;
        exit_price = bar.close_price;
        pnl = pnl;
        pnl_percent = mul (div pnl r.entry_price) (of_nat 100);
        entry_reason = r.entry_reason;
        exit_reason = exit_reason;
      }

  abbrev pub open_position : Run W → BacktestBar W → Signal → Run W
  open_position r bar sig = record r {
    position = sig;
    entry_price = bar.close_price;
    entry_time = bar.timestamp_ms;
    entry_reason = r.gen.last_signal.reason;
  }

  abbrev pub close_position : Run W → BacktestBar W → Run W
  close_position r bar = record r {
    position = none_signal;
    trades = r.trades ++ trade_of r bar r.gen.last_signal.reason ∷ [];
  }

  -- the `if … else if` chain on the position and the signal
  pub trade_signal : Run W → BacktestBar W → Signal → Signal → Run W
  trade_signal r bar none_signal buy = open_position r bar buy
  trade_signal r bar none_signal sell = open_position r bar sell
  trade_signal r bar buy sell = close_position r bar
  trade_signal r bar sell buy = close_position r bar
  trade_signal r bar buy buy = r
  trade_signal r bar sell sell = r
  trade_signal r bar _ none_signal = r

  -- the body of the loop of `run`
  pub run_bar : Run W → BacktestBar W → Run W
  unfolding trade_signal
  run_bar r bar =
      let (sig, gen) = Signals.update r.gen bar.timestamp_ms bar.close_price bar.vwap bar.rsi in
      trade_signal (record r { gen = gen }) bar r.position sig

  pub run_bars : Run W → List (BacktestBar W) → Run W
  run_bars r [] = r
  run_bars r (bar ∷ bars) = run_bars (run_bar r bar) bars

  -- what is left open is closed at the last bar
  abbrev pub last_bar : BacktestBar W → List (BacktestBar W) → BacktestBar W
  last_bar b [] = b
  last_bar b (c ∷ cs) = last_bar c cs

  pub close_last : Signal → Run W → BacktestBar W → Run W
  close_last none_signal r bar = r
  close_last buy r bar = record r { trades = r.trades ++ trade_of r bar "End of backtest" ∷ [] }
  close_last sell r bar = record r { trades = r.trades ++ trade_of r bar "End of backtest" ∷ [] }

  abbrev pub start_run : SignalGenerator W → Run W
  start_run gen = record {
    position = none_signal;
    entry_price = nought;
    entry_time = 0;
    entry_reason = "";
    trades = [];
    gen = gen;
  }

  -- the trades of `run` over the bars `b ∷ bs`, with the generator that it leaves
  pub run_trades : SignalGenerator W → BacktestBar W → List (BacktestBar W) → Run W
  unfolding run_bars run_bar close_last
  run_trades gen b bs =
      let r = run_bars (start_run gen) (b ∷ bs) in close_last r.position r (last_bar b bs)
