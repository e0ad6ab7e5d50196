-- ===== src/Session/State.antt =====
-- What `main` keeps, what comes from outside in a round, and the rows of market_data.csv as texts.
use Prim.Native.String.{String}
use quant_sim_x.Prelude.{ℕ, Bool, true, false, Option, List, [], ◌∷◌, ◌++◌, map}
use quant_sim_x.Prelude.Text.{Text, codes}
use quant_sim_x.OrderBook.{OrderBook}
use quant_sim_x.Indicators.{VwapCalculator}
use quant_sim_x.Signals.{Signal, none_signal, buy, sell, SignalGenerator}
use quant_sim_x.Backtester.Csv.Fields.{each_comma}
use quant_sim_x.Backtester.{BacktestMetrics}
use quant_sim_x.Backtester.Metrics.{Backtester}
use quant_sim_x.Feed.{Client, Dial, Incident}

pub data AppState : Type 0 where
  idle connecting connected stopped : AppState

abbrev pub is_idle : AppState → Bool
is_idle idle = true
is_idle _ = false

-- the flags of the dashboard that `main` reads
pub record Buttons : Type 0 where
  pub stop : Bool
  pub disconnect : Bool
  pub connect : Bool
  pub backtest : Bool
  pub close : Bool

-- one row of market_data.csv, before it is made a text
pub record Entry {ℓ} (W : Type ℓ) : Type ℓ where
  pub time : ℕ
  pub best_bid : W
  pub best_ask : W
  pub mid_price : W
  pub last_price : W
  pub last_qty : W
  pub vwap : W
  pub sma : W
  pub rsi : W
  pub signal : Signal
  pub reason : String

-- `price_time`, `signal_time` and `row_time` are the three readings of the clock; `timed_out` says
-- that 180 seconds have passed. `before` has happened to the client since the round before, and
-- `meanwhile` happens in the second after a call of `connect`, which the library answers by `dial`.
-- `file` are the lines of market_data.csv, none if it does not open; `rendered` is what
-- `render_frame` returns.
pub record Frame {ℓ} (W : Type ℓ) : Type ℓ where
  pub buttons : Buttons
  pub before : List Incident
  pub dial : Dial
  pub meanwhile : List Incident
  pub book : OrderBook W
  pub file : Option (List Text)
  pub timed_out : Bool
  pub price_time : ℕ
  pub signal_time : ℕ
  pub row_time : ℕ
  pub rendered : Bool

-- the local variables of `main`. `rows` are those written to the file so far, oldest first, and `shown`
-- is what `set_backtest_metrics` was last given.
pub record Session {ℓ} (W : Type ℓ) : Type ℓ where
  pub client : Client
  pub app_state : AppState
  pub vwap_calc : VwapCalculator W
  pub signal_gen : SignalGenerator W
  pub backtester : Backtester W
  pub backtest_loaded : Bool
  pub backtest_running : Bool
  pub collecting_data : Bool
  pub sample_count : ℕ
  pub rows : List (Entry W)
  pub shown : Option (BacktestMetrics W)

-- How a round of the loop ends: `std::terminate`, the loop is left, or it goes on.
pub data Outcome {ℓ} (W : Type ℓ) : Type ℓ where
  terminated : Outcome W
  left : Session W → Outcome W
  going : Session W → Outcome W

-- The answers of the output stream: a number, and a `double` under `std::fixed` with a precision.
pub record Printer {ℓ} (W : Type ℓ) : Type ℓ where
  pub show_nat : ℕ → Text
  pub show_fixed : ℕ → W → Text

abbrev pub signal_text : Signal → Text
signal_text buy = codes "BUY"
signal_text sell = codes "SELL"
signal_text none_signal = codes "NONE"

abbrev pub header : Text
header =
    codes
      "timestamp_ms,event,best_bid,best_ask,mid_price,last_trade_price,last_trade_qty,vwap,sma,rsi,signal,signal_reason"

module _ {ℓ} {W : Type ℓ} where
  -- the fields with a comma behind them
  abbrev pub row_fields : Printer W → Entry W → List Text
  row_fields p e =
      p.show_nat e.time
      ∷ codes "trade"
      ∷ p.show_fixed 2 e.best_bid
      ∷ p.show_fixed 2 e.best_ask
      ∷ p.show_fixed 2 e.mid_price
      ∷ p.show_fixed 2 e.last_price
      ∷ p.show_fixed 6 e.last_qty
      ∷ p.show_fixed 2 e.vwap
      ∷ p.show_fixed 2 e.sma
      ∷ p.show_fixed 1 e.rsi
      ∷ signal_text e.signal
      ∷ []

  unfoldable pub row_text : Printer W → Entry W → Text
  row_text p e = each_comma (row_fields p e) ++ codes e.reason

  -- the lines of market_data.csv when everything is flushed
  pub csv_lines : Printer W → Session W → List Text
  csv_lines p s = header ∷ map (row_text p) s.rows
