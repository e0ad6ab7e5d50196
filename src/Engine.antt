-- ===== src/Engine.antt =====
-- `TradingEngine` (include/TradingEngine.h, src/TradingEngine.cpp). A method returns the engine that
-- it leaves, and the calls of the two callbacks are logged. `tick_buffer_`, which the methods use, is
-- declared nowhere (the header has a `tick_queue_`, whose `push` and `pop` take other arguments): its type
-- `B` and its two methods are parameters.
pub mod States
pub mod Ticks
mod Tests
use Prim.Native.String.{String}
use quant_sim_x.Prelude.{
  ℕ, zero, suc, add64, Bool, true, false, Option, none, some, List, [], ◌∷◌, ◌++◌, if◌then◌else◌,
}
use quant_sim_x.Prelude.Text.{Text}
use quant_sim_x.Double.{Double, nought}
use quant_sim_x.OrderBook.{OrderBook, get_best_bid, get_best_ask}
use quant_sim_x.Queues.TickBuffer.{Tick}
use quant_sim_x.Indicators
use quant_sim_x.Indicators.{Sample, VwapCalculator, add_price}
use quant_sim_x.Signals
use quant_sim_x.Signals.{Signal, is_signal, SignalGenerator}
use quant_sim_x.Backtester.{BacktestBar}
use quant_sim_x.Backtester.Csv.{load_csv}
use quant_sim_x.Backtester.Metrics
use quant_sim_x.Backtester.Metrics.{Backtester}
use quant_sim_x.Feed
use quant_sim_x.Feed.{Client, new_client, Dial}

pub data State : Type 0 where
  idle connecting connected stopped running_backtest : State

-- a call of `on_trade_callback_` or of `on_signal_callback_`
pub data Call {ℓ} (W : Type ℓ) : Type ℓ where
  on_trade : W → W → ℕ → Call W
  on_signal : Signal → String → Call W

-- The methods of `tick_buffer_`: `push`, whose result the engine ignores, and `pop`, which stores a tick
-- through its references where it returns true.
pub record TickStore {ℓ} (W : Type ℓ) (B : Type ℓ) : Type ℓ where
  pub push_tick : B → Tick W → Bool × B
  pub pop_tick : B → Bool × Option (Tick W) × B

-- `ws_client` is none for the null pointer. The two flags say whether a callback is set.
pub record Engine {ℓ} (W : Type ℓ) (B : Type ℓ) : Type ℓ where
  pub orderbook : OrderBook W
  pub vwap_calc : VwapCalculator W
  pub signal_gen : SignalGenerator W
  pub backtester : Backtester W
  pub ws_client : Option Client
  pub tick_buffer : B
  pub state : State
  pub should_stop : Bool
  pub collecting_data : Bool
  pub sample_count : ℕ
  pub has_on_trade : Bool
  pub has_on_signal : Bool
  pub calls : List (Call W)

abbrev pub is_connected_state : State → Bool
is_connected_state connected = true
is_connected_state _ = false

-- `IDLE` or `STOPPED`
abbrev pub is_at_rest : State → Bool
is_at_rest idle = true
is_at_rest stopped = true
is_at_rest _ = false

-- what the pointer holds after `if (ws_client_ && ws_client_->is_connected()) ws_client_->disconnect()`
abbrev pub drop_client : Option Client → Option Client
drop_client none = none
drop_client (some c) = some (if c.connected then Feed.disconnect c else c)

module _ {ℓ} {W : Type ℓ} {B : Type ℓ} where
  unfoldable pub start_data_collection : Engine W B → Engine W B
  start_data_collection e =
      if is_connected_state e.state then record e { collecting_data = true } else e

  unfoldable pub stop_data_collection : Engine W B → Engine W B
  stop_data_collection e = record e { collecting_data = false; state = stopped }

  unfoldable pub disconnect : Engine W B → Engine W B
  disconnect e = record e {
    collecting_data = false;
    ws_client = drop_client e.ws_client;
    state = idle;
  }

  abbrev pub is_connected : Engine W B → Bool
  is_connected e = elim e.ws_client [ none ↦ false | some c ↦ c.connected ]

  -- `dial` is how the library answers, and `opened` whether the connection opens within the second
  -- that the method sleeps. `none` is the end of the program: a null pointer, or `std::terminate`.
  unfoldable pub reconnect : Dial → Bool → Engine W B → Option (Engine W B)
  reconnect dial opened e =
      if is_at_rest e.state
      then elim e.ws_client [
        | none ↦ none
        | some c ↦ elim (Feed.connect dial c) [
          | none ↦ none
          | some c' ↦
              let c'' = if opened then Feed.on_open c' else c' in
              some (record e {
                ws_client = some c'';
                state = if c''.connected then connected else idle;
              })
        ]
      ]
      else some e

module _ {ℓ} {W : Type ℓ} {B : Type ℓ} ⦃d : Double W⦄ where
  unfoldable pub process_trade : TickStore W B → Engine W B → W → W → ℕ → Engine W B
  process_trade store e price qty timestamp =
      if e.collecting_data
      then record e {
        tick_buffer =
            (store.push_tick e.tick_buffer (record {
              timestamp_ms = timestamp;
              price = price;
              qty = qty;
              bid = get_best_bid e.orderbook;
              ask = get_best_ask e.orderbook;
            })).1;
      }
      else e

  -- `no_sample` stands for a read out of the array of samples.
  module _ (no_sample : Sample W) where
    unfoldable pub process_tick : Engine W B → W → W → ℕ → Engine W B
    process_tick e price qty timestamp =
        let vwap = Indicators.update no_sample (add_price e.vwap_calc timestamp price qty) in
        let (sig, gen) = Signals.update e.signal_gen timestamp price vwap.vwap vwap.rsi in
        let e' = record e {
          vwap_calc = vwap;
          signal_gen = gen;
          sample_count = add64 e.sample_count 1;
        } in
        if is_signal sig
        then if e.has_on_signal
          then record e' { calls = e.calls ++ on_signal sig gen.last_signal.reason ∷ [] }
          else e'
        else e'

    -- the body of the loop of `process_pending_ticks`
    unfoldable pub handle_tick : Engine W B → Tick W → Engine W B
    unfolding process_tick
    handle_tick e t =
        let e' = process_tick e t.price t.qty t.timestamp_ms in
        if e.has_on_trade
        then record e' { calls = e'.calls ++ on_trade t.price t.qty t.timestamp_ms ∷ [] }
        else e'

    -- `none` means that the fuel ran out.
    unfoldable pub process_pending_ticks : TickStore W B → ℕ → Engine W B → Option (Engine W B)
    unfolding handle_tick
    process_pending_ticks store zero e = none
    process_pending_ticks store (suc fuel) e =
        let (_, out, buffer) = store.pop_tick e.tick_buffer in
        elim out [
          | none ↦ some (record e { tick_buffer = buffer })
          | some t ↦
              process_pending_ticks store fuel (handle_tick (record e { tick_buffer = buffer }) t)
        ]

  abbrev pub run_over_bars : Engine W B → List (BacktestBar W) → Engine W B
  run_over_bars e [] = e
  run_over_bars e (_ ∷ _) = record e { backtester = Metrics.run e.backtester; state = connected }

  unfoldable pub run_backtest : Engine W B → Engine W B
  run_backtest e = run_over_bars e e.backtester.bars

  -- `lines` are the lines of market_data.csv, none if it does not open. Reading it is
  -- `load_market_data`; a failure is only printed.
  unfoldable pub initialize :
      (Text → Option ℕ) → (Text → Option W) → Option (List Text) → Engine W B → Engine W B
  initialize stoull? stod? lines e =
      let (_, bars) = load_csv stoull? stod? lines e.backtester.bars in
      record e { ws_client = some new_client; backtester = record (e.backtester) { bars = bars } }
